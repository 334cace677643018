-- ===== src/Writers/Invariant.antt =====
-- What holds between two calls of the processes.
use agh_operating_systems.Prelude.{
  ℕ, ◌+◌, ◌-◌, ◌≡◌, refl, sym, ap, ap₂, ◌∙◌, subst, Bool, true, List, [], ◌∷◌, ◌++◌, Option, none,
  some, ltb, arith, append-nil, inl, inr, Bool-cases,
}
use mathlib.Core.Option.{some-injective}
use agh_operating_systems.CString.{Bytes}
use agh_operating_systems.Writers.Programs.{
  Call, show, lock, unlock, write_file, write_terminal, wait_child, remove,
}
use agh_operating_systems.Writers.Machine.{
  Role, parent, child, pick, Output, line, sem_value, lines, Machine, calls_of, with_calls, perform,
  advance, step, fresh, Run, begin, next,
}
use agh_operating_systems.Writers.Shape.{Mode, outside, inside, half, Shape}

abbrev pub holds : Mode → ℕ
holds outside = 0
holds _ = 1

pub record Modes : Type 0 where
  pub of_parent : Mode
  pub of_child : Mode

abbrev pub mode_of : Role → Modes → Mode
mode_of r d = pick r d.of_parent d.of_child

abbrev with_mode : Role → Mode → Modes → Modes
with_mode r md d = record { of_parent = pick r md d.of_parent; of_child = pick r d.of_child md }

-- What the file has and the terminal not yet.
abbrev pub owed : Role → Mode → List (Role × Bytes)
owed r (half t) = (r, t) ∷ []
owed r _ = []

abbrev pub pending : Modes → List (Role × Bytes)
pending d = owed parent d.of_parent ++ owed child d.of_child

pub record Inv (d : Modes) (m : Machine) : Type 0 where
  pub shape : (r : Role) → Shape r (calls_of r m) (mode_of r d)
  pub locked : m.sem + holds d.of_parent + holds d.of_child ≡ 1
  pub echoed : m.file ≡ lines m.terminal ++ pending d

free-owed : (r : Role) (md : Mode) → holds md ≡ 0 → owed r md ≡ []
free-owed r outside e = refl
free-owed r inside e = refl
free-owed r (half t) e = absurd (omega arith)

lines-append : (xs ys : List Output) → lines (xs ++ ys) ≡ lines xs ++ lines ys
unfolding lines
lines-append [] ys = refl
lines-append (line r t ∷ xs) ys = ap (◌∷◌ (r, t)) (lines-append xs ys)
lines-append (sem_value n ∷ xs) ys = lines-append xs ys

shown_value : (m : Machine) → lines (m.terminal ++ sem_value m.sem ∷ []) ≡ lines m.terminal
unfolding lines
shown_value m = lines-append m.terminal (sem_value m.sem ∷ []) ∙ append-nil (lines m.terminal)

-- A process comes from one mode to another, with `rest` to do.
module _ {d : Modes} {m : Machine} (v : Inv d m) where
  moved-Shape :
      (r : Role) (rest : List Call) (md : Mode)
      → Shape r rest md
      → (s : Role) → Shape s (calls_of s (with_calls r rest m)) (mode_of s (with_mode r md d))
  moved-Shape parent rest md h parent = h
  moved-Shape parent rest md h child = v.shape child
  moved-Shape child rest md h parent = v.shape parent
  moved-Shape child rest md h child = h

  moved-locked :
      (r : Role) (md : Mode) (sem : ℕ)
      → sem + holds md ≡ m.sem + holds (mode_of r d)
      → sem + holds (with_mode r md d).of_parent + holds (with_mode r md d).of_child ≡ 1
  moved-locked parent md sem e = omega (arith, v.locked)
  moved-locked child md sem e = omega (arith, v.locked)

  -- A process that holds the semaphore is alone.
  alone : (r : Role) (md : Mode) → holds (mode_of r d) ≡ 1 → pending (with_mode r md d) ≡ owed r md
  alone parent md e =
      ap (λ x. owed parent md ++ x) (free-owed child d.of_child (omega (arith, v.locked)))
      ∙ append-nil (owed parent md)
  alone child md e =
      ap (λ x. x ++ owed child md) (free-owed parent d.of_parent (omega (arith, v.locked)))

  all_owed : (r : Role) → holds (mode_of r d) ≡ 1 → pending d ≡ owed r (mode_of r d)
  all_owed parent e = alone parent d.of_parent e
  all_owed child e = alone child d.of_child e

unchanged :
    (r : Role) (md : Mode) (d : Modes)
    → owed r md ≡ owed r (mode_of r d)
    → pending (with_mode r md d) ≡ pending d
unchanged parent md d e = ap (λ x. x ++ owed child d.of_child) e
unchanged child md d e = ap (λ x. owed parent d.of_parent ++ x) e

module _ {d : Modes} {m : Machine} (v : Inv d m) (r : Role) (rest : List Call) where
  -- The effect of a call on the whole.
  made-Inv :
      (md : Mode) (sem : ℕ) (removed : Bool) (file : List (Role × Bytes)) (terminal : List Output)
      → Shape r rest md
      → sem + holds md ≡ m.sem + holds (mode_of r d)
      → file ≡ lines terminal ++ pending (with_mode r md d)
      → Inv (with_mode r md d) (record (with_calls r rest m) {
        sem = sem;
        removed = removed;
        file = file;
        terminal = terminal;
      })
  made-Inv md sem removed file terminal h e f = record {
    shape = λ s.
        elim s
          as (λ x.
            Shape x (pick x (pick r rest m.parent_calls) (pick r m.child_calls rest))
              (pick x (pick r md d.of_parent) (pick r d.of_child md))) [
                | parent ↦ moved-Shape v r rest md h parent
                | child ↦ moved-Shape v r rest md h child
              ];
    locked = moved-locked v r md sem e;
    echoed = f;
  }

  -- Nothing is written.
  silent-Inv :
      (md : Mode) (sem : ℕ) (removed : Bool) (terminal : List Output)
      → lines terminal ≡ lines m.terminal
      → Shape r rest md
      → sem + holds md ≡ m.sem + holds (mode_of r d)
      → owed r md ≡ owed r (mode_of r d)
      → Inv (with_mode r md d) (record (with_calls r rest m) {
        sem = sem;
        removed = removed;
        file = m.file;
        terminal = terminal;
      })
  silent-Inv md sem removed terminal l h e q =
      made-Inv md sem removed m.file terminal h e
        (v.echoed ∙ ap₂ (λ x y. x ++ y) (sym l) (sym (unchanged r md d q)))

  written-echoed :
      (t : Bytes)
      → mode_of r d ≡ inside
      → m.file ++ (r, t) ∷ [] ≡ lines m.terminal ++ pending (with_mode r (half t) d)
  written-echoed t q =
      ap (λ x. x ++ (r, t) ∷ [])
        (v.echoed
          ∙ ap (λ x. lines m.terminal ++ x) (all_owed v r (ap holds q) ∙ ap (owed r) q)
          ∙ append-nil (lines m.terminal))
      ∙ ap (λ x. lines m.terminal ++ x) (sym (alone v r (half t) (ap holds q)))

  terminal-echoed :
      (t t' : Bytes)
      → t ≡ t'
      → mode_of r d ≡ half t'
      → m.file ≡ lines (m.terminal ++ line r t ∷ []) ++ pending (with_mode r inside d)
  unfolding lines
  terminal-echoed t t' e q =
      v.echoed
      ∙ ap (λ x. lines m.terminal ++ x)
          (all_owed v r (ap holds q) ∙ ap (owed r) (q ∙ ap half (sym e)))
      ∙ sym (append-nil (lines m.terminal ++ (r, t) ∷ []))
      ∙ ap₂ (λ x y. x ++ y) (sym (lines-append m.terminal (line r t ∷ [])))
          (sym (alone v r inside (ap holds q)))

-- What a call makes of the state in which it is the next one.
After : Option Machine → Type 0
After x = (n : Machine) → x ≡ some n → (d : Modes) × Inv d n

after : (d : Modes) (x : Machine) → Inv d x → After (some x)
unfolding After
after d x v n e = (d, subst (Inv d) (some-injective _ _ e) v)

waited :
    (x : List Call) (d : Modes) (m : Machine)
    → Inv d m
    → After (elim x [ [] ↦ some m | _ ∷ _ ↦ none ])
unfolding After
waited [] d m v = after d m v
waited (_ ∷ _) d m v = λ n e. absurd (cc)

perform-After :
    {d : Modes} {m : Machine} (v : Inv d m) (r : Role) (c : Call) (rest : List Call) (md : Mode)
    → mode_of r d ≡ md
    → Shape r (c ∷ rest) md
    → After (perform r c (with_calls r rest m))
unfolding perform After lines
perform-After {d} {m} v r show rest md q h = after _ _ (
    silent-Inv v r rest md m.sem m.removed _ (shown_value m) h (ap (λ x. m.sem + holds x) (sym q))
      (ap (owed r) (sym q)))
perform-After {d} {m} v r lock rest outside q h = elim (Bool-cases (ltb 0 m.sem)) [
  | inl e ↦ rw e (
      after _ _ (
        silent-Inv v r rest inside (m.sem - 1) m.removed m.terminal refl h
          (ground (arith, ap holds q)) (ap (owed r) (sym q))))
  | inr e ↦ λ n f. absurd (ground arith)
]
perform-After {d} {m} v r unlock rest inside q h = after _ _ (
    silent-Inv v r rest outside (m.sem + 1) m.removed m.terminal refl h (omega (arith, ap holds q))
      (ap (owed r) (sym q)))
perform-After {d} {m} v r (write_file t) rest inside q h = after _ _ (
    made-Inv v r rest (half t) m.sem m.removed _ m.terminal h (omega (arith, ap holds q))
      (written-echoed v r rest t q))
perform-After {d} {m} v r (write_terminal t) rest (half t') q h = after _ _ (
    made-Inv v r rest inside m.sem m.removed m.file _ h.1 (omega (arith, ap holds q))
      (terminal-echoed v r rest t t' h.0 q))
perform-After {d} {m} v r wait_child rest outside q h = waited (pick r m.child_calls rest) _ _ (
    silent-Inv v r rest outside m.sem m.removed m.terminal refl h.1
      (ap (λ x. m.sem + holds x) (sym q)) (ap (owed r) (sym q)))
perform-After {d} {m} v r remove rest outside q h = after _ _ (
    silent-Inv v r rest outside m.sem true m.terminal refl h (ap (λ x. m.sem + holds x) (sym q))
      (ap (owed r) (sym q)))
perform-After {d} {m} v r _ rest _ q h = absurd h

-- The two programs start outside.
pub fresh-Inv :
    (terminal : List Output) (p c : List Call)
    → lines terminal ≡ []
    → Shape parent p outside
    → Shape child c outside
    → Inv (record { of_parent = outside; of_child = outside }) (fresh terminal p c)
fresh-Inv terminal p c e hp hc = record {
  shape = λ r. elim r as (λ x. Shape x (pick x p c) (pick x outside outside)) [
    | parent ↦ hp
    | child ↦ hc
  ];
  locked = refl;
  echoed = ap (λ x. x ++ []) (sym e);
}

advance-After :
    {d : Modes} {m : Machine} (v : Inv d m) (r : Role) (calls : List Call)
    → calls_of r m ≡ calls
    → After (advance r calls m)
unfolding advance After
advance-After v r [] q = λ n e. absurd (cc)
advance-After {d} v r (c ∷ rest) q =
    perform-After v r c rest (mode_of r d) refl (subst (λ x. Shape r x (mode_of r d)) q (v.shape r))

pub Run-Inv :
    {from m : Machine} {d : Modes} {k : ℕ} → Inv d from → Run from k m → (d' : Modes) × Inv d' m
unfolding step After
Run-Inv {d = d} v begin = (d, v)
Run-Inv v (next {m = m} {n = n} r run e) = advance-After (Run-Inv v run).1 r (calls_of r m) refl n e
