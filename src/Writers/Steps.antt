-- ===== src/Writers/Steps.antt =====
-- What one call of a process leaves as it was.
use agh_operating_systems.Prelude.{
  ℕ, suc, ◌+◌, ◌-◌, ◌≡◌, refl, sym, ap, ap₂, ◌∙◌, subst, List, [], ◌∷◌, ◌++◌, none, some, ltb,
  length, arith, append_assoc, append-nil, inl, inr, Bool-cases,
}
use mathlib.Core.Option.{some-injective}
use agh_operating_systems.CString.{Bytes}
use agh_operating_systems.Writers.Programs.{
  Call, show, lock, unlock, write_file, write_terminal, wait_child, remove,
}
use agh_operating_systems.Writers.Machine.{
  Role, parent, child, Machine, calls_of, with_calls, perform, advance, step, Run, begin, next,
}
use agh_operating_systems.Writers.Shape.{to_write}

-- What a call adds to the file.
abbrev entries : Role → Call → List (Role × Bytes)
entries r (write_file t) = (r, t) ∷ []
entries r _ = []

record Effect (r : Role) (c : Call) (m n : Machine) : Type 0 where
  same_parent : n.parent_calls ≡ m.parent_calls
  same_child : n.child_calls ≡ m.child_calls
  added : n.file ≡ m.file ++ entries r c

effect :
    {r : Role} {c : Call} {m : Machine} (x n : Machine)
    → Effect r c m x
    → some x ≡ some n
    → Effect r c m n
effect {r} {c} {m} x n h e = subst (Effect r c m) (some-injective _ _ e) h

-- A call that does not write to the file.
quiet :
    {r : Role} {c : Call} {m n : Machine} (x : Machine)
    → x.parent_calls ≡ m.parent_calls
    → x.child_calls ≡ m.child_calls
    → x.file ≡ m.file
    → entries r c ≡ []
    → some x ≡ some n
    → Effect r c m n
quiet {m = m} {n = n} x ep ec ef e h =
    effect x n
      (record {
        same_parent = ep;
        same_child = ec;
        added = ef ∙ sym (append-nil m.file) ∙ ap (λ y. m.file ++ y) (sym e);
      })
      h

wait_child-Effect :
    (r : Role) (left : List Call) (m n : Machine)
    → elim left [ [] ↦ some m | _ ∷ _ ↦ none ] ≡ some n
    → Effect r wait_child m n
wait_child-Effect r [] m n e = quiet m refl refl refl refl e
wait_child-Effect r (_ ∷ _) m n e = absurd (cc)

perform-Effect : (r : Role) (c : Call) (m n : Machine) → perform r c m ≡ some n → Effect r c m n
unfolding perform
perform-Effect r show m n e = quiet _ refl refl refl refl e
perform-Effect r lock m n e = elim (Bool-cases (ltb 0 m.sem)) [
  | inl f ↦ quiet (record m { sem = m.sem - 1 }) refl refl refl refl (rw f at e)
  | inr f ↦ absurd (ground arith)
]
perform-Effect r unlock m n e = quiet _ refl refl refl refl e
perform-Effect r (write_file t) m n e =
    effect _ n (record { same_parent = refl; same_child = refl; added = refl }) e
perform-Effect r (write_terminal t) m n e = quiet _ refl refl refl refl e
perform-Effect r wait_child m n e = wait_child-Effect r m.child_calls m n e
perform-Effect r remove m n e = quiet _ refl refl refl refl e

-- What a process has written, out of what both have.
unfoldable pub written : Role → List (Role × Bytes) → List Bytes
written r [] = []
written parent ((parent, t) ∷ rest) = t ∷ written parent rest
written parent ((child, t) ∷ rest) = written parent rest
written child ((parent, t) ∷ rest) = written child rest
written child ((child, t) ∷ rest) = t ∷ written child rest

written-append :
    (r : Role) (xs ys : List (Role × Bytes)) → written r (xs ++ ys) ≡ written r xs ++ written r ys
unfolding written
written-append parent [] ys = refl
written-append child [] ys = refl
written-append parent ((parent, t) ∷ xs) ys = ap (◌∷◌ t) (written-append parent xs ys)
written-append parent ((child, t) ∷ xs) ys = written-append parent xs ys
written-append child ((parent, t) ∷ xs) ys = written-append child xs ys
written-append child ((child, t) ∷ xs) ys = ap (◌∷◌ t) (written-append child xs ys)

-- The texts of a process, those written and those to come.
abbrev pub texts_of : Role → Machine → List Bytes
texts_of r m = written r m.file ++ to_write (calls_of r m)

own_entry :
    (r : Role) (c : Call) (rest : List Call)
    → written r (entries r c) ++ to_write rest ≡ to_write (c ∷ rest)
unfolding written
own_entry parent (write_file t) rest = refl
own_entry child (write_file t) rest = refl
own_entry parent _ rest = refl
own_entry child _ rest = refl

other_entry :
    (c : Call) → (written parent (entries child c) ≡ []) × (written child (entries parent c) ≡ [])
unfolding written
other_entry (write_file t) = (refl, refl)
other_entry _ = (refl, refl)

own_texts :
    (s : Role) (c : Call) (rest : List Call) (file : List (Role × Bytes))
    → written s (file ++ entries s c) ++ to_write rest ≡ written s file ++ to_write (c ∷ rest)
own_texts s c rest file =
    ap (λ x. x ++ to_write rest) (written-append s file (entries s c))
    ∙ append_assoc (written s file) (written s (entries s c)) (to_write rest)
    ∙ ap (λ x. written s file ++ x) (own_entry s c rest)

no_texts :
    (s r : Role) (c : Call) (file : List (Role × Bytes))
    → written s (entries r c) ≡ []
    → written s (file ++ entries r c) ≡ written s file
no_texts s r c file e =
    written-append s file (entries r c)
    ∙ ap (λ x. written s file ++ x) e
    ∙ append-nil (written s file)

private_texts :
    (s r : Role) (c : Call) (rest : List Call) (m n : Machine)
    → calls_of r m ≡ c ∷ rest
    → Effect r c (with_calls r rest m) n
    → texts_of s n ≡ texts_of s m
private_texts parent parent c rest m n q f =
    ap₂ (λ x y. written parent x ++ to_write y) f.added f.same_parent
    ∙ own_texts parent c rest m.file
    ∙ ap (λ x. written parent m.file ++ to_write x) (sym q)
private_texts parent child c rest m n q f =
    ap₂ (λ x y. written parent x ++ to_write y) f.added f.same_parent
    ∙ ap (λ x. x ++ to_write m.parent_calls) (no_texts parent child c m.file (other_entry c).0)
private_texts child parent c rest m n q f =
    ap₂ (λ x y. written child x ++ to_write y) f.added f.same_child
    ∙ ap (λ x. x ++ to_write m.child_calls) (no_texts child parent c m.file (other_entry c).1)
private_texts child child c rest m n q f =
    ap₂ (λ x y. written child x ++ to_write y) f.added f.same_child
    ∙ own_texts child c rest m.file
    ∙ ap (λ x. written child m.file ++ to_write x) (sym q)

abbrev pub num_left : Machine → ℕ
num_left m = length m.parent_calls + length m.child_calls

fewer :
    (r : Role) (c : Call) (rest : List Call) (m n : Machine)
    → calls_of r m ≡ c ∷ rest
    → Effect r c (with_calls r rest m) n
    → suc (num_left n) ≡ num_left m
fewer parent c rest m n q f =
    omega (arith, ap length q, ap length f.same_parent, ap length f.same_child)
fewer child c rest m n q f =
    omega (arith, ap length q, ap length f.same_parent, ap length f.same_child)

advance-kept :
    (r : Role) (calls : List Call) (m n : Machine)
    → calls_of r m ≡ calls
    → advance r calls m ≡ some n
    → ((s : Role) → texts_of s n ≡ texts_of s m) × (suc (num_left n) ≡ num_left m)
unfolding advance
advance-kept r [] m n q e = absurd (cc)
advance-kept r (c ∷ rest) m n q e =
    let f = perform-Effect r c (with_calls r rest m) n e in
    ((λ s. private_texts s r c rest m n q f), fewer r c rest m n q f)

module _ {from : Machine} where
  -- No text is lost, changed or put out of the order of its process.
  pub Run-texts : {k : ℕ} {m : Machine} (s : Role) → Run from k m → texts_of s m ≡ texts_of s from
  unfolding step
  Run-texts s begin = refl
  Run-texts s (next {m = m} {n = n} r run e) =
      (advance-kept r (calls_of r m) m n refl e).0 s ∙ Run-texts s run

  pub Run-left : {k : ℕ} {m : Machine} → Run from k m → k + num_left m ≡ num_left from
  unfolding step
  Run-left begin = omega arith
  Run-left (next {k = k} {m = m} {n = n} r run e) =
      omega (arith, (advance-kept r (calls_of r m) m n refl e).1, Run-left run)
