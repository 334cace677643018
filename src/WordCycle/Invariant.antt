-- ===== src/WordCycle/Invariant.antt =====
-- What holds between two statements of Funkcje/Mutex/zad1.c.
use agh_operating_systems.Prelude.{
  ℕ, zero, suc, ◌+◌, ◌*◌, ◌%◌, ◌≤◌, ◌<◌, ◌≡◌, refl, sym, ap, ap₂, ◌∙◌, subst, List, [], ◌∷◌, ◌++◌,
  Option, some, ◌==◌, leb, get_elem?, set, length, length-append, length-set, arith, inl, inr,
  Bool-cases, Option-cases, total, total-set, total-le, total-replicate, total_mono,
  length-replicate,
}
use mathlib.Core.Option.{some-injective}
use agh_operating_systems.CString.{Bytes}
use agh_operating_systems.WordCycle.System.{
  l_slow, slownik, Pc, locking, printing, wrapping, unlocking, sleeping, System, init, at_thread,
  fun_watka, step, Run, start, next,
}

-- The first words of the dictionary, which begins anew behind its last.
unfoldable pub cyclic : ℕ → List (Option Bytes)
cyclic zero = []
cyclic (suc k) = cyclic k ++ get_elem? slownik (k % l_slow) ∷ []

length-cyclic : (k : ℕ) → length (cyclic k) ≡ k
unfolding cyclic
length-cyclic zero = refl
length-cyclic (suc k) =
    omega (arith, length-append (cyclic k) (get_elem? slownik (k % l_slow) ∷ []), length-cyclic k)

-- A thread between lock and unlock.
abbrev pub holds : Pc → ℕ
holds printing = 1
holds wrapping = 1
holds unlocking = 1
holds _ = 0

abbrev wraps : Pc → ℕ
wraps wrapping = 1
wraps _ = 0

wraps-le : (c : Pc) → wraps c ≤ holds c
wraps-le printing = omega arith
wraps-le wrapping = omega arith
wraps-le unlocking = omega arith
wraps-le _ = omega arith

-- A thread that has not printed.
abbrev pub silent : Pc → ℕ
silent locking = 1
silent printing = 1
silent _ = 0

-- The statements that a thread has before it.
abbrev pub left : Pc → ℕ
left locking = 4
left printing = 3
left wrapping = 2
left unlocking = 1
left sleeping = 0

pub record Inv (n k : ℕ) (s : System) : Type 0 where
  slots : length s.threads ≡ n
  pub locked : s.mutex + total holds s.threads ≡ 1
  pub quiet : length s.printed + total silent s.threads ≡ n
  pub steps : k + total left s.threads ≡ 4 * n
  bound : s.nr < 8 + total wraps s.threads
  rounds : ℕ
  turned : s.nr + 8 * rounds ≡ length s.printed
  pub words : s.printed ≡ cyclic (length s.printed)

start-Inv : (n : ℕ) → Inv n 0 (init n)
unfolding init cyclic
start-Inv n = record {
  slots = length-replicate n locking;
  locked = omega (arith, total-replicate holds n locking);
  quiet = omega (arith, total-replicate silent n locking);
  steps = omega (arith, total-replicate left n locking);
  bound = omega arith;
  rounds = 0;
  turned = omega arith;
  words = refl;
}

module _ {n k : ℕ} {s : System} (v : Inv n k s) (i : ℕ) (c c' : Pc)
    (g : get_elem? s.threads i ≡ some c) where
  -- While one thread holds the mutex, no other is behind its `printf`.
  alone : holds c ≡ 1 → wraps c ≡ 0 → total wraps s.threads ≡ 0
  alone e f = omega (
    arith,
    v.locked,
    total-set holds s.threads i c sleeping g,
    total-set wraps s.threads i c sleeping g,
    total_mono wraps holds wraps-le (set s.threads i sleeping),
  )

  -- A statement that does not print.
  moved-Inv :
      (nr mutex rounds : ℕ)
      → mutex + holds c' ≡ s.mutex + holds c
      → silent c' ≡ silent c
      → suc (left c') ≡ left c
      → nr + wraps c < 8 + total wraps s.threads + wraps c'
      → nr + 8 * rounds ≡ length s.printed
      → Inv n (suc k) (record (at_thread i c' s) { nr = nr; mutex = mutex })
  moved-Inv nr mutex rounds eh es el lt t = record {
    slots = length-set s.threads i c' ∙ v.slots;
    locked = omega (arith, v.locked, total-set holds s.threads i c c' g);
    quiet = omega (arith, v.quiet, total-set silent s.threads i c c' g);
    steps = omega (arith, v.steps, total-set left s.threads i c c' g);
    bound = omega (arith, total-set wraps s.threads i c c' g);
    rounds = rounds;
    turned = t;
    words = v.words;
  }

next-word : (k nr rounds : ℕ) → nr < 8 → nr + 8 * rounds ≡ k → nr ≡ k % l_slow
next-word k nr rounds lt e = omega arith

module _ {n k : ℕ} {s : System} (v : Inv n k s) (i : ℕ) where
  printed-Inv :
      get_elem? s.threads i ≡ some printing
      → Inv n (suc k) (record (at_thread i wrapping s) {
        printed = s.printed ++ get_elem? slownik s.nr ∷ [];
        nr = s.nr + 1;
      })
  unfolding cyclic
  printed-Inv g =
      let w = alone v i printing wrapping g refl refl in
      let more = length-append s.printed (get_elem? slownik s.nr ∷ []) in
      let one : length (s.printed ++ get_elem? slownik s.nr ∷ []) ≡ suc (length s.printed) =
        omega (arith, more) in
      record {
        slots = length-set s.threads i wrapping ∙ v.slots;
        locked = omega (arith, v.locked, total-set holds s.threads i printing wrapping g);
        quiet = omega (arith, v.quiet, one, total-set silent s.threads i printing wrapping g);
        steps = omega (arith, v.steps, total-set left s.threads i printing wrapping g);
        bound = omega (arith, v.bound, w, total-set wraps s.threads i printing wrapping g);
        rounds = v.rounds;
        turned = omega (arith, v.turned, one);
        words =
            ap₂ (λ x m. x ++ get_elem? slownik m ∷ []) v.words
              (next-word (length s.printed) s.nr v.rounds (omega (arith, v.bound, w)) v.turned)
            ∙ ap cyclic (sym one);
      }

  fun_watka-Inv :
      (c : Pc) (t : System)
      → get_elem? s.threads i ≡ some c
      → fun_watka i c s ≡ some t
      → Inv n (suc k) t
  unfolding fun_watka
  fun_watka-Inv locking t g e = elim (Bool-cases (s.mutex == 1)) [
    | inl f ↦ subst (Inv n (suc k)) (some-injective _ _ (simp f at e)) (
        moved-Inv v i locking printing g s.nr 0 v.rounds (ground arith) refl refl
          (omega (arith, v.bound)) v.turned)
    | inr f ↦ absurd (ground arith)
  ]
  fun_watka-Inv printing t g e = subst (Inv n (suc k)) (some-injective _ _ e) (printed-Inv g)
  fun_watka-Inv wrapping t g e =
      let le = total-le wraps s.threads i wrapping g in
      let few = total_mono wraps holds wraps-le s.threads in
      subst (Inv n (suc k)) (some-injective _ _ e) (elim (Bool-cases (leb l_slow s.nr)) [
        | inl f ↦ simp f (
            moved-Inv v i wrapping unlocking g 0 s.mutex (v.rounds + 1) refl refl refl
              (omega (arith, le)) (ground (arith, v.turned, v.bound, v.locked, few)))
        | inr f ↦ simp f (
            moved-Inv v i wrapping unlocking g s.nr s.mutex v.rounds refl refl refl
              (ground (arith, le)) v.turned)
      ])
  fun_watka-Inv unlocking t g e = subst (Inv n (suc k)) (some-injective _ _ e) (
      moved-Inv v i unlocking sleeping g s.nr 1 v.rounds
        (omega (arith, v.locked, total-le holds s.threads i unlocking g)) refl refl
        (omega (arith, v.bound)) v.turned)
  fun_watka-Inv sleeping t g e = absurd (cc)

step-Inv :
    {n k : ℕ} {s : System} (v : Inv n k s) (i : ℕ) (t : System)
    → step i s ≡ some t
    → Inv n (suc k) t
unfolding step
step-Inv {s = s} v i t e = elim (Option-cases (get_elem? s.threads i)) [
  | inl g ↦ absurd (ground arith)
  | inr (c, g) ↦ fun_watka-Inv v i c t g (rw (g, step) at e)
]

pub Run-Inv : {n k : ℕ} {s : System} → Run n k s → Inv n k s
Run-Inv {n} start = start-Inv n
Run-Inv (next {t = t} i r e) = step-Inv (Run-Inv r) i t e
