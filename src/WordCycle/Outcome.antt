-- ===== src/WordCycle/Outcome.antt =====
-- What the threads of Funkcje/Mutex/zad1.c print together.
use agh_operating_systems.Prelude.{
  ℕ, ◌*◌, ◌≤◌, ◌<◌, ◌≡◌, refl, ap, ◌∙◌, some, ◌==◌, get_elem?, length, arith, inl, inr, Bool-cases,
  ◌⊎◌, total_mono, total-pos,
}
use agh_operating_systems.WordCycle.System.{
  Pc, locking, printing, wrapping, unlocking, sleeping, System, at_thread, fun_watka, step, Run,
}
use agh_operating_systems.WordCycle.Invariant.{cyclic, holds, silent, left, Run-Inv}

-- In every state that `n` threads reach, in any order of their statements, what has been printed are the first words of
-- the dictionary in their order, with the first again behind the last, and at most `n` of them.
pub Run-cyclic :
    {n k : ℕ} {s : System}
    → Run n k s
    → (s.printed ≡ cyclic (length s.printed)) × (length s.printed ≤ n)
Run-cyclic r = ((Run-Inv r).words, omega (arith, (Run-Inv r).quiet))

silent-le : (c : Pc) → silent c ≤ left c
silent-le locking = omega arith
silent-le printing = omega arith
silent-le _ = omega arith

-- A run of `n` threads has at most 4 n statements, and once it has as many, `n` words are printed.
pub Run-ends : {n : ℕ} {s : System} → Run n (4 * n) s → s.printed ≡ cyclic n
Run-ends r =
    let v = Run-Inv r in
    v.words ∙ ap cyclic (omega (arith, v.quiet, v.steps, total_mono silent left silent-le _))

holds-le : (c : Pc) → holds c ≤ left c
holds-le printing = omega arith
holds-le wrapping = omega arith
holds-le unlocking = omega arith
holds-le _ = omega arith

-- A thread that holds the mutex, or that could take it, goes on.
fun_watka-some :
    (s : System) (i : ℕ) (c : Pc)
    → 0 < left c
    → (0 < holds c) ⊎ (s.mutex ≡ 1)
    → (t : System) × (fun_watka i c s ≡ some t)
unfolding fun_watka
fun_watka-some s i locking lt (inl h) = absurd (omega arith)
fun_watka-some s i locking lt (inr h) = (record (at_thread i printing s) { mutex = 0 }, simp h)
fun_watka-some s i printing lt h = (_, refl)
fun_watka-some s i wrapping lt h = (_, refl)
fun_watka-some s i unlocking lt h = (_, refl)
fun_watka-some s i sleeping lt h = absurd (omega arith)

step_at :
    (s : System) (i : ℕ) (c : Pc) → get_elem? s.threads i ≡ some c → step i s ≡ fun_watka i c s
unfolding step
step_at s i c g = rw (g, step) refl

moves :
    (s : System) (i : ℕ) (c : Pc)
    → get_elem? s.threads i ≡ some c
    → 0 < left c
    → (0 < holds c) ⊎ (s.mutex ≡ 1)
    → (i : ℕ) × (t : System) × (step i s ≡ some t)
moves s i c g lt h = let (t, e) = fun_watka-some s i c lt h in (i, t, step_at s i c g ∙ e)

-- No deadlock: while `n` threads have made fewer than 4 n statements together, whatever their order, one of them can make
-- its next statement.
pub Run-continues :
    {n k : ℕ} {s : System} → Run n k s → k < 4 * n → (i : ℕ) × (t : System) × (step i s ≡ some t)
Run-continues {n} {k} {s} r lt =
    let v = Run-Inv r in
    elim (Bool-cases (s.mutex == 1)) [
      | inl e ↦
          let (i, c, g, h) = total-pos left s.threads (omega (arith, v.steps)) in
          moves s i c g h (inr (ground arith))
      | inr e ↦
          let (i, c, g, h) = total-pos holds s.threads (ground (arith, v.locked)) in
          moves s i c g (omega (arith, holds-le c)) (inl h)
    ]
