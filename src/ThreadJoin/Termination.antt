-- ===== src/ThreadJoin/Termination.antt =====
-- Every run of Funkcje/Mutex/main.c ends.
use agh_operating_systems.Prelude.{
  ℕ, suc, ◌+◌, ◌*◌, ◌≤◌, ◌<◌, ◌≡◌, refl, List, some, ◌==◌, ltb, length, get_elem?, set, arith, ap,
  subst, inl, inr, Bool-cases, Option-cases, total, total-set, total-replicate, get_elem?_of_lt,
}
use mathlib.Core.Option.{some-injective}
use agh_operating_systems.ThreadJoin.System.{
  ts_alive, ts_terminated, ThreadPc, unborn, sleeping, counting, marking, unlocking, signalling,
  returned, reaped, Slot, MainPc, creating, outer, locking, inner, waiting, woken, joining,
  releasing, exited, System, init, wake, thread_func, join_all, main_func, return_early, Event,
  thread_runs, main_runs, spurious, step, Run, start, next,
}
use agh_operating_systems.ThreadJoin.Invariant.{Inv, main_holds, Born, Awaited, owes, weigh}
use agh_operating_systems.ThreadJoin.Joining.{work, join_all-AllJoined}
use agh_operating_systems.ThreadJoin.Main.{Run-Inv}

-- What is left to do for `main` in its round.
abbrev left : MainPc → ℕ
left (creating idx) = 6
left outer = 4
left locking = 3
left inner = 2
left joining = 1
left waiting = 1
left woken = 3
left releasing = 5
left exited = 0

abbrev pub potential : System → ℕ
potential s = total (weigh work) s.threads + left s.main

left-wake : (m : MainPc) → left (wake m) ≤ left m + 2
left-wake waiting = omega arith
left-wake (creating idx) = omega arith
left-wake _ = omega arith

module _ {n : ℕ} (s : System) (v : Inv n s) where
  reached : (x t : System) → some x ≡ some t → potential x < potential s → potential t < potential s
  reached x t h = subst (λ y. potential y < potential s) (some-injective _ _ h)

  -- Thread `i` goes on to `c'`, and `main` to `m'`.
  slot-lt :
      (i : ℕ) (c c' : Slot) (p : ThreadPc) (m' : MainPc)
      → get_elem? s.threads i ≡ some c
      → c.pc ≡ p
      → work c'.pc + left m' < work p + left s.main
      → total (weigh work) (set s.threads i c') + left m' < potential s
  slot-lt i c c' p m' g e lt = omega (arith, total-set (weigh work) s.threads i c c' g, ap work e)

  thread_func-lt :
      (i : ℕ) (c : Slot) (p : ThreadPc) (t : System)
      → get_elem? s.threads i ≡ some c
      → c.pc ≡ p
      → thread_func i c p s ≡ some t
      → potential t < potential s
  unfolding thread_func
  thread_func-lt i c unborn t g e h = absurd (cc)
  thread_func-lt i c sleeping t g e h = elim (Bool-cases (s.mutex == 1)) [
    | inl f ↦
        reached _ t (rw f at h)
          (slot-lt i c (record c { pc = counting }) sleeping s.main g e (omega arith))
    | inr f ↦ absurd (ground arith)
  ]
  thread_func-lt i c counting t g e h =
      reached _ t h (slot-lt i c (record c { pc = marking }) counting s.main g e (omega arith))
  thread_func-lt i c marking t g e h = reached _ t h (
      slot-lt i c (record { state = ts_terminated; pc = unlocking }) marking s.main g e
        (omega arith))
  thread_func-lt i c unlocking t g e h =
      reached _ t h (slot-lt i c (record c { pc = signalling }) unlocking s.main g e (omega arith))
  thread_func-lt i c signalling t g e h = reached _ t h (
      slot-lt i c (record c { pc = returned }) signalling (wake s.main) g e
        (omega (arith, left-wake s.main)))
  thread_func-lt i c returned t g e h = absurd (cc)
  thread_func-lt i c reaped t g e h = absurd (cc)

  -- `main` alone moves.
  main-lt :
      (m m' : MainPc) (t : System)
      → s.main ≡ m
      → left m' < left m
      → total (weigh work) s.threads + left m' < potential s
  main-lt m m' t e lt = omega (arith, ap left e)

  created-lt :
      (idx : ℕ)
      → s.main ≡ creating idx
      → idx < length s.threads
      → total (weigh work) (set s.threads idx (record { state = ts_alive; pc = sleeping })) + 6
        < potential s
  created-lt idx e lt =
      let (c, g) = get_elem?_of_lt s.threads idx lt in
      let b : Born (creating idx) idx c.pc = subst (λ x. Born x idx c.pc) e (v.born idx c g) in
      slot-lt idx c (record { state = ts_alive; pc = sleeping }) unborn (creating (suc idx)) g
        (b.0 (omega arith)) (omega (arith, ap left e))

  joined-lt :
      (rest : List Slot) (k : ℕ)
      → s.main ≡ joining
      → join_all s.threads ≡ some (rest, k)
      → total (weigh work) rest + 5 < potential s
  joined-lt rest k e h =
      let a =
        join_all-AllJoined s.threads rest k v.marked (omega (arith, v.locked, ap main_holds e)) h in
      let pos : 0 < s.num_unjoined =
        subst (λ x. Awaited x s.num_unjoined (total (weigh owes) s.threads)) e v.awaited in
      omega (arith, a.paid, a.counted, v.counted, ap left e)

  main_func-lt :
      (m : MainPc) (t : System) → s.main ≡ m → main_func m s ≡ some t → potential t < potential s
  unfolding main_func
  main_func-lt (creating idx) t e h = elim (Bool-cases (ltb idx (length s.threads))) [
    | inl f ↦ reached _ t (rw f at h) (created-lt idx e (ground arith))
    | inr f ↦ reached _ t (rw f at h) (main-lt (creating idx) outer t e (omega arith))
  ]
  main_func-lt outer t e h = elim (Bool-cases (ltb 0 s.num_live)) [
    | inl f ↦ reached _ t (rw f at h) (main-lt outer locking t e (omega arith))
    | inr f ↦ reached _ t (rw f at h) (main-lt outer exited t e (omega arith))
  ]
  main_func-lt locking t e h = elim (Bool-cases (s.mutex == 1)) [
    | inl f ↦ reached _ t (rw f at h) (main-lt locking inner t e (omega arith))
    | inr f ↦ absurd (ground arith)
  ]
  main_func-lt inner t e h = elim (Bool-cases (s.num_unjoined == 0)) [
    | inl f ↦ reached _ t (rw f at h) (main-lt inner waiting t e (omega arith))
    | inr f ↦ reached _ t (rw f at h) (main-lt inner joining t e (omega arith))
  ]
  main_func-lt waiting t e h = absurd (cc)
  main_func-lt woken t e h = elim (Bool-cases (s.mutex == 1)) [
    | inl f ↦ reached _ t (rw f at h) (main-lt woken inner t e (omega arith))
    | inr f ↦ absurd (ground arith)
  ]
  main_func-lt joining t e h = elim (Option-cases (join_all s.threads)) [
    | inl f ↦ absurd (ground arith)
    | inr ((rest, k), f) ↦ reached _ t (rw (f, main_func) at h) (joined-lt rest k e f)
  ]
  main_func-lt releasing t e h = reached _ t h (main-lt releasing outer t e (omega arith))
  main_func-lt exited t e h = absurd (cc)

-- What an event adds to the number of steps that a run can have.
abbrev pub extra : Event → ℕ
extra spurious = 3
extra _ = 0

return_early-le :
    (m : MainPc) (s t : System)
    → s.main ≡ m
    → return_early m s ≡ some t
    → suc (potential t) ≤ potential s + 3
unfolding return_early
return_early-le waiting s t e h =
    subst (λ y. suc (potential y) ≤ potential s + 3) (some-injective _ _ h)
      (omega (arith, ap left e))
return_early-le m s t e h = absurd (cc)

step-le :
    {n : ℕ} (e : Event) (s t : System)
    → Inv n s
    → step e s ≡ some t
    → suc (potential t) ≤ potential s + extra e
unfolding step
step-le (thread_runs i) s t v h = elim (Option-cases (get_elem? s.threads i)) [
  | inl g ↦ absurd (ground arith)
  | inr (c, g) ↦ omega (arith, thread_func-lt s v i c c.pc t g refl (rw (g, step) at h))
]
step-le main_runs s t v h = omega (arith, main_func-lt s v s.main t refl h)
step-le spurious s t v h = return_early-le s.main s t refl h

init-potential : (n : ℕ) → potential (init n) ≡ 13 * n + 6
unfolding init
init-potential n =
    omega (arith, total-replicate (weigh work) n (record { state = ts_alive; pc = unborn }))

Run-potential :
    {n : ℕ} {es : List Event} {s : System}
    → Run n es s
    → length es + potential s ≤ 13 * n + 6 + total extra es
unfolding total
Run-potential {n} start = omega (arith, init-potential n)
Run-potential (next {s = s} {t = t} e r h) =
    omega (arith, Run-potential r, step-le e s t (Run-Inv r) h)

-- Every run ends: with `n` threads, it has at most 13 n + 6 events, and three more for each spurious return of
-- `pthread_cond_wait`.
pub Run-length :
    {n : ℕ} {es : List Event} {s : System} → Run n es s → length es ≤ 13 * n + 6 + total extra es
unfolding total
Run-length {n} {es} {s} r = omega (arith, Run-potential r)
