-- ===== src/ThreadJoin/Progress.antt =====
-- The threads of Funkcje/Mutex/main.c do not wait for one another for good: no signal is lost.
use native.Mathlib.Decide.{dec_lt}
use agh_operating_systems.Prelude.{
  ℕ, suc, ◌-◌, ◌≤◌, ◌<◌, ◌≡◌, ◌≢◌, refl, sym, ◌∙◌, Bool, true, false, List, [], ◌∷◌, none, some,
  ◌==◌, ltb, length, if◌then◌else◌, get_elem?, arith, ap, subst, inl, inr, Option-cases, total,
  total-le, total-pos, All,
}
use mathlib.Core.Bool.{false≢true}
use agh_operating_systems.ThreadJoin.System.{
  ThreadPc, unborn, sleeping, counting, marking, unlocking, signalling, returned, reaped, Slot,
  MainPc, creating, outer, locking, inner, waiting, woken, joining, releasing, exited, System,
  thread_func, join_one, join_all, main_func, Event, thread_runs, main_runs, spurious, step, Run,
}
use agh_operating_systems.ThreadJoin.Invariant.{
  Inv, holds, main_holds, unjoined, live, state_of, Born, Living, Awaited, owes, weigh, IsMarked,
}
use agh_operating_systems.ThreadJoin.Main.{Run-Inv}

-- An event that the system has not made up.
abbrev pub Own : Event → Type 0
Own spurious = ⊥
Own _ = Unit

abbrev CanStep : System → Type 0
CanStep s = (e : Event) × (t : System) × Own e × (step e s ≡ some t)

-- A statement that waits for its test runs when the test holds; one that branches always runs.
if_some :
    (b : Bool) (x : System) → b ≡ true → (t : System) × ((if b then some x else none) ≡ some t)
if_some true x h = (x, refl)
if_some false x h = absurd (false≢true h)

if_either : (b : Bool) (x y : System) → (t : System) × ((if b then some x else some y) ≡ some t)
if_either true x y = (x, refl)
if_either false x y = (y, refl)

is_free : (k : ℕ) → k ≡ 1 → (k == 1) ≡ true
is_free k h = ground arith

abbrev busy : ThreadPc → ℕ
busy counting = 1
busy marking = 1
busy unlocking = 1
busy signalling = 1
busy _ = 0

busy_runs :
    (i : ℕ) (c : Slot) (p : ThreadPc) (s : System)
    → 0 < busy p
    → (t : System) × (thread_func i c p s ≡ some t)
unfolding thread_func
busy_runs i c counting s h = (_, refl)
busy_runs i c marking s h = (_, refl)
busy_runs i c unlocking s h = (_, refl)
busy_runs i c signalling s h = (_, refl)
busy_runs i c unborn s h = absurd (omega arith)
busy_runs i c _ s h = absurd (omega arith)

slot_steps :
    (i : ℕ) (c : Slot) (s t : System)
    → get_elem? s.threads i ≡ some c
    → thread_func i c c.pc s ≡ some t
    → CanStep s
unfolding step
slot_steps i c s t g h = (thread_runs i, t, tt, rw (g, step) h)

busy_steps :
    (i : ℕ) (c : Slot) (s : System) → get_elem? s.threads i ≡ some c → 0 < busy c.pc → CanStep s
busy_steps i c s g h = let (t, q) = busy_runs i c c.pc s h in slot_steps i c s t g q

holds-le-busy : (p : ThreadPc) → holds p ≤ busy p
holds-le-busy unborn = omega arith
holds-le-busy sleeping = omega arith
holds-le-busy counting = omega arith
holds-le-busy marking = omega arith
holds-le-busy unlocking = omega arith
holds-le-busy signalling = omega arith
holds-le-busy returned = omega arith
holds-le-busy reaped = omega arith

owes-le-busy : (p : ThreadPc) → owes p ≤ busy p
owes-le-busy unborn = omega arith
owes-le-busy sleeping = omega arith
owes-le-busy counting = omega arith
owes-le-busy marking = omega arith
owes-le-busy unlocking = omega arith
owes-le-busy signalling = omega arith
owes-le-busy returned = omega arith
owes-le-busy reaped = omega arith

holder_steps : (s : System) → 0 < total (weigh holds) s.threads → CanStep s
holder_steps s h =
    let (i, c, g, p) = total-pos (weigh holds) s.threads h in
    busy_steps i c s g (omega (arith, p, holds-le-busy c.pc))

debtor_steps : (s : System) → 0 < total (weigh owes) s.threads → CanStep s
debtor_steps s h =
    let (i, c, g, p) = total-pos (weigh owes) s.threads h in
    busy_steps i c s g (omega (arith, p, owes-le-busy c.pc))

only_sleeping :
    (p : ThreadPc) → p ≢ unborn → 0 < live p → unjoined p ≡ 0 → holds p ≡ 0 → p ≡ sleeping
only_sleeping unborn b l u h = absurd (b refl)
only_sleeping sleeping b l u h = refl
only_sleeping counting b l u h = absurd (omega arith)
only_sleeping marking b l u h = absurd (omega arith)
only_sleeping unlocking b l u h = absurd (omega arith)
only_sleeping signalling b l u h = absurd (omega arith)
only_sleeping returned b l u h = absurd (omega arith)
only_sleeping reaped b l u h = absurd (omega arith)

sleeper_runs :
    (i : ℕ) (c : Slot) (s : System)
    → s.mutex ≡ 1
    → (t : System) × (thread_func i c sleeping s ≡ some t)
unfolding thread_func
sleeper_runs i c s h = if_some (s.mutex == 1) _ (is_free s.mutex h)

-- `pthread_join` only waits for a thread that has yet to send its signal.
one_waits :
    (c : Slot) (p : ThreadPc) → holds p ≡ 0 → join_one (state_of p) p c ≡ none → p ≡ signalling
unfolding join_one
one_waits c unborn h e = absurd (cc)
one_waits c sleeping h e = absurd (cc)
one_waits c counting h e = absurd (omega arith)
one_waits c marking h e = absurd (omega arith)
one_waits c unlocking h e = absurd (omega arith)
one_waits c signalling h e = refl
one_waits c returned h e = absurd (cc)
one_waits c reaped h e = absurd (cc)

join_waits :
    (cs : List Slot)
    → All IsMarked cs
    → total (weigh holds) cs ≡ 0
    → join_all cs ≡ none
    → (i : ℕ) × (c : Slot) × (get_elem? cs i ≡ some c) × (c.pc ≡ signalling)
unfolding join_all total
join_waits [] a z e = absurd (cc)
join_waits (c ∷ cs) a z e = elim (Option-cases (join_one c.state c.pc c)) [
  | inl f ↦
      (0, c, refl, one_waits c c.pc (omega arith) (ap (λ st. join_one st c.pc c) (sym a.0) ∙ f))
  | inr (d, f) ↦
      let (i, x, g, p) = join_waits cs a.1 (omega arith) (ground arith) in (suc i, x, g, p)
]

module _ {n : ℕ} (s : System) (v : Inv n s) where
  main_steps : (t : System) → main_func s.main s ≡ some t → CanStep s
  unfolding step
  main_steps t h = (main_runs, t, tt, h)

  Living-at : (m : MainPc) → s.main ≡ m → Living m n s.num_live (total (weigh live) s.threads)
  Living-at m e = subst (λ x. Living x n s.num_live (total (weigh live) s.threads)) e v.living

  waiting_steps : s.main ≡ waiting → CanStep s
  waiting_steps e = elim (dec_lt 0 (total (weigh holds) s.threads)) [
    | yes p ↦ holder_steps s p
    | no p ↦ elim (dec_lt 0 s.num_unjoined) [
      | yes q ↦
          debtor_steps s
            ((subst (λ x. Awaited x s.num_unjoined (total (weigh owes) s.threads)) e v.awaited) q)
      | no q ↦
          let l = Living-at waiting e in
          let (i, c, g, a) = total-pos (weigh live) s.threads (omega (arith, l.0, l.1)) in
          let z : c.pc ≡ sleeping =
            only_sleeping c.pc (subst (λ x. Born x i c.pc) e (v.born i c g)) a
              (omega (arith, v.counted, total-le (weigh unjoined) s.threads i c g))
              (omega (arith, total-le (weigh holds) s.threads i c g)) in
          let (t, h) = sleeper_runs i c s (omega (arith, v.locked, ap main_holds e)) in
          slot_steps i c s t g (ap (λ x. thread_func i c x s) z ∙ h)
    ]
  ]

  -- `main` wants the mutex: it is free, or a thread that has it goes on.
  lock_steps :
      (m : MainPc)
      → s.main ≡ m
      → main_holds m ≡ 0
      → (s.mutex ≡ 1 → (t : System) × (main_func m s ≡ some t))
      → CanStep s
  lock_steps m e h k = elim (dec_lt 0 (total (weigh holds) s.threads)) [
    | yes p ↦ holder_steps s p
    | no p ↦
        let (t, q) = k (omega (arith, v.locked, ap main_holds e)) in
        main_steps t (ap (λ x. main_func x s) e ∙ q)
  ]

  main_at : (m : MainPc) → s.main ≡ m → (t : System) × (main_func m s ≡ some t) → CanStep s
  main_at m e r = main_steps r.0 (ap (λ x. main_func x s) e ∙ r.1)

  joining_runs :
      (rest : List Slot) (k : ℕ)
      → join_all s.threads ≡ some (rest, k)
      → (t : System) × (main_func joining s ≡ some t)
  unfolding main_func
  joining_runs rest k f = (
    record s {
      threads = rest;
      num_live = s.num_live - k;
      num_unjoined = s.num_unjoined - k;
      main = releasing;
    },
    rw (f, main_func) refl,
  )

  steps_at : (m : MainPc) → s.main ≡ m → m ≢ exited → CanStep s
  unfolding main_func
  steps_at (creating idx) e x =
      main_at (creating idx) e (if_either (ltb idx (length s.threads)) _ _)
  steps_at outer e x = main_at outer e (_, refl)
  steps_at locking e x =
      lock_steps locking e refl (λ h. if_some (s.mutex == 1) _ (is_free s.mutex h))
  steps_at inner e x = main_at inner e (if_either (s.num_unjoined == 0) _ _)
  steps_at waiting e x = waiting_steps e
  steps_at woken e x = lock_steps woken e refl (λ h. if_some (s.mutex == 1) _ (is_free s.mutex h))
  steps_at joining e x = elim (Option-cases (join_all s.threads)) [
    | inl f ↦
        let (i, c, g, p) =
          join_waits s.threads v.marked (omega (arith, v.locked, ap main_holds e)) f in
        busy_steps i c s g (omega (arith, ap busy p))
    | inr ((rest, k), f) ↦ main_at joining e (joining_runs rest k f)
  ]
  steps_at releasing e x = main_at releasing e (_, refl)
  steps_at exited e x = absurd (x refl)

-- No deadlock, and no signal is lost: in every reachable state `main` has come to its `exit`, or it or some thread
-- can take a step without a spurious return of `pthread_cond_wait`.
pub Run-progress :
    {n : ℕ} {es : List Event} {s : System}
    → Run n es s
    → s.main ≢ exited
    → (e : Event) × (t : System) × Own e × (step e s ≡ some t)
Run-progress {s = s} r x = steps_at s (Run-Inv r) s.main refl x
