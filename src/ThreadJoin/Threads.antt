-- ===== src/ThreadJoin/Threads.antt =====
-- Every statement of `threadFunc` in Funkcje/Mutex/main.c keeps the invariant.
use agh_operating_systems.Prelude.{
  ℕ, ◌+◌, ◌≤◌, ◌≡◌, ◌≢◌, refl, sym, ◌∙◌, some, ◌==◌, get_elem?, arith, ap, subst, inl, inr,
  Bool-cases, total, total-set, total-le, All-get_elem?,
}
use mathlib.Core.Option.{some-injective}
use agh_operating_systems.ThreadJoin.System.{
  TState, ts_terminated, ThreadPc, unborn, sleeping, counting, marking, unlocking, signalling,
  returned, reaped, Slot, System, at_thread, wake, thread_func,
}
use agh_operating_systems.ThreadJoin.Invariant.{
  Inv, holds, unjoined, live, state_of, owes, weigh, IsMarked, moved-Inv, Awaited-keep, wake-Born,
  wake-Living, wake-Awaited, main_holds-wake,
}

module _ {n : ℕ} (i : ℕ) (c : Slot) (s : System) (v : Inv n s)
    (g : get_elem? s.threads i ≡ some c) where
  -- A step from `p` to `p'` in which `main` does not move.
  quiet-Inv :
      (p p' : ThreadPc) (st : TState) (mutex' num' : ℕ) (t : System)
      → c.pc ≡ p
      → st ≡ state_of p'
      → p ≢ unborn
      → p' ≢ unborn
      → mutex' + holds p' ≡ s.mutex + holds p
      → num' + unjoined p ≡ s.num_unjoined + unjoined p'
      → live p' ≡ live p
      → s.num_unjoined ≤ num'
      → owes p + num' ≤ owes p' + s.num_unjoined
      → some (record (at_thread i (record { state = st; pc = p' }) s) {
        mutex = mutex';
        num_unjoined = num';
      })
        ≡ some t
      → Inv n t
  quiet-Inv p p' st mutex' num' t e mk nu nu' eh eu el le lo h =
      let c' : Slot = record { state = st; pc = p' } in
      let ho : owes c.pc ≡ owes p = ap owes e in
      subst (Inv n) (some-injective _ _ h) (
        moved-Inv i c c' s v g s.main mutex' num' mk (λ q. nu (sym e ∙ q)) nu'
          (eh ∙ ap (λ x. s.mutex + holds x) (sym e)) (ap (λ x. num' + unjoined x) e ∙ eu)
          (el ∙ ap live (sym e)) refl (λ j q b. b) (λ a b k. k)
          (Awaited-keep s.main s.num_unjoined (total (weigh owes) s.threads) num' _ le
            (omega (
              arith,
              total-set (weigh owes) s.threads i c c' g,
              total-le (weigh owes) s.threads i c g,
            ))
            v.awaited))

  marked_as : (p : ThreadPc) → c.pc ≡ p → c.state ≡ state_of p
  marked_as p e = All-get_elem? IsMarked s.threads i c v.marked g ∙ ap state_of e

  -- A thread that holds the mutex has it to itself.
  mutex_taken : (p : ThreadPc) → c.pc ≡ p → holds p ≡ 1 → s.mutex ≡ 0
  mutex_taken p e h = omega (arith, v.locked, total-le (weigh holds) s.threads i c g, ap holds e)

  signalled-Inv :
      c.pc ≡ signalling
      → Inv n (record (at_thread i (record c { pc = returned }) s) { main = wake s.main })
  signalled-Inv e =
      moved-Inv i c (record c { pc = returned }) s v g (wake s.main) s.mutex s.num_unjoined
        (marked_as signalling e) (λ q. absurd (sleeping_ne (sym e ∙ q))) (λ q. cc)
        (ap (λ x. s.mutex + holds x) (sym e)) (ap (λ x. s.num_unjoined + unjoined x) e)
        (ap live (sym e)) (main_holds-wake s.main) (wake-Born s.main)
        (λ a b. wake-Living s.main n a b) (wake-Awaited s.main s.num_unjoined _ _ v.awaited)
    where
      sleeping_ne : signalling ≢ unborn
      sleeping_ne q = cc

  pub thread_func-Inv :
      (p : ThreadPc) (t : System) → c.pc ≡ p → thread_func i c p s ≡ some t → Inv n t
  unfolding thread_func
  thread_func-Inv unborn t e h = absurd (cc)
  thread_func-Inv sleeping t e h = elim (Bool-cases (s.mutex == 1)) [
    | inl f ↦
        quiet-Inv sleeping counting c.state 0 s.num_unjoined t e (marked_as sleeping e) (λ q. cc)
          (λ q. cc) (ground arith) refl refl (omega arith) (omega arith) (rw f at h)
    | inr f ↦ absurd (ground arith)
  ]
  thread_func-Inv counting t e h =
      quiet-Inv counting marking c.state s.mutex (s.num_unjoined + 1) t e (marked_as counting e)
        (λ q. cc) (λ q. cc) refl (omega arith) refl (omega arith) (omega arith) h
  thread_func-Inv marking t e h =
      quiet-Inv marking unlocking ts_terminated s.mutex s.num_unjoined t e refl (λ q. cc) (λ q. cc)
        refl refl refl (omega arith) (omega arith) h
  thread_func-Inv unlocking t e h =
      quiet-Inv unlocking signalling c.state 1 s.num_unjoined t e (marked_as unlocking e) (λ q. cc)
        (λ q. cc) (omega (arith, mutex_taken unlocking e refl)) refl refl (omega arith)
        (omega arith) h
  thread_func-Inv signalling t e h = subst (Inv n) (some-injective _ _ h) (signalled-Inv e)
  thread_func-Inv returned t e h = absurd (cc)
  thread_func-Inv reaped t e h = absurd (cc)
