-- ===== src/ThreadJoin/Invariant.antt =====
-- What holds between two statements of Funkcje/Mutex/main.c.
use native.Mathlib.Decide.{dec_lt}
use agh_operating_systems.Prelude.{
  ℕ, ◌+◌, ◌≤◌, ◌<◌, ◌≡◌, ◌≢◌, refl, sym, ◌∙◌, some, get_elem?, set, length, arith, subst, inl, inr,
  total, total-set, get_elem?-set_cases, length-set, All, All-set,
}
use agh_operating_systems.ThreadJoin.System.{
  TState, ts_alive, ts_terminated, ts_joined, ThreadPc, unborn, sleeping, counting, marking,
  unlocking, signalling, returned, reaped, Slot, MainPc, creating, outer, inner, waiting, joining,
  releasing, exited, System, at_thread, wake,
}

-- A thread between its lock and its unlock.
abbrev pub holds : ThreadPc → ℕ
holds counting = 1
holds marking = 1
holds unlocking = 1
holds _ = 0

abbrev pub main_holds : MainPc → ℕ
main_holds inner = 1
main_holds joining = 1
main_holds releasing = 1
main_holds _ = 0

-- A thread that `num_unjoined` counts.
abbrev pub unjoined : ThreadPc → ℕ
unjoined marking = 1
unjoined unlocking = 1
unjoined signalling = 1
unjoined returned = 1
unjoined _ = 0

-- A thread that `num_live` counts.
abbrev pub live : ThreadPc → ℕ
live reaped = 0
live _ = 1

-- The state that the array has for a thread.
abbrev pub state_of : ThreadPc → TState
state_of unborn = ts_alive
state_of sleeping = ts_alive
state_of counting = ts_alive
state_of marking = ts_alive
state_of unlocking = ts_terminated
state_of signalling = ts_terminated
state_of returned = ts_terminated
state_of reaped = ts_joined

-- While `main` creates threads, those from `idx` on are unborn; behind that none is.
abbrev pub Born : MainPc → ℕ → ThreadPc → Type 0
Born (creating idx) i pc = (idx ≤ i → pc ≡ unborn) × (i < idx → pc ≢ unborn)
Born _ i pc = pc ≢ unborn

-- `num_live`, once it has been set for `n` threads, is the number of those that are not joined.
abbrev pub Living : MainPc → ℕ → ℕ → ℕ → Type 0
Living (creating idx) n num_live alive = alive ≡ n
Living exited n num_live alive = (num_live ≡ alive) × (num_live ≡ 0)
Living outer n num_live alive = num_live ≡ alive
Living releasing n num_live alive = num_live ≡ alive
Living _ n num_live alive = (num_live ≡ alive) × (0 < num_live)

-- A thread that has not yet sent its signal and will.
abbrev pub owes : ThreadPc → ℕ
owes marking = 1
owes unlocking = 1
owes signalling = 1
owes _ = 0

-- While `main` sleeps on the condition variable, a thread that is counted owes a signal. While it joins, some
-- thread is counted.
abbrev pub Awaited : MainPc → ℕ → ℕ → Type 0
Awaited waiting unjoined owed = 0 < unjoined → 0 < owed
Awaited joining unjoined owed = 0 < unjoined
Awaited _ unjoined owed = Unit

abbrev pub weigh : (ThreadPc → ℕ) → Slot → ℕ
weigh w c = w c.pc

abbrev pub IsMarked : Slot → Type 0
IsMarked c = c.state ≡ state_of c.pc

pub record Inv (n : ℕ) (s : System) : Type 0 where
  pub slots : length s.threads ≡ n
  pub locked : s.mutex + main_holds s.main + total (weigh holds) s.threads ≡ 1
  pub counted : s.num_unjoined ≡ total (weigh unjoined) s.threads
  pub living : Living s.main n s.num_live (total (weigh live) s.threads)
  pub awaited : Awaited s.main s.num_unjoined (total (weigh owes) s.threads)
  pub marked : All IsMarked s.threads
  pub born : (i : ℕ) (c : Slot) → get_elem? s.threads i ≡ some c → Born s.main i c.pc

Born-change :
    (m : MainPc) (i : ℕ) (p p' : ThreadPc) → p ≢ unborn → p' ≢ unborn → Born m i p → Born m i p'
Born-change (creating idx) i p p' h h' b = ((λ le. absurd (h (b.0 le))), (λ lt. h'))
Born-change outer i p p' h h' b = h'
Born-change _ i p p' h h' b = h'

pub Awaited-keep :
    (m : MainPc) (u o u' o' : ℕ) → u ≤ u' → o + u' ≤ o' + u → Awaited m u o → Awaited m u' o'
Awaited-keep waiting u o u' o' le h a =
    λ lt. elim (dec_lt 0 u) [ yes p ↦ omega (arith, a p) | no p ↦ omega arith ]
Awaited-keep joining u o u' o' le h a = omega arith
Awaited-keep _ u o u' o' le h a = tt

pub wake-Born : (m : MainPc) (i : ℕ) (p : ThreadPc) → Born m i p → Born (wake m) i p
wake-Born (creating idx) i p b = b
wake-Born waiting i p b = b
wake-Born _ i p b = b

pub wake-Living : (m : MainPc) (n a b : ℕ) → Living m n a b → Living (wake m) n a b
wake-Living (creating idx) n a b h = h
wake-Living waiting n a b h = h
wake-Living _ n a b h = h

pub wake-Awaited : (m : MainPc) (u o o' : ℕ) → Awaited m u o → Awaited (wake m) u o'
wake-Awaited waiting u o o' h = tt
wake-Awaited joining u o o' h = h
wake-Awaited _ u o o' h = tt

pub main_holds-wake : (m : MainPc) → main_holds (wake m) ≡ main_holds m
main_holds-wake waiting = refl
main_holds-wake _ = refl

module _ {n : ℕ} (i : ℕ) (c c' : Slot) (s : System) (v : Inv n s)
    (g : get_elem? s.threads i ≡ some c) where
  -- Thread `i` has made a step, and `main` has not moved, or has been woken.
  pub moved-Inv :
      (main' : MainPc) (mutex' num' : ℕ)
      → IsMarked c'
      → c.pc ≢ unborn
      → c'.pc ≢ unborn
      → mutex' + holds c'.pc ≡ s.mutex + holds c.pc
      → num' + unjoined c.pc ≡ s.num_unjoined + unjoined c'.pc
      → live c'.pc ≡ live c.pc
      → main_holds main' ≡ main_holds s.main
      → ((j : ℕ) (p : ThreadPc) → Born s.main j p → Born main' j p)
      → ((a b : ℕ) → Living s.main n a b → Living main' n a b)
      → Awaited main' num' (total (weigh owes) (set s.threads i c'))
      → Inv n (record (at_thread i c' s) { main = main'; mutex = mutex'; num_unjoined = num' })
  moved-Inv main' mutex' num' mk nu nu' eh eu el em kb kl aw = record {
    slots = length-set s.threads i c' ∙ v.slots;
    locked = omega (arith, v.locked, total-set (weigh holds) s.threads i c c' g);
    counted = omega (arith, v.counted, total-set (weigh unjoined) s.threads i c c' g);
    living =
        subst (Living main' n s.num_live) (omega (arith, total-set (weigh live) s.threads i c c' g))
          (kl s.num_live _ v.living);
    awaited = aw;
    marked = All-set IsMarked s.threads i c' v.marked mk;
    born = λ j d h. elim (get_elem?-set_cases s.threads i j c' d h) [
      | inl (e, q) ↦ kb j d.pc (
          subst (λ (x : Slot). Born s.main j x.pc) (sym q)
            (Born-change s.main j c.pc c'.pc nu nu'
              (subst (λ k. Born s.main k c.pc) e (v.born i c g))))
      | inr (e, q) ↦ kb j d.pc (v.born j d q)
    ];
  }
