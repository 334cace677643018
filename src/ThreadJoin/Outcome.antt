-- ===== src/ThreadJoin/Outcome.antt =====
-- How the program of Funkcje/Mutex/main.c ends.
use agh_operating_systems.Prelude.{
  ℕ, ◌≡◌, refl, sym, ◌∙◌, Bool, true, false, List, [], ◌∷◌, some, if◌then◌else◌, get_elem?, arith,
  ap, subst, total, total-le, All, All-get_elem?, count,
}
use agh_operating_systems.ThreadJoin.System.{
  TState, ts_terminated, ts_joined, ThreadPc, unborn, sleeping, counting, marking, unlocking,
  signalling, returned, reaped, Slot, exited, System, Event, Run,
}
use agh_operating_systems.ThreadJoin.Invariant.{
  holds, unjoined, live, state_of, Living, weigh, IsMarked,
}
use agh_operating_systems.ThreadJoin.Main.{Run-Inv}

reaped_of_live : (p : ThreadPc) → live p ≡ 0 → p ≡ reaped
reaped_of_live reaped h = refl
reaped_of_live _ h = absurd (omega arith)

-- When `main` has come to its `exit`, every entry of the array is TS_JOINED, and its thread has ended and been
-- joined.
pub exited-joined :
    {n : ℕ} {es : List Event} {s : System} (i : ℕ) (c : Slot)
    → Run n es s
    → s.main ≡ exited
    → get_elem? s.threads i ≡ some c
    → (c.state ≡ ts_joined) × (c.pc ≡ reaped)
exited-joined {n} {s = s} i c r e g =
    let v = Run-Inv r in
    let l : Living exited n s.num_live (total (weigh live) s.threads) =
      subst (λ x. Living x n s.num_live (total (weigh live) s.threads)) e v.living in
    let q : c.pc ≡ reaped =
      reaped_of_live c.pc (omega (arith, l.0, l.1, total-le (weigh live) s.threads i c g)) in
    (All-get_elem? IsMarked s.threads i c v.marked g ∙ ap state_of q, q)

abbrev pub is_terminated : TState → Bool
is_terminated ts_terminated = true
is_terminated _ = false

slot-terminated :
    (p : ThreadPc) → holds p ≡ 0 → (if is_terminated (state_of p) then 1 else 0) ≡ unjoined p
slot-terminated unborn h = refl
slot-terminated sleeping h = refl
slot-terminated counting h = absurd (omega arith)
slot-terminated marking h = absurd (omega arith)
slot-terminated unlocking h = absurd (omega arith)
slot-terminated signalling h = refl
slot-terminated returned h = refl
slot-terminated reaped h = refl

count-terminated :
    (cs : List Slot)
    → All IsMarked cs
    → total (weigh holds) cs ≡ 0
    → count (λ (c : Slot). is_terminated c.state) cs ≡ total (weigh unjoined) cs
unfolding count total
count-terminated [] a z = refl
count-terminated (c ∷ cs) a z =
    let e : (if is_terminated c.state then 1 else 0) ≡ unjoined c.pc =
      ap (λ st. if is_terminated st then 1 else 0) a.0 ∙ slot-terminated c.pc (omega arith) in
    ground (arith, count-terminated cs a.1, e)

-- Whenever the mutex is free, `numUnjoined` is the number of entries that are TS_TERMINATED.
pub num_unjoined-count :
    {n : ℕ} {es : List Event} {s : System}
    → Run n es s
    → s.mutex ≡ 1
    → s.num_unjoined ≡ count (λ (c : Slot). is_terminated c.state) s.threads
num_unjoined-count {s = s} r h =
    let v = Run-Inv r in
    v.counted ∙ sym (count-terminated s.threads v.marked (omega (arith, v.locked)))
