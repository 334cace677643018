-- ===== src/PrintQueue/Safety.antt =====
-- What the semaphores of cw08/assignment/main.c guarantee.
use agh_operating_systems.Prelude.{
  ℕ, zero, suc, ◌+◌, ◌%◌, ◌≤◌, ◌<◌, ◌≡◌, refl, sym, List, ◌++◌, some, get_elem?, length, arith, ap,
}
use native.Mathlib.Decide.{ℕ_discrete}
use agh_operating_systems.CString.{Bytes}
use agh_operating_systems.PrintQueue.System.{Pc, System, Reach, queue_size}
use agh_operating_systems.Prelude.{total-two}
use agh_operating_systems.PrintQueue.Window.{window}
use agh_operating_systems.PrintQueue.Invariant.{critical, Reach-Inv}

length-window : (jobs : List Bytes) (h n : ℕ) → length (window jobs h n) ≡ n
unfolding window
length-window jobs h zero = refl
length-window jobs h (suc n) = ap suc (length-window jobs ((h + 1) % queue_size) n)

-- No job is lost, repeated or overtaken: in every reachable state the jobs put into the queue so far
-- are those taken out so far, in the same order, followed by the jobs that stand in the buffer
-- from head on, and these are at most seven.
pub Reach-fifo :
    {s : System}
    → Reach s
    → (pending : List Bytes) × (s.history_in ≡ s.history_out ++ pending)
      × (pending ≡ window s.mem.jobs s.mem.head (length pending))
      × (length pending ≤ queue_size)
Reach-fifo {s} r =
    let (n, v) = Reach-Inv r in
    let l = length-window s.mem.jobs s.mem.head n in
    (
      window s.mem.jobs s.mem.head n,
      v.fifo,
      ap (window s.mem.jobs s.mem.head) (sym l),
      omega (arith, v.empties),
    )

-- In every reachable state at most one process stands between its `sem_wait` and its `sem_post` of the
-- mutex.
pub mutual_exclusion :
    {s : System} (i j : ℕ) (p q : Pc)
    → Reach s
    → get_elem? s.procs i ≡ some p
    → get_elem? s.procs j ≡ some q
    → critical p ≡ 1
    → critical q ≡ 1
    → i ≡ j
mutual_exclusion {s} i j p q r gi gj ci cj =
    let (n, v) = Reach-Inv r in
    elim (ℕ_discrete i j) [
      | yes e ↦ e
      | no ne ↦ absurd (omega (arith, total-two critical s.procs i j p q ne gi gj, v.mutexed))
    ]

-- In every reachable state head and tail are indices of the array, the array has its seven places, the
-- mutex is at most 1, and the other two semaphores together are at most 7.
pub Reach-bounds :
    {s : System}
    → Reach s
    → (s.mem.head < queue_size)
      × (s.mem.tail < queue_size)
      × (length s.mem.jobs ≡ queue_size)
      × (s.mem.mutex ≤ 1)
      × (s.mem.full + s.mem.empty ≤ queue_size)
Reach-bounds r =
    let (n, v) = Reach-Inv r in
    (
      v.head_in,
      omega (arith, v.tail_at),
      v.slots,
      omega (arith, v.mutexed),
      omega (arith, v.empties, v.fulls),
    )
