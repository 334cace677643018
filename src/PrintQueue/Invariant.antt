-- ===== src/PrintQueue/Invariant.antt =====
-- What holds in every reachable state of cw08/assignment/main.c: what the three semaphores count, and
-- which jobs stand in the buffer.
use agh_operating_systems.Prelude.{
  ℕ, suc, ◌+◌, ◌-◌, ◌%◌, ◌≤◌, ◌<◌, ◌≡◌, ◌≢◌, inl, inr, refl, sym, ◌∙◌, List, [], ◌∷◌, ◌++◌, Option,
  none, some, get_elem?, set, length, arith, ap, ap₂, subst, get_elem?-set_self,
  get_elem?-set_cases, All-get_elem?, length-set, append-nil, append_assoc,
}
use agh_operating_systems.CString.{Bytes}
use agh_operating_systems.PrintQueue.System.{
  Shared, Pc, user_lock, write_job, move_tail, user_unlock, post_full, printer_lock, read_job,
  move_head, printer_unlock, post_empty, Move, compose, take_slot, lock_as_user, copy_in,
  advance_tail, take_job, lock_as_printer, copy_out, advance_head, entered, removed, System, init,
  Step, pick, Reach, start, later, queue_size,
}
use agh_operating_systems.Prelude.{total, total-set, total-le, total-two}
use agh_operating_systems.PrintQueue.Window.{job_at, window, window-snoc, window-cons, window-set}

-- Between `sem_wait(sem_mutex)` and `sem_post(sem_mutex)`.
abbrev pub critical : Pc → ℕ
critical (write_job _) = 1
critical (move_tail _) = 1
critical user_unlock = 1
critical read_job = 1
critical (move_head _) = 1
critical (printer_unlock _) = 1
critical _ = 0

-- A slot that `sem_empty` does not count and that holds no job: reserved, or not yet given back.
abbrev pub holds_slot : Pc → ℕ
holds_slot (user_lock _) = 1
holds_slot (write_job _) = 1
holds_slot (move_tail _) = 1
holds_slot (printer_unlock _) = 1
holds_slot (post_empty _) = 1
holds_slot _ = 0

-- A job in the buffer that `sem_full` does not count: not yet given, or reserved.
abbrev pub holds_job : Pc → ℕ
holds_job user_unlock = 1
holds_job post_full = 1
holds_job printer_lock = 1
holds_job read_job = 1
holds_job (move_head _) = 1
holds_job _ = 0

-- What the local variables of a process say about the buffer.
abbrev pub Local : Shared → Pc → Type 0
Local m (move_tail job) = job_at m.jobs m.tail ≡ job
Local m (move_head job) = job_at m.jobs m.head ≡ job
Local m _ = Unit

-- `n` is the number of jobs in the buffer.
pub record Inv (n : ℕ) (s : System) : Type 0 where
  pub slots : length s.mem.jobs ≡ queue_size
  pub head_in : s.mem.head < queue_size
  pub tail_at : s.mem.tail ≡ (s.mem.head + n) % queue_size
  pub mutexed : s.mem.mutex + total critical s.procs ≡ 1
  pub empties : s.mem.empty + total holds_slot s.procs + n ≡ queue_size
  pub fulls : s.mem.full + total holds_job s.procs ≡ n
  pub fifo : s.history_in ≡ s.history_out ++ window s.mem.jobs s.mem.head n
  pub local : (i : ℕ) (p : Pc) → get_elem? s.procs i ≡ some p → Local s.mem p

-- How a step changes the number of jobs.
abbrev moved : {m m' : Shared} {p p' : Pc} → Move m p m' p' → ℕ → ℕ
moved (advance_tail) n = suc n
moved (advance_head) n = n - 1
moved _ n = n

-- Only a process in the critical section moves the head or the tail, or writes a job.
Move-quiet :
    {m m' : Shared} {p p' : Pc}
    → Move m p m' p'
    → critical p ≡ 0
    → (m'.jobs ≡ m.jobs) × (m'.head ≡ m.head) × (m'.tail ≡ m.tail)
Move-quiet copy_in e = absurd (omega arith)
Move-quiet advance_tail e = absurd (omega arith)
Move-quiet advance_head e = absurd (omega arith)
Move-quiet (compose job h) e = (refl, refl, refl)
Move-quiet mv e = (refl, refl, refl)

module _ {n : ℕ} {s : System} (v : Inv n s) (i : ℕ) where
  -- Process `i` goes from `p` to `p'`: what the sums say.
  record Mover (p p' : Pc) : Type 0 where
    here : get_elem? s.procs i ≡ some p
    crit : total critical (set s.procs i p') + critical p ≡ total critical s.procs + critical p'
    slot :
        total holds_slot (set s.procs i p') + holds_slot p
        ≡ total holds_slot s.procs + holds_slot p'
    job : total holds_job (set s.procs i p') + holds_job p ≡ total holds_job s.procs + holds_job p'
    own_slot : holds_slot p ≤ total holds_slot s.procs
    own_job : holds_job p ≤ total holds_job s.procs
    own_crit : critical p ≤ total critical s.procs
    own : Local s.mem p

  mover : {p : Pc} (p' : Pc) → get_elem? s.procs i ≡ some p → Mover p p'
  mover {p} p' g = record {
    here = g;
    crit = total-set critical s.procs i p p' g;
    slot = total-set holds_slot s.procs i p p' g;
    job = total-set holds_job s.procs i p p' g;
    own_slot = total-le holds_slot s.procs i p g;
    own_job = total-le holds_job s.procs i p g;
    own_crit = total-le critical s.procs i p g;
    own = v.local i p g;
  }

  record Counts (m' : Shared) (procs : List Pc) (k : ℕ) : Type 0 where
    slots : length m'.jobs ≡ queue_size
    head_in : m'.head < queue_size
    tail_at : m'.tail ≡ (m'.head + k) % queue_size
    mutexed : m'.mutex + total critical procs ≡ 1
    empties : m'.empty + total holds_slot procs + k ≡ queue_size
    fulls : m'.full + total holds_job procs ≡ k

  Move-Counts :
      {p p' : Pc} {m' : Shared} (mv : Move s.mem p m' p')
      → Mover p p'
      → Counts m' (set s.procs i p') (moved mv n)
  Move-Counts (compose job h) f = ground arith
  Move-Counts (copy_in {job}) f = ground (arith, length-set s.mem.jobs s.mem.tail job)
  Move-Counts (take_slot g) f = ground arith
  Move-Counts (lock_as_user g) f = ground arith
  Move-Counts (take_job g) f = ground arith
  Move-Counts (lock_as_printer g) f = ground arith
  Move-Counts mv f = ground arith

  window_after_write :
      (job : Bytes)
      → Mover (write_job job) (move_tail job)
      → window (set s.mem.jobs s.mem.tail job) s.mem.head n ≡ window s.mem.jobs s.mem.head n
  window_after_write job f =
      window-set s.mem.jobs s.mem.head n 0 s.mem.tail job v.head_in
        (omega (arith, v.empties, f.own_slot)) (omega (arith, v.tail_at))

  window_longer :
      (job : Bytes)
      → job_at s.mem.jobs s.mem.tail ≡ job
      → window s.mem.jobs s.mem.head (suc n) ≡ window s.mem.jobs s.mem.head n ++ job ∷ []
  window_longer job own =
      window-snoc s.mem.jobs s.mem.head n v.head_in
      ∙ ap (λ b. window s.mem.jobs s.mem.head n ++ b ∷ [])
          (ap (job_at s.mem.jobs) (sym v.tail_at) ∙ own)

  -- The history of jobs put in is that of jobs taken out, followed by the buffer.
  Move-fifo :
      {p p' : Pc} {m' : Shared} (mv : Move s.mem p m' p')
      → Mover p p'
      → s.history_in ++ entered mv
        ≡ (s.history_out ++ removed mv) ++ window m'.jobs m'.head (moved mv n)
  unfolding entered removed
  Move-fifo (copy_in {job}) f =
      simp append-nil (v.fifo ∙ ap (λ l. s.history_out ++ l) (sym (window_after_write job f)))
  Move-fifo (advance_tail {job}) f =
      ap (λ l. l ++ job ∷ []) v.fifo
      ∙ append_assoc s.history_out (window s.mem.jobs s.mem.head n) (job ∷ [])
      ∙ ap₂ ◌++◌ (sym (append-nil s.history_out)) (sym (window_longer job f.own))
  Move-fifo (advance_head {job}) f =
      append-nil s.history_in
      ∙ v.fifo
      ∙ ap (λ l. s.history_out ++ l)
          (window-cons s.mem.jobs s.mem.head n (omega (arith, v.fulls, f.own_job))
            ∙ ap (λ b. b ∷ window s.mem.jobs ((s.mem.head + 1) % queue_size) (n - 1)) f.own)
      ∙ sym (
          append_assoc s.history_out (job ∷ [])
            (window s.mem.jobs ((s.mem.head + 1) % queue_size) (n - 1)))
  Move-fifo (compose job h) f = simp append-nil v.fifo
  Move-fifo mv f = simp append-nil v.fifo

  -- A process that does not move keeps what it knows: only one is critical.
  others_keep :
      {p p' : Pc} {m' : Shared} (mv : Move s.mem p m' p')
      → Mover p p'
      → (j : ℕ) (q : Pc) → i ≢ j
      → get_elem? s.procs j ≡ some q
      → Local s.mem q
      → Local m' q
  others_keep {p} mv f j (move_tail job) ne g h =
      let (ej, _, et) =
        Move-quiet mv (
          omega (arith, total-two critical s.procs i j p (move_tail job) ne f.here g, v.mutexed)) in
      rw (ej, et) h
  others_keep {p} mv f j (move_head job) ne g h =
      let (ej, eh, _) =
        Move-quiet mv (
          omega (arith, total-two critical s.procs i j p (move_head job) ne f.here g, v.mutexed)) in
      rw (ej, eh) h
  others_keep mv f j q ne g h = tt

  self_knows : {p p' : Pc} {m' : Shared} (mv : Move s.mem p m' p') → Mover p p' → Local m' p'
  self_knows (copy_in {job}) f =
      ap (λ (o : Option Bytes). elim o [ none ↦ [] | some j ↦ j ])
        (get_elem?-set_self s.mem.jobs s.mem.tail job (omega (arith, v.slots, v.tail_at)))
  self_knows (copy_out g) f = ground arith
  self_knows (compose job h) f = tt
  self_knows mv f = tt

  Move-Local :
      {p p' : Pc} {m' : Shared} (mv : Move s.mem p m' p')
      → Mover p p'
      → (j : ℕ) (q : Pc) → get_elem? (set s.procs i p') j ≡ some q
      → Local m' q
  Move-Local {p' = p'} {m' = m'} mv f j q g = elim (get_elem?-set_cases s.procs i j p' q g) [
    | inl (_, e) ↦ subst (Local m') (sym e) (self_knows mv f)
    | inr (ne, old) ↦ others_keep mv f j q ne old (v.local j q old)
  ]

Step-Inv : {n : ℕ} {s t : System} → Step s t → Inv n s → (k : ℕ) × Inv k t
Step-Inv {n} {s} (pick i {m} {p} {p'} g mv) v =
    let f = mover v i p' g in
    let c = Move-Counts v i mv f in
    (
      moved mv n,
      record {
        slots = c.slots;
        head_in = c.head_in;
        tail_at = c.tail_at;
        mutexed = c.mutexed;
        empties = c.empties;
        fulls = c.fulls;
        fifo = Move-fifo v i mv f;
        local = Move-Local v i mv f;
      },
    )

init-Local : (i : ℕ) (p : Pc) → get_elem? init.procs i ≡ some p → Local init.mem p
init-Local i p g = All-get_elem? (Local init.mem) init.procs i p (tt, (tt, (tt, (tt, (tt, tt))))) g

init-Inv : Inv 0 init
unfolding total window
init-Inv = record {
  slots = refl;
  head_in = omega arith;
  tail_at = refl;
  mutexed = refl;
  empties = refl;
  fulls = refl;
  fifo = refl;
  local = init-Local;
}

pub Reach-Inv : {s : System} → Reach s → (n : ℕ) × Inv n s
Reach-Inv start = (0, init-Inv)
Reach-Inv (later r st) = Step-Inv st (Reach-Inv r).1
