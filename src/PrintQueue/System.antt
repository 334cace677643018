-- ===== src/PrintQueue/System.antt =====
-- The processes of cw08/assignment/main.c, one statement at a time, and their interleavings.
-- `sem_wait` is a step that can be taken while the semaphore is positive.
use agh_operating_systems.Prelude.{
  ℕ, ◌+◌, ◌-◌, ◌%◌, ◌≤◌, ◌<◌, ◌≡◌, List, [], ◌∷◌, ◌++◌, Option, none, some, get_elem?, set,
  replicate, length, All,
}
use agh_operating_systems.CString.{Bytes}

abbrev pub n_users : ℕ
n_users = 3

abbrev pub m_printers : ℕ
m_printers = 2

abbrev pub queue_size : ℕ
queue_size = 7

abbrev pub job_length : ℕ
job_length = 10

-- `JobQueue` and the values of `sem_mutex`, `sem_full` and `sem_empty`.
pub record Shared : Type 0 where
  pub jobs : List Bytes
  pub head : ℕ
  pub tail : ℕ
  pub mutex : ℕ
  pub full : ℕ
  pub empty : ℕ

-- The next statement of a process, with the local variables that are live there.
pub data Pc : Type 0 where
  composing : Pc  -- user_process, head of the loop
  wait_empty : (job : Bytes) → Pc  -- enqueue_job
  user_lock : (job : Bytes) → Pc
  write_job : (job : Bytes) → Pc
  move_tail : (job : Bytes) → Pc
  user_unlock : Pc
  post_full : Pc
  wait_full : Pc  -- dequeue_job
  printer_lock : Pc
  read_job : Pc
  move_head : (job : Bytes) → Pc
  printer_unlock : (job : Bytes) → Pc
  post_empty : (job : Bytes) → Pc
  printing : (job : Bytes) → Pc  -- printer_process, behind dequeue_job

-- `'a' + rand() % 26`, ten times.
abbrev pub IsJob : Bytes → Type 0
IsJob job = (length job ≡ job_length) × All (λ b. (b'a' ≤ b) × (b ≤ b'z')) job

-- One statement of one process.
pub data Move (m : Shared) : Pc → Shared → Pc → Type 0 where
  compose : (job : Bytes) → IsJob job → Move m composing m (wait_empty job)
  take_slot :
      {job : Bytes}
      → 0 < m.empty
      → Move m (wait_empty job) (record m { empty = m.empty - 1 }) (user_lock job)
  lock_as_user :
      {job : Bytes}
      → 0 < m.mutex
      → Move m (user_lock job) (record m { mutex = m.mutex - 1 }) (write_job job)
  copy_in :
      {job : Bytes}
      → Move m (write_job job) (record m { jobs = set m.jobs m.tail job }) (move_tail job)
  advance_tail :
      {job : Bytes}
      → Move m (move_tail job) (record m { tail = (m.tail + 1) % queue_size }) user_unlock
  unlock_as_user : Move m user_unlock (record m { mutex = m.mutex + 1 }) post_full
  give_job : Move m post_full (record m { full = m.full + 1 }) composing
  take_job : 0 < m.full → Move m wait_full (record m { full = m.full - 1 }) printer_lock
  lock_as_printer : 0 < m.mutex → Move m printer_lock (record m { mutex = m.mutex - 1 }) read_job
  copy_out : {job : Bytes} → get_elem? m.jobs m.head ≡ some job → Move m read_job m (move_head job)
  advance_head :
      {job : Bytes}
      → Move m (move_head job) (record m { head = (m.head + 1) % queue_size }) (printer_unlock job)
  unlock_as_printer :
      {job : Bytes}
      → Move m (printer_unlock job) (record m { mutex = m.mutex + 1 }) (post_empty job)
  give_slot :
      {job : Bytes} → Move m (post_empty job) (record m { empty = m.empty + 1 }) (printing job)
  print_job : {job : Bytes} → Move m (printing job) m wait_full

-- The job that a step puts in the queue: the tail moves past it.
unfoldable pub entered : {m m' : Shared} {p p' : Pc} → Move m p m' p' → List Bytes
entered (advance_tail {job}) = job ∷ []
entered _ = []

-- The job that a step takes out of the queue: the head moves past it.
unfoldable pub removed : {m m' : Shared} {p p' : Pc} → Move m p m' p' → List Bytes
removed (advance_head {job}) = job ∷ []
removed _ = []

-- The shared memory and the processes, with the history of the queue: the jobs put in and the jobs
-- taken out so far, in order.
pub record System : Type 0 where
  pub mem : Shared
  pub procs : List Pc
  pub history_in : List Bytes
  pub history_out : List Bytes

-- `sem_open` with O_CREAT and without O_EXCL: a semaphore of that name that exists keeps its value.
abbrev pub sem_open : Option ℕ → ℕ → ℕ
sem_open none value = value
sem_open (some old) value = old

-- `main` behind its two loops of `fork`, for the values of the three semaphores that an earlier run has left behind,
-- `none` where there is none. `shm_open` keeps the jobs of such a run as well; those of a first run are zeros.
abbrev pub set_up : List Bytes → Option ℕ → Option ℕ → Option ℕ → System
set_up jobs mutex full empty = record {
  mem = record {
    jobs = jobs;
    head = 0;
    tail = 0;
    mutex = sem_open mutex 1;
    full = sem_open full 0;
    empty = sem_open empty queue_size;
  };
  procs = replicate n_users composing ++ replicate m_printers wait_full;
  history_in = [];
  history_out = [];
}

-- The first run.
abbrev pub init : System
init = set_up (replicate queue_size []) none none none

-- Process `i` takes a step.
pub data Step (s : System) : System → Type 0 where
  pick :
      (i : ℕ) {m : Shared} {p p' : Pc}
      → get_elem? s.procs i ≡ some p
      → (mv : Move s.mem p m p')
      → Step s (record {
        mem = m;
        procs = set s.procs i p';
        history_in = s.history_in ++ entered mv;
        history_out = s.history_out ++ removed mv;
      })

pub data Reach : System → Type 0 where
  start : Reach init
  later : {s t : System} → Reach s → Step s t → Reach t
