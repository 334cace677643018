-- ===== src/ThreadJoin/System.antt =====
-- The threads of Funkcje/Mutex/main.c, one statement at a time. The loop of `main` that joins threads
-- is one step, since it runs with the mutex held.
use agh_operating_systems.Prelude.{
  ℕ, suc, ◌+◌, ◌-◌, ◌≡◌, List, [], ◌∷◌, Option, none, some, ◌==◌, ltb, if◌then◌else◌, get_elem?,
  set, replicate, length,
}

-- `enum tstate`
pub data TState : Type 0 where
  ts_alive ts_terminated ts_joined : TState

-- The next statement of `threadFunc`; `unborn` stands before `pthread_create`, `reaped` behind
-- `pthread_join`.
pub data ThreadPc : Type 0 where
  unborn sleeping counting marking unlocking signalling returned reaped : ThreadPc

-- An entry of the array `thread`, with the thread that it belongs to.
pub record Slot : Type 0 where
  pub state : TState
  pub pc : ThreadPc

-- The next statement of `main`: the loop of `pthread_create`, the outer `while`, `pthread_mutex_lock`, the
-- inner `while`, `pthread_cond_wait` before and behind a signal, the loop of `pthread_join`,
-- `pthread_mutex_unlock`, `exit`.
pub data MainPc : Type 0 where
  creating : (idx : ℕ) → MainPc
  outer locking inner waiting woken joining releasing exited : MainPc

-- The globals; `mutex` is 1 while the mutex is free.
pub record System : Type 0 where
  pub threads : List Slot
  pub tot_threads : ℕ
  pub num_live : ℕ
  pub num_unjoined : ℕ
  pub mutex : ℕ
  pub main : MainPc

-- `main` behind `calloc`, whose zeros are TS_ALIVE.
unfoldable pub init : ℕ → System
init n = record {
  threads = replicate n (record { state = ts_alive; pc = unborn });
  tot_threads = 0;
  num_live = 0;
  num_unjoined = 0;
  mutex = 1;
  main = creating 0;
}

abbrev pub at_thread : ℕ → Slot → System → System
at_thread i c s = record s { threads = set s.threads i c }

-- What `pthread_cond_broadcast` does to `main`.
abbrev pub wake : MainPc → MainPc
wake waiting = woken
wake m = m

-- The statements of `threadFunc`, of thread `i` with entry `c`; `none` where it waits or has ended.
unfoldable pub thread_func : ℕ → Slot → ThreadPc → System → Option System
thread_func i c unborn s = none
thread_func i c sleeping s =
    if s.mutex == 1
    then some (record (at_thread i (record c { pc = counting }) s) { mutex = 0 })
    else none
thread_func i c counting s =
    some (record (at_thread i (record c { pc = marking }) s) { num_unjoined = s.num_unjoined + 1 })
thread_func i c marking s = some (at_thread i (record { state = ts_terminated; pc = unlocking }) s)
thread_func i c unlocking s =
    some (record (at_thread i (record c { pc = signalling }) s) { mutex = 1 })
thread_func i c signalling s =
    some (record (at_thread i (record c { pc = returned }) s) { main = wake s.main })
thread_func i c returned s = none
thread_func i c reaped s = none

-- The body of the loop that joins: the entry behind it, and 1 if its thread has been joined. `none`
-- where `pthread_join` waits.
unfoldable pub join_one : TState → ThreadPc → Slot → Option (Slot × ℕ)
join_one ts_terminated returned c = some (record { state = ts_joined; pc = reaped }, 1)
join_one ts_terminated _ c = none
join_one _ _ c = some (c, 0)

-- The loop over the entries: the entries behind it, and how many threads it has joined.
unfoldable pub join_all : List Slot → Option (List Slot × ℕ)
join_all [] = some ([], 0)
join_all (c ∷ cs) = elim (join_one c.state c.pc c) [
  | none ↦ none
  | some (d, k) ↦ elim (join_all cs) [ none ↦ none | some (rest, m) ↦ some (d ∷ rest, k + m) ]
]

-- The statements of `main`; `none` where it waits or has ended.
unfoldable pub main_func : MainPc → System → Option System
main_func (creating idx) s =
    if ltb idx (length s.threads)
    then some (record (at_thread idx (record { state = ts_alive; pc = sleeping }) s) {
      main = creating (suc idx);
    })
    else some
        (record s { tot_threads = length s.threads; num_live = length s.threads; main = outer })
main_func outer s = some (record s { main = if ltb 0 s.num_live then locking else exited })
main_func locking s = if s.mutex == 1 then some (record s { mutex = 0; main = inner }) else none
main_func inner s =
    if s.num_unjoined == 0
    then some (record s { mutex = 1; main = waiting })
    else some (record s { main = joining })
main_func waiting s = none
main_func woken s = if s.mutex == 1 then some (record s { mutex = 0; main = inner }) else none
main_func joining s = elim (join_all s.threads) [
  | none ↦ none
  | some (rest, k) ↦ some (record s {
    threads = rest;
    num_live = s.num_live - k;
    num_unjoined = s.num_unjoined - k;
    main = releasing;
  })
]
main_func releasing s = some (record s { mutex = 1; main = outer })
main_func exited s = none

-- Who takes a step: a thread, `main`, or the system, which lets `pthread_cond_wait` return early.
pub data Event : Type 0 where
  thread_runs : ℕ → Event
  main_runs : Event
  spurious : Event

-- `pthread_cond_wait` may return with no signal.
unfoldable pub return_early : MainPc → System → Option System
return_early waiting s = some (record s { main = woken })
return_early _ s = none

unfoldable pub step : Event → System → Option System
step (thread_runs i) s = elim (get_elem? s.threads i) [
  | none ↦ none
  | some c ↦ thread_func i c c.pc s
]
step main_runs s = main_func s.main s
step spurious s = return_early s.main s

-- The runs of the program with `n` threads: the events so far, the latest first.
pub data Run (n : ℕ) : List Event → System → Type 0 where
  start : Run n [] (init n)
  next :
      {es : List Event} {s t : System} (e : Event)
      → Run n es s
      → step e s ≡ some t
      → Run n (e ∷ es) t
