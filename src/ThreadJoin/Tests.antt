-- ===== src/ThreadJoin/Tests.antt =====
-- A run of Funkcje/Mutex/main.c with one thread.
use agh_operating_systems.Prelude.{
  ◌+◌, ◌*◌, ◌≤◌, ◌≡◌, ◌≢◌, refl, List, [], ◌∷◌, some, length, total,
}
use agh_operating_systems.ThreadJoin.System.{
  TState, ThreadPc, ts_alive, ts_joined, sleeping, reaped, waiting, exited, System, init,
  thread_func, join_one, join_all, main_func, Event, thread_runs, main_runs, step, Run, start, next,
}
use agh_operating_systems.ThreadJoin.Outcome.{exited-joined}
use agh_operating_systems.ThreadJoin.Progress.{Run-progress, Own}
use agh_operating_systems.ThreadJoin.Termination.{Run-length, extra}

-- The thread is created, and `main` waits for it.
abbrev asleep : System
asleep = record {
  threads = record { state = ts_alive; pc = sleeping } ∷ [];
  tot_threads = 1;
  num_live = 1;
  num_unjoined = 0;
  mutex = 1;
  main = waiting;
}

abbrev to_sleep : List Event
to_sleep = main_runs ∷ main_runs ∷ main_runs ∷ main_runs ∷ main_runs ∷ []

to_sleep_runs : Run 1 to_sleep asleep
unfolding step thread_func main_func join_all join_one init
to_sleep_runs =
    next main_runs
      (next main_runs (next main_runs (next main_runs (next main_runs start refl) refl) refl) refl)
      refl

abbrev done : System
done = record {
  threads = record { state = ts_joined; pc = reaped } ∷ [];
  tot_threads = 1;
  num_live = 0;
  num_unjoined = 0;
  mutex = 1;
  main = exited;
}

abbrev to_end : List Event
to_end =
    main_runs
    ∷ main_runs
    ∷ main_runs
    ∷ main_runs
    ∷ main_runs
    ∷ thread_runs 0
    ∷ thread_runs 0
    ∷ thread_runs 0
    ∷ thread_runs 0
    ∷ thread_runs 0
    ∷ to_sleep

to_end_runs : Run 1 to_end done
unfolding step thread_func main_func join_all join_one init
to_end_runs =
    next main_runs
      (next main_runs
        (next main_runs
          (next main_runs
            (next main_runs
              (next (thread_runs 0)
                (next (thread_runs 0)
                  (next (thread_runs 0)
                    (next (thread_runs 0) (next (thread_runs 0) (to_sleep_runs) refl) refl) refl)
                  refl)
                refl)
              refl)
            refl)
          refl)
        refl)
      refl

exited-joined_example : (◌≡◌ {A = TState} ts_joined ts_joined) × (◌≡◌ {A = ThreadPc} reaped reaped)
exited-joined_example =
    exited-joined 0 (record { state = ts_joined; pc = reaped }) to_end_runs refl refl

awake : waiting ≢ exited
awake e = cc

Run-progress_example : (e : Event) × (t : System) × Own e × (step e asleep ≡ some t)
Run-progress_example = Run-progress to_sleep_runs awake

Run-length_example : length to_end ≤ 13 * 1 + 6 + total extra to_end
Run-length_example = Run-length to_end_runs
