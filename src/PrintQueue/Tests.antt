-- ===== src/PrintQueue/Tests.antt =====
-- A run of the queue of cw08/assignment/main.c: user 0 puts a job in, and printer 3 reserves it.
use agh_operating_systems.Prelude.{ℕ, ◌≤◌, ◌≡◌, refl, List, [], ◌∷◌, ◌++◌, replicate, length, arith}
use agh_operating_systems.CString.{Bytes}
use agh_operating_systems.PrintQueue.System.{
  Pc, composing, read_job, compose, take_slot, lock_as_user, copy_in, advance_tail, unlock_as_user,
  give_job, take_job, lock_as_printer, System, Step, pick, Reach, start, later, entered, removed,
}
use agh_operating_systems.PrintQueue.Window.{window}
use agh_operating_systems.PrintQueue.Safety.{Reach-fifo, mutual_exclusion}
use agh_operating_systems.PrintQueue.Progress.{Reach-progress}

abbrev job_a : Bytes
job_a = replicate 10 b'a'

-- The printer has reserved the job and holds the mutex.
abbrev reading : System
reading = record {
  mem = record {
    jobs = job_a ∷ replicate 6 [];
    head = 0;
    tail = 1;
    mutex = 0;
    full = 0;
    empty = 6;
  };
  procs = composing ∷ composing ∷ composing ∷ read_job ∷ Pc.wait_full ∷ [];
  history_in = job_a ∷ [];
  history_out = [];
}

reading_reached : Reach reading
unfolding entered removed
reading_reached =
    later
      (later
        (later
          (later
            (later
              (later
                (later
                  (later (later start (pick 0 refl (compose job_a (omega arith))))
                    (pick 0 refl (take_slot (omega arith))))
                  (pick 0 refl (lock_as_user (omega arith))))
                (pick 0 refl copy_in))
              (pick 0 refl advance_tail))
            (pick 0 refl unlock_as_user))
          (pick 0 refl give_job))
        (pick 3 refl (take_job (omega arith))))
      (pick 3 refl (lock_as_printer (omega arith)))

Reach-fifo_example :
    (pending : List Bytes) × (job_a ∷ [] ≡ [] ++ pending)
    × (pending ≡ window reading.mem.jobs 0 (length pending))
    × (length pending ≤ 7)
Reach-fifo_example = Reach-fifo reading_reached

mutual_exclusion_example : ◌≡◌ {A = ℕ} 3 3
mutual_exclusion_example =
    mutual_exclusion 3 3 read_job read_job reading_reached refl refl refl refl

Reach-progress_example : (t : System) × Step reading t
Reach-progress_example = Reach-progress reading_reached
