-- ===== src/Hospital/Tests.antt =====
-- Concrete runs of cw10/assignment/main.c.
use agh_operating_systems.Prelude.{ℕ, ◌+◌, ◌%◌, ◌<◌, ◌≡◌, refl, false, List, [], ◌∷◌, length, count}
use agh_operating_systems.Hospital.Threads.{
  finished, doctor_thread, look, serve, finish, patient_thread, enter, pharmacist_thread, arrive,
  deliver, complete,
}
use agh_operating_systems.Hospital.System.{
  init, Event, doctor_runs, patient_runs, pharmacist_runs, run, step, run_doctor, run_patient,
  run_pharmacist,
}
use agh_operating_systems.Hospital.Invariant.{is_id, seated, seen}
use agh_operating_systems.Hospital.Consultations.{run-places, finished-consulted}
use agh_operating_systems.Hospital.Queue.{run-queued, is_queued}

-- Three patients enter and are consulted; a fourth enters during the consultation, and leaves on the
-- broadcast that ends it.
abbrev morning : List Event
morning =
    patient_runs 0
    ∷ patient_runs 1
    ∷ patient_runs 2
    ∷ doctor_runs
    ∷ patient_runs 3
    ∷ doctor_runs
    ∷ patient_runs 3
    ∷ []

run-places_example :
    count (is_id 3) (run morning (init 6 1)).consulted
      + count (is_id 3) (seated (run morning (init 6 1)).ward)
    ≡ seen (run morning (init 6 1)).patients 3
run-places_example = run-places morning 6 1 3

-- The doctor consults the only three patients and returns.
abbrev short_day : List Event
short_day =
    patient_runs 0 ∷ patient_runs 1 ∷ patient_runs 2 ∷ doctor_runs ∷ doctor_runs ∷ doctor_runs ∷ []

short_day_ends : (run short_day (init 3 1)).doctor ≡ finished
unfolding run step init run_doctor run_patient run_pharmacist doctor_thread look serve finish
    patient_thread enter
short_day_ends = refl

finished-consulted_example :
    (3 % 3 ≡ 0)
    × (length (run short_day (init 3 1)).consulted ≡ 3)
    × ((i : ℕ) → i < 3 → count (is_id i) (run short_day (init 3 1)).consulted ≡ 1)
finished-consulted_example = finished-consulted short_day 3 1 short_day_ends

-- Two consultations empty the cabinet, and a pharmacist queues.
abbrev empty_cabinet : List Event
empty_cabinet =
    patient_runs 0
    ∷ patient_runs 1
    ∷ patient_runs 2
    ∷ doctor_runs
    ∷ doctor_runs
    ∷ patient_runs 3
    ∷ patient_runs 4
    ∷ patient_runs 5
    ∷ doctor_runs
    ∷ doctor_runs
    ∷ pharmacist_runs 0
    ∷ []

cabinet_open : (run empty_cabinet (init 9 1)).ward.done_flag ≡ false
unfolding run step init run_doctor run_patient run_pharmacist doctor_thread look serve finish
    patient_thread enter pharmacist_thread arrive deliver complete
cabinet_open = refl

one_queued : (run empty_cabinet (init 9 1)).ward.waiting_pharmacists ≡ 1
unfolding run step init run_doctor run_patient run_pharmacist doctor_thread look serve finish
    patient_thread enter pharmacist_thread arrive deliver complete
one_queued = refl

run-queued_example :
    (run empty_cabinet (init 9 1)).ward.waiting_pharmacists
    ≡ count is_queued (run empty_cabinet (init 9 1)).pharmacists
run-queued_example = run-queued empty_cabinet 9 1 cabinet_open
