-- ===== src/Hospital/System.antt =====
-- The threads of cw10/assignment/main.c together. Any thread that has not returned can be the next to
-- hold the mutex: `pthread_cond_wait` may return without a signal, so the calls that wake
-- threads are recorded and restrict nothing.
use agh_operating_systems.Prelude.{
  ℕ, ◌+◌, false, List, [], ◌∷◌, ◌++◌, none, some, set, get_elem?, replicate,
}
use agh_operating_systems.Hospital.Threads.{
  Ward, Call, DoctorPc, at_loop, consulting, PatientPc, outside, PharmacistPc, travelling,
  doctor_thread, patient_thread, pharmacist_thread, apteka_capacity,
}

-- `consulted` holds the patients that the doctor has consulted so far, in order.
pub record System : Type 0 where
  pub ward : Ward
  pub doctor : DoctorPc
  pub patients : List PatientPc
  pub pharmacists : List PharmacistPc
  pub consulted : List ℕ
  pub calls : List Call

-- `main` behind its loops of `pthread_create`.
unfoldable pub init : ℕ → ℕ → System
init total_patients total_pharmacists = record {
  ward = record {
    waiting_patients = 0;
    waiting_patient_ids = replicate 3 0;
    meds = apteka_capacity;
    waiting_pharmacists = 0;
    patients_treated = 0;
    total_patients = total_patients;
    done_flag = false;
    pharmacist_served = false;
    pharmacist_done = false;
  };
  doctor = at_loop;
  patients = replicate total_patients outside;
  pharmacists = replicate total_pharmacists travelling;
  consulted = [];
  calls = [];
}

-- Whose stretch of code runs. The patient with index `i` has the id `i + 1`.
pub data Event : Type 0 where
  doctor_runs : Event
  patient_runs : ℕ → Event
  pharmacist_runs : ℕ → Event

-- The message "konsultuję pacjentów", printed when the doctor goes to consult.
abbrev pub announced : DoctorPc → List ℕ
announced (consulting ids) = ids
announced _ = []

unfoldable pub run_doctor : System → System
run_doctor s =
    let (p, w, cs) = doctor_thread s.doctor s.ward in
    record s { ward = w; doctor = p; consulted = s.consulted ++ announced p; calls = s.calls ++ cs }

unfoldable pub run_patient : ℕ → System → System
run_patient i s = elim (get_elem? s.patients i) [
  | none ↦ s
  | some p ↦
      let (p', w, cs) = patient_thread (i + 1) p s.ward in
      record s { ward = w; patients = set s.patients i p'; calls = s.calls ++ cs }
]

unfoldable pub run_pharmacist : ℕ → System → System
run_pharmacist i s = elim (get_elem? s.pharmacists i) [
  | none ↦ s
  | some p ↦
      let (p', w, cs) = pharmacist_thread p s.ward in
      record s { ward = w; pharmacists = set s.pharmacists i p'; calls = s.calls ++ cs }
]

unfoldable pub step : Event → System → System
step doctor_runs s = run_doctor s
step (patient_runs i) s = run_patient i s
step (pharmacist_runs i) s = run_pharmacist i s

unfoldable pub run : List Event → System → System
run [] s = s
run (e ∷ es) s = run es (step e s)
