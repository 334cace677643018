-- ===== src/Hospital/Threads.antt =====
-- The threads of cw10/assignment/main.c. A function here is one stretch of a thread's code with the
-- mutex held: from `pthread_mutex_lock`, or from the return of `pthread_cond_wait`, to the next
-- wait or unlock. It gives the place where the thread stands afterwards, the new shared state and
-- the calls that wake others.
use agh_operating_systems.Prelude.{
  ℕ, ◌+◌, ◌-◌, Bool, true, false, ◌&&◌, ◌||◌, not, List, [], ◌∷◌, ◌==◌, ltb, leb, if◌then◌else◌,
  set, take,
}

abbrev pub apteka_capacity : ℕ
apteka_capacity = 6

-- The globals of the program. The decrements are at places where the variable is positive.
pub record Ward : Type 0 where
  pub waiting_patients : ℕ
  pub waiting_patient_ids : List ℕ
  pub meds : ℕ
  pub waiting_pharmacists : ℕ
  pub patients_treated : ℕ
  pub total_patients : ℕ
  pub done_flag : Bool
  pub pharmacist_served : Bool
  pub pharmacist_done : Bool

-- The condition variables.
pub data Cond : Type 0 where
  cond_doctor : Cond
  cond_patient : Cond
  cond_not_full : Cond
  cond_pharmacist_queue : Cond
  cond_pharmacist_done : Cond

pub data Call : Type 0 where
  signal : Cond → Call
  broadcast : Cond → Call

-- Where the doctor stands outside the mutex: before the loop's lock, in `pthread_cond_wait`, asleep
-- with three patients or with a delivery, returned.
pub data DoctorPc : Type 0 where
  at_loop : DoctorPc
  asleep : DoctorPc
  consulting : (ids : List ℕ) → DoctorPc
  receiving : DoctorPc
  finished : DoctorPc

pub data PatientPc : Type 0 where
  outside : PatientPc
  in_room : PatientPc
  gone : PatientPc

-- The waits of a pharmacist: for a place in the cabinet, for the doctor, for the end of the delivery.
pub data PharmacistPc : Type 0 where
  travelling : PharmacistPc
  for_space : PharmacistPc
  in_queue : PharmacistPc
  delivering : PharmacistPc
  left : PharmacistPc

-- `waiting_patients >= 3 && meds >= 3`
abbrev pub can_consult : Ward → Bool
can_consult w = leb 3 w.waiting_patients && leb 3 w.meds

-- `waiting_pharmacists > 0 && meds < APTEKA_CAPACITY`
abbrev pub can_receive : Ward → Bool
can_receive w = ltb 0 w.waiting_pharmacists && ltb w.meds apteka_capacity

unfoldable pub finish : Ward → DoctorPc × Ward × List Call
finish w = (
  finished,
  record w { done_flag = true },
  broadcast cond_not_full ∷ broadcast cond_pharmacist_queue ∷ [],
)

-- The doctor is awake: the two branches behind the wait.
unfoldable pub serve : Ward → DoctorPc × Ward × List Call
serve w =
    if can_consult w
    then (
      consulting (take 3 w.waiting_patient_ids),
      record w {
        waiting_patients = 0;
        meds = w.meds - 3;
        patients_treated = w.patients_treated + 3;
      },
      signal cond_not_full ∷ [],
    )
    else if can_receive w
    then (receiving, record w { pharmacist_served = true }, signal cond_pharmacist_queue ∷ [])
    else (at_loop, w, [])

-- From the lock, or from the wait: the test on the patients treated stands behind both.
unfoldable pub look : Ward → DoctorPc × Ward × List Call
look w =
    if leb w.total_patients w.patients_treated
    then finish w
    else if can_consult w || can_receive w
    then serve w
    else (asleep, w, [])

unfoldable pub doctor_thread : DoctorPc → Ward → DoctorPc × Ward × List Call
doctor_thread at_loop w = look w
doctor_thread asleep w = look w
doctor_thread (consulting ids) w = (at_loop, w, broadcast cond_patient ∷ [])
doctor_thread receiving w = (
  at_loop,
  record w { meds = apteka_capacity; pharmacist_done = true },
  signal cond_pharmacist_done ∷ [],
)
doctor_thread finished w = (finished, w, [])

-- A patient takes a chair.
unfoldable pub enter : ℕ → Ward → PatientPc × Ward × List Call
enter id w = (
  in_room,
  record w {
    waiting_patients = w.waiting_patients + 1;
    waiting_patient_ids = set w.waiting_patient_ids w.waiting_patients id;
  },
  if w.waiting_patients + 1 == 3 then signal cond_doctor ∷ [] else [],
)

unfoldable pub patient_thread : ℕ → PatientPc → Ward → PatientPc × Ward × List Call
patient_thread id outside w = if w.waiting_patients == 3 then (outside, w, []) else enter id w
patient_thread id in_room w = (gone, w, [])
patient_thread id gone w = (gone, w, [])

-- From the wait for the end of the delivery on.
unfoldable pub complete : Ward → PharmacistPc × Ward × List Call
complete w =
    if not w.pharmacist_done && not w.done_flag
    then (delivering, w, [])
    else if w.done_flag
    then (left, w, [])
    else (left, record w { pharmacist_done = false }, [])

-- From the wait for the doctor on.
unfoldable pub deliver : Ward → PharmacistPc × Ward × List Call
deliver w =
    if not w.pharmacist_served && not w.done_flag
    then (in_queue, w, [])
    else if w.done_flag
    then (left, w, [])
    else complete
        (record w { pharmacist_served = false; waiting_pharmacists = w.waiting_pharmacists - 1 })

abbrev with_call : Call → PharmacistPc × Ward × List Call → PharmacistPc × Ward × List Call
with_call c (p, w, cs) = (p, w, c ∷ cs)

-- From the lock, or from the wait for a place in the cabinet.
unfoldable pub arrive : Ward → PharmacistPc × Ward × List Call
arrive w =
    if (w.meds == apteka_capacity) && not w.done_flag
    then (for_space, w, [])
    else if w.done_flag
    then (left, w, [])
    else if ltb w.meds 3
    then with_call (signal cond_doctor)
        (deliver (record w { waiting_pharmacists = w.waiting_pharmacists + 1 }))
    else (left, w, [])

unfoldable pub pharmacist_thread : PharmacistPc → Ward → PharmacistPc × Ward × List Call
pharmacist_thread travelling w = arrive w
pharmacist_thread for_space w = arrive w
pharmacist_thread in_queue w = deliver w
pharmacist_thread delivering w = complete w
pharmacist_thread left w = (left, w, [])
