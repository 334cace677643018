-- ===== src/Hospital/Room.antt =====
-- The pharmacists of cw10/assignment/main.c do not interfere with the patients and the doctor.
use agh_operating_systems.Prelude.{◌+◌, ◌-◌, ◌≡◌, refl, false, List, arith}
use agh_operating_systems.Hospital.Threads.{
  Ward, Call, PharmacistPc, travelling, for_space, in_queue, delivering, left, pharmacist_thread,
  arrive, deliver, complete,
}

-- A pharmacist leaves the patients and the cabinet alone.
abbrev pub SameRoom : Ward → PharmacistPc × Ward × List Call → Type 0
SameRoom w (p, w', cs) =
    (w'.waiting_patients ≡ w.waiting_patients)
    × (w'.waiting_patient_ids ≡ w.waiting_patient_ids)
    × (w'.meds ≡ w.meds)
    × (w'.patients_treated ≡ w.patients_treated)
    × (w'.total_patients ≡ w.total_patients)
    × (w'.done_flag ≡ w.done_flag)

complete-SameRoom : (w : Ward) → SameRoom w (complete w)
unfolding complete
complete-SameRoom w = ground arith

deliver-SameRoom : (w : Ward) → SameRoom w (deliver w)
unfolding deliver
deliver-SameRoom w = ground (
  arith,
  complete-SameRoom
      (record w { pharmacist_served = false; waiting_pharmacists = w.waiting_pharmacists - 1 }),
)

arrive-SameRoom : (w : Ward) → SameRoom w (arrive w)
unfolding arrive
arrive-SameRoom w =
    ground (arith, deliver-SameRoom (record w { waiting_pharmacists = w.waiting_pharmacists + 1 }))

pub pharmacist_thread-SameRoom : (p : PharmacistPc) (w : Ward) → SameRoom w (pharmacist_thread p w)
unfolding pharmacist_thread
pharmacist_thread-SameRoom travelling w = arrive-SameRoom w
pharmacist_thread-SameRoom for_space w = arrive-SameRoom w
pharmacist_thread-SameRoom in_queue w = deliver-SameRoom w
pharmacist_thread-SameRoom delivering w = complete-SameRoom w
pharmacist_thread-SameRoom left w = (refl, refl, refl, refl, refl, refl)
