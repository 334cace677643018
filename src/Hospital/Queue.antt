-- ===== src/Hospital/Queue.antt =====
-- The pharmacists that wait for the doctor in cw10/assignment/main.c.
use agh_operating_systems.Prelude.{
  ℕ, zero, suc, ◌+◌, ◌-◌, ◌≤◌, ◌≡◌, refl, sym, ◌∙◌, Bool, true, false, List, [], ◌∷◌, some,
  get_elem?, replicate, arith, inl, inr, Option-cases, count, weight, count-set, count-pos,
}
use agh_operating_systems.Hospital.Threads.{
  Ward, Call, DoctorPc, at_loop, asleep, consulting, receiving, finished, PatientPc, outside,
  in_room, gone, PharmacistPc, travelling, for_space, in_queue, delivering, left, doctor_thread,
  look, serve, finish, enter, patient_thread, pharmacist_thread, arrive, deliver, complete,
}
use agh_operating_systems.Hospital.System.{
  System, init, Event, doctor_runs, patient_runs, pharmacist_runs, run_doctor, run_patient,
  run_pharmacist, step, run,
}

abbrev pub is_queued : PharmacistPc → Bool
is_queued in_queue = true
is_queued _ = false

-- While `done_flag` is not set, `waiting_pharmacists` counts the pharmacists in the queue.
abbrev pub Queued : System → Type 0
Queued s = s.ward.done_flag ≡ false → s.ward.waiting_pharmacists ≡ count is_queued s.pharmacists

-- A stretch of code that keeps the number of the waiting pharmacists, and does not take back `done_flag`.
abbrev Quiet : Ward → Ward → Type 0
Quiet w w' =
    (w'.waiting_pharmacists ≡ w.waiting_pharmacists) × (w'.done_flag ≡ false → w.done_flag ≡ false)

serve-Quiet : (w : Ward) → Quiet w (serve w).1
unfolding serve
serve-Quiet w = ground arith

look-Quiet : (w : Ward) → Quiet w (look w).1
unfolding look finish
look-Quiet w = ground (arith, serve-Quiet w)

doctor_thread-Quiet : (p : DoctorPc) (w : Ward) → Quiet w (doctor_thread p w).1
unfolding doctor_thread
doctor_thread-Quiet at_loop w = look-Quiet w
doctor_thread-Quiet asleep w = look-Quiet w
doctor_thread-Quiet (consulting ids) w = (refl, λ h. h)
doctor_thread-Quiet receiving w = (refl, λ h. h)
doctor_thread-Quiet finished w = (refl, λ h. h)

patient_thread-Quiet : (id : ℕ) (p : PatientPc) (w : Ward) → Quiet w (patient_thread id p w).1
unfolding patient_thread enter
patient_thread-Quiet id outside w = ground arith
patient_thread-Quiet id in_room w = (refl, λ h. h)
patient_thread-Quiet id gone w = (refl, λ h. h)

-- What a pharmacist does to the counter, in the absence of `done_flag`: it follows the queue.
abbrev Follows : PharmacistPc → Ward → PharmacistPc × Ward × List Call → Type 0
Follows p w (p', w', cs) =
    (w'.done_flag ≡ w.done_flag)
    × (w.done_flag ≡ false
        → weight is_queued p ≤ w.waiting_pharmacists
        → w'.waiting_pharmacists + weight is_queued p ≡ w.waiting_pharmacists + weight is_queued p')

complete-Follows : (w : Ward) → Follows delivering w (complete w)
unfolding complete
complete-Follows w = ground arith

deliver-Follows : (w : Ward) → Follows in_queue w (deliver w)
unfolding deliver
deliver-Follows w = ground (
  arith,
  complete-Follows
      (record w { pharmacist_served = false; waiting_pharmacists = w.waiting_pharmacists - 1 }),
)

arrive-Follows : (w : Ward) → Follows travelling w (arrive w)
unfolding arrive
arrive-Follows w =
    ground (arith, deliver-Follows (record w { waiting_pharmacists = w.waiting_pharmacists + 1 }))

pharmacist_thread-Follows : (p : PharmacistPc) (w : Ward) → Follows p w (pharmacist_thread p w)
unfolding pharmacist_thread
pharmacist_thread-Follows travelling w = arrive-Follows w
pharmacist_thread-Follows for_space w = arrive-Follows w
pharmacist_thread-Follows in_queue w = deliver-Follows w
pharmacist_thread-Follows delivering w = complete-Follows w
pharmacist_thread-Follows left w = (refl, λ d h. refl)

weight-le :
    (ps : List PharmacistPc) (i : ℕ) (p : PharmacistPc)
    → get_elem? ps i ≡ some p
    → weight is_queued p ≤ count is_queued ps
weight-le ps i p g = ground (arith, count-pos is_queued ps i p)

step-Queued : (e : Event) (s : System) → Queued s → Queued (step e s)
unfolding step run_doctor run_patient run_pharmacist
step-Queued doctor_runs s q = λ d. let (a, b) = doctor_thread-Quiet s.doctor s.ward in a ∙ q (b d)
step-Queued (patient_runs i) s q = elim (Option-cases (get_elem? s.patients i)) [
  | inl e ↦ rw (e, step, run_patient) q
  | inr (p, e) ↦
      rw (e, step, run_patient)
        (λ d. let (a, b) = patient_thread-Quiet (i + 1) p s.ward in a ∙ q (b d))
]
step-Queued (pharmacist_runs i) s q = elim (Option-cases (get_elem? s.pharmacists i)) [
  | inl e ↦ rw (e, step, run_pharmacist) q
  | inr (p, e) ↦
      rw (e, step, run_pharmacist)
        (λ d.
          let (a, b) = pharmacist_thread-Follows p s.ward in
          let d' = sym a ∙ d in
          omega (
            arith,
            q d',
            b d' (omega (arith, q d', weight-le s.pharmacists i p e)),
            count-set is_queued s.pharmacists i p (pharmacist_thread p s.ward).0 e,
          ))
]

run-from-Queued : (es : List Event) (s : System) → Queued s → Queued (run es s)
unfolding run
run-from-Queued [] s q = q
run-from-Queued (e ∷ es) s q = run-from-Queued es (step e s) (step-Queued e s q)

init-Queued : (m : ℕ) → count is_queued (replicate m travelling) ≡ 0
unfolding count
init-Queued zero = refl
init-Queued (suc m) = init-Queued m

-- In every run, while the doctor has not set `done_flag`, `waiting_pharmacists` is the number of pharmacists
-- that wait for the doctor.
pub run-queued :
    (es : List Event) (n m : ℕ)
    → (run es (init n m)).ward.done_flag ≡ false
    → (run es (init n m)).ward.waiting_pharmacists ≡ count is_queued (run es (init n m)).pharmacists
unfolding init
run-queued es n m = run-from-Queued es (init n m) (λ d. sym (init-Queued m))
