-- ===== src/Hospital/Consultations.antt =====
-- Who is consulted in a run of cw10/assignment/main.c, and the bounds of its variables.
use agh_operating_systems.Prelude.{
  ℕ, zero, suc, ◌+◌, ◌%◌, ◌≤◌, ◌<◌, ◌≡◌, ◌⊎◌, sym, ◌∙◌, List, [], ◌∷◌, ◌++◌, take, length, arith,
  ap, subst, count, count-le, count-append, append-nil,
}
use agh_operating_systems.Hospital.Threads.{PatientPc, finished}
use agh_operating_systems.Hospital.System.{System, init, Event, run}
use agh_operating_systems.Hospital.Invariant.{Inv, Closed, has_entered, seen, seated, is_id}
use agh_operating_systems.Hospital.Runs.{run-Inv}

-- All entries pass the test: so does each.
count-full :
    (ps : List PatientPc) (i : ℕ) → count has_entered ps ≡ length ps → i < length ps → seen ps i ≡ 1
unfolding count
count-full [] i h lt = absurd (omega arith)
count-full (p ∷ ps) zero h lt = ground (arith, count-le has_entered ps)
count-full (p ∷ ps) (suc i) h lt =
    count-full ps i (ground (arith, count-le has_entered ps)) (omega arith)

-- In every run with `n` patients: how often the id of patient `i` stands among those consulted and on
-- the taken chairs together is 1 once the patient has entered, and 0 before (and for an id that no
-- patient has). So no one is consulted twice, or without having entered.
pub run-places :
    (es : List Event) (n m i : ℕ)
    → count (is_id i) (run es (init n m)).consulted
        + count (is_id i) (seated (run es (init n m)).ward)
      ≡ seen (run es (init n m)).patients i
run-places es n m i =
    let s : System = run es (init n m) in
    sym (count-append (is_id i) s.consulted (seated s.ward)) ∙ (run-Inv es n m).places i

-- In every run the chairs are three and at most three are taken, the cabinet holds 0, 3 or 6 medicines, and
-- the doctor has treated as many patients as the list of those consulted has, a multiple
-- of 3 that is at most `n`.
pub run-bounds :
    (es : List Event) (n m : ℕ)
    → let s = run es (init n m) in
      (length s.ward.waiting_patient_ids ≡ 3)
      × (s.ward.waiting_patients ≤ 3)
      × ((s.ward.meds ≡ 0) ⊎ (s.ward.meds ≡ 3) ⊎ (s.ward.meds ≡ 6))
      × (length s.consulted ≡ s.ward.patients_treated)
      × (s.ward.patients_treated % 3 ≡ 0)
      × (s.ward.patients_treated + s.ward.waiting_patients ≤ n)
run-bounds es n m =
    let v = run-Inv es n m in
    (
      v.sound.chairs,
      v.sound.room,
      ground (arith, v.sound.packed, v.sound.stock),
      v.treated,
      v.sound.groups,
      omega (arith, v.crowd, v.everyone, count-le has_entered (run es (init n m)).patients),
    )

-- When the doctor's thread has returned, the number of patients is a multiple of 3, and each of them
-- has been consulted exactly once.
pub finished-consulted :
    (es : List Event) (n m : ℕ)
    → (run es (init n m)).doctor ≡ finished
    → (n % 3 ≡ 0)
      × (length (run es (init n m)).consulted ≡ n)
      × ((i : ℕ) → i < n → count (is_id i) (run es (init n m)).consulted ≡ 1)
finished-consulted es n m h =
    let s : System = run es (init n m) in
    let v : Inv n s = run-Inv es n m in
    let le : n ≤ s.ward.patients_treated = subst (Closed n s.ward.patients_treated) h v.closed in
    let up : count has_entered s.patients ≤ length s.patients = count-le has_entered s.patients in
    let empty : s.ward.waiting_patients ≡ 0 = omega (arith, v.crowd, v.everyone) in
    let all : count has_entered s.patients ≡ length s.patients =
      omega (arith, v.crowd, v.everyone) in
    (
      omega (arith, v.sound.groups, v.crowd, v.everyone),
      omega (arith, v.treated, v.crowd, v.everyone),
      (λ i lt.
          ap (count (is_id i)) (
            sym (append-nil s.consulted)
            ∙ ap (λ k. s.consulted ++ take k s.ward.waiting_patient_ids) (sym empty))
          ∙ v.places i
          ∙ count-full s.patients i all (omega (arith, v.everyone))),
    )
