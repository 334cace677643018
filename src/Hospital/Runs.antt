-- ===== src/Hospital/Runs.antt =====
-- Every run of the threads of cw10/assignment/main.c keeps the invariant.
use agh_operating_systems.Prelude.{
  ℕ, zero, suc, ◌+◌, ◌<◌, ◌≡◌, refl, sym, ◌∙◌, List, [], ◌∷◌, ◌++◌, some, ◌==◌, if◌then◌else◌,
  get_elem?, set, take, length, replicate, arith, ap, ap₂, subst, inl, inr, Bool-cases,
  Option-cases, count, weight, count-set, count-append, length-set, append_assoc, take-set,
  length-replicate,
}
use mathlib.Core.Bool.{false≢true}
use agh_operating_systems.Hospital.Threads.{
  Call, PatientPc, outside, in_room, gone, enter, patient_thread,
}
use agh_operating_systems.Hospital.System.{
  System, init, Event, doctor_runs, patient_runs, pharmacist_runs, run_patient, run_pharmacist,
  step, run,
}
use agh_operating_systems.Hospital.Room.{pharmacist_thread-SameRoom}
use agh_operating_systems.Hospital.Invariant.{Closed, Inv, has_entered, seen, is_id, run_doctor-Inv}

run_pharmacist-Inv : {n : ℕ} (i : ℕ) (s : System) → Inv n s → Inv n (run_pharmacist i s)
unfolding run_pharmacist
run_pharmacist-Inv {n} i s v = elim (Option-cases (get_elem? s.pharmacists i)) [
  | inl e ↦ rw (e, run_pharmacist) v
  | inr (p, e) ↦
      rw (e, run_pharmacist)
        (let (a, b, c, d, t, f) = pharmacist_thread-SameRoom p s.ward in
          record {
            sound = record {
              total = t ∙ v.sound.total;
              chairs = ap length b ∙ v.sound.chairs;
              room = omega (arith, a, v.sound.room);
              packed = omega (arith, c, v.sound.packed);
              stock = omega (arith, c, v.sound.stock);
              groups = omega (arith, d, v.sound.groups);
              flagged = λ h. omega (arith, d, v.sound.flagged (sym f ∙ h));
            };
            everyone = v.everyone;
            treated = v.treated ∙ sym d;
            crowd = ap₂ ◌+◌ d a ∙ v.crowd;
            places =
                λ k. ap (count (is_id k)) (ap (λ l. s.consulted ++ l) (ap₂ take a b)) ∙ v.places k;
            closed = subst (λ m. Closed n m s.doctor) (sym d) v.closed;
          })
]

seen-set :
    (ps : List PatientPc) (i k : ℕ) (p q : PatientPc)
    → get_elem? ps i ≡ some p
    → seen (set ps i q) k + (if k == i then weight has_entered p else 0)
      ≡ seen ps k + (if k == i then weight has_entered q else 0)
seen-set [] i k p q g = absurd (cc)
seen-set (x ∷ ps) zero zero p q g = ground arith
seen-set (x ∷ ps) zero (suc k) p q g = ground arith
seen-set (x ∷ ps) (suc i) zero p q g = ground arith
seen-set (x ∷ ps) (suc i) (suc k) p q g = ground (arith, seen-set ps i k p q g)

seen-same :
    (ps : List PatientPc) (i k : ℕ) (p q : PatientPc)
    → get_elem? ps i ≡ some p
    → weight has_entered p ≡ weight has_entered q
    → seen (set ps i q) k ≡ seen ps k
seen-same ps i k p q g e = ground (arith, seen-set ps i k p q g)

-- The list of those consulted and those on a chair grows by the patient who enters.
places-enter :
    (out ids : List ℕ) (w i k : ℕ)
    → w < length ids
    → count (is_id k) (out ++ take (w + 1) (set ids w (i + 1)))
      ≡ count (is_id k) (out ++ take w ids) + (if k == i then 1 else 0)
unfolding count
places-enter out ids w i k h =
    let next : w + 1 ≡ suc w = omega arith in
    let e : take (w + 1) (set ids w (i + 1)) ≡ take w ids ++ (i + 1) ∷ [] =
      ap (λ m. take m (set ids w (i + 1))) next ∙ take-set w ids (i + 1) h in
    let single : count (is_id k) ((i + 1) ∷ []) ≡ (if k == i then 1 else 0) = ground arith in
    ap (count (is_id k)) (ap (λ l. out ++ l) e ∙ sym (append_assoc out (take w ids) ((i + 1) ∷ [])))
    ∙ count-append (is_id k) (out ++ take w ids) ((i + 1) ∷ [])
    ∙ ap (λ m. count (is_id k) (out ++ take w ids) + m) single

module _ {n : ℕ} (i : ℕ) (s : System) (v : Inv n s) where
  -- A patient who has a chair goes on.
  stay-Inv :
      (p q : PatientPc)
      → get_elem? s.patients i ≡ some p
      → weight has_entered p ≡ weight has_entered q
      → (cs : List Call) → Inv n (record s { patients = set s.patients i q; calls = cs })
  stay-Inv p q g e cs = record {
    sound = v.sound;
    everyone = length-set s.patients i q ∙ v.everyone;
    treated = v.treated;
    crowd = omega (arith, v.crowd, count-set has_entered s.patients i p q g, e);
    places = λ k. v.places k ∙ sym (seen-same s.patients i k p q g e);
    closed = v.closed;
  }

  enter-Inv :
      get_elem? s.patients i ≡ some outside
      → s.ward.waiting_patients < 3
      → Inv n (record s {
        ward = (enter (i + 1) s.ward).1;
        patients = set s.patients i in_room;
        calls = s.calls ++ (enter (i + 1) s.ward).2;
      })
  unfolding enter
  enter-Inv g lt = record {
    sound = record {
      total = v.sound.total;
      chairs = length-set s.ward.waiting_patient_ids _ _ ∙ v.sound.chairs;
      room = omega arith;
      packed = v.sound.packed;
      stock = v.sound.stock;
      groups = v.sound.groups;
      flagged = v.sound.flagged;
    };
    everyone = length-set s.patients i in_room ∙ v.everyone;
    treated = v.treated;
    crowd = omega (arith, v.crowd, count-set has_entered s.patients i outside in_room g);
    places = λ k.
        places-enter s.consulted s.ward.waiting_patient_ids s.ward.waiting_patients i k
          (omega (arith, v.sound.chairs))
        ∙ ground (arith, v.places k, seen-set s.patients i k outside in_room g);
    closed = v.closed;
  }

run_patient-Inv : {n : ℕ} (i : ℕ) (s : System) → Inv n s → Inv n (run_patient i s)
unfolding run_patient patient_thread enter
run_patient-Inv {n} i s v = elim (Option-cases (get_elem? s.patients i)) [
  | inl e ↦ rw (e, run_patient) v
  | inr (outside, e) ↦ elim (Bool-cases (s.ward.waiting_patients == 3)) [
    | inl f ↦ rw (e, run_patient, patient_thread, f) (stay-Inv i s v outside outside e refl _)
    | inr f ↦
        rw (e, run_patient, patient_thread, f) (enter-Inv i s v e (ground (arith, v.sound.room)))
  ]
  | inr (in_room, e) ↦ rw (e, run_patient, patient_thread) (stay-Inv i s v in_room gone e refl _)
  | inr (gone, e) ↦ rw (e, run_patient, patient_thread) (stay-Inv i s v gone gone e refl _)
]

seen-outside : (n k : ℕ) → seen (replicate n outside) k ≡ 0
seen-outside zero k = refl
seen-outside (suc n) zero = refl
seen-outside (suc n) (suc k) = seen-outside n k

count-outside : (n : ℕ) → count has_entered (replicate n outside) ≡ 0
unfolding count
count-outside zero = refl
count-outside (suc n) = count-outside n

init-Inv : (n m : ℕ) → Inv n (init n m)
unfolding init count
init-Inv n m = record {
  sound = record {
    total = refl;
    chairs = refl;
    room = omega arith;
    packed = refl;
    stock = omega arith;
    groups = refl;
    flagged = λ h. absurd (false≢true h);
  };
  everyone = length-replicate n outside;
  treated = refl;
  crowd = sym (count-outside n);
  places = λ i. sym (seen-outside n i);
  closed = tt;
}

step-Inv : {n : ℕ} (e : Event) (s : System) → Inv n s → Inv n (step e s)
unfolding step
step-Inv doctor_runs s v = run_doctor-Inv s v
step-Inv (patient_runs i) s v = run_patient-Inv i s v
step-Inv (pharmacist_runs i) s v = run_pharmacist-Inv i s v

run-from-Inv : {n : ℕ} (es : List Event) (s : System) → Inv n s → Inv n (run es s)
unfolding run
run-from-Inv [] s v = v
run-from-Inv (e ∷ es) s v = run-from-Inv es (step e s) (step-Inv e s v)

pub run-Inv : (es : List Event) (n m : ℕ) → Inv n (run es (init n m))
run-Inv es n m = run-from-Inv es (init n m) (init-Inv n m)
