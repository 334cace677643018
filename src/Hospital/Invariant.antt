-- ===== src/Hospital/Invariant.antt =====
-- What holds whenever no thread of cw10/assignment/main.c holds the mutex.
use agh_operating_systems.Prelude.{
  ℕ, ◌+◌, ◌-◌, ◌%◌, ◌≤◌, ◌≡◌, refl, ◌∙◌, Bool, true, false, ◌||◌, List, [], ◌++◌, none, some, ◌==◌,
  leb, get_elem?, take, length, arith, ap, inl, inr, Bool-cases, count, weight, length-append,
  append-nil, append_assoc, take_all, if_rule,
}
use agh_operating_systems.Hospital.Threads.{
  Ward, DoctorPc, at_loop, asleep, consulting, receiving, finished, Call, PatientPc, outside,
  doctor_thread, look, serve, finish, can_consult, can_receive, apteka_capacity,
}
use agh_operating_systems.Hospital.System.{System, announced, run_doctor}

-- A patient who has taken a chair at some time.
abbrev pub has_entered : PatientPc → Bool
has_entered outside = false
has_entered _ = true

abbrev pub seen : List PatientPc → ℕ → ℕ
seen ps i = elim (get_elem? ps i) [ none ↦ 0 | some p ↦ weight has_entered p ]

abbrev pub is_id : ℕ → ℕ → Bool
is_id i x = x == i + 1

-- The chairs that are taken.
abbrev pub seated : Ward → List ℕ
seated w = take w.waiting_patients w.waiting_patient_ids

abbrev pub Closed : ℕ → ℕ → DoctorPc → Type 0
Closed n treated finished = n ≤ treated
Closed n treated _ = Unit

-- The numbers of the shared state, for `n` patients.
pub record Sound (n : ℕ) (w : Ward) : Type 0 where
  pub total : w.total_patients ≡ n
  pub chairs : length w.waiting_patient_ids ≡ 3
  pub room : w.waiting_patients ≤ 3
  pub packed : w.meds % 3 ≡ 0
  pub stock : w.meds ≤ apteka_capacity
  pub groups : w.patients_treated % 3 ≡ 0
  pub flagged : w.done_flag ≡ true → n ≤ w.patients_treated

pub record Inv (n : ℕ) (s : System) : Type 0 where
  pub sound : Sound n s.ward
  pub everyone : length s.patients ≡ n
  pub treated : length s.consulted ≡ s.ward.patients_treated
  pub crowd : s.ward.patients_treated + s.ward.waiting_patients ≡ count has_entered s.patients
  pub places : (i : ℕ) → count (is_id i) (s.consulted ++ seated s.ward) ≡ seen s.patients i
  pub closed : Closed n s.ward.patients_treated s.doctor

-- What a stretch of the doctor's code does, in terms of the state before it.
record Turn (n : ℕ) (w : Ward) (p' : DoctorPc) (w' : Ward) : Type 0 where
  sound : Sound n w'
  moved : announced p' ++ seated w' ≡ seated w
  treated : w'.patients_treated ≡ w.patients_treated + length (announced p')
  sum : w'.patients_treated + w'.waiting_patients ≡ w.patients_treated + w.waiting_patients
  closed : Closed n w'.patients_treated p'

abbrev Turns : ℕ → Ward → DoctorPc × Ward × List Call → Type 0
Turns n w (p, w', cs) = Turn n w p w'

ready : (w : Ward) → can_consult w ≡ true → (3 ≤ w.waiting_patients) × (3 ≤ w.meds)
ready w h = ground arith

module _ {n : ℕ} {w : Ward} (v : Sound n w) where
  -- The doctor goes somewhere else, and at most notes that a pharmacist is served.
  idle_Turn :
      (p : DoctorPc) (served : Bool)
      → announced p ≡ []
      → Closed n w.patients_treated p
      → Turn n w p (record w { pharmacist_served = served })
  idle_Turn p served e c = record {
    sound = record {
      total = v.total;
      chairs = v.chairs;
      room = v.room;
      packed = v.packed;
      stock = v.stock;
      groups = v.groups;
      flagged = v.flagged;
    };
    moved = ap (λ l. l ++ seated w) e;
    treated = omega (arith, ap length e);
    sum = refl;
    closed = c;
  }

  full : can_consult w ≡ true → 3 ≡ w.waiting_patients
  full h = omega (arith, ready w h, v.room)

  consult_Turn :
      can_consult w ≡ true
      → Turn n w (consulting (take 3 w.waiting_patient_ids)) (record w {
        waiting_patients = 0;
        meds = w.meds - 3;
        patients_treated = w.patients_treated + 3;
      })
  consult_Turn h = record {
    sound = record {
      total = v.total;
      chairs = v.chairs;
      room = omega arith;
      packed = omega (arith, v.packed, ready w h);
      stock = omega (arith, v.stock);
      groups = omega (arith, v.groups);
      flagged = λ f. omega (arith, v.flagged f);
    };
    moved =
        append-nil (take 3 w.waiting_patient_ids) ∙ ap (λ k. take k w.waiting_patient_ids) (full h);
    treated =
        omega
          (arith, ap length (take_all 3 w.waiting_patient_ids (omega (arith, v.chairs))), v.chairs);
    sum = omega (arith, full h);
    closed = tt;
  }

  serve-Turn : Turns n w (serve w)
  unfolding serve
  serve-Turn = elim (Bool-cases (can_consult w)) [
    | inl e ↦ rw (e) (consult_Turn e)
    | inr e ↦ rw (e) (
        if_rule (Turns n w) (can_receive w) (receiving, record w { pharmacist_served = true }, _)
          (at_loop, w, _) (idle_Turn receiving true refl tt)
          (idle_Turn at_loop w.pharmacist_served refl tt))
  ]

  finish-Turn : n ≤ w.patients_treated → Turns n w (finish w)
  unfolding finish
  finish-Turn h = record {
    sound = record {
      total = v.total;
      chairs = v.chairs;
      room = v.room;
      packed = v.packed;
      stock = v.stock;
      groups = v.groups;
      flagged = λ _. h;
    };
    moved = refl;
    treated = omega arith;
    sum = refl;
    closed = h;
  }

  look-Turn : Turns n w (look w)
  unfolding look
  look-Turn = elim (Bool-cases (leb w.total_patients w.patients_treated)) [
    | inl e ↦ rw (e) (finish-Turn (ground (arith, v.total)))
    | inr e ↦ rw (e) (
        if_rule (Turns n w) (can_consult w || can_receive w) (serve w) (asleep, w, []) serve-Turn
          (idle_Turn asleep w.pharmacist_served refl tt))
  ]

  wake-Turn : (p : DoctorPc) → Closed n w.patients_treated p → Turns n w (doctor_thread p w)
  unfolding doctor_thread
  wake-Turn at_loop c = look-Turn
  wake-Turn asleep c = look-Turn
  wake-Turn (consulting ids) c = idle_Turn at_loop w.pharmacist_served refl tt
  wake-Turn receiving c = record {
    sound = record {
      total = v.total;
      chairs = v.chairs;
      room = v.room;
      packed = refl;
      stock = omega arith;
      groups = v.groups;
      flagged = v.flagged;
    };
    moved = refl;
    treated = omega arith;
    sum = refl;
    closed = tt;
  }
  wake-Turn finished c = idle_Turn finished w.pharmacist_served refl c

pub run_doctor-Inv : {n : ℕ} (s : System) → Inv n s → Inv n (run_doctor s)
unfolding run_doctor
run_doctor-Inv {n} s v =
    let t : Turn n s.ward (doctor_thread s.doctor s.ward).0 (doctor_thread s.doctor s.ward).1 =
      wake-Turn v.sound s.doctor v.closed in
    record {
      sound = t.sound;
      everyone = v.everyone;
      treated = omega (
        arith,
        length-append s.consulted (announced (doctor_thread s.doctor s.ward).0),
        v.treated,
        t.treated,
      );
      crowd = t.sum ∙ v.crowd;
      places = λ i.
          ap (count (is_id i)) (append_assoc s.consulted _ _ ∙ ap (λ l. s.consulted ++ l) t.moved)
          ∙ v.places i;
      closed = t.closed;
    }
