-- ===== src/Writers/Progress.antt =====
-- Neither process waits for ever.
use agh_operating_systems.Prelude.{
  ◌-◌, ◌<◌, ◌≡◌, ◌≢◌, refl, subst, List, [], ◌∷◌, some, ltb, arith, ◌⊎◌, inl, inr, Bool-cases,
}
use agh_operating_systems.Writers.Programs.{
  Call, show, lock, unlock, write_file, write_terminal, wait_child, remove,
}
use agh_operating_systems.Writers.Machine.{
  Role, parent, child, Machine, calls_of, with_calls, perform, advance, step,
}
use agh_operating_systems.Writers.Shape.{Mode, outside, inside, half, Shape}
use agh_operating_systems.Writers.Invariant.{Modes, mode_of, Inv, holds}

abbrev Runs : Role → List Call → Machine → Type 0
Runs r calls m = (n : Machine) × (advance r calls m ≡ some n)

-- A process that holds the semaphore can go on.
holder-Runs :
    (r : Role) (calls : List Call) (md : Mode) (m : Machine)
    → Shape r calls md
    → holds md ≡ 1
    → Runs r calls m
unfolding advance perform
holder-Runs r (show ∷ rest) md m h e = (_, refl)
holder-Runs r (unlock ∷ rest) inside m h e = (_, refl)
holder-Runs r (write_file t ∷ rest) inside m h e = (_, refl)
holder-Runs r (write_terminal t ∷ rest) (half t') m h e = (_, refl)
holder-Runs r _ outside m h e = absurd (omega arith)
holder-Runs r _ _ m h e = absurd h

-- While the semaphore is free, so can one that is outside, the parent if the child has ended.
free-Runs :
    (r : Role) (calls : List Call) (m : Machine)
    → Shape r calls outside
    → calls ≢ []
    → 0 < m.sem
    → (r ≡ parent → m.child_calls ≡ [])
    → Runs r calls m
unfolding advance perform
free-Runs r [] m h ne lt w = absurd (ne refl)
free-Runs r (show ∷ rest) m h ne lt w = (_, refl)
free-Runs r (lock ∷ rest) m h ne lt w = elim (Bool-cases (ltb 0 m.sem)) [
  | inl e ↦ (record (with_calls r rest m) { sem = m.sem - 1 }, rw e refl)
  | inr e ↦ absurd (ground arith)
]
free-Runs parent (wait_child ∷ rest) m h ne lt w = (with_calls parent rest m, rw (w refl) refl)
free-Runs child (wait_child ∷ rest) m h ne lt w = absurd (cc (h.0))
free-Runs r (remove ∷ rest) m h ne lt w = (_, refl)
free-Runs r _ m h ne lt w = absurd h

List-cases : (calls : List Call) → (calls ≡ []) ⊎ (calls ≢ [])
List-cases [] = inl refl
List-cases (c ∷ rest) = inr (λ e. absurd (cc))

free-outside : (md : Mode) → holds md ≡ 0 → md ≡ outside
free-outside outside e = refl
free-outside inside e = absurd (omega arith)
free-outside (half t) e = absurd (omega arith)

holds-cases : (md : Mode) → (holds md ≡ 0) ⊎ (holds md ≡ 1)
holds-cases outside = inl refl
holds-cases inside = inr refl
holds-cases (half t) = inr refl

abbrev pub IsDone : Machine → Type 0
IsDone m = (m.parent_calls ≡ []) × (m.child_calls ≡ [])

abbrev pub Moves : Machine → Type 0
Moves m = (r : Role) × (n : Machine) × (step r m ≡ some n)

module _ {d : Modes} {m : Machine} (v : Inv d m) where
  holder-Moves : (r : Role) → holds (mode_of r d) ≡ 1 → Moves m
  unfolding step
  holder-Moves r e =
      let (n, f) = holder-Runs r (calls_of r m) (mode_of r d) m (v.shape r) e in (r, n, f)

  free-Moves :
      (r : Role)
      → calls_of r m ≢ []
      → holds (mode_of r d) ≡ 0
      → 0 < m.sem
      → (r ≡ parent → m.child_calls ≡ [])
      → Moves m
  unfolding step
  free-Moves r ne e lt w =
      let h = subst (Shape r (calls_of r m)) (free-outside (mode_of r d) e) (v.shape r) in
      let (n, f) = free-Runs r (calls_of r m) m h ne lt w in (r, n, f)

  all_free-Moves : holds d.of_parent ≡ 0 → holds d.of_child ≡ 0 → IsDone m ⊎ Moves m
  all_free-Moves ep ec = elim (List-cases m.child_calls) [
    | inr ne ↦ inr (free-Moves child ne ec (omega (arith, v.locked)) (λ e. absurd (cc)))
    | inl done ↦ elim (List-cases m.parent_calls) [
      | inr ne ↦ inr (free-Moves parent ne ep (omega (arith, v.locked)) (λ e. done))
      | inl all ↦ inl (all, done)
    ]
  ]

  -- A process is left that can go on, or both have ended.
  pub Inv-Moves : IsDone m ⊎ Moves m
  Inv-Moves = elim (holds-cases d.of_parent) [
    | inr e ↦ inr (holder-Moves parent e)
    | inl ep ↦ elim (holds-cases d.of_child) [
      | inr e ↦ inr (holder-Moves child e)
      | inl ec ↦ all_free-Moves ep ec
    ]
  ]
