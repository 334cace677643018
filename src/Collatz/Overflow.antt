-- ===== src/Collatz/Overflow.antt =====
-- When the `int` of `test_collatz_convergence` in cw02/assignment/collatz.c overflows.
use agh_operating_systems.Prelude.{
  ℕ, zero, suc, ◌+◌, ◌-◌, ◌*◌, ◌%◌, ◌≤◌, ◌<◌, ◌≡◌, ◌↔◌, refl, sym, lt→ltb, List, [], ◌∷◌, ◌++◌,
  none, ltb, arith, Bool-cases, Option-cases, inl, inr, subst,
}
use agh_operating_systems.Collatz.Defs.{
  collatz_conjecture, converge, test_collatz_convergence, int_limit,
}
use agh_operating_systems.Collatz.Orbit.{next, iterate, collatz_conjecture-next}

-- Within `rounds` steps the orbit of `n` stays above 1 and comes to an odd number that cannot be
-- tripled in an `int`.
abbrev pub Overflows : ℕ → ℕ → Type 0
Overflows rounds n =
    (j : ℕ) × (j < rounds)
    × ((k : ℕ) → k ≤ j → 1 < iterate k n)
    × (iterate j n % 2 ≡ 1)
    × (int_limit ≤ 3 * iterate j n + 1)

step_overflows : (n : ℕ) → (collatz_conjecture n ≡ none) ↔ ((n % 2 ≡ 1) × (int_limit ≤ 3 * n + 1))
unfolding collatz_conjecture
step_overflows n = ((λ h. (ground arith, ground arith)), (λ p. ground (arith, p.0, p.1)))

above_later :
    (n j : ℕ)
    → 1 < n
    → ((k : ℕ) → k ≤ j → 1 < iterate k (next n))
    → (k : ℕ) → k ≤ suc j
    → 1 < iterate k n
unfolding iterate
above_later n j big h zero le = big
above_later n j big h (suc k) le = h k (omega arith)

at_start : (n : ℕ) → 1 < n → (k : ℕ) → k ≤ 0 → 1 < iterate k n
unfolding iterate
at_start n h zero le = h
at_start n h (suc k) le = absurd (omega arith)

converge-Overflows :
    (rounds n cnt : ℕ) (steps : List ℕ) → converge rounds n cnt steps ≡ none → Overflows rounds n
unfolding converge iterate
converge-Overflows zero n cnt steps h = absurd (ground arith)
converge-Overflows (suc rounds) n cnt steps h = elim (Bool-cases (ltb 1 n)) [
  | inr e ↦ absurd (ground arith)
  | inl e ↦ elim (Option-cases (collatz_conjecture n)) [
    | inl q ↦
        let (odd, big) = (step_overflows n).0 q in
        (0, omega arith, at_start n (ground arith), odd, big)
    | inr (m, q) ↦
        let (j, lt, above, odd, big) =
          converge-Overflows rounds m (cnt + 1) (steps ++ m ∷ []) (ground arith) in
        let mq = collatz_conjecture-next n m q in
        (
          suc j,
          omega arith,
          above_later n j (ground arith) (subst (λ x. (k : ℕ) → k ≤ j → 1 < iterate k x) mq above),
          subst (λ x. iterate j x % 2 ≡ 1) mq odd,
          subst (λ x. int_limit ≤ 3 * iterate j x + 1) mq big,
        )
  ]
]

Overflows-converge :
    (rounds n cnt : ℕ) (steps : List ℕ) → Overflows rounds n → converge rounds n cnt steps ≡ none
unfolding converge iterate
Overflows-converge zero n cnt steps (j, lt, above, odd, big) = absurd (omega arith)
Overflows-converge (suc rounds) n cnt steps (zero, lt, above, odd, big) =
    rw (converge, lt→ltb 1 n (above 0 (omega arith)), (step_overflows n).1 (odd, big)) refl
Overflows-converge (suc rounds) n cnt steps (suc j, lt, above, odd, big) =
    elim (Option-cases (collatz_conjecture n)) [
      | inl q ↦ rw (converge, lt→ltb 1 n (above 0 (omega arith)), q) refl
      | inr (m, q) ↦
          let mq = collatz_conjecture-next n m q in
          rw (converge, lt→ltb 1 n (above 0 (omega arith)), q)
            (Overflows-converge rounds m (cnt + 1) (steps ++ m ∷ []) (
              subst (Overflows rounds) (sym mq)
                (j, omega arith, (λ k le. above (suc k) (omega arith)), odd, big)))
    ]

-- The call has a result unless an `int` overflows, and that happens exactly if the orbit of the input, staying above 1,
-- comes to an odd `m` with `3 * m + 1` of 2^31 or more within the `max_iter - 1` steps that are
-- allowed.
pub test_collatz_convergence-Overflows :
    (input max_iter : ℕ)
    → (test_collatz_convergence input max_iter ≡ none) ↔ Overflows (max_iter - 1) input
unfolding test_collatz_convergence
test_collatz_convergence-Overflows input max_iter = (
  (λ h. converge-Overflows (max_iter - 1) input 1 (input ∷ []) (ground arith)),
  (λ o.
      rw (Overflows-converge (max_iter - 1) input 1 (input ∷ []) o, test_collatz_convergence) refl),
)
