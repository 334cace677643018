-- ===== src/Collatz/Tests.antt =====
-- Runs of cw02/assignment/collatz.c, on inputs of client.c.
use agh_operating_systems.Prelude.{ℕ, ◌≡◌, ◌↔◌, refl, List, [], ◌∷◌, none, some, arith}
use agh_operating_systems.Collatz.Defs.{
  collatz_conjecture, converge, test_collatz_convergence, not_converged, report, run_inputs,
}
use agh_operating_systems.Collatz.Orbit.{Answers, test_collatz_convergence-Answers}
use agh_operating_systems.Collatz.Overflow.{Overflows, test_collatz_convergence-Overflows}

abbrev orbit_of_6 : List ℕ
orbit_of_6 = 6 ∷ 3 ∷ 10 ∷ 5 ∷ 16 ∷ 8 ∷ 4 ∷ 2 ∷ 1 ∷ []

six : test_collatz_convergence 6 300 ≡ some (8, orbit_of_6)
unfolding test_collatz_convergence converge collatz_conjecture
six = refl

-- The start value 1 gives 0, which client.c reads as a failure.
one : run_inputs 300 (1 ∷ 6 ∷ []) ≡ some (not_converged ∷ [])
unfolding run_inputs report test_collatz_convergence converge collatz_conjecture
one = refl

-- The last input of client.c overflows an `int`.
large_input : test_collatz_convergence 837799 300 ≡ none
unfolding test_collatz_convergence converge collatz_conjecture
large_input = refl

test_collatz_convergence-Answers_example : Answers 300 6 8 orbit_of_6
test_collatz_convergence-Answers_example =
    test_collatz_convergence-Answers 6 300 8 orbit_of_6 (omega arith) six

test_collatz_convergence-Overflows_example :
    (test_collatz_convergence 837799 300 ≡ none) ↔ Overflows 299 837799
test_collatz_convergence-Overflows_example = test_collatz_convergence-Overflows 837799 300
