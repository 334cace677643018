-- ===== src/Collatz/Defs.antt =====
-- `collatz_conjecture` and `test_collatz_convergence` of cw02/assignment/collatz.c, and the loop of
-- client.c. An `int` that is not negative is a natural number; `none` is a signed overflow.
use agh_operating_systems.Prelude.{
  ℕ, zero, suc, ◌+◌, ◌-◌, ◌*◌, ◌/◌, ◌%◌, ◌^◌, true, false, List, [], ◌∷◌, ◌++◌, Option, none, some,
  ◌==◌, ltb, if◌then◌else◌,
}

abbrev pub int_limit : ℕ
int_limit = 2 ^ 31

unfoldable pub collatz_conjecture : ℕ → Option ℕ
collatz_conjecture input =
    if input % 2 == 0
    then some (input / 2)
    else if ltb (3 * input + 1) int_limit
    then some (3 * input + 1)
    else none

-- The loop, with `max_iter - cnt` rounds left: `input`, `cnt` and the written part of `steps` when it
-- ends.
unfoldable pub converge : ℕ → ℕ → ℕ → List ℕ → Option (ℕ × ℕ × List ℕ)
converge zero input cnt steps = some (input, cnt, steps)
converge (suc rounds) input cnt steps = elim (ltb 1 input) [
  | true ↦ elim (collatz_conjecture input) [
    | none ↦ none
    | some next ↦ converge rounds next (cnt + 1) (steps ++ next ∷ [])
  ]
  | false ↦ some (input, cnt, steps)
]

-- The result and the written part of `steps`.
unfoldable pub test_collatz_convergence : ℕ → ℕ → Option (ℕ × List ℕ)
test_collatz_convergence input max_iter = elim (converge (max_iter - 1) input 1 (input ∷ [])) [
  | none ↦ none
  | some (last, cnt, steps) ↦ some ((if last == 1 then cnt - 1 else 0), steps)
]

-- What client.c prints for an input: the message that it did not converge, upon which `main` returns 1,
-- or the number of steps and the sequence.
pub data Report : Type 0 where
  not_converged : Report
  converged : ℕ → List ℕ → Report

unfoldable pub report : ℕ × List ℕ → Report
report (output, steps) = if output == 0 then not_converged else converged output steps

-- The loop of `main` in client.c over the inputs; `none` as above.
unfoldable pub run_inputs : ℕ → List ℕ → Option (List Report)
run_inputs max_iter [] = some []
run_inputs max_iter (input ∷ rest) = elim (test_collatz_convergence input max_iter) [
  | none ↦ none
  | some r ↦ elim (report r) [
    | not_converged ↦ some (not_converged ∷ [])
    | converged n steps ↦ elim (run_inputs max_iter rest) [
      | none ↦ none
      | some out ↦ some (converged n steps ∷ out)
    ]
  ]
]
