-- ===== src/PipeIntegral/Tests.antt =====
-- cw06/assignment/zad1.c over the natural numbers, and the theorems applied to it.
use agh_operating_systems.Prelude.{
  ℕ, ◌+◌, ◌*◌, ◌/◌, ◌≤◌, ◌≡◌, refl, true, List, [], ◌∷◌, Option, none, some, ltb, length,
}
use agh_operating_systems.PipeIntegral.Area.{
  Double, f, area_loop, rectangle_area, child_area, child_areas,
}
use agh_operating_systems.PipeIntegral.System.{
  System, child_writes, parent_reads, init, write_part, read_part, step, Run, start, next,
}
use agh_operating_systems.PipeIntegral.Invariant.{parts, sum_from}
use agh_operating_systems.PipeIntegral.Outcome.{Run-total}

abbrev naturals : Double ℕ
naturals = record {
  nought = 0;
  one = 1;
  four = 4;
  add = λ x y. x + y;
  times = λ x y. x * y;
  divide = λ x y. x / y;
  less = ltb;
  of_int = λ n. n;
}

-- The one child of `k` = 1.
one_child : child_areas naturals 3 1 1 1 0 ≡ some 4 ∷ []
unfolding child_areas child_area rectangle_area area_loop f
one_child = refl

-- With dx = 0 the loop does not end, however much fuel there is.
no_step : rectangle_area naturals 100 0 2 0 ≡ none
unfolding rectangle_area area_loop
no_step = refl

-- In units of a half, so that the two children of `k` = 2 have the ranges 0 to 1 and 1 to 2.
abbrev halves : Double ℕ
halves = record naturals { one = 2 }

abbrev areas : List (Option ℕ)
areas = child_areas halves 3 1 2 2 0

both_areas : areas ≡ some 2 ∷ some 1 ∷ []
unfolding child_areas child_area rectangle_area area_loop f
both_areas = refl

-- The second child has written first, then the first, and the parent has read one part.
abbrev one_read : System ℕ
one_read = record {
  exited = true ∷ true ∷ [];
  pipes = none ∷ some 1 ∷ [];
  next_pipe = 1;
  total = 2;
}

to_one_read : Run halves areas 3 one_read
unfolding init step write_part read_part child_areas child_area rectangle_area area_loop f
to_one_read = next parent_reads (next (child_writes 0) (next (child_writes 1) start refl) refl) refl

-- The parent cannot read before the child has written.
no_part : step halves areas parent_reads (init halves areas) ≡ none
unfolding init step read_part child_areas child_area rectangle_area area_loop f
no_part = refl

Run-total_example :
    (one_read.total ≡ sum_from halves 0 (parts halves areas 1))
    × (length (parts halves areas 1) ≡ 1)
    × (3 ≤ 2 * length areas)
Run-total_example = Run-total halves areas to_one_read
