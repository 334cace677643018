-- ===== src/Integral/Tests.antt =====
-- cw09/assignment/main.c on small numbers, with the arithmetic of the natural numbers in place of `long double`.
use agh_operating_systems.Prelude.{ℕ, ◌+◌, ◌*◌, ◌/◌, ◌≡◌, refl, arith}
use agh_operating_systems.Integral.Threads.{
  Arithmetic, integral, f, start, rounds, thread_function, results, sum_results,
}
use agh_operating_systems.Integral.Exact.{IsExact}

abbrev naturals : Arithmetic ℕ
naturals = record {
  nought = 0;
  one = 1;
  four = 4;
  add = λ x y. x + y;
  times = λ x y. x * y;
  divide = λ x y. x / y;
  of_int = λ n. n;
}

naturals-IsExact : IsExact naturals
naturals-IsExact = record {
  add_assoc = λ x y z. omega arith;
  add_nought = λ x. omega arith;
  nought_add = λ x. omega arith;
  next_point = λ dx i. omega arith;
}

-- f(0) = 4, f(1) = 2, and 0 from there on.
three_threads : integral naturals 1 3 7 ≡ 6
unfolding integral f start rounds thread_function results sum_results
three_threads = refl

-- Seven intervals for three threads: 0 and 1, 2 and 3, 4 to 6.
bounds : (start 3 7 1 ≡ 2) × (start 3 7 2 ≡ 4)
unfolding start
bounds = (refl, refl)
