-- ===== src/Integral/Ranges.antt =====
-- How cw09/assignment/main.c shares the intervals out: the bounds of the threads.
use agh_operating_systems.Prelude.{ℕ, ◌+◌, ◌*◌, ◌/◌, ◌≤◌, ◌<◌, ◌≡◌, ◌∙◌, ap, arith, subst}
use native.Mathlib.Nat.{
  mul-div-le, le-div_iff_mul-le, mul-div_cancel_left, mul_comm, zero-mul, zero-div,
}
use agh_operating_systems.Integral.Threads.{start}

-- The bounds are in order, from 0 to `n`.
pub start_le : (k n id : ℕ) → 0 < k → start k n id ≤ start k n (id + 1)
unfolding start
start_le k n id h =
    (le-div_iff_mul-le h).1
      (omega (arith, subst (λ m. m ≤ id * n) (mul_comm k (id * n / k)) (mul-div-le (id * n) k)))

pub start_last : (k n : ℕ) → 0 < k → start k n k ≡ n
unfolding start
start_last k n h = mul-div_cancel_left n h

pub start_first : (k n : ℕ) → 0 < k → start k n 0 ≡ 0
unfolding start
start_first k n h = ap (λ m. m / k) (zero-mul n) ∙ zero-div k

-- Interval `i` is one of those that thread `id` of `k` sums.
pub record IsOf (k n i id : ℕ) : Type 0 where
  pub from_start : start k n id ≤ i
  pub to_end : i < start k n (id + 1)
