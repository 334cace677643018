-- ===== src/Integral/Threads.antt =====
-- cw09/assignment/main.c: the integral of 4 / (x * x + 1), summed by threads. The operations of the type
-- `long double` are a parameter.
use agh_operating_systems.Prelude.{ℕ, zero, suc, ◌+◌, ◌-◌, ◌*◌, ◌/◌, List, [], ◌∷◌}

-- What the source uses of `long double`: three constants, +, *, / and the conversion of an integer.
pub record Arithmetic (F : Type 0) : Type 0 where
  pub nought : F
  pub one : F
  pub four : F
  pub add : F → F → F
  pub times : F → F → F
  pub divide : F → F → F
  pub of_int : ℕ → F

-- `id * n / k`: where thread `id` starts, and where the one before it ends.
unfoldable pub start : ℕ → ℕ → ℕ → ℕ
start k n id = id * n / k

module _ {F : Type 0} (a : Arithmetic F) where
  unfoldable pub f : F → F
  f x = a.divide a.four (a.add (a.times x x) a.one)

  -- The loop of `thread_function`, with the rounds that are left.
  unfoldable pub rounds : F → ℕ → F → F → F
  rounds dx zero x local_sum = local_sum
  rounds dx (suc r) x local_sum = rounds dx r (a.add x dx) (a.add local_sum (a.times (f x) dx))

  -- What thread `id` of `k` writes into `results[id]`.
  unfoldable pub thread_function : F → ℕ → ℕ → ℕ → F
  thread_function dx k n id =
      rounds dx (start k n (id + 1) - start k n id) (a.times (a.of_int (start k n id)) dx) a.nought

  -- `results` from thread `id` on, for the given number of threads.
  unfoldable pub results : F → ℕ → ℕ → ℕ → ℕ → List F
  results dx k n zero id = []
  results dx k n (suc left) id = thread_function dx k n id ∷ results dx k n left (id + 1)

  -- The loop of `main` that adds the results.
  unfoldable pub sum_results : List F → F → F
  sum_results [] total = total
  sum_results (r ∷ rs) total = sum_results rs (a.add total r)

  -- The total that `main` prints, for `k` threads and `n` intervals.
  unfoldable pub integral : F → ℕ → ℕ → F
  integral dx k n = sum_results (results dx k n k 0) a.nought
