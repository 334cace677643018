-- ===== src/Integral/Exact.antt =====
-- What the threads of cw09/assignment/main.c would compute together if the arithmetic were exact, which
-- `long double` is not: there each thread starts from a product and adds up, so the sums differ in the rounding.
use agh_operating_systems.Prelude.{ℕ, zero, suc, ◌+◌, ◌-◌, ◌<◌, ◌≡◌, sym, ◌∙◌, arith, ap, ap₂}
use agh_operating_systems.Integral.Ranges.{start_le, start_first, start_last}
use agh_operating_systems.Integral.Threads.{
  Arithmetic, start, f, rounds, thread_function, results, sum_results, integral,
}

-- The laws of exact arithmetic that the sum needs; `long double` rounds.
pub record IsExact {F : Type 0} (a : Arithmetic F) : Type 0 where
  pub add_assoc : (x y z : F) → a.add (a.add x y) z ≡ a.add x (a.add y z)
  pub add_nought : (x : F) → a.add x a.nought ≡ x
  pub nought_add : (x : F) → a.add a.nought x ≡ x
  pub next_point :
      (dx : F) (i : ℕ) → a.add (a.times (a.of_int i) dx) dx ≡ a.times (a.of_int (i + 1)) dx

-- The sum of `f(i * dx) * dx` over `r` intervals from `i` on.
abbrev pub riemann : {F : Type 0} → Arithmetic F → F → ℕ → ℕ → F
riemann a dx i zero = a.nought
riemann a dx i (suc r) = a.add (a.times (f a (a.times (a.of_int i) dx)) dx) (riemann a dx (i + 1) r)

same : (k : ℕ) → k + 0 ≡ k
same k = omega arith

start_end : (k : ℕ) → 0 + k ≡ k
start_end k = omega arith

module _ {F : Type 0} (a : Arithmetic F) (e : IsExact a) (dx : F) where
  rounds_lem :
      (r i : ℕ) (sum : F)
      → rounds a dx r (a.times (a.of_int i) dx) sum ≡ a.add sum (riemann a dx i r)
  unfolding rounds
  rounds_lem zero i sum = sym (e.add_nought sum)
  rounds_lem (suc r) i sum =
      ap (λ x. rounds a dx r x (a.add sum (a.times (f a (a.times (a.of_int i) dx)) dx)))
        (e.next_point dx i)
      ∙ rounds_lem r (i + 1) (a.add sum (a.times (f a (a.times (a.of_int i) dx)) dx))
      ∙ e.add_assoc sum _ _

  riemann-add :
      (p q i : ℕ) → riemann a dx i (p + q) ≡ a.add (riemann a dx i p) (riemann a dx (i + p) q)
  riemann-add zero q i =
      ap₂ (riemann a dx) (omega arith) (omega arith) ∙ sym (e.nought_add (riemann a dx (i + 0) q))
  riemann-add (suc p) q i =
      let head = a.times (f a (a.times (a.of_int i) dx)) dx in
      let one_more : suc p + q ≡ suc (p + q) = omega arith in
      let shift : (i + 1) + p ≡ i + suc p = omega arith in
      ap (riemann a dx i) one_more
      ∙ ap (a.add head) (
          riemann-add p q (i + 1)
          ∙ ap (λ m. a.add (riemann a dx (i + 1) p) (riemann a dx m q)) shift)
      ∙ sym (e.add_assoc head (riemann a dx (i + 1) p) (riemann a dx (i + suc p) q))

  thread_lem :
      (k n id : ℕ)
      → thread_function a dx k n id
        ≡ riemann a dx (start k n id) (start k n (id + 1) - start k n id)
  unfolding thread_function
  thread_lem k n id = rounds_lem _ (start k n id) a.nought ∙ e.nought_add _

  -- The results from thread `id` on: the sum from its start to the start of thread `id + left`.
  sum_results_lem :
      (k n left id : ℕ) (total : F)
      → 0 < k
      → (gap : ℕ) × (start k n (id + left) ≡ start k n id + gap)
        × (sum_results a (results a dx k n left id) total
            ≡ a.add total (riemann a dx (start k n id) gap))
  unfolding sum_results results thread_function
  sum_results_lem k n zero id total h =
      (0, ap (start k n) (same id) ∙ omega arith, sym (e.add_nought total))
  sum_results_lem k n (suc left) id total h =
      let (gap, q, r) =
        sum_results_lem k n left (id + 1) (a.add total (thread_function a dx k n id)) h in
      let own = start k n (id + 1) - start k n id in
      let from = start k n id in
      let le = start_le k n id h in
      let next : start k n (id + 1) ≡ from + own = omega arith in
      let last : start k n (id + suc left) ≡ start k n (id + 1 + left) =
        ap (start k n) (omega arith) in
      (
        own + gap,
        last ∙ omega (arith, q, next),
        r
            ∙ ap₂ (λ x m. a.add (a.add total x) (riemann a dx m gap)) (thread_lem k n id) next
            ∙ e.add_assoc total (riemann a dx from own) (riemann a dx (from + own) gap)
            ∙ ap (a.add total) (sym (riemann-add own gap from)),
      )

  -- The total does then not depend on how the intervals are shared out.
  pub integral-exact : (k n : ℕ) → 0 < k → integral a dx k n ≡ riemann a dx 0 n
  unfolding integral
  integral-exact k n h =
      let (gap, q, r) = sum_results_lem k n k 0 a.nought h in
      let all : gap ≡ n =
        omega (arith, q, start_first k n h, ap (start k n) (start_end k), start_last k n h) in
      r ∙ e.nought_add _ ∙ ap₂ (riemann a dx) (start_first k n h) all
