-- ===== src/Prelude/Totals.antt =====
-- Sums of a weight over the entries of an array, such as the processes of a system.
use Prim.Native.Nat.{ℕ, zero, suc, ◌+◌, ◌*◌, ◌≤◌, ◌<◌}
use mathlib.Core.Path.{◌≡◌, refl, ap}
use mathlib.Core.Logic.{◌≢◌}
use mathlib.Core.List.{List, [], ◌∷◌}
use mathlib.Core.Option.{some}
use native.Mathlib.Omega.{arith}
use native.Mathlib.Decide.{dec_lt}
use agh_operating_systems.Prelude.Lists.{get_elem?, set, replicate}

module _ {ℓ} {A : Type ℓ} (w : A → ℕ) where
  unfoldable pub total : List A → ℕ
  total [] = 0
  total (x ∷ xs) = w x + total xs

  pub total-set :
      (xs : List A) (i : ℕ) (x v : A)
      → get_elem? xs i ≡ some x
      → total (set xs i v) + w x ≡ total xs + w v
  unfolding total
  total-set [] i x v h = absurd (cc)
  total-set (y ∷ xs) zero x v h = ground arith
  total-set (y ∷ xs) (suc i) x v h = omega (arith, total-set xs i x v h)

  pub total-le : (xs : List A) (i : ℕ) (x : A) → get_elem? xs i ≡ some x → w x ≤ total xs
  unfolding total
  total-le [] i x h = absurd (cc)
  total-le (y ∷ xs) zero x h = ground arith
  total-le (y ∷ xs) (suc i) x h = omega (arith, total-le xs i x h)

  -- Two entries of the list count twice.
  pub total-two :
      (xs : List A) (i j : ℕ) (x y : A)
      → i ≢ j
      → get_elem? xs i ≡ some x
      → get_elem? xs j ≡ some y
      → w x + w y ≤ total xs
  unfolding total
  total-two [] i j x y n g h = absurd (cc)
  total-two (z ∷ xs) zero zero x y n g h = absurd (n refl)
  total-two (z ∷ xs) zero (suc j) x y n g h = ground (arith, total-le xs j y)
  total-two (z ∷ xs) (suc i) zero x y n g h = ground (arith, total-le xs i x)
  total-two (z ∷ xs) (suc i) (suc j) x y n g h =
      omega (arith, total-two xs i j x y (λ e. n (ap suc e)) g h)

  -- A positive sum has a positive part.
  pub total-pos :
      (xs : List A) → 0 < total xs → (i : ℕ) × (x : A) × (get_elem? xs i ≡ some x) × (0 < w x)
  unfolding total
  total-pos [] h = absurd (omega arith)
  total-pos (x ∷ xs) h = elim (dec_lt 0 (w x)) [
    | yes p ↦ (0, x, refl, p)
    | no n ↦ let (i, y, g, p) = total-pos xs (omega arith) in (suc i, y, g, p)
  ]

  pub total-replicate : (n : ℕ) (x : A) → total (replicate n x) ≡ n * w x
  unfolding total
  total-replicate zero x = omega arith
  total-replicate (suc n) x = omega (arith, total-replicate n x)

pub total_mono {ℓ} :
    {A : Type ℓ} (v w : A → ℕ) → ((x : A) → v x ≤ w x) → (xs : List A) → total v xs ≤ total w xs
unfolding total
total_mono v w le [] = omega arith
total_mono v w le (x ∷ xs) = omega (arith, le x, total_mono v w le xs)
