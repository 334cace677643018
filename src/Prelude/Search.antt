-- ===== src/Prelude/Search.antt =====
-- Scans of an array: the first index that passes a test, the number of entries that pass, and a
-- predicate on every entry.
use Prim.Native.Nat.{ℕ, zero, suc, ◌+◌, ◌≤◌, ◌<◌}
use mathlib.Core.Path.{◌≡◌, refl, subst}
use mathlib.Core.Logic.{inl, inr}
use mathlib.Core.Bool.{Bool, true, false}
use mathlib.Core.List.{List, [], ◌∷◌, ◌++◌}
use mathlib.Core.Option.{Option, none, some, some-injective}
use native.Mathlib.Omega.{arith}
use agh_operating_systems.Prelude.Tests.{if◌then◌else◌, Bool-cases}
use agh_operating_systems.Prelude.Lists.{replicate, length, get_elem?, set, take}

abbrev pub next_index : Option ℕ → Option ℕ
next_index none = none
next_index (some i) = some (suc i)

abbrev pub All {ℓ κ} : {A : Type ℓ} → (A → Type κ) → List A → Type κ
All P [] = Unit
All P (x ∷ xs) = P x × All P xs

module _ {ℓ} {A : Type ℓ} (p : A → Bool) where
  -- `for (i = 0; i < n; i++) if (p(a[i])) return i; return -1;`
  unfoldable pub find_index : List A → Option ℕ
  find_index [] = none
  find_index (x ∷ xs) = if p x then some 0 else next_index (find_index xs)

  unfoldable pub count : List A → ℕ
  count [] = 0
  count (x ∷ xs) = if p x then suc (count xs) else count xs

  abbrev pub weight : A → ℕ
  weight x = if p x then 1 else 0

  pub find_index-eq-some :
      (xs : List A) (i : ℕ)
      → find_index xs ≡ some i
      → (x : A) × (get_elem? xs i ≡ some x) × (p x ≡ true)
  unfolding find_index
  find_index-eq-some [] i h = absurd (cc)
  find_index-eq-some (x ∷ xs) zero h = (x, refl, ground arith)
  find_index-eq-some (x ∷ xs) (suc i) h = find_index-eq-some xs i (ground arith)

  pub find_index-eq-none :
      (xs : List A) (i : ℕ) (x : A) → find_index xs ≡ none → get_elem? xs i ≡ some x → p x ≡ false
  unfolding find_index
  find_index-eq-none [] i x h g = absurd (cc)
  find_index-eq-none (y ∷ xs) zero x h g = ground arith
  find_index-eq-none (y ∷ xs) (suc i) x h g = ground (arith, find_index-eq-none xs i x)

  pub find_index-le :
      (xs : List A) (j : ℕ) (x : A)
      → get_elem? xs j ≡ some x
      → p x ≡ true
      → (i : ℕ) × (find_index xs ≡ some i) × (i ≤ j)
  unfolding find_index
  find_index-le [] j x g h = absurd (cc)
  find_index-le (y ∷ xs) zero x g h = (0, ground arith, omega arith)
  find_index-le (y ∷ xs) (suc j) x g h = elim (Bool-cases (p y)) [
    | inl e ↦ (0, rw e, omega arith)
    | inr e ↦ let (i, q, le) = find_index-le xs j x g h in (suc i, rw (e, q), omega arith)
  ]

  -- No entry in front of the one found passes the test.
  pub find_index_earlier :
      (xs : List A) (i j : ℕ) (x : A)
      → find_index xs ≡ some i
      → j < i
      → get_elem? xs j ≡ some x
      → p x ≡ false
  unfolding find_index
  find_index_earlier [] i j x f lt g = absurd (cc)
  find_index_earlier (y ∷ xs) zero j x f lt g = absurd (omega arith)
  find_index_earlier (y ∷ xs) (suc i) zero x f lt g = ground arith
  find_index_earlier (y ∷ xs) (suc i) (suc j) x f lt g =
      find_index_earlier xs i j x (ground arith) (omega arith) g

  -- A write that does not change the test of its slot does not change what is found.
  pub find_index-set :
      (xs : List A) (i : ℕ) (x v : A)
      → get_elem? xs i ≡ some x
      → p v ≡ p x
      → find_index (set xs i v) ≡ find_index xs
  unfolding find_index
  find_index-set [] i x v g h = refl
  find_index-set (y ∷ xs) zero x v g h = ground arith
  find_index-set (y ∷ xs) (suc i) x v g h = ground (arith, find_index-set xs i x v)

  pub count-set :
      (xs : List A) (i : ℕ) (x v : A)
      → get_elem? xs i ≡ some x
      → count (set xs i v) + weight x ≡ count xs + weight v
  unfolding count
  count-set [] i x v h = absurd (cc)
  count-set (y ∷ xs) zero x v h = ground arith
  count-set (y ∷ xs) (suc i) x v h = ground (arith, count-set xs i x v)

  pub count-le : (xs : List A) → count xs ≤ length xs
  unfolding count
  count-le [] = omega arith
  count-le (x ∷ xs) = ground (arith, count-le xs)

  pub count-append : (xs ys : List A) → count (xs ++ ys) ≡ count xs + count ys
  unfolding count
  count-append [] ys = omega arith
  count-append (x ∷ xs) ys = ground (arith, count-append xs ys)

  pub count-none :
      (xs : List A) → ((i : ℕ) (x : A) → get_elem? xs i ≡ some x → p x ≡ false) → count xs ≡ 0
  unfolding count
  count-none [] h = refl
  count-none (x ∷ xs) h = rw (h 0 x refl) (count-none xs (λ i. h (suc i)))

  pub count-pos :
      (xs : List A) (i : ℕ) (x : A) → get_elem? xs i ≡ some x → p x ≡ true → 0 < count xs
  unfolding count
  count-pos [] i x g h = absurd (cc)
  count-pos (y ∷ xs) zero x g h = ground arith
  count-pos (y ∷ xs) (suc i) x g h = ground (arith, count-pos xs i x)

  -- No entry fails the test: the count is the length.
  pub find_index-not-none :
      (xs : List A)
      → count xs < length xs
      → (i : ℕ) × (x : A) × (get_elem? xs i ≡ some x) × (p x ≡ false)
  unfolding count
  find_index-not-none [] h = absurd (omega arith)
  find_index-not-none (x ∷ xs) h = elim (Bool-cases (p x)) [
    | inl e ↦ let (i, y, g, q) = find_index-not-none xs (ground arith) in (suc i, y, g, q)
    | inr e ↦ (0, x, refl, e)
  ]

module _ {ℓ κ} {A : Type ℓ} (P : A → Type κ) where
  pub All-get_elem? : (xs : List A) (i : ℕ) (x : A) → All P xs → get_elem? xs i ≡ some x → P x
  All-get_elem? [] i x a g = absurd (cc)
  All-get_elem? (y ∷ xs) zero x a g = subst P (some-injective _ _ g) a.0
  All-get_elem? (y ∷ xs) (suc i) x a g = All-get_elem? xs i x a.1 g

  pub All-set : (xs : List A) (i : ℕ) (v : A) → All P xs → P v → All P (set xs i v)
  All-set [] i v a h = a
  All-set (y ∷ xs) zero v a h = (h, a.1)
  All-set (y ∷ xs) (suc i) v a h = (a.0, All-set xs i v a.1 h)

  pub All-replicate : (n : ℕ) (x : A) → P x → All P (replicate n x)
  All-replicate zero x h = tt
  All-replicate (suc n) x h = (h, All-replicate n x h)

  pub All-append : (xs ys : List A) → All P xs → All P ys → All P (xs ++ ys)
  All-append [] ys hx hy = hy
  All-append (x ∷ xs) ys hx hy = (hx.0, All-append xs ys hx.1 hy)

pub All-map {ℓ κ κ'} :
    {A : Type ℓ} {P : A → Type κ} {Q : A → Type κ'}
    → ((x : A) → P x → Q x)
    → (xs : List A) → All P xs
    → All Q xs
All-map f [] h = tt
All-map f (x ∷ xs) h = (f x h.0, All-map f xs h.1)

module _ {ℓ} {A : Type ℓ} (p : A → Bool) where
  -- Nothing is found: every entry fails the test.
  pub find_index-none-All : (xs : List A) → find_index p xs ≡ none → All (λ x. p x ≡ false) xs
  unfolding find_index
  find_index-none-All [] h = tt
  find_index-none-All (x ∷ xs) h = (ground arith, find_index-none-All xs (ground arith))

  -- Every entry in front of the one found fails the test.
  pub find_index-some-All :
      (xs : List A) (i : ℕ) → find_index p xs ≡ some i → All (λ x. p x ≡ false) (take i xs)
  unfolding find_index
  find_index-some-All [] i h = absurd (cc)
  find_index-some-All (x ∷ xs) zero h = tt
  find_index-some-All (x ∷ xs) (suc i) h = (ground arith, find_index-some-All xs i (ground arith))
