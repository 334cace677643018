-- ===== src/Flipper/Reverse.antt =====
-- `reverse_line` of cw03/assignment/flipper.c reverses a line.
use agh_operating_systems.Prelude.{
  ℕ, zero, suc, ◌+◌, ◌-◌, ◌≤◌, ◌≡◌, refl, sym, ◌∙◌, [], ◌∷◌, ◌++◌, set, length, arith, ap, ap₂,
  reverse, append_assoc, append-nil, length-append, subst, le→ltb_false, lt→ltb,
}
use mathlib.Core.List.{reverse-append, reverse-cons}
use agh_operating_systems.CString.{Bytes}
use agh_operating_systems.Flipper.Lines.{char_at, swap, reverse_loop, reverse_line}

set-append : (a : Bytes) (x v : ℕ) (b : Bytes) → set (a ++ x ∷ b) (length a) v ≡ a ++ v ∷ b
set-append [] x v b = refl
set-append (y ∷ a) x v b = ap (◌∷◌ y) (set-append a x v b)

char_at-append : (a : Bytes) (x : ℕ) (b : Bytes) → char_at (a ++ x ∷ b) (length a) ≡ x
char_at-append [] x b = refl
char_at-append (y ∷ a) x b = char_at-append a x b

-- A line that is not empty has a last byte.
last_byte :
    (x : ℕ) (s : Bytes) → (t : Bytes) × (y : ℕ) × (x ∷ s ≡ t ++ y ∷ []) × (length s ≡ length t)
last_byte x [] = ([], x, refl, refl)
last_byte x (z ∷ s) = let (t, y, e, l) = last_byte z s in (x ∷ t, y, ap (◌∷◌ x) e, ap suc l)

module _ (a m b : Bytes) (x y : ℕ) where
  far_index : length a + length m + 1 ≡ length (a ++ x ∷ m)
  far_index = omega (arith, length-append a (x ∷ m))

  far_split : a ++ x ∷ (m ++ y ∷ b) ≡ (a ++ x ∷ m) ++ y ∷ b
  far_split = sym (append_assoc a (x ∷ m) (y ∷ b))

  far_char : char_at (a ++ x ∷ (m ++ y ∷ b)) (length a + length m + 1) ≡ y
  far_char = ap₂ char_at far_split far_index ∙ char_at-append (a ++ x ∷ m) y b

  far_set :
      (v : ℕ) → set (a ++ x ∷ (m ++ y ∷ b)) (length a + length m + 1) v ≡ a ++ x ∷ (m ++ v ∷ b)
  far_set v =
      ap₂ (λ s k. set s k v) far_split far_index
      ∙ set-append (a ++ x ∷ m) y v b
      ∙ append_assoc a (x ∷ m) (v ∷ b)

-- The two ends of the middle part change places.
swap_ends :
    (a m b : Bytes) (x y : ℕ)
    → swap (length a) (length a + length m + 1) (a ++ x ∷ (m ++ y ∷ b)) ≡ a ++ y ∷ (m ++ x ∷ b)
unfolding swap
swap_ends a m b x y =
    rw (far_char a m b x y, char_at-append a x (m ++ y ∷ b), set-append a x y (m ++ y ∷ b))
      (far_set a m b y y x)

reverse_ends : (x y : ℕ) (t b : Bytes) → reverse (x ∷ (t ++ y ∷ [])) ++ b ≡ y ∷ (reverse t ++ x ∷ b)
reverse_ends x y t b =
    rw (reverse-cons x (t ++ y ∷ []), reverse-append t (y ∷ []))
      (ap (◌∷◌ y) (append_assoc (reverse t) (x ∷ []) b))

-- What the loop does to the part `m` of the line between its two indices, given enough fuel.
abbrev Reverses : ℕ → Bytes → Bytes → Bytes → Type 0
Reverses fuel a m b =
    reverse_loop fuel (length a) (length a + length m - 1) (a ++ (m ++ b)) ≡ a ++ (reverse m ++ b)

reverse_round :
    (fuel : ℕ) (a t b : Bytes) (x y : ℕ)
    → Reverses fuel (a ++ y ∷ []) t (x ∷ b)
    → Reverses (suc fuel) a (x ∷ (t ++ y ∷ [])) b
unfolding reverse_loop
reverse_round fuel a t b x y ih =
    rw
      (lt→ltb (length a) (length a + suc (length (t ++ y ∷ [])) - 1)
        (omega (arith, length-append t (y ∷ []))))
      (ap₂ (λ k s. reverse_loop fuel (length a + 1) (k - 1) (swap (length a) k s)) index shape
        ∙ ap (reverse_loop fuel (length a + 1) (length a + length t + 1 - 1)) (swap_ends a t b x y)
        ∙ ap₂ (λ k j. reverse_loop fuel k j (a ++ y ∷ (t ++ x ∷ b))) grown (omega (arith, grown))
        ∙ ap (reverse_loop fuel (length (a ++ y ∷ [])) (length (a ++ y ∷ []) + length t - 1))
            (sym (append_assoc a (y ∷ []) (t ++ x ∷ b)))
        ∙ ih
        ∙ append_assoc a (y ∷ []) (reverse t ++ x ∷ b)
        ∙ ap (λ s. a ++ s) (sym (reverse_ends x y t b)))
  where
    index : length a + suc (length (t ++ y ∷ [])) - 1 ≡ length a + length t + 1
    index = omega (arith, length-append t (y ∷ []))

    grown : length a + 1 ≡ length (a ++ y ∷ [])
    grown = sym (length-append a (y ∷ []))

    shape : a ++ x ∷ ((t ++ y ∷ []) ++ b) ≡ a ++ x ∷ (t ++ y ∷ b)
    shape = ap (λ s. a ++ x ∷ s) (append_assoc t (y ∷ []) b)

reverse_loop_lem : (fuel : ℕ) (a m b : Bytes) → length m ≤ fuel + fuel → Reverses fuel a m b
unfolding reverse_loop
reverse_loop_lem zero a [] b h = refl
reverse_loop_lem zero a (x ∷ m) b h = absurd (omega arith)
reverse_loop_lem (suc fuel) a [] b h =
    rw (le→ltb_false (length a) (length a + 0 - 1) (omega arith)) refl
reverse_loop_lem (suc fuel) a (x ∷ []) b h =
    rw (le→ltb_false (length a) (length a + 1 - 1) (omega arith)) refl
reverse_loop_lem (suc fuel) a (x ∷ z ∷ m) b h =
    let (t, y, e, l) = last_byte z m in
    subst (λ r. Reverses (suc fuel) a (x ∷ r) b) (sym e)
      (reverse_round fuel a t b x y
        (reverse_loop_lem fuel (a ++ y ∷ []) t (x ∷ b) (omega (arith, l))))

-- `reverse_line` ends, and returns the bytes of the line in the opposite order.
pub reverse_line_lem : (s : Bytes) → reverse_line s ≡ reverse s
unfolding reverse_line
reverse_line_lem [] = refl
reverse_line_lem (x ∷ s) =
    ap₂ (reverse_loop (suc (length s)) 0) (omega arith) (ap (◌∷◌ x) (sym (append-nil s)))
    ∙ reverse_loop_lem (suc (length s)) [] (x ∷ s) [] (omega arith)
    ∙ append-nil (reverse (x ∷ s))
