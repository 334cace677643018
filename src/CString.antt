-- ===== src/CString.antt =====
-- The C strings of the programs, as the bytes in front of the terminator, and what the sources use
-- of <string.h> and snprintf on them. No byte of such a list is 0; `until_nul` cuts a raw buffer.
use Prim.Native.Char.{code}
use Prim.Native.String.{String}
use agh_operating_systems.Prelude.{
  ℕ, zero, suc, ◌+◌, ◌-◌, ◌/◌, ◌%◌, ◌≡◌, refl, ltb, ◌≢◌, ◌↔◌, Bool, true, false, ◌&&◌, List, [],
  ◌∷◌, ◌++◌, Option, none, some, arith, ◌==◌, if◌then◌else◌, length, take, drop,
}

abbrev pub Bytes : Type 0
Bytes = List ℕ

-- The bytes of an ASCII literal.
abbrev pub bytes : String → Bytes
bytes String.[] = []
bytes (String.◌∷◌ c s) = code c ∷ bytes s

-- The C string at the start of a buffer.
unfoldable pub until_nul : Bytes → Bytes
until_nul [] = []
until_nul (b ∷ bs) = if b == 0 then [] else b ∷ until_nul bs

-- `strcmp(s, t) == 0`
unfoldable pub strcmp_eq : Bytes → Bytes → Bool
strcmp_eq [] [] = true
strcmp_eq [] (y ∷ t) = false
strcmp_eq (x ∷ s) [] = false
strcmp_eq (x ∷ s) (y ∷ t) = x == y && strcmp_eq s t

-- `strncmp(s, t, n) == 0`
unfoldable pub strncmp_eq : Bytes → Bytes → ℕ → Bool
strncmp_eq s t zero = true
strncmp_eq [] [] (suc n) = true
strncmp_eq [] (y ∷ t) (suc n) = false
strncmp_eq (x ∷ s) [] (suc n) = false
strncmp_eq (x ∷ s) (y ∷ t) (suc n) = x == y && strncmp_eq s t n

-- `strchr(s, c)`: what stands before the first `c`, and what stands behind it.
unfoldable pub strchr : Bytes → ℕ → Option (Bytes × Bytes)
strchr [] c = none
strchr (x ∷ s) c =
    if x == c
    then some ([], s)
    else elim (strchr s c) [ none ↦ none | some (a, b) ↦ some (x ∷ a, b) ]

-- `snprintf(buf, n, …)`: the formatted text, cut so that the terminator fits into `n` bytes.
abbrev pub snprintf : ℕ → Bytes → Bytes
snprintf n s = take (n - 1) s

pub strcmp_eq_iff : (s t : Bytes) → (strcmp_eq s t ≡ true) ↔ (s ≡ t)
unfolding strcmp_eq
strcmp_eq_iff [] [] = (λ _. refl, λ _. refl)
strcmp_eq_iff [] (y ∷ t) = (λ h. cc, λ h. cc)
strcmp_eq_iff (x ∷ s) [] = (λ h. cc, λ h. cc)
strcmp_eq_iff (x ∷ s) (y ∷ t) = ground (arith, strcmp_eq_iff s t)

pub strcmp_eq_refl : (s : Bytes) → strcmp_eq s s ≡ true
strcmp_eq_refl s = (strcmp_eq_iff s s).1 refl

-- A command word followed by anything passes the test for that word.
pub strncmp_eq_append : (w s : Bytes) → strncmp_eq (w ++ s) w (length w) ≡ true
unfolding strncmp_eq
strncmp_eq_append [] s = refl
strncmp_eq_append (x ∷ w) s = ground (arith, strncmp_eq_append w s)

pub drop-append : (w s : Bytes) → drop (length w) (w ++ s) ≡ s
drop-append [] s = refl
drop-append (x ∷ w) s = drop-append w s

-- `c` does not occur in the text.
abbrev pub Free : ℕ → Bytes → Type 0
Free c [] = Unit
Free c (x ∷ s) = (x ≢ c) × Free c s

-- The first separator is found, whatever follows it.
pub strchr-append : (c : ℕ) (s t : Bytes) → Free c s → strchr (s ++ c ∷ t) c ≡ some (s, t)
unfolding strchr
strchr-append c [] t f = ground arith
strchr-append c (x ∷ s) t f = ground (arith, strchr-append c s t f.1)

-- "%d" of a number that is not negative, with fuel for its digits.
unfoldable pub decimal : ℕ → ℕ → Bytes
decimal zero n = []
decimal (suc fuel) n =
    let rest = decimal fuel (n / 10) in
    if ltb n 10 then (b'0' + n) ∷ [] else rest ++ (b'0' + n % 10) ∷ []

-- An `int` has at most ten digits.
abbrev pub digits : ℕ → Bytes
digits n = decimal 10 n
