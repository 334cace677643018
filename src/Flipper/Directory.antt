-- ===== src/Flipper/Directory.antt =====
-- Which files `process_directory` of cw03/assignment/flipper.c writes.
use agh_operating_systems.Prelude.{
  ℕ, ◌≡◌, ◌↔◌, refl, sym, ◌∙◌, true, [], ◌∷◌, ◌++◌, some, arith, ap, Option-cases, inl, inr,
}
use mathlib.Core.Bool.{false≢true}
use agh_operating_systems.CString.{Bytes, bytes, strcmp_eq_iff, strcmp_eq_refl}
use agh_operating_systems.Flipper.Lines.{strrchr, is_text_file}

abbrev extension : Bytes
extension = bytes ".txt"

strrchr-extension : (base : Bytes) → strrchr (base ++ extension) b'.' ≡ some extension
unfolding strrchr
strrchr-extension [] = refl
strrchr-extension (x ∷ base) = rw (strrchr-extension base, strrchr) refl

-- What `strrchr` returns is an end of the text.
strrchr-suffix : (s t : Bytes) (c : ℕ) → strrchr s c ≡ some t → (base : Bytes) × (s ≡ base ++ t)
unfolding strrchr
strrchr-suffix [] t c h = absurd (cc)
strrchr-suffix (x ∷ s) t c h = elim (Option-cases (strrchr s c)) [
  | inl e ↦ ([], ground arith)
  | inr (u, e) ↦ let (base, q) = strrchr-suffix s u c e in (x ∷ base, ground arith)
]

-- The test on a name passes exactly for the names that end in ".txt".
pub is_text_file_iff :
    (name : Bytes) → (is_text_file name ≡ true) ↔ ((base : Bytes) × (name ≡ base ++ bytes ".txt"))
unfolding is_text_file
is_text_file_iff name = (
  (λ h. elim (Option-cases (strrchr name b'.')) [
    | inl e ↦ absurd (false≢true (sym (rw (e, is_text_file) refl) ∙ h))
    | inr (ext, e) ↦
        let q : ext ≡ bytes ".txt" = (strcmp_eq_iff ext (bytes ".txt")).0 (ground arith) in
        let (base, r) = strrchr-suffix name ext b'.' e in (base, r ∙ ap (λ t. base ++ t) q)
  ]),
  (λ p. rw (p.1, strrchr-extension p.0, is_text_file) (strcmp_eq_refl (bytes ".txt"))),
)
