-- ===== src/Readers/Outputs.antt =====
-- What the loops of cw03/lab/readCompare.c print, and that they end.
use agh_operating_systems.Prelude.{
  ℕ, zero, suc, ◌+◌, ◌-◌, ◌*◌, ◌≤◌, ◌<◌, ◌≡◌, refl, sym, ap, ◌∙◌, List, [], ◌∷◌, ◌++◌, none, some,
  ◌==◌, length, take, drop, All, arith, length-take, inl, inr, Bool-cases, append_assoc,
}
use agh_operating_systems.CString.{Bytes, until_nul, Free}
use agh_operating_systems.Readers.Loops.{
  before, chunk_loop, chunk, open_close_loop, no_file_loop, open_close,
}

-- Lines, each with a line feed behind it.
unfoldable pub unlines : List Bytes → Bytes
unlines [] = []
unlines (l ∷ ls) = (l ++ 10 ∷ []) ++ unlines ls

unfoldable pub concat : List Bytes → Bytes
concat [] = []
concat (l ∷ ls) = l ++ concat ls

until_nul-Free : (s : Bytes) → Free 0 s → until_nul s ≡ s
unfolding until_nul
until_nul-Free [] f = refl
until_nul-Free (b ∷ s) f = ground (arith, until_nul-Free s f.1)

take-Free : (n : ℕ) (s : Bytes) → Free 0 s → Free 0 (take n s)
take-Free zero s f = tt
take-Free (suc n) [] f = tt
take-Free (suc n) (b ∷ s) f = (f.0, take-Free n s f.1)

drop-Free : (n : ℕ) (s : Bytes) → Free 0 s → Free 0 (drop n s)
drop-Free zero s f = f
drop-Free (suc n) [] f = tt
drop-Free (suc n) (b ∷ s) f = drop-Free n s f.1

take-drop : (n : ℕ) (s : Bytes) → take n s ++ drop n s ≡ s
take-drop zero s = refl
take-drop (suc n) [] = refl
take-drop (suc n) (b ∷ s) = ap (◌∷◌ b) (take-drop n s)

length-drop : (n : ℕ) (s : Bytes) → length (drop n s) ≡ length s - n
length-drop zero s = omega arith
length-drop (suc n) [] = omega arith
length-drop (suc n) (b ∷ s) = omega (arith, length-drop n s)

length-zero : (s : Bytes) → length s ≡ 0 → s ≡ []
length-zero [] e = refl
length-zero (b ∷ s) e = absurd (omega arith)

one_more : (n size k : ℕ) → 0 < k → n * size < (k - size) + size → suc n * size < k + size
one_more zero size k p lt = omega arith
one_more (suc n) size k p lt = omega arith

-- The lines into which a file is cut: all of `size` bytes but the last, which is no longer and not empty.
pub record Cut (size : ℕ) (file out : Bytes) : Type 0 where
  pub lines : List Bytes
  pub printed : out ≡ unlines lines
  pub whole : concat lines ≡ file
  pub short : All (λ l. (0 < length l) × (length l ≤ size)) lines
  pub few : length lines * size < length file + size

chunk_loop-Cut :
    (fuel size : ℕ) (file : Bytes)
    → 0 < size
    → Free 0 file
    → length file < fuel
    → (out : Bytes) × (chunk_loop fuel size file ≡ some out) × Cut size file out
unfolding chunk_loop unlines concat
chunk_loop-Cut zero size file p f lt = absurd (omega arith)
chunk_loop-Cut (suc fuel) size file p f lt = elim (Bool-cases (length (take size file) == 0)) [
  | inl e ↦ (
    [],
    rw e refl,
    record {
      lines = [];
      printed = refl;
      whole = sym (length-zero file (ground (arith, length-take size file)));
      short = tt;
      few = omega arith;
    },
  )
  | inr e ↦
      let (out, q, c) =
        chunk_loop-Cut fuel size (drop size file) p (drop-Free size file f)
          (ground (arith, length-take size file, length-drop size file)) in
      let line = until_nul-Free (take size file) (take-Free size file f) in
      (
        (take size file ++ 10 ∷ []) ++ out,
        rw (e, line, q) refl,
        record {
          lines = take size file ∷ c.lines;
          printed = ap (λ x. (take size file ++ 10 ∷ []) ++ x) c.printed;
          whole = ap (λ x. take size file ++ x) c.whole ∙ take-drop size file;
          short = (((ground arith, omega (arith, length-take size file))), c.short);
          few =
              one_more (length c.lines) size (length file) (ground (arith, length-take size file))
                (omega (arith, c.few, length-drop size file));
        },
      )
]

-- With room for at least one byte, `chunk` ends, within one round more than the file has bytes, and prints a file of text
-- without a zero byte cut into lines: all its bytes in order, in the least number of lines of that size.
pub chunk-Cut :
    (size : ℕ) (file : Bytes)
    → 0 < size
    → Free 0 file
    → (out : Bytes) × (chunk (suc (length file)) size (some file) ≡ some out) × Cut size file out
unfolding chunk
chunk-Cut size file p f = chunk_loop-Cut (suc (length file)) size file p f (omega arith)

drop_next :
    (position : ℕ) (file : Bytes)
    → position < length file
    → take 1 (drop position file) ++ drop (position + 1) file ≡ drop position file
drop_next position [] lt = absurd (omega arith)
drop_next zero (b ∷ file) lt = refl
drop_next (suc position) (b ∷ file) lt =
    let e : suc position + 1 ≡ suc (position + 1) = omega arith in
    ap (λ m. take 1 (drop position file) ++ drop m (b ∷ file)) e
    ∙ drop_next position file (omega arith)

open_close_loop_lem :
    (fuel position : ℕ) (file : Bytes)
    → position ≤ length file
    → length file < position + fuel
    → open_close_loop fuel position file ≡ some (drop position file ++ 10 ∷ [])
unfolding open_close_loop
open_close_loop_lem zero position file le lt = absurd (omega arith)
open_close_loop_lem (suc fuel) position file le lt =
    let m = length-take 1 (drop position file) in
    let d = length-drop position file in
    elim (Bool-cases (length (take 1 (drop position file)) == 0)) [
      | inl e ↦ rw (e, length-zero (drop position file) (ground (arith, m, d))) refl
      | inr e ↦
          let less : position < length file = ground (arith, m, d) in
          let q = open_close_loop_lem fuel (position + 1) file (omega arith) (omega arith) in
          rw (e, q)
            (ap some (
              sym (append_assoc (take 1 (drop position file)) (drop (position + 1) file) (10 ∷ []))
              ∙ ap (λ x. x ++ 10 ∷ []) (drop_next position file less)))
    ]

-- `openClose` ends, within one round more than the file has bytes, and prints the file, every byte once and in order, and
-- a line feed.
pub open_close_lem :
    (buffer : ℕ) (file : Bytes)
    → open_close (suc (length file)) buffer (some file) ≡ some (file ++ 10 ∷ [])
unfolding open_close
open_close_lem buffer file =
    open_close_loop_lem (suc (length file)) 0 file (omega arith) (omega arith)

-- Without the file `openClose` does not end: no number of rounds is enough.
pub open_close_runs_on : (fuel buffer : ℕ) → open_close fuel buffer none ≡ none
unfolding open_close no_file_loop
open_close_runs_on zero buffer = refl
open_close_runs_on (suc fuel) buffer = ap (before (buffer ∷ [])) (open_close_runs_on fuel buffer)
