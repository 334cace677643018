-- ===== src/Flipper/Files.antt =====
-- What `process_file` of cw03/assignment/flipper.c makes of a whole file.
use agh_operating_systems.Prelude.{
  ℕ, suc, ◌+◌, ◌≡◌, ◌≢◌, refl, ◌∙◌, true, List, [], ◌∷◌, ◌++◌, some, length, arith, ap, ap₂,
  reverse, length-append, All, ◌==◌, Bool-cases, inl, inr,
}
use mathlib.Core.List.{reverse-append, reverse-cons}
use agh_operating_systems.CString.{Bytes, Free, until_nul}
use agh_operating_systems.Flipper.Lines.{
  push_byte, getlines, flip_line, flip_lines, process_file, reverse_line,
}
use agh_operating_systems.Flipper.Reverse.{reverse_line_lem}

-- The file with these lines, each with its line feed.
abbrev pub unlines : List Bytes → Bytes
unlines [] = []
unlines (line ∷ rest) = line ++ 10 ∷ unlines rest

-- Text of one line: no line feed and no NUL.
abbrev pub IsLine : Bytes → Type 0
IsLine line = Free 10 line × Free 0 line

-- The lines of the flipped file: each line reversed, with its line feed in front.
abbrev pub flipped : List Bytes → Bytes
flipped [] = []
flipped (line ∷ rest) = 10 ∷ (reverse line ++ flipped rest)

getlines-line :
    (line rest : Bytes)
    → Free 10 line
    → getlines (line ++ 10 ∷ rest) ≡ (line ++ 10 ∷ []) ∷ getlines rest
unfolding getlines
getlines-line [] rest f = refl
getlines-line (b ∷ line) rest f = ground (arith, getlines-line line rest f.1)

until_nul-line : (line : Bytes) → Free 0 line → until_nul (line ++ 10 ∷ []) ≡ line ++ 10 ∷ []
unfolding until_nul
until_nul-line [] f = refl
until_nul-line (b ∷ line) f = ground (arith, until_nul-line line f.1)

flip_line-line : (line : Bytes) → Free 0 line → flip_line (line ++ 10 ∷ []) ≡ 10 ∷ reverse line
unfolding flip_line
flip_line-line line f =
    ap reverse_line (until_nul-line line f)
    ∙ reverse_line_lem (line ++ 10 ∷ [])
    ∙ reverse-append line (10 ∷ [])

getlines-unlines_count :
    (ls : List Bytes) → All IsLine ls → length (getlines (unlines ls)) ≡ length ls
unfolding getlines
getlines-unlines_count [] h = refl
getlines-unlines_count (line ∷ rest) h =
    ap length (getlines-line line (unlines rest) h.0.0) ∙ ap suc (getlines-unlines_count rest h.1)

flip_lines-unlines :
    (ls : List Bytes) → All IsLine ls → flip_lines (getlines (unlines ls)) ≡ flipped ls
unfolding flip_lines getlines
flip_lines-unlines [] h = refl
flip_lines-unlines (line ∷ rest) h =
    ap flip_lines (getlines-line line (unlines rest) h.0.0)
    ∙ ap₂ ◌++◌ (flip_line-line line h.0.1) (flip_lines-unlines rest h.1)

-- A file of complete lines with no NUL, both files open: the output has the same number of lines, and
-- holds each line reversed, in order, with the line feed in front of it and not behind it.
pub process_file_lem :
    (ls : List Bytes)
    → All IsLine ls
    → process_file (some (unlines ls)) true ≡ some (flipped ls, length ls)
unfolding process_file
process_file_lem ls h =
    ap₂ (λ a n. some (a, n)) (flip_lines-unlines ls h) (getlines-unlines_count ls h)

length-reverse : (s : Bytes) → length (reverse s) ≡ length s
length-reverse [] = refl
length-reverse (x ∷ s) =
    ap length (reverse-cons x s)
    ∙ omega (arith, length-append (reverse s) (x ∷ []), length-reverse s)

until_nul-Free : (s : Bytes) → Free 0 s → until_nul s ≡ s
unfolding until_nul
until_nul-Free [] f = refl
until_nul-Free (b ∷ s) f = ground (arith, until_nul-Free s f.1)

length-flip_line : (line : Bytes) → Free 0 line → length (flip_line line) ≡ length line
unfolding flip_line
length-flip_line line f =
    ap length (reverse_line_lem (until_nul line))
    ∙ length-reverse (until_nul line)
    ∙ ap length (until_nul-Free line f)

abbrev total_length : List Bytes → ℕ
total_length [] = 0
total_length (line ∷ rest) = length line + total_length rest

length-flip_lines : (ls : List Bytes) → All (Free 0) ls → length (flip_lines ls) ≡ total_length ls
unfolding flip_lines
length-flip_lines [] h = refl
length-flip_lines (line ∷ rest) h =
    length-append (flip_line line) (flip_lines rest)
    ∙ ap₂ ◌+◌ (length-flip_line line h.0) (length-flip_lines rest h.1)

push_byte_lem :
    (b : ℕ) (ls : List Bytes)
    → b ≢ 0
    → All (Free 0) ls
    → All (Free 0) (push_byte b ls) × (total_length (push_byte b ls) ≡ suc (total_length ls))
push_byte_lem b [] n h = (((n, tt), tt), refl)
push_byte_lem b (line ∷ rest) n h = (((n, h.0), h.1), omega arith)

getlines_lem :
    (s : Bytes) → Free 0 s → All (Free 0) (getlines s) × (total_length (getlines s) ≡ length s)
unfolding getlines
getlines_lem [] f = (tt, refl)
getlines_lem (b ∷ s) f =
    let (a, e) = getlines_lem s f.1 in
    let (a', e') = push_byte_lem b (getlines s) f.0 a in
    elim (Bool-cases (b == 10)) [
      | inl q ↦ rw q (((omega arith, tt), a), omega (arith, e))
      | inr q ↦ rw q (a', omega (arith, e, e'))
    ]

-- For every file with no NUL byte, also one whose last line is not complete, the output has as many
-- bytes as the input.
pub process_file-length :
    (content text : Bytes) (n : ℕ)
    → Free 0 content
    → process_file (some content) true ≡ some (text, n)
    → length text ≡ length content
unfolding process_file
process_file-length content text n f h =
    let (a, e) = getlines_lem content f in
    ap length (ground (arith, h)) ∙ length-flip_lines (getlines content) a ∙ e
