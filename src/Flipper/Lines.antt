-- ===== src/Flipper/Lines.antt =====
-- The functions of cw03/assignment/flipper.c. A file is the list of its bytes.
use agh_operating_systems.Prelude.{
  ℕ, zero, suc, ◌+◌, ◌-◌, Bool, true, false, List, [], ◌∷◌, ◌++◌, Option, none, some, ◌==◌, ltb,
  if◌then◌else◌, set, get_elem?, length,
}
use agh_operating_systems.CString.{Bytes, bytes, until_nul, strcmp_eq, snprintf}

-- `str[i]`, for an index in range.
abbrev pub char_at : Bytes → ℕ → ℕ
char_at s i = elim (get_elem? s i) [ none ↦ 0 | some b ↦ b ]

-- `temp = str[i]; str[i] = str[j]; str[j] = temp;`
unfoldable pub swap : ℕ → ℕ → Bytes → Bytes
swap i j s = set (set s i (char_at s j)) j (char_at s i)

-- The loop of `reverse_line`, with fuel for its rounds.
unfoldable pub reverse_loop : ℕ → ℕ → ℕ → Bytes → Bytes
reverse_loop zero i j s = s
reverse_loop (suc fuel) i j s =
    let rest = reverse_loop fuel (i + 1) (j - 1) (swap i j s) in if ltb i j then rest else s

-- `reverse_line`. For the empty string `j` starts at -1 and the loop is not entered.
unfoldable pub reverse_line : Bytes → Bytes
reverse_line s = elim (length s) [ zero ↦ s | suc j ↦ reverse_loop (suc j) 0 j s ]

-- Adds a byte to the first line of the lines that follow.
abbrev pub push_byte : ℕ → List Bytes → List Bytes
push_byte b [] = (b ∷ []) ∷ []
push_byte b (line ∷ rest) = (b ∷ line) ∷ rest

-- What the calls of `getline` return: the lines with their line feeds; the last may have none.
unfoldable pub getlines : Bytes → List Bytes
getlines [] = []
getlines (b ∷ bs) = let rest = getlines bs in if b == 10 then (10 ∷ []) ∷ rest else push_byte b rest

-- One round of the loop of `process_file`: what `fprintf` writes for a line. `strlen` and "%s" stop at
-- the first NUL.
unfoldable pub flip_line : Bytes → Bytes
flip_line line = reverse_line (until_nul line)

unfoldable pub flip_lines : List Bytes → Bytes
flip_lines [] = []
flip_lines (line ∷ rest) = flip_line line ++ flip_lines rest

-- `process_file`: the input, `none` if it cannot be opened, and whether the output can be opened for
-- writing. The result is the new content of the output, `none` if it is not touched, and the
-- number of lines.
unfoldable pub process_file : Option Bytes → Bool → Option (Bytes × ℕ)
process_file none writable = none
process_file (some content) false = none
process_file (some content) true = some (flip_lines (getlines content), length (getlines content))

-- `strrchr(s, c)`: what stands from the last `c` on.
unfoldable pub strrchr : Bytes → ℕ → Option Bytes
strrchr [] c = none
strrchr (x ∷ s) c = elim (strrchr s c) [
  | some t ↦ some t
  | none ↦ if x == c then some (x ∷ s) else none
]

-- The test of `process_directory` on a name.
unfoldable pub is_text_file : Bytes → Bool
is_text_file name = elim (strrchr name b'.') [
  | none ↦ false
  | some ext ↦ strcmp_eq ext (bytes ".txt")
]

-- What `readdir` returns for an entry, and what the two calls of `fopen` find for it.
pub record Entry : Type 0 where
  pub name : Bytes
  pub content : Option Bytes
  pub writable : Bool

-- `snprintf(file_out, sizeof(file_out), "%s/%s", …)`
abbrev pub path_of : Bytes → Bytes → Bytes
path_of dir name = snprintf 1024 (dir ++ b'/' ∷ name)

-- `process_directory`: the files that it writes, with their contents, in the order of the entries.
-- `none` is a directory that cannot be opened.
unfoldable pub process_entries : Bytes → List Entry → List (Bytes × Bytes)
process_entries out [] = []
process_entries out (e ∷ es) =
    let rest = process_entries out es in
    if is_text_file e.name
    then elim (process_file e.content e.writable) [
      | none ↦ rest
      | some (text, n) ↦ (path_of out e.name, text) ∷ rest
    ]
    else rest

unfoldable pub process_directory : Option (List Entry) → Bytes → List (Bytes × Bytes)
process_directory none out = []
process_directory (some entries) out = process_entries out entries
