-- ===== src/Readers/Loops.antt =====
-- The loops of `chunk` and `openClose` in cw03/lab/readCompare.c. A file is the list of its bytes, `none` where `open`
-- fails; each loop runs on fuel and gives what it prints, `none` where the fuel is too little.
use agh_operating_systems.Prelude.{
  ℕ, zero, suc, ◌+◌, ◌^◌, [], ◌∷◌, ◌++◌, Option, none, some, ◌==◌, if◌then◌else◌, length, take,
  drop,
}
use agh_operating_systems.CString.{Bytes, until_nul}

-- `read` of at most `n` bytes behind `position`.
abbrev pub read : (position n : ℕ) → Bytes → Bytes
read position n file = take n (drop position file)

abbrev pub before : Bytes → Option Bytes → Option Bytes
before out none = none
before out (some more) = some (out ++ more)

-- The loop of `chunk`, with the bytes behind the position.
unfoldable pub chunk_loop : (fuel chunk_size : ℕ) → Bytes → Option Bytes
chunk_loop zero chunk_size rest = none
chunk_loop (suc fuel) chunk_size rest =
    let buffor = read 0 chunk_size rest in
    let more = chunk_loop fuel chunk_size (drop chunk_size rest) in
    if length buffor == 0 then some [] else before (until_nul buffor ++ 10 ∷ []) more

unfoldable pub chunk : (fuel chunk_size : ℕ) → Option Bytes → Option Bytes
chunk fuel chunk_size none = some []
chunk fuel chunk_size (some file) = chunk_loop fuel chunk_size file

-- The sizes that `main` tries.
unfoldable pub chunk_size : ℕ → ℕ
chunk_size i = 2 ^ (i + 5)

-- The loop of `openClose` for a file that can be opened: it ends where `read` gives 0.
unfoldable pub open_close_loop : (fuel position : ℕ) → Bytes → Option Bytes
open_close_loop zero position file = none
open_close_loop (suc fuel) position file =
    let buffer = read position 1 file in
    let more = open_close_loop fuel (position + 1) file in
    if length buffer == 0 then some (10 ∷ []) else before buffer more

-- The same where `open` fails: `read` gives -1, and `buffer` is printed as it is.
unfoldable pub no_file_loop : (fuel : ℕ) → (buffer : ℕ) → Option Bytes
no_file_loop zero buffer = none
no_file_loop (suc fuel) buffer = before (buffer ∷ []) (no_file_loop fuel buffer)

unfoldable pub open_close : (fuel buffer : ℕ) → Option Bytes → Option Bytes
open_close fuel buffer none = no_file_loop fuel buffer
open_close fuel buffer (some file) = open_close_loop fuel 0 file
