-- ===== src/Flipper/Tests.antt =====
-- Runs of cw03/assignment/flipper.c on small files.
use agh_operating_systems.Prelude.{◌≡◌, refl, true, List, [], ◌∷◌, ◌++◌, some, arith}
use agh_operating_systems.CString.{bytes, until_nul, strcmp_eq}
use agh_operating_systems.Flipper.Lines.{
  swap, reverse_loop, reverse_line, getlines, flip_line, flip_lines, process_file, is_text_file,
  strrchr, process_entries, process_directory, Entry,
}
use agh_operating_systems.Flipper.Files.{unlines, flipped, process_file_lem}

abc_reversed : reverse_line (bytes "abcd") ≡ bytes "dcba"
unfolding reverse_line reverse_loop swap
abc_reversed = refl

process_file_lem_example :
    process_file (some (unlines (bytes "ab" ∷ bytes "c" ∷ []))) true
    ≡ some (flipped (bytes "ab" ∷ bytes "c" ∷ []), 2)
process_file_lem_example = process_file_lem (bytes "ab" ∷ bytes "c" ∷ []) (omega arith)

two_lines : process_file (some (bytes "ab" ++ 10 ∷ bytes "cd")) true ≡ some (10 ∷ bytes "badc", 2)
unfolding process_file flip_lines flip_line getlines reverse_line reverse_loop swap until_nul
two_lines = refl

abbrev listing : List Entry
listing =
    record { name = bytes "a.txt"; content = some (bytes "xy"); writable = true }
    ∷ record { name = bytes "a.txt.bak"; content = some (bytes "xy"); writable = true }
    ∷ []

one_file_written :
    process_directory (some listing) (bytes "out") ≡ (bytes "out/a.txt", bytes "yx") ∷ []
unfolding process_directory process_entries process_file flip_lines flip_line getlines reverse_line
    reverse_loop swap until_nul is_text_file strrchr strcmp_eq
one_file_written = refl
