-- ===== src/Readers/Tests.antt =====
-- The loops of cw03/lab/readCompare.c on a small file, and the theorems applied to it.
use agh_operating_systems.Prelude.{suc, ◌<◌, ◌≡◌, refl, [], ◌∷◌, ◌++◌, some, length, arith}
use agh_operating_systems.CString.{Bytes, bytes, until_nul, Free}
use agh_operating_systems.Readers.Loops.{chunk, chunk_loop, chunk_size}
use agh_operating_systems.Readers.Outputs.{Cut, chunk-Cut}

abbrev text : Bytes
text = bytes "abcde"

-- In chunks of two bytes.
in_lines : chunk 6 2 (some text) ≡ some (bytes "ab" ++ 10 ∷ bytes "cd" ++ 10 ∷ bytes "e" ++ 10 ∷ [])
unfolding chunk chunk_loop until_nul
in_lines = refl

text-Free : Free 0 text
text-Free = (
  (λ e. omega arith),
  ((λ e. omega arith), ((λ e. omega arith), ((λ e. omega arith), ((λ e. omega arith), tt)))),
)

smallest : 0 < chunk_size 0
unfolding chunk_size
smallest = omega arith

chunk-Cut_example :
    (out : Bytes) × (chunk (suc (length text)) (chunk_size 0) (some text) ≡ some out)
    × Cut (chunk_size 0) text out
chunk-Cut_example = chunk-Cut (chunk_size 0) text smallest text-Free
