-- ===== src/WordCycle/Tests.antt =====
-- A run of Funkcje/Mutex/zad1.c, and the theorems applied to it.
use agh_operating_systems.Prelude.{ℕ, arith, ◌≤◌, ◌≡◌, refl, [], ◌∷◌, some, length, get_elem?}
use agh_operating_systems.CString.{bytes}
use agh_operating_systems.WordCycle.System.{
  System, init, num_threads, fun_watka, step, Run, start, next, wrapping, locking, sleeping,
}
use agh_operating_systems.WordCycle.Invariant.{cyclic}
use agh_operating_systems.WordCycle.Outcome.{Run-cyclic, Run-continues}

-- The second of two threads has printed.
abbrev one_word : System
one_word = record {
  nr = 1;
  mutex = 0;
  printed = some (bytes "alfa") ∷ [];
  threads = locking ∷ wrapping ∷ [];
}

to_one_word : Run 2 2 one_word
unfolding init step fun_watka
to_one_word = next 1 (next 1 start refl) refl

abbrev alone : System
alone = record { nr = 1; mutex = 1; printed = some (bytes "alfa") ∷ []; threads = sleeping ∷ [] }

to_end : Run 1 4 alone
unfolding init step fun_watka
to_end = next 0 (next 0 (next 0 (next 0 start refl) refl) refl) refl

-- Twenty threads go twice through the dictionary and four words on.
last_word : get_elem? (cyclic num_threads) 19 ≡ some (some (bytes "delta"))
unfolding cyclic
last_word = refl

Run-cyclic_example :
    (one_word.printed ≡ cyclic (length one_word.printed)) × (length one_word.printed ≤ 2)
Run-cyclic_example = Run-cyclic to_one_word

Run-continues_example : (i : ℕ) × (t : System) × (step i one_word ≡ some t)
Run-continues_example = Run-continues to_one_word (omega arith)
