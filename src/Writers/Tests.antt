-- ===== src/Writers/Tests.antt =====
-- Runs of Funkcje/Semafor POSIX/main.c and Funkcje/Semafor SysV/main.c, and the theorems applied to them.
use agh_operating_systems.Prelude.{true, ℕ, ◌+◌, ◌≡◌, false, refl, List, [], ◌∷◌, ◌++◌, none, ◌⊎◌}
use agh_operating_systems.CString.{Bytes, bytes, decimal}
use agh_operating_systems.Writers.Programs.{
  child_text, unlock, write_terminal, wait_child, remove, parent_text, loop, sysv_parent,
  sysv_child, posix_parent, posix_child,
}
use agh_operating_systems.Writers.Machine.{
  Role, parent, child, line, lines, Machine, perform, advance, step, with_sysv, with_posix,
  sem_value, start, sysv, posix, Run, begin, next,
}
use agh_operating_systems.Writers.Steps.{written}
use agh_operating_systems.Writers.Start.{all_texts}
use agh_operating_systems.Writers.Progress.{IsDone, Moves}
use agh_operating_systems.Writers.Outcome.{Behind, echoed-pending, Run-done, Run-Moves}

abbrev nap : ℕ → ℕ
nap counter = counter + 2

-- Both loops have one round.
abbrev forked : Machine
forked = start with_sysv nap nap 1 1

-- The parent has taken the semaphore and has written to the file.
abbrev text : Bytes
text = parent_text 0 2

abbrev in_section : Machine
in_section = record {
  sem = 0;
  removed = false;
  file = (parent, text) ∷ [];
  terminal = [];
  parent_calls = write_terminal text ∷ unlock ∷ wait_child ∷ remove ∷ [];
  child_calls = forked.child_calls;
}

text_lem : text ≡ bytes "Wpis rodzica. Petla 0. Spalem 2" ++ 10 ∷ []
unfolding parent_text decimal
text_lem = refl

to_section : Run forked 2 in_section
unfolding start sysv sysv_parent loop step advance perform
to_section = next parent (next parent begin refl) refl

child_waits : step child in_section ≡ none
unfolding start sysv sysv_child loop step advance perform
child_waits = refl

echoed-pending_example : (late : List (Role × Bytes)) × Behind late in_section
echoed-pending_example = echoed-pending with_sysv nap nap 1 1 to_section

Run-Moves_example : IsDone in_section ⊎ Moves in_section
Run-Moves_example = Run-Moves with_sysv nap nap 1 1 to_section

-- With the POSIX semaphore: the parent has no round, the child one; at the end both have done all their calls.
abbrev child_line : Bytes
child_line = child_text 0 2

abbrev all_done : Machine
all_done = record {
  sem = 1;
  removed = true;
  file = (child, child_line) ∷ [];
  terminal =
      sem_value 1
      ∷ sem_value 1
      ∷ sem_value 0
      ∷ line child child_line
      ∷ sem_value 0
      ∷ sem_value 1
      ∷ [];
  parent_calls = [];
  child_calls = [];
}

to_all_done : Run (start with_posix nap nap 0 1) 10 all_done
unfolding start posix posix_parent posix_child loop step advance perform
to_all_done =
    next parent
      (next parent
        (next child
          (next child
            (next child
              (next child
                (next child (next child (next child (next child begin refl) refl) refl) refl) refl)
              refl)
            refl)
          refl)
        refl)
      refl

Run-done_example :
    (written parent all_done.file ≡ all_texts nap nap 0 1 parent)
    × (written child all_done.file ≡ all_texts nap nap 0 1 child)
    × (all_done.file ≡ lines all_done.terminal)
    × (all_done.sem ≡ 1)
Run-done_example = Run-done with_posix nap nap 0 1 to_all_done (refl, refl)
