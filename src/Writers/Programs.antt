-- ===== src/Writers/Programs.antt =====
-- The two processes of Funkcje/Semafor POSIX/main.c and of Funkcje/Semafor SysV/main.c as the sequences
-- of their calls. The code does not branch on what a call returns, so the counter and the seconds
-- slept determine the sequence.
use agh_operating_systems.Prelude.{ℕ, zero, suc, List, [], ◌∷◌, ◌++◌}
use agh_operating_systems.CString.{Bytes, bytes, digits}

pub data Call : Type 0 where
  show : Call  -- print_sem_value
  lock : Call  -- sem_wait, or semop by -1
  unlock : Call  -- sem_post, or semop by 1
  write_file : Bytes → Call  -- write(fd, …)
  write_terminal : Bytes → Call  -- write(1, …)
  wait_child : Call  -- waitpid
  remove : Call  -- sem_unlink, or semctl with IPC_RMID

unfoldable pub parent_text : ℕ → ℕ → Bytes
parent_text counter s =
    bytes "Wpis rodzica. Petla " ++ digits counter ++ bytes ". Spalem " ++ digits s ++ 10 ∷ []

unfoldable pub child_text : ℕ → ℕ → Bytes
child_text counter s =
    bytes "Wpis dziecka. Petla " ++ digits counter ++ bytes ". Spalem " ++ digits s ++ 10 ∷ []

-- One round of a loop, for the text that it writes.
abbrev pub posix_round : Bytes → List Call
posix_round text =
    show ∷ lock ∷ show ∷ write_file text ∷ write_terminal text ∷ show ∷ unlock ∷ show ∷ []

abbrev pub sysv_round : Bytes → List Call
sysv_round text = lock ∷ write_file text ∷ write_terminal text ∷ unlock ∷ []

-- `while (counter--)`, for a counter that is not negative. `sleeps` gives the seconds slept in the round
-- with that value of the counter.
module _ (text : ℕ → ℕ → Bytes) (sleeps : ℕ → ℕ) where
  unfoldable pub loop : (Bytes → List Call) → ℕ → List Call
  loop round zero = []
  loop round (suc counter) = round (text counter (sleeps counter)) ++ loop round counter

  -- The texts of its rounds.
  unfoldable pub texts : ℕ → List Bytes
  texts zero = []
  texts (suc counter) = text counter (sleeps counter) ∷ texts counter

unfoldable pub posix_parent : (ℕ → ℕ) → ℕ → List Call
posix_parent sleeps counter =
    loop parent_text sleeps posix_round counter ++ wait_child ∷ remove ∷ []

unfoldable pub posix_child : (ℕ → ℕ) → ℕ → List Call
posix_child sleeps counter = loop child_text sleeps posix_round counter

unfoldable pub sysv_parent : (ℕ → ℕ) → ℕ → List Call
sysv_parent sleeps counter = loop parent_text sleeps sysv_round counter ++ wait_child ∷ remove ∷ []

unfoldable pub sysv_child : (ℕ → ℕ) → ℕ → List Call
sysv_child sleeps counter = loop child_text sleeps sysv_round counter
