-- ===== src/Writers/Machine.antt =====
-- What the calls of the two processes do, in any order.
use agh_operating_systems.Prelude.{
  ℕ, suc, ◌+◌, ◌-◌, ◌≡◌, Bool, true, false, List, [], ◌∷◌, ◌++◌, Option, none, some, ltb,
  if◌then◌else◌,
}
use agh_operating_systems.CString.{Bytes}
use agh_operating_systems.Writers.Programs.{
  Call, show, lock, unlock, write_file, write_terminal, wait_child, remove, posix_parent,
  posix_child, sysv_parent, sysv_child,
}

pub data Role : Type 0 where
  parent child : Role

-- What stands on the terminal: a line that a process wrote with `write(1, …)`, or `Current sem value: …` of
-- print_sem_value. The terminal is line-buffered, so that line is there when `printf` returns.
pub data Output : Type 0 where
  line : Role → Bytes → Output
  sem_value : ℕ → Output

-- Its lines of the first kind.
unfoldable pub lines : List Output → List (Role × Bytes)
lines [] = []
lines (line r text ∷ rest) = (r, text) ∷ lines rest
lines (sem_value _ ∷ rest) = lines rest

-- The semaphore, what has been written by whom, and what the processes have yet to do. The file was opened
-- before `fork`, so both write at one common offset.
pub record Machine : Type 0 where
  pub sem : ℕ
  pub removed : Bool
  pub file : List (Role × Bytes)
  pub terminal : List Output
  pub parent_calls : List Call
  pub child_calls : List Call

-- What belongs to a process, of what belongs to the parent and to the child.
abbrev pub pick {ℓ} : {A : Type ℓ} → Role → A → A → A
pick parent a b = a
pick child a b = b

abbrev pub calls_of : Role → Machine → List Call
calls_of r m = pick r m.parent_calls m.child_calls

abbrev pub with_calls : Role → List Call → Machine → Machine
with_calls r rest m = record m {
  parent_calls = pick r rest m.parent_calls;
  child_calls = pick r m.child_calls rest;
}

-- The effect of a call; `none` where it waits.
unfoldable pub perform : Role → Call → Machine → Option Machine
perform r show m = some (record m { terminal = m.terminal ++ sem_value m.sem ∷ [] })
perform r lock m = if ltb 0 m.sem then some (record m { sem = m.sem - 1 }) else none
perform r unlock m = some (record m { sem = m.sem + 1 })
perform r (write_file text) m = some (record m { file = m.file ++ (r, text) ∷ [] })
perform r (write_terminal text) m = some (record m { terminal = m.terminal ++ line r text ∷ [] })
perform r wait_child m = elim m.child_calls [ [] ↦ some m | _ ∷ _ ↦ none ]
perform r remove m = some (record m { removed = true })

unfoldable pub advance : Role → List Call → Machine → Option Machine
advance r [] m = none
advance r (c ∷ rest) m = perform r c (with_calls r rest m)

-- The next call of a process.
unfoldable pub step : Role → Machine → Option Machine
step r m = advance r (calls_of r m) m

-- Behind `fork`, for what the terminal shows already.
abbrev pub fresh : List Output → List Call → List Call → Machine
fresh terminal p c = record {
  sem = 1;
  removed = false;
  file = [];
  terminal = terminal;
  parent_calls = p;
  child_calls = c;
}

unfoldable pub posix : (ℕ → ℕ) → (ℕ → ℕ) → ℕ → ℕ → Machine
posix ps cs p c = fresh (sem_value 1 ∷ []) (posix_parent ps p) (posix_child cs c)

unfoldable pub sysv : (ℕ → ℕ) → (ℕ → ℕ) → ℕ → ℕ → Machine
sysv ps cs p c = fresh [] (sysv_parent ps p) (sysv_child cs c)

pub data Api : Type 0 where
  with_posix with_sysv : Api

-- Behind `fork`: what the parent and the child sleep, and their counters.
unfoldable pub start : Api → (ℕ → ℕ) → (ℕ → ℕ) → ℕ → ℕ → Machine
start with_posix ps cs p c = posix ps cs p c
start with_sysv ps cs p c = sysv ps cs p c

-- The states that are reached in some number of calls.
pub data Run (from : Machine) : ℕ → Machine → Type 0 where
  begin : Run from 0 from
  next : {k : ℕ} {m n : Machine} (r : Role) → Run from k m → step r m ≡ some n → Run from (suc k) n
