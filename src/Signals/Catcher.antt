-- ===== src/Signals/Catcher.antt =====
-- The signal handler of cw05/assignment/catcher.c.
use agh_operating_systems.Prelude.{ℕ, ◌+◌, Bool, false, List, [], ◌∷◌, ◌++◌, ◌==◌, if◌then◌else◌}

-- An `int`.
pub data ℤ : Type 0 where
  pos negsuc : ℕ → ℤ

abbrev pub ◌==ℤ◌ : ℤ → ℤ → Bool

infix 40 ◌==ℤ◌
pos m ==ℤ pos n = m == n
negsuc m ==ℤ negsuc n = m == n
_ ==ℤ _ = false

-- What SIGINT does.
pub data Disposition : Type 0 where
  default ignored int_handler : Disposition

-- The lines on the terminal.
pub data Line : Type 0 where
  pid_catcher : Line
  received : ℤ → Line
  changes_amount : ℕ → Line
  timer : ℕ → Line

-- The globals, and what the process has printed.
pub record Catcher : Type 0 where
  pub changes : ℕ
  pub current_type : ℤ
  pub timer_running : Bool
  pub interrupt : Disposition
  pub printed : List Line

unfoldable pub catcher : Catcher
catcher = record {
  changes = 0;
  current_type = pos 0;
  timer_running = false;
  interrupt = default;
  printed = [];
}

pub data Handled : Type 0 where
  exited replied : Catcher → Handled

abbrev pub print : Line → Catcher → Catcher
print l c = record c { printed = c.printed ++ l ∷ [] }

-- `if (val != current_type)`
unfoldable pub change : ℤ → Catcher → Catcher
change val c =
    if val ==ℤ c.current_type
    then c
    else record c { current_type = val; changes = c.changes + 1; timer_running = val ==ℤ pos 2 }

-- `switch (current_type)`, and `kill` behind it.
unfoldable pub switch : Catcher → Handled
switch c =
    if c.current_type ==ℤ pos 1
    then replied (print (changes_amount c.changes) c)
    else if c.current_type ==ℤ pos 3
    then replied (record c { interrupt = ignored })
    else if c.current_type ==ℤ pos 4
    then replied (record c { interrupt = int_handler })
    else if c.current_type ==ℤ pos 5
    then exited c
    else replied c

unfoldable pub sig_handler : ℤ → Catcher → Handled
sig_handler val c = switch (change val (print (received val) c))
