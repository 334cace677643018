-- ===== src/Writers/Outcome.antt =====
-- What the two processes of Funkcje/Semafor POSIX/main.c and Funkcje/Semafor SysV/main.c write, in any order of
-- their calls.
use agh_operating_systems.Prelude.{
  ℕ, ◌+◌, ◌*◌, ◌≤◌, ◌≡◌, refl, sym, ap, ap₂, ◌∙◌, subst, List, [], ◌++◌, length, length-append,
  arith, append-nil, ◌⊎◌,
}
use agh_operating_systems.CString.{Bytes}
use agh_operating_systems.Writers.Machine.{
  Role, parent, child, Machine, lines, calls_of, Api, start, Run,
}
use agh_operating_systems.Writers.Shape.{Shape, Mode, outside, inside, half, to_write}
use agh_operating_systems.Writers.Invariant.{Modes, Inv, holds, owed, pending, Run-Inv}
use agh_operating_systems.Writers.Steps.{written, Run-texts, Run-left}
use agh_operating_systems.Writers.Start.{start-Inv, all_texts, start-texts, start-left, round_calls}
use agh_operating_systems.Writers.Progress.{IsDone, Moves, Inv-Moves}

-- The lines of the terminal are behind the file by `late`.
abbrev pub Behind : List (Role × Bytes) → Machine → Type 0
Behind late m = (m.file ≡ lines m.terminal ++ late) × (length late + m.sem ≤ 1)

length-owed : (r : Role) (md : Mode) → length (owed r md) ≤ holds md
length-owed r outside = omega arith
length-owed r inside = omega arith
length-owed r (half t) = omega arith

module _ (a : Api) (ps cs : ℕ → ℕ) (p c : ℕ) {k : ℕ} {m : Machine} where
  reached : Run (start a ps cs p c) k m → (d : Modes) × Inv d m
  reached run = Run-Inv (start-Inv ps cs p c a) run

  -- In every state that the two processes reach, with either kind of semaphore and in any order of their calls, the
  -- file has the lines that the terminal shows, those of print_sem_value left out, in the same order and behind them
  -- at most one more, and none while the semaphore is free; and the semaphore is never above 1.
  pub echoed-pending : Run (start a ps cs p c) k m → (late : List (Role × Bytes)) × Behind late m
  echoed-pending run =
      let (d, v) = reached run in
      (
        pending d,
        (
          v.echoed,
          omega (
            arith,
            v.locked,
            length-append (owed parent d.of_parent) (owed child d.of_child),
            length-owed parent d.of_parent,
            length-owed child d.of_child,
          ),
        ),
      )

  -- In every state that the processes reach, the lines that a process has written to the file, followed by those that
  -- its program has still to write, are the lines of its rounds: none is lost, changed, doubled or put before an earlier one.
  pub written-texts :
      Run (start a ps cs p c) k m
      → (r : Role) → written r m.file ++ to_write (calls_of r m) ≡ all_texts ps cs p c r
  written-texts run r = Run-texts r run ∙ start-texts ps cs p c a r

  -- Neither process waits for ever: in every state that they reach, both have done all their calls, or one of them can
  -- make its next call.
  pub Run-Moves : Run (start a ps cs p c) k m → IsDone m ⊎ Moves m
  Run-Moves run = Inv-Moves (reached run).1

  -- Each step is one of the calls that the counters give.
  pub Run-ends :
      Run (start a ps cs p c) k m
      → k + length m.parent_calls + length m.child_calls ≡ round_calls a * (p + c) + 2
  Run-ends run = omega (arith, Run-left run, start-left ps cs p c a)

ended-outside : (r : Role) (md : Mode) → Shape r [] md → md ≡ outside
ended-outside r outside h = refl
ended-outside r inside h = absurd h
ended-outside r (half t) h = absurd h

module _ (a : Api) (ps cs : ℕ → ℕ) (p c : ℕ) {k : ℕ} {m : Machine} where
  all_written :
      (r : Role)
      → Run (start a ps cs p c) k m
      → calls_of r m ≡ []
      → written r m.file ≡ all_texts ps cs p c r
  all_written r run e =
      sym (append-nil (written r m.file))
      ∙ ap (λ x. written r m.file ++ to_write x) (sym e)
      ∙ written-texts a ps cs p c run r

  all_shown : Run (start a ps cs p c) k m → IsDone m → (m.file ≡ lines m.terminal) × (m.sem ≡ 1)
  all_shown run (ep, ec) =
      let (d, v) = reached a ps cs p c run in
      let hp =
        ended-outside parent d.of_parent
          (subst (λ x. Shape parent x d.of_parent) ep (v.shape parent)) in
      let hc =
        ended-outside child d.of_child (subst (λ x. Shape child x d.of_child) ec (v.shape child)) in
      (
        v.echoed
            ∙ ap₂ (λ x y. lines m.terminal ++ (owed parent x ++ owed child y)) hp hc
            ∙ append-nil (lines m.terminal),
        omega (arith, v.locked, ap holds hp, ap holds hc),
      )

  -- In every state that the processes reach and in which both have done all their calls, every line of either process is
  -- in the file, in the order of its rounds; the terminal shows the same lines, besides those of print_sem_value, in the
  -- same order as the file; and the semaphore is at 1, as at the start.
  pub Run-done :
      Run (start a ps cs p c) k m
      → IsDone m
      → (written parent m.file ≡ all_texts ps cs p c parent)
        × (written child m.file ≡ all_texts ps cs p c child)
        × (m.file ≡ lines m.terminal)
        × (m.sem ≡ 1)
  Run-done run done =
      let (shown, free) = all_shown run done in
      (all_written parent run done.0, all_written child run done.1, shown, free)
