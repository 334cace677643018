-- ===== src/PipeIntegral/Outcome.antt =====
-- What the parent of cw06/assignment/zad1.c makes of the parts.
use agh_operating_systems.Prelude.{
  ◌≢◌, ℕ, ◌*◌, ◌≤◌, ◌≡◌, List, Option, none, length, count-le, arith,
}
use agh_operating_systems.PipeIntegral.Area.{Double}
use agh_operating_systems.PipeIntegral.System.{System, Run}
use agh_operating_systems.PipeIntegral.Invariant.{sum_from, parts, Run-Inv, has_exited}

module _ {F : Type 0} (a : Double F) (areas : List (Option F)) where
  -- In whatever order the children write, the total of the parent is at any time the sum, from 0 and in the order of the
  -- pipes, of the parts of the children in front of the next pipe, each of which has ended; and a run has at most two
  -- steps for each child.
  pub Run-total :
      {k : ℕ} {s : System F}
      → Run a areas k s
      → (s.total ≡ sum_from a a.nought (parts a areas s.next_pipe))
        × (length (parts a areas s.next_pipe) ≡ s.next_pipe)
        × (k ≤ 2 * length areas)
  Run-total {s = s} r =
      let v = Run-Inv a areas r in
      (
        v.summed,
        v.counted,
        omega (arith, v.steps, v.within, v.exits, count-le (has_exited a areas) s.exited),
      )

  abbrev pub Ends : Option F → Type 0
  Ends x = x ≢ none
