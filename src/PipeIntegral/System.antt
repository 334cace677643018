-- ===== src/PipeIntegral/System.antt =====
-- The processes of cw06/assignment/zad1.c for one `k`: each child computes its part, writes it into its
-- pipe and exits, and the parent reads the pipes in turn.
use agh_operating_systems.Prelude.{
  ℕ, suc, ◌+◌, ◌≡◌, Bool, true, false, List, Option, none, some, get_elem?, set, replicate, length,
}
use agh_operating_systems.PipeIntegral.Area.{Double}

-- Which children have exited, what stands in each pipe (`none` for an empty one), the next pipe that the parent reads,
-- and its total.
pub record System (F : Type 0) : Type 0 where
  pub exited : List Bool
  pub pipes : List (Option F)
  pub next_pipe : ℕ
  pub total : F

pub data Event : Type 0 where
  child_writes : ℕ → Event
  parent_reads : Event

module _ {F : Type 0} (a : Double F) (areas : List (Option F)) where
  -- `areas` is what each child computes, `none` for one that does not end.
  unfoldable pub init : System F
  init = record {
    exited = replicate (length areas) false;
    pipes = replicate (length areas) none;
    next_pipe = 0;
    total = a.nought;
  }

  -- `write` and `exit` of child `i`, with its part and whether it has exited.
  unfoldable pub write_part : ℕ → Option (Option F) → Option Bool → System F → Option (System F)
  write_part i (some (some part)) (some false) s =
      some (record s { exited = set s.exited i true; pipes = set s.pipes i (some part) })
  write_part i _ _ s = none

  -- `read` from the next pipe, with what stands in it: it waits while the pipe is empty and open for writing. An empty
  -- pipe whose child has exited gives no byte, and `partial` is 0.
  unfoldable pub read_part : Option (Option F) → Option Bool → System F → Option (System F)
  read_part (some (some partial)) _ s = some (record s {
    pipes = set s.pipes s.next_pipe none;
    next_pipe = s.next_pipe + 1;
    total = a.add s.total partial;
  })
  read_part (some none) (some true) s =
      some (record s { next_pipe = s.next_pipe + 1; total = a.add s.total a.nought })
  read_part _ _ s = none

  unfoldable pub step : Event → System F → Option (System F)
  step (child_writes i) s = write_part i (get_elem? areas i) (get_elem? s.exited i) s
  step parent_reads s = read_part (get_elem? s.pipes s.next_pipe) (get_elem? s.exited s.next_pipe) s

  pub data Run : ℕ → System F → Type 0 where
    start : Run 0 init
    next : {k : ℕ} {s t : System F} (e : Event) → Run k s → step e s ≡ some t → Run (suc k) t
