-- ===== src/Signals/Tests.antt =====
-- The theorems on cw05/assignment/catcher.c and cw05/assignment/sender.c applied to an input.
use agh_operating_systems.Prelude.{◌≡◌, ◌⊎◌, refl, true, false, List, [], ◌∷◌, ◌++◌, none}
use agh_operating_systems.Signals.Catcher.{
  ℤ, pos, received, pid_catcher, Catcher, catcher, change, switch, sig_handler, ignored,
}
use agh_operating_systems.Signals.System.{
  System, init, is_valid, sigqueue, sender_main, catcher_main, finished, testing, announcing, sent,
  paused, handled, sender_runs, catcher_runs, deliver, step, Run, begin, next,
}
use agh_operating_systems.Signals.History.{Summary, values}
use agh_operating_systems.Signals.Invariant.{valids, waiting}
use agh_operating_systems.Signals.Outcome.{
  Run-told, Run-Summary, Stuck, Run-Stuck, valid-Stuck, Run-complete,
}

abbrev typed : List ℤ
typed = pos 9 ∷ pos 3 ∷ pos 2 ∷ []

-- 9 has been skipped, 3 has been handled, and the sender is in front of `pause`.
abbrev ignoring : Catcher
ignoring = record {
  changes = 1;
  current_type = pos 3;
  timer_running = false;
  interrupt = ignored;
  printed = received (pos 3) ∷ [];
}

abbrev answered : System
answered = record {
  inputs = pos 2 ∷ [];
  sender = sent;
  mail = none;
  ack = true;
  alive = true;
  main = announcing;
  state = ignoring;
}

to_answered : Run (init typed) answered
unfolding init catcher step sender_main is_valid sigqueue handled sig_handler change switch
to_answered = next deliver (next sender_runs (next sender_runs begin refl) refl) refl

Run-told_example :
    values answered.state.printed ++ (waiting answered.mail ++ valids answered.inputs)
    ≡ valids typed
Run-told_example = Run-told typed to_answered

Run-Summary_example :
    Summary (values answered.state.printed) answered.state
    × ((answered.alive ≡ true) ⊎ (answered.state.current_type ≡ pos 5))
Run-Summary_example = Run-Summary typed to_answered

valid-Stuck_example : (t : System) × Run (init (pos 3 ∷ pos 2 ∷ [])) t × Stuck (pos 2 ∷ []) t
unfolding is_valid
valid-Stuck_example = valid-Stuck (pos 3) (pos 2 ∷ []) refl

-- The acknowledgement has come, and `pause` is called.
abbrev hanging : System
hanging = record answered { sender = paused; ack = false }

hanging-Stuck : Stuck (pos 2 ∷ []) hanging
hanging-Stuck = record { pausing = refl; no_mail = refl; no_ack = refl; unread = refl }

abbrev still_hanging : System
still_hanging = record hanging {
  main = testing 0;
  state = record ignoring { printed = received (pos 3) ∷ pid_catcher ∷ [] };
}

goes_on : Run hanging still_hanging
unfolding step catcher_main
goes_on = next catcher_runs begin refl

Run-Stuck_example : Stuck (pos 2 ∷ []) still_hanging
Run-Stuck_example = Run-Stuck hanging-Stuck goes_on

Run-complete_example :
    (t : System) × Run (init typed) t
    × (t.sender ≡ finished)
    × (values t.state.printed ≡ valids typed)
Run-complete_example = Run-complete typed (refl, (refl, (refl, tt)))
