-- ===== src/Signals/System.antt =====
-- The main loop of cw05/assignment/catcher.c, cw05/assignment/sender.c, and the signals between them.
use agh_operating_systems.Prelude.{
  ℕ, ◌+◌, ◌≡◌, Bool, true, false, ◌&&◌, List, [], ◌∷◌, Option, none, some, leb, if◌then◌else◌,
}
use agh_operating_systems.Signals.Catcher.{
  ℤ, pos, negsuc, pid_catcher, timer, Catcher, catcher, Handled, exited, replied, print,
  sig_handler,
}

-- The next statement of the catcher's `main`: `printf` and `timer = 0`, the inner `while`, `sleep`, the call of
-- `pause`, the sleep in it.
pub data CatcherPc : Type 0 where
  announcing : CatcherPc
  testing napping : (elapsed : ℕ) → CatcherPc
  to_pause asleep : CatcherPc

-- The sender: at `scanf`, between `sigqueue` and `pause`, in `pause`, behind the loop.
pub data SenderPc : Type 0 where
  reading sent paused finished : SenderPc

pub record System : Type 0 where
  pub inputs : List ℤ  -- what `scanf` will yet read
  pub sender : SenderPc
  pub mail : Option ℤ  -- the SIGUSR1 that waits for the catcher
  pub ack : Bool  -- a SIGUSR1 waits for the sender
  pub alive : Bool
  pub main : CatcherPc
  pub state : Catcher

unfoldable pub init : List ℤ → System
init inputs = record {
  inputs = inputs;
  sender = reading;
  mail = none;
  ack = false;
  alive = true;
  main = announcing;
  state = catcher;
}

-- `!(val < 1 || val > 5)`
unfoldable pub is_valid : ℤ → Bool
is_valid (pos n) = leb 1 n && leb n 5
is_valid (negsuc n) = false

-- `sigqueue`: of SIGUSR1 at most one is pending; a process that has ended gets none.
unfoldable pub sigqueue : ℤ → System → Option ℤ
sigqueue val s = if s.alive then elim s.mail [ none ↦ some val | some w ↦ some w ] else none

unfoldable pub sender_main : SenderPc → List ℤ → System → Option System
sender_main reading [] s = some (record s { sender = finished })
sender_main reading (val ∷ rest) s =
    if is_valid val
    then some (record s { inputs = rest; mail = sigqueue val s; sender = sent })
    else some (record s { inputs = rest })
sender_main sent inputs s = some (record s { sender = paused })
sender_main paused inputs s = none
sender_main finished inputs s = none

unfoldable pub catcher_main : CatcherPc → System → Option System
catcher_main announcing s = some (record s { state = print pid_catcher s.state; main = testing 0 })
catcher_main (testing elapsed) s =
    if s.state.timer_running
    then some (record s { state = print (timer elapsed) s.state; main = napping (elapsed + 1) })
    else some (record s { main = to_pause })
catcher_main (napping elapsed) s = some (record s { main = testing elapsed })
catcher_main to_pause s = some (record s { main = asleep })
catcher_main asleep s = none

-- Where the catcher goes on behind the handler: `pause` and `sleep` return.
abbrev pub resume : CatcherPc → CatcherPc
resume asleep = announcing
resume (napping elapsed) = testing elapsed
resume pc = pc

-- The handler of the catcher has run.
unfoldable pub handled : Handled → System → System
handled (replied c) s = record s { mail = none; ack = true; main = resume s.main; state = c }
handled (exited c) s = record s { mail = none; alive = false; state = c }

-- The handler of the sender has run: `pause` returns.
abbrev pub wake : SenderPc → SenderPc
wake paused = reading
wake pc = pc

pub data Event : Type 0 where
  sender_runs catcher_runs deliver acknowledge : Event

unfoldable pub step : Event → System → Option System
step sender_runs s = sender_main s.sender s.inputs s
step catcher_runs s = if s.alive then catcher_main s.main s else none
step deliver s = elim s.mail [
  | none ↦ none
  | some val ↦ if s.alive then some (handled (sig_handler val s.state) s) else none
]
step acknowledge s = if s.ack then some (record s { ack = false; sender = wake s.sender }) else none

pub data Run (from : System) : System → Type 0 where
  begin : Run from from
  next : {s t : System} (e : Event) → Run from s → step e s ≡ some t → Run from t
