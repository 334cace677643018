-- ===== src/UdpChat/ClientLoops.antt =====
-- The two loops of cw12/assignment/client.c over whole sequences of inputs.
use agh_operating_systems.Prelude.{
  ◌≡◌, refl, Bool, true, false, List, [], ◌∷◌, ◌++◌, some, map, if◌then◌else◌, arith, length,
  append_assoc, append-nil, ◌==◌, All,
}
use agh_operating_systems.CString.{Bytes, bytes, strncmp_eq, strcmp_eq}
use agh_operating_systems.UdpChat.Client.{
  ClientState, Output, from_server, help, receive_one, receive_messages, received_text, Line, typed,
  input_loop, until_newline,
}

abbrev is_alive : Bytes → Bool
is_alive raw = strncmp_eq (received_text raw) (bytes "ALIVE") 5

-- One PING for each ALIVE.
pub answers : List Bytes → List Bytes
answers [] = []
answers (raw ∷ rest) = if is_alive raw then bytes "PING" ∷ answers rest else answers rest

-- The texts that are no ALIVE, in order.
pub shown : List Bytes → List Output
shown [] = []
shown (raw ∷ rest) =
    if is_alive raw then shown rest else from_server (received_text raw) ∷ shown rest

-- Any datagrams that a running client receives: it answers each ALIVE with one PING, prints each other
-- text, in the order of arrival, and goes on running.
pub receive_messages_lem :
    (raws : List Bytes) (c : ClientState)
    → c.running ≡ true
    → receive_messages (map some raws) c
      ≡ record c { sent = c.sent ++ answers raws; printed = c.printed ++ shown raws }
unfolding receive_messages receive_one answers shown
receive_messages_lem [] c r = simp append-nil refl
receive_messages_lem (raw ∷ rest) c r = ground (
  arith,
  receive_messages_lem rest (record c { sent = c.sent ++ bytes "PING" ∷ [] }) r,
  receive_messages_lem rest
      (record c { printed = c.printed ++ from_server (received_text raw) ∷ [] }) r,
  append_assoc c.sent (bytes "PING" ∷ []) (answers rest),
  append_assoc c.printed (from_server (received_text raw) ∷ []) (shown rest),
)

-- What a list of typed lines sends: all but the empty ones and HELP.
pub commands : List Bytes → List Bytes
commands [] = []
commands (raw ∷ rest) =
    if length (until_newline raw) == 0
    then commands rest
    else if strcmp_eq (until_newline raw) (bytes "HELP")
    then commands rest
    else until_newline raw ∷ commands rest

abbrev pub is_quit : Bytes → Bool
is_quit raw = strcmp_eq (until_newline raw) (bytes "QUIT")

abbrev pub ends : Line
ends = typed (bytes "QUIT") true

quit_stops :
    (rest : List Line) (c : ClientState)
    → c.running ≡ true
    → let c' = input_loop (ends ∷ rest) c in
      (c'.sent ≡ c.sent ++ bytes "QUIT" ∷ []) × (c'.running ≡ false)
unfolding input_loop until_newline strcmp_eq
quit_stops rest c r = rw r (refl, refl)

-- A session of a running client: the lines before the first QUIT are sent, each once and in order, but
-- for empty lines and HELP; then QUIT is sent once, the client stops, and what is typed after
-- that is not read.
pub input_loop_lem :
    (raws : List Bytes) (rest : List Line) (c : ClientState)
    → c.running ≡ true
    → All (λ raw. is_quit raw ≡ false) raws
    → let c' = input_loop (map (λ raw. typed raw true) raws ++ ends ∷ rest) c in
      (c'.sent ≡ c.sent ++ (commands raws ++ bytes "QUIT" ∷ [])) × (c'.running ≡ false)
unfolding input_loop commands
input_loop_lem [] rest c r q = quit_stops rest c r
input_loop_lem (raw ∷ raws) rest c r q = ground (
  arith,
  input_loop_lem raws rest c r q.1,
  input_loop_lem raws rest (record c { printed = c.printed ++ help ∷ [] }) r q.1,
  input_loop_lem raws rest (record c { sent = c.sent ++ until_newline raw ∷ [] }) r q.1,
  append_assoc c.sent (until_newline raw ∷ []) (commands raws ++ bytes "QUIT" ∷ []),
)
