-- ===== src/TcpChat/Session.antt =====
-- What a session at the keyboard of cw11/assignment/client.c sends.
use agh_operating_systems.Prelude.{
  ◌≡◌, refl, Bool, true, false, List, [], ◌∷◌, ◌++◌, ◌==◌, if◌then◌else◌, length, map, arith, All,
}
use agh_operating_systems.CString.{Bytes, bytes, strcmp_eq}
use agh_operating_systems.TcpChat.Client.{Output, to_server, until_newline, input_loop}

-- The texts that go to the server.
abbrev pub sent : List Output → List Bytes
sent [] = []
sent (to_server text ∷ out) = text ∷ sent out
sent (_ ∷ out) = sent out

-- What typed lines send: all but the empty ones and HELP.
unfoldable pub commands : List Bytes → List Bytes
commands [] = []
commands (raw ∷ rest) =
    if length (until_newline raw) == 0
    then commands rest
    else if strcmp_eq (until_newline raw) (bytes "HELP")
    then commands rest
    else until_newline raw ∷ commands rest

abbrev pub is_quit : Bytes → Bool
is_quit raw = strcmp_eq (until_newline raw) (bytes "QUIT")

quit_stops :
    (rest : List (Bytes × Bool))
    → sent (input_loop ((bytes "QUIT", true) ∷ rest)) ≡ bytes "STOP" ∷ []
unfolding input_loop until_newline strcmp_eq
quit_stops rest = refl

-- A session in which every send succeeds: the lines before the first QUIT are sent, each once and in order, but
-- for empty lines and HELP; then STOP is sent once, and what is typed after that sends nothing.
pub input_loop-sent :
    (raws : List Bytes) (rest : List (Bytes × Bool))
    → All (λ raw. is_quit raw ≡ false) raws
    → sent (input_loop (map (λ raw. (raw, true)) raws ++ (bytes "QUIT", true) ∷ rest))
      ≡ commands raws ++ bytes "STOP" ∷ []
unfolding input_loop commands
input_loop-sent [] rest q = quit_stops rest
input_loop-sent (raw ∷ raws) rest q = ground (arith, input_loop-sent raws rest q.1)
