-- ===== src/TcpChat/Client.antt =====
-- The client of cw11/assignment/client.c behind its connection: the first answer, the thread that
-- receives, the loop that reads commands, and the handler of SIGINT.
use agh_operating_systems.Prelude.{
  ℕ, ◌-◌, Bool, true, false, List, [], ◌∷◌, ◌++◌, Option, none, some, ◌==◌, if◌then◌else◌, take,
  length,
}
use agh_operating_systems.CString.{Bytes, bytes, strcmp_eq, strncmp_eq, until_nul}

abbrev pub max_name_len : ℕ
max_name_len = 32

abbrev pub buffer_size : ℕ
buffer_size = 1024

-- What the client does: a text for the server, a text on the terminal, the help.
pub data Output : Type 0 where
  to_server : Bytes → Output
  printed : Bytes → Output
  helped : Output
  closed : Output

-- `client_name` of `main`, and what is sent first.
unfoldable pub introduce : Bytes → Bytes
introduce arg = take (max_name_len - 1) arg

-- The first answer, `none` if `recv` has no positive result: whether the client goes on, and what it does.
unfoldable pub first_answer : Option Bytes → Bool × List Output
first_answer none = (false, printed (bytes "Blad komunikacji z serwerem" ++ 10 ∷ []) ∷ closed ∷ [])
first_answer (some raw) =
    let response = until_nul (take (buffer_size - 1) raw) in
    if strncmp_eq response (bytes "ERROR") 5
    then (false, printed response ∷ closed ∷ [])
    else (true, printed response ∷ [])

-- One text of `receive_messages`.
unfoldable pub receive_one : Bytes → Output
receive_one raw =
    let buffer = until_nul (take (buffer_size - 1) raw) in
    if strncmp_eq buffer (bytes "ALIVE") 5 then to_server (bytes "PING") else printed buffer

-- The loop of `receive_messages`, for the results of its calls of `recv` while `running` is set; `none`
-- is a result that is not positive. The new value of `running`, and what is done.
unfoldable pub receive_messages : List (Option Bytes) → Bool × List Output
receive_messages [] = (true, [])
receive_messages (none ∷ rest) =
    (false, printed (bytes "Polaczenie z serwerem zostalo przerwane" ++ 10 ∷ []) ∷ [])
receive_messages (some raw ∷ rest) =
    let (more, out) = receive_messages rest in (more, receive_one raw ∷ out)

-- `input[strcspn(input, "\\n")] = 0`
unfoldable pub until_newline : Bytes → Bytes
until_newline [] = []
until_newline (b ∷ bs) = if b == 10 then [] else b ∷ until_newline bs

-- The loop of `main` over the lines that `fgets` reads, each with the success of its `send`.
unfoldable pub input_loop : List (Bytes × Bool) → List Output
input_loop [] = []
input_loop ((line, ok) ∷ rest) =
    let input = until_newline line in
    let more = input_loop rest in
    if length input == 0
    then more
    else if strcmp_eq input (bytes "QUIT")
    then to_server (bytes "STOP") ∷ []
    else if strcmp_eq input (bytes "HELP")
    then helped ∷ more
    else if ok
    then to_server input ∷ more
    else to_server input ∷ printed (bytes "Blad wysylania wiadomosci" ++ 10 ∷ []) ∷ []

unfoldable pub signal_handler : List Output
signal_handler =
    printed (10 ∷ bytes "Wylogowywanie z serwera..." ++ 10 ∷ [])
    ∷ to_server (bytes "STOP")
    ∷ closed
    ∷ []
