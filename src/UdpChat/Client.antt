-- ===== src/UdpChat/Client.antt =====
-- The client of cw12/assignment/client.c: the registration, the thread that receives, the loop over
-- the lines that the user types, and the handler of SIGINT. The two threads share `running`.
use agh_operating_systems.Prelude.{
  ℕ, ◌-◌, Bool, true, false, not, List, [], ◌∷◌, ◌++◌, Option, none, some, ◌==◌, if◌then◌else◌,
  take, length,
}
use agh_operating_systems.CString.{Bytes, bytes, strncmp_eq, strcmp_eq, snprintf, until_nul}

abbrev pub max_name_len : ℕ
max_name_len = 32

abbrev pub buffer_size : ℕ
buffer_size = 1024

-- What the client prints, as far as it is modelled: a text of the server, or the help.
pub data Output : Type 0 where
  from_server : Bytes → Output
  help : Output

-- `running`, and what the client has sent to the server and printed so far, the newest last.
pub record ClientState : Type 0 where
  pub running : Bool
  pub sent : List Bytes
  pub printed : List Output

-- `strncpy(client_name, argv[1], MAX_NAME_LEN - 1)`, with a terminator behind it.
unfoldable pub client_name : Bytes → Bytes
client_name arg = take (max_name_len - 1) arg

unfoldable pub register_msg : Bytes → Bytes
register_msg name = snprintf buffer_size (bytes "REGISTER " ++ name)

-- A raw buffer of `recvfrom` as the C string that the client reads.
abbrev pub received_text : Bytes → Bytes
received_text raw = until_nul (take (buffer_size - 1) raw)

-- `register_with_server`: whether the request could be sent, whether the time limit could be set, and
-- the answer, `none` if `recvfrom` returns 0 or less. `true` is the result 0.
unfoldable pub register_with_server : Bool → Bool → Option Bytes → Bool
register_with_server false set answer = false
register_with_server true false answer = false
register_with_server true true none = false
register_with_server true true (some raw) = strncmp_eq (received_text raw) (bytes "OK:") 3

abbrev pub print : Output → ClientState → ClientState
print out c = record c { printed = c.printed ++ out ∷ [] }

abbrev pub send : Bytes → ClientState → ClientState
send text c = record c { sent = c.sent ++ text ∷ [] }

abbrev pub stop : ClientState → ClientState
stop c = record c { running = false }

-- One received text. Both branches of the `if` behind the test for ALIVE print it.
unfoldable pub receive_one : Bytes → ClientState → ClientState
receive_one text c =
    if strncmp_eq text (bytes "ALIVE") 5 then send (bytes "PING") c else print (from_server text) c

-- `receive_messages` over the results of `recvfrom`; at the end of the list the thread waits.
unfoldable pub receive_messages : List (Option Bytes) → ClientState → ClientState
receive_messages [] c = c
receive_messages (none ∷ rest) c = if c.running then stop c else c
receive_messages (some raw ∷ rest) c =
    let c' = receive_messages rest (receive_one (received_text raw) c) in
    if c.running then c' else c

-- `input[strcspn(input, "\n")] = 0`
unfoldable pub until_newline : Bytes → Bytes
until_newline [] = []
until_newline (b ∷ bs) = if b == 10 then [] else b ∷ until_newline bs

-- What `fgets` stores, or end of input, and whether `sendto` succeeds for that line.
pub data Line : Type 0 where
  typed : Bytes → Bool → Line
  end_of_input : Line

-- The loop of `main`; the end of the list is a wait for the next line. `running = 0` stands behind it.
unfoldable pub input_loop : List Line → ClientState → ClientState
input_loop [] c = c
input_loop (end_of_input ∷ rest) c = stop c
input_loop (typed raw ok ∷ rest) c =
    let text = until_newline raw in
    let skip = input_loop rest c in
    let helped = input_loop rest (print help c) in
    let sent = input_loop rest (send text c) in
    if not c.running
    then stop c
    else if length text == 0
    then skip
    else if strcmp_eq text (bytes "QUIT")
    then stop (send (bytes "QUIT") c)
    else if strcmp_eq text (bytes "HELP")
    then helped
    else if ok
    then sent
    else stop c

-- `signal_handler`: the client leaves the chat and ends.
unfoldable pub signal_handler : ClientState → ClientState
signal_handler c = stop (send (bytes "QUIT") c)
