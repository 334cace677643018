-- ===== src/MessageQueue/Client.antt =====
-- The client of cw07/assignment/client.c: the messages that it sends to the server, and what it makes of those on its
-- own queue.
use agh_operating_systems.Prelude.{ℕ, List, [], ◌∷◌, ◌++◌, Option, none, some}
use agh_operating_systems.CString.{Bytes, bytes}
use agh_operating_systems.MessageQueue.Server.{Message, Response}

-- `queue` is the queue that the client has made under its key.
unfoldable pub init_message : (pid queue : ℕ) → Message
init_message pid queue = record { pid = pid; queue = some queue; text = bytes "INIT" }

-- A line that `fgets` has read into a buffer of the size of the text. The key 0 is IPC_PRIVATE; `fresh` is what
-- `msgget` makes of it, should the server ask.
unfoldable pub chat_message : (client_id : ℕ) (fresh : Option ℕ) (input : Bytes) → Message
chat_message client_id fresh input = record { pid = client_id; queue = fresh; text = input }

-- The loop of `main`.
unfoldable pub send_messages : (client_id : ℕ) (fresh : Option ℕ) → List Bytes → List Message
send_messages client_id fresh [] = []
send_messages client_id fresh (input ∷ rest) =
    chat_message client_id fresh input ∷ send_messages client_id fresh rest

-- `printf("[Client] %s\n", res.text)`
unfoldable pub client_line : Response → Bytes
client_line res = bytes "[Client] " ++ res.text ++ 10 ∷ []

unfoldable pub receive_messages : List Response → List Bytes
receive_messages [] = []
receive_messages (res ∷ rest) = client_line res ∷ receive_messages rest

-- The responses that arrive on the client's queue: the first gives the id, the listener prints the others.
unfoldable pub listen : List Response → Option (ℕ × List Bytes)
listen [] = none
listen (res ∷ rest) = some (res.client_id, receive_messages rest)
