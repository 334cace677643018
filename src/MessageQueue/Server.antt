-- ===== src/MessageQueue/Server.antt =====
-- The server of cw07/assignment/server.c. A message queue is the number that `msgget` gives.
use agh_operating_systems.Prelude.{
  ℕ, ◌+◌, Bool, true, false, ◌&&◌, not, List, [], ◌∷◌, ◌++◌, Option, none, some, ◌==◌, leb,
  if◌then◌else◌, set, replicate,
}
use agh_operating_systems.CString.{Bytes, bytes, digits, strncmp_eq, snprintf}

abbrev pub max_clients : ℕ
max_clients = 10

abbrev pub max_text : ℕ
max_text = 256

-- `message`, with the text as a C string. `queue` is what `msgget(client_queue_key, 0)` returns, `none`
-- for -1.
pub record Message : Type 0 where
  pub pid : ℕ
  pub queue : Option ℕ
  pub text : Bytes

-- `response`, and the queue that it is sent to; the server goes on also if `msgsnd` fails.
pub record Response : Type 0 where
  pub queue : ℕ
  pub client_id : ℕ
  pub text : Bytes

pub record ClientInfo : Type 0 where
  pub client_id : ℕ
  pub queue_id : ℕ
  pub active : Bool

-- The globals.
pub record Server : Type 0 where
  pub clients : List ClientInfo
  pub client_count : ℕ

-- A static object of C starts as zeros.
abbrev pub unused : ClientInfo
unused = record { client_id = 0; queue_id = 0; active = false }

unfoldable pub init : Server
init = record { clients = replicate max_clients unused; client_count = 0 }

unfoldable pub broadcast_text : ℕ → Bytes → Bytes
broadcast_text sender msg =
    snprintf max_text (bytes "Client " ++ digits sender ++ bytes ": " ++ msg)

-- The loop of `broadcast_message` over the slots that are left.
unfoldable pub broadcast_from : ℕ → Bytes → List ClientInfo → List Response
broadcast_from sender text [] = []
broadcast_from sender text (c ∷ cs) =
    let rest = broadcast_from sender text cs in
    if c.active && not (c.client_id == sender)
    then record { queue = c.queue_id; client_id = sender; text = text } ∷ rest
    else rest

unfoldable pub broadcast_message : ℕ → Bytes → Server → List Response
broadcast_message sender msg s = broadcast_from sender (broadcast_text sender msg) s.clients

unfoldable pub id_text : ℕ → Bytes
id_text id = snprintf max_text (bytes "Your client ID is " ++ digits id)

-- INIT, behind the test for a free slot.
unfoldable pub register : Option ℕ → Server → Server × List Response
register none s = (s, [])
register (some q) s =
    let id = s.client_count + 1 in
    (
      record {
        clients =
            set s.clients s.client_count (record { client_id = id; queue_id = q; active = true });
        client_count = s.client_count + 1;
      },
      record { queue = q; client_id = id; text = id_text id } ∷ [],
    )

-- The loop of `main` for one message.
unfoldable pub handle_message : Message → Server → Server × List Response
handle_message m s =
    if strncmp_eq m.text (bytes "INIT") 4
    then (if leb max_clients s.client_count then (s, []) else register m.queue s)
    else (s, broadcast_message m.pid m.text s)

-- The loop of `main`, for the messages that arrive: the state behind them.
unfoldable pub serve : List Message → Server → Server
serve [] s = s
serve (m ∷ ms) s = serve ms (handle_message m s).0
