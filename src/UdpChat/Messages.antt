-- ===== src/UdpChat/Messages.antt =====
-- `handle_message` of cw12/assignment/server.c, with the functions that send, and the two loops that
-- drive the server: `main` with its datagrams and the ping thread with its rounds.
use agh_operating_systems.Prelude.{
  ℕ, ◌+◌, ◌-◌, ◌≡◌, ◌&&◌, not, List, [], ◌∷◌, ◌++◌, Option, none, some, ◌==◌, ltb, if◌then◌else◌,
  get_elem?, set, take, drop, length,
}
use agh_operating_systems.CString.{Bytes, bytes, strncmp_eq, strchr, snprintf, until_nul}
use agh_operating_systems.UdpChat.Table.{
  Addr, Client, Server, Sent, Registration, registered_at, name_taken, server_full, init,
  find_client_by_addr, find_client_by_name, register_client, remove_client, ping_clients,
}

abbrev pub buffer_size : ℕ
buffer_size = 1024

-- `broadcast_message` from slot `i` on: to every active client but the sender.
unfoldable pub broadcast_from : Bytes → ℕ → ℕ → List Client → List Sent
broadcast_from text sender i [] = []
broadcast_from text sender i (c ∷ cs) =
    let rest = broadcast_from text sender (i + 1) cs in
    if c.active && not (i == sender) then record { to = c.addr; text = text } ∷ rest else rest

unfoldable pub broadcast_message : Bytes → ℕ → Server → List Sent
broadcast_message text sender s = broadcast_from text sender 0 s.clients

unfoldable pub send_to_client : Bytes → ℕ → Server → List Sent
send_to_client text i s = elim (get_elem? s.clients i) [
  | none ↦ []
  | some c ↦ if c.active then record { to = c.addr; text = text } ∷ [] else []
]

-- `client_info`, in its 64 bytes: "- name\n".
abbrev pub client_info : Client → Bytes
client_info c = snprintf 64 (bytes "- " ++ c.name ++ 10 ∷ [])

unfoldable pub client_lines : List Client → Bytes
client_lines [] = []
client_lines (c ∷ cs) = if c.active then client_info c ++ client_lines cs else client_lines cs

abbrev pub list_header : Bytes
list_header = bytes "Aktywni klienci:" ++ 10 ∷ []

-- The text that the `strcat` calls of LIST build up.
unfoldable pub list_text : Server → Bytes
list_text s = list_header ++ client_lines s.clients

-- The calls of `strcat` write the text and its terminator into `response`. `none` is a write
-- behind the end of that array.
unfoldable pub list_response : Server → Option Bytes
list_response s = if ltb (length (list_text s)) buffer_size then some (list_text s) else none

-- One call of `handle_message`. `now` is what `time` returns and `stamp` what `strftime` writes.
pub record Datagram : Type 0 where
  pub from : Addr
  pub addr_len : ℕ
  pub buffer : Bytes
  pub now : ℕ
  pub stamp : Bytes

abbrev pub reply : Datagram → Bytes → Sent
reply d text = record { to = d.from; text = text }

abbrev pub registration_reply : Registration → Bytes
registration_reply (registered_at i) = bytes "OK: Zarejestrowano pomyslnie"
registration_reply name_taken = bytes "ERROR: Nazwa juz jest uzywana"
registration_reply server_full = bytes "ERROR: Serwer pelny"

unfoldable pub handle_register : Datagram → Server → Server × List Sent
handle_register d s =
    let (r, s') = register_client (drop 9 d.buffer) d.from d.addr_len d.now s in
    (s', reply d (registration_reply r) ∷ [])

-- `clients[client_id].last_ping = time(NULL)`
unfoldable pub touch : ℕ → ℕ → Server → Server
touch i now s = elim (get_elem? s.clients i) [
  | none ↦ s
  | some c ↦ record s { clients = set s.clients i (record c { last_ping = now }) }
]

-- `clients[i].name`
unfoldable pub name_at : ℕ → Server → Bytes
name_at i s = elim (get_elem? s.clients i) [ none ↦ [] | some c ↦ c.name ]

unfoldable pub public_text : Bytes → Bytes → Bytes → Bytes
public_text stamp name text =
    snprintf buffer_size (bytes "[" ++ stamp ++ bytes "] " ++ name ++ bytes ": " ++ text)

unfoldable pub private_text : Bytes → Bytes → Bytes → Bytes
private_text stamp name text =
    snprintf buffer_size
      (bytes "[" ++ stamp ++ bytes "] " ++ name ++ bytes " (prywatnie): " ++ text)

-- The branch 2ONE behind its `strchr`: the target's name and the message are given.
unfoldable pub send_private : Datagram → ℕ → Bytes → Bytes → Server → List Sent
send_private d i target text s = elim (find_client_by_name target s) [
  | some j ↦
      send_to_client (private_text d.stamp (name_at i s) text) j s
      ++ reply d (snprintf buffer_size (bytes "Wiadomosc wyslana do " ++ target)) ∷ []
  | none ↦
      reply d (snprintf buffer_size (bytes "Klient " ++ target ++ bytes " nie zostal znaleziony"))
      ∷ []
]

unfoldable pub handle_private : Datagram → ℕ → Server → List Sent
handle_private d i s = elim (strchr (drop 5 d.buffer) b' ') [
  | none ↦ []
  | some (target, text) ↦ send_private d i target text s
]

unfoldable pub handle_list : Datagram → Server → Option (Server × List Sent)
handle_list d s = elim (list_response s) [ none ↦ none | some text ↦ some (s, reply d text ∷ []) ]

-- The commands of a client with slot `i`. `none` is the write out of bounds of LIST.
unfoldable pub handle_command : Datagram → ℕ → Server → Option (Server × List Sent)
handle_command d i s =
    if strncmp_eq d.buffer (bytes "LIST") 4
    then handle_list d s
    else if strncmp_eq d.buffer (bytes "2ALL ") 5
    then some (s, broadcast_message (public_text d.stamp (name_at i s) (drop 5 d.buffer)) i s)
    else if strncmp_eq d.buffer (bytes "2ONE ") 5
    then some (s, handle_private d i s)
    else if strncmp_eq d.buffer (bytes "QUIT") 4
    then some (remove_client i s, reply d (bytes "OK: Do widzenia") ∷ [])
    else if strncmp_eq d.buffer (bytes "PING") 4
    then some (s, reply d (bytes "PONG") ∷ [])
    else some (s, [])

unfoldable pub handle_message : Datagram → Server → Option (Server × List Sent)
handle_message d s =
    if strncmp_eq d.buffer (bytes "REGISTER ") 9
    then some (handle_register d s)
    else elim (find_client_by_addr d.from s) [
      | none ↦ some (s, reply d (bytes "ERROR: Niezarejestrowany klient") ∷ [])
      | some i ↦ handle_command d i (touch i d.now s)
    ]

-- What the two threads of the server do: `main` receives a datagram, or fails to, and the ping
-- thread wakes up.
pub data Event : Type 0 where
  received : Datagram → Event
  receive_failed : Event
  ping_round : ℕ → Event

-- `recvfrom` takes at most 1023 bytes, and `main` puts a terminator behind them.
abbrev pub as_text : Datagram → Datagram
as_text d = record d { buffer = until_nul (take (buffer_size - 1) d.buffer) }

unfoldable pub step : Event → Server → Option (Server × List Sent)
step (received d) s = handle_message (as_text d) s
step receive_failed s = some (s, [])
step (ping_round now) s = some (ping_clients now s)

-- The states that `main` and the ping thread go through from `init` by events that satisfy `P`, with
-- no write out of bounds.
pub data Reach (P : Event → Type 0) : Server → Type 0 where
  start : Reach P init
  next :
      {s t : Server} (e : Event) (out : List Sent)
      → P e
      → Reach P s
      → step e s ≡ some (t, out)
      → Reach P t
