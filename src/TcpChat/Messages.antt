-- ===== src/TcpChat/Messages.antt =====
-- `handle_client` of cw11/assignment/server.c, with the functions that send, and the threads of the
-- server together.
use agh_operating_systems.Prelude.{
  ℕ, ◌+◌, ◌-◌, ◌≡◌, Bool, true, false, ◌&&◌, not, List, [], ◌∷◌, ◌++◌, Option, none, some, ◌==◌,
  ltb, if◌then◌else◌, get_elem?, set, take, drop, length,
}
use agh_operating_systems.CString.{Bytes, bytes, strncmp_eq, strchr, snprintf, until_nul}
use agh_operating_systems.TcpChat.Table.{
  Client, Server, Action, send, init, find_client_by_name, remove_client, Connection, accept_client,
  ping_clients,
}

abbrev pub buffer_size : ℕ
buffer_size = 1024

-- `broadcast_message` from slot `i` on: to every active client but the sender.
unfoldable pub broadcast_from : Bytes → ℕ → ℕ → List Client → List Action
broadcast_from text sender i [] = []
broadcast_from text sender i (c ∷ cs) =
    let rest = broadcast_from text sender (i + 1) cs in
    if c.active && not (i == sender) then send c.socket text ∷ rest else rest

unfoldable pub broadcast_message : Bytes → ℕ → Server → List Action
broadcast_message text sender s = broadcast_from text sender 0 s.clients

unfoldable pub send_to_client : Bytes → ℕ → Server → List Action
send_to_client text i s = elim (get_elem? s.clients i) [
  | none ↦ []
  | some c ↦ if c.active then send c.socket text ∷ [] else []
]

unfoldable pub client_lines : List Client → Bytes
client_lines [] = []
client_lines (c ∷ cs) =
    if c.active
    then snprintf 64 (bytes "- " ++ c.name ++ 10 ∷ []) ++ client_lines cs
    else client_lines cs

-- The text that the `strcat` calls of LIST build up.
unfoldable pub list_text : Server → Bytes
list_text s = (bytes "Aktywni klienci:" ++ 10 ∷ []) ++ client_lines s.clients

-- What a client's thread receives; `now` is what `time` returns and `stamp` what `strftime` writes.
pub record Message : Type 0 where
  pub buffer : Bytes
  pub now : ℕ
  pub stamp : Bytes

-- `clients[client_id].last_ping = time(NULL)`
unfoldable pub touch : ℕ → ℕ → Server → Server
touch i now s = elim (get_elem? s.clients i) [
  | none ↦ s
  | some c ↦ record s { clients = set s.clients i (record c { last_ping = now }) }
]

-- `send(clients[client_id].socket, …)`
unfoldable pub reply : ℕ → Server → Bytes → List Action
reply i s text = elim (get_elem? s.clients i) [ none ↦ [] | some c ↦ send c.socket text ∷ [] ]

-- `clients[i].name`
unfoldable pub name_at : ℕ → Server → Bytes
name_at i s = elim (get_elem? s.clients i) [ none ↦ [] | some c ↦ c.name ]

unfoldable pub public_text : Message → Bytes → Bytes
public_text d name =
    snprintf buffer_size
      (bytes "[" ++ d.stamp ++ bytes "] " ++ name ++ bytes ": " ++ drop 5 d.buffer ++ 10 ∷ [])

unfoldable pub private_text : Message → Bytes → Bytes → Bytes
private_text d name text =
    snprintf buffer_size
      (bytes "[" ++ d.stamp ++ bytes "] " ++ name ++ bytes " (prywatnie): " ++ text ++ 10 ∷ [])

-- The confirmation, in the bytes of the source, which holds one letter outside ASCII.
unfoldable pub sent_text : Bytes → Bytes
sent_text target =
    snprintf buffer_size (bytes "Wiadomosc wys" ++ 197 ∷ 130 ∷ bytes "ana do " ++ target ++ 10 ∷ [])

unfoldable pub unknown_text : Bytes → Bytes
unknown_text target =
    snprintf buffer_size (bytes "Klient " ++ target ++ bytes " nie zostal znaleziony" ++ 10 ∷ [])

-- The branch 2ONE behind its `strchr`: the target's name and the message are given.
unfoldable pub send_private : Message → ℕ → Bytes → Bytes → Server → List Action
send_private d i target text s = elim (find_client_by_name target s) [
  | some j ↦ send_to_client (private_text d (name_at i s) text) j s ++ reply i s (sent_text target)
  | none ↦ reply i s (unknown_text target)
]

unfoldable pub handle_private : Message → ℕ → Server → List Action
handle_private d i s = elim (strchr (drop 5 d.buffer) b' ') [
  | none ↦ []
  | some (target, text) ↦ send_private d i target text s
]

-- How a round of the loop of `handle_client` ends: it goes on, it breaks, or `strcat` has written behind the
-- end of `response`.
pub data Round : Type 0 where
  again : List Action → Round
  leave : Round
  overflow : Round

unfoldable pub handle_list : ℕ → Server → Round
handle_list i s =
    if ltb (length (list_text s)) buffer_size then again (reply i s (list_text s)) else overflow

unfoldable pub handle_command : Message → ℕ → Server → Round
handle_command d i s =
    if strncmp_eq d.buffer (bytes "LIST") 4
    then handle_list i s
    else if strncmp_eq d.buffer (bytes "2ALL ") 5
    then again (broadcast_message (public_text d (name_at i s)) i s)
    else if strncmp_eq d.buffer (bytes "2ONE ") 5
    then again (handle_private d i s)
    else if strncmp_eq d.buffer (bytes "STOP") 4
    then leave
    else if strncmp_eq d.buffer (bytes "PING") 4
    then again (reply i s (bytes "PONG" ++ 10 ∷ []))
    else again []

-- The end of `handle_client`, or of a round: whether the thread goes on, the table, and the calls.
-- `none` is the write out of bounds.
unfoldable pub end_round : ℕ → Server → Round → Option (Bool × Server × List Action)
end_round i s (again out) = some (true, s, out)
end_round i s leave = let (t, out) = remove_client i s in some (false, t, out)
end_round i s overflow = none

abbrev pub as_text : Message → Message
as_text d = record d { buffer = until_nul (take (buffer_size - 1) d.buffer) }

unfoldable pub slot_active : ℕ → Server → Bool
slot_active i s = elim (get_elem? s.clients i) [ none ↦ false | some c ↦ c.active ]

-- `while (clients[client_id].active)`: the thread goes on to its `recv`, or removes the client and ends.
unfoldable pub test_active : ℕ → Server → Option (Bool × Server × List Action)
test_active i s = if slot_active i s then some (true, s, []) else end_round i s leave

-- Behind the `recv` of a round of `handle_client`, for slot `i`: a message is handled also when the slot has been freed
-- since the test. `none` stands for a result of `recv` that is not positive.
unfoldable pub handle_client : Option Message → ℕ → Server → Option (Bool × Server × List Action)
handle_client none i s = end_round i s leave
handle_client (some d) i s =
    let t = touch i d.now s in end_round i t (handle_command (as_text d) i t)

-- What the threads of the server do: `main` accepts, a client's thread tests its slot or has a result of `recv`, the
-- ping thread wakes up. They come in any order, those that the code allows among them.
pub data Event : Type 0 where
  accepted : Connection → Event
  tested : ℕ → Event
  received : ℕ → Option Message → Event
  ping_round : ℕ → Event

-- The table and the calls, without the end of the thread.
abbrev pub effect : Option (Bool × Server × List Action) → Option (Server × List Action)
effect none = none
effect (some (more, t, out)) = some (t, out)

unfoldable pub step : Event → Server → Option (Server × List Action)
step (accepted k) s = let (started, t, out) = accept_client k s in some (t, out)
step (tested i) s = effect (test_active i s)
step (received i d) s = effect (handle_client d i s)
step (ping_round now) s = some (ping_clients now s)

-- The states that the server reaches, with what happened and the calls on descriptors so far.
pub data Reach : Server → List Event → List Action → Type 0 where
  start : Reach init [] []
  next :
      {s t : Server} {es : List Event} {log : List Action} (e : Event) (out : List Action)
      → Reach s es log
      → step e s ≡ some (t, out)
      → Reach t (es ++ e ∷ []) (log ++ out)
