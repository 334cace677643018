-- ===== src/TcpChat/Table.antt =====
-- The client table of cw11/assignment/server.c: the records, the look-up by name, and the functions
-- that take a client in, remove one and ping all. A descriptor is a number.
use agh_operating_systems.Prelude.{
  ℕ, ◌+◌, ◌-◌, Bool, true, false, ◌&&◌, not, List, [], ◌∷◌, ◌++◌, Option, none, some, ltb,
  if◌then◌else◌, get_elem?, set, take, replicate, find_index,
}
use agh_operating_systems.CString.{Bytes, bytes, strcmp_eq, until_nul}

abbrev pub max_clients : ℕ
max_clients = 50

abbrev pub max_name_len : ℕ
max_name_len = 32

-- `client_t`. Nothing reads the address. The array `name` is the C string that it holds.
pub record Client : Type 0 where
  pub socket : ℕ
  pub name : Bytes
  pub active : Bool
  pub last_ping : ℕ

-- The globals `clients` and `client_count`, which is only decremented for an active slot.
pub record Server : Type 0 where
  pub clients : List Client
  pub client_count : ℕ

-- The calls on a descriptor: `send`, whose result the server ignores, and `close`.
pub data Action : Type 0 where
  send : ℕ → Bytes → Action
  close : ℕ → Action

abbrev pub empty_slot : Client
empty_slot = record { socket = 0; name = []; active = false; last_ping = 0 }

unfoldable pub init : Server
init = record { clients = replicate max_clients empty_slot; client_count = 0 }

abbrev pub is_active : Client → Bool
is_active c = c.active

abbrev pub is_free : Client → Bool
is_free c = not c.active

abbrev pub has_name : Bytes → Client → Bool
has_name n c = c.active && strcmp_eq c.name n

-- `none` is the -1 of the source.
unfoldable pub find_client_by_name : Bytes → Server → Option ℕ
find_client_by_name n s = find_index (has_name n) s.clients

abbrev pub cleared : Client → Client
cleared c = record c { active = false; name = [] }

unfoldable pub remove_client : ℕ → Server → Server × List Action
remove_client i s = elim (get_elem? s.clients i) [
  | none ↦ (s, [])
  | some c ↦
      if c.active
      then (
        record { clients = set s.clients i (cleared c); client_count = s.client_count - 1 },
        close c.socket ∷ [],
      )
      else (s, [])
]

-- What `accept` and the first `recv` give: the descriptor, the bytes received (`none` for a result that
-- is not positive; at most 31 are asked for), and the time.
pub record Connection : Type 0 where
  pub socket : ℕ
  pub received : Option Bytes
  pub now : ℕ

abbrev pub name_error : Bytes
name_error = bytes "ERROR: Nazwa juz jest uzywana" ++ 10 ∷ []

abbrev pub full_error : Bytes
full_error = bytes "ERROR: Serwer pelny" ++ 10 ∷ []

abbrev pub welcome : Bytes
welcome = bytes "OK: Polaczono z serwerem" ++ 10 ∷ []

-- `client_name`, with its terminator behind the bytes that `recv` wrote.
abbrev pub client_name : Bytes → Bytes
client_name raw = until_nul (take (max_name_len - 1) raw)

abbrev pub new_client : Connection → Bytes → Client
new_client k name = record {
  socket = k.socket;
  name = take (max_name_len - 1) name;
  active = true;
  last_ping = k.now;
}

-- The loop of `main` that looks for a slot, and what follows it; the index if a thread is started.
unfoldable pub take_slot : Connection → Bytes → Option ℕ → Server → Option ℕ × Server × List Action
take_slot k name none s = (none, s, send k.socket full_error ∷ close k.socket ∷ [])
take_slot k name (some i) s = (
  some i,
  record { clients = set s.clients i (new_client k name); client_count = s.client_count + 1 },
  send k.socket welcome ∷ [],
)

-- The loop of `main` for one connection.
unfoldable pub accept_client : Connection → Server → Option ℕ × Server × List Action
accept_client k s = elim k.received [
  | none ↦ (none, s, close k.socket ∷ [])
  | some raw ↦ elim (find_client_by_name (client_name raw) s) [
    | some _ ↦ (none, s, send k.socket name_error ∷ close k.socket ∷ [])
    | none ↦ take_slot k (client_name raw) (find_index is_free s.clients) s
  ]
]

abbrev pub expired : ℕ → Client → Bool
expired now c = c.active && ltb 60 (now - c.last_ping)

unfoldable pub ping_client : ℕ → Client → Client
ping_client now c = if expired now c then record c { active = false } else c

abbrev pub alive : Bytes
alive = bytes "ALIVE" ++ 10 ∷ []

-- What the ping thread does with the descriptor of a slot.
unfoldable pub ping_action : ℕ → Client → List Action
ping_action now c =
    if c.active
    then (if expired now c then close c.socket ∷ [] else send c.socket alive ∷ [])
    else []

-- The `for` loop of `ping_clients` over the slots that are left, with `client_count`.
unfoldable pub ping_from : ℕ → List Client → ℕ → List Client × ℕ × List Action
ping_from now [] n = ([], n, [])
ping_from now (c ∷ cs) n =
    let (rest, m, out) = ping_from now cs (if expired now c then n - 1 else n) in
    (ping_client now c ∷ rest, m, ping_action now c ++ out)

-- One round of `ping_clients`.
unfoldable pub ping_clients : ℕ → Server → Server × List Action
ping_clients now s =
    let (cs, n, out) = ping_from now s.clients s.client_count in
    (record { clients = cs; client_count = n }, out)
