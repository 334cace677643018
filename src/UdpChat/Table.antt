-- ===== src/UdpChat/Table.antt =====
-- The client table of cw12/assignment/server.c: the records, the look-ups by address and by name,
-- registration, removal, and one round of the ping thread. The table is the list of the 50 slots.
use agh_operating_systems.Prelude.{
  ℕ, ◌+◌, ◌-◌, Bool, true, false, ◌&&◌, not, List, [], ◌∷◌, Option, none, some, ◌==◌, ltb,
  if◌then◌else◌, get_elem?, set, take, replicate, find_index,
}
use agh_operating_systems.CString.{Bytes, bytes, strcmp_eq}

abbrev pub max_clients : ℕ
max_clients = 50

abbrev pub max_name_len : ℕ
max_name_len = 32

abbrev pub timeout_seconds : ℕ
timeout_seconds = 60

-- `struct sockaddr_in`, as far as the server looks at it.
pub record Addr : Type 0 where
  pub ip : ℕ
  pub port : ℕ

-- `client_t`. The array `name` is the C string that it holds.
pub record Client : Type 0 where
  pub addr : Addr
  pub addr_len : ℕ
  pub name : Bytes
  pub active : Bool
  pub last_ping : ℕ
  pub registered : Bool

-- The globals `clients` and `client_count`. `client_count--` is truncated at 0 here; the code only
-- reaches it at an active slot, where the count of a well-formed table is positive.
pub record Server : Type 0 where
  pub clients : List Client
  pub client_count : ℕ

-- A datagram handed to `sendto`, whose result the server ignores.
pub record Sent : Type 0 where
  pub to : Addr
  pub text : Bytes

-- The results of `register_client`: an index, -2, -1.
pub data Registration : Type 0 where
  registered_at : ℕ → Registration
  name_taken : Registration
  server_full : Registration

-- A static object of C starts as zeros; `main` clears the two flags once more.
abbrev pub empty_slot : Client
empty_slot = record {
  addr = record { ip = 0; port = 0 };
  addr_len = 0;
  name = [];
  active = false;
  last_ping = 0;
  registered = false;
}

unfoldable pub init : Server
init = record { clients = replicate max_clients empty_slot; client_count = 0 }

unfoldable pub same_addr : Addr → Addr → Bool
same_addr a b = (a.ip == b.ip) && (a.port == b.port)

abbrev pub is_active : Client → Bool
is_active c = c.active

abbrev pub is_free : Client → Bool
is_free c = not c.active

abbrev pub has_addr : Addr → Client → Bool
has_addr a c = c.active && same_addr c.addr a

abbrev pub has_name : Bytes → Client → Bool
has_name n c = c.active && strcmp_eq c.name n

-- `none` is the -1 of the source.
unfoldable pub find_client_by_addr : Addr → Server → Option ℕ
find_client_by_addr a s = find_index (has_addr a) s.clients

unfoldable pub find_client_by_name : Bytes → Server → Option ℕ
find_client_by_name n s = find_index (has_name n) s.clients

-- What a successful registration writes into its slot.
abbrev pub new_client : Bytes → Addr → ℕ → ℕ → Client
new_client name addr len now = record {
  addr = addr;
  addr_len = len;
  name = take (max_name_len - 1) name;
  active = true;
  last_ping = now;
  registered = true;
}

unfoldable pub occupy : Client → Option ℕ → Server → Registration × Server
occupy c none s = (server_full, s)
occupy c (some i) s =
    (registered_at i, record s { clients = set s.clients i c; client_count = s.client_count + 1 })

unfoldable pub register_client : Bytes → Addr → ℕ → ℕ → Server → Registration × Server
register_client name addr len now s = elim (find_client_by_name name s) [
  | some _ ↦ (name_taken, s)
  | none ↦ occupy (new_client name addr len now) (find_index is_free s.clients) s
]

abbrev pub cleared : Client → Client
cleared c = record c { active = false; registered = false; name = [] }

unfoldable pub remove_client : ℕ → Server → Server
remove_client i s = elim (get_elem? s.clients i) [
  | none ↦ s
  | some c ↦
      if c.active
      then record s { clients = set s.clients i (cleared c); client_count = s.client_count - 1 }
      else s
]

-- An active client is dropped when its last sign of life is more than a minute old.
abbrev pub expired : ℕ → Client → Bool
expired now c = c.active && ltb timeout_seconds (now - c.last_ping)

-- The ping thread leaves the name in the slot that it frees.
unfoldable pub ping_client : ℕ → Client → Client
ping_client now c = if expired now c then record c { active = false; registered = false } else c

abbrev pub alive_message : Bytes
alive_message = bytes "ALIVE"

-- The `for` loop of `ping_clients` over the slots that are left, with `client_count`.
unfoldable pub ping_from : ℕ → List Client → ℕ → List Client × ℕ × List Sent
ping_from now [] n = ([], n, [])
ping_from now (c ∷ cs) n =
    let (rest, m, out) = ping_from now cs (if expired now c then n - 1 else n) in
    (
      ping_client now c ∷ rest,
      m,
      (if c.active && not (expired now c)
          then record { to = c.addr; text = alive_message } ∷ out
          else out),
    )

-- One round of `ping_clients`.
unfoldable pub ping_clients : ℕ → Server → Server × List Sent
ping_clients now s =
    let (cs, n, out) = ping_from now s.clients s.client_count in
    (record { clients = cs; client_count = n }, out)
