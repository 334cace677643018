-- ===== src/UdpChat/Ping.antt =====
-- One round of the ping thread of cw12/assignment/server.c: whom it drops and whom it asks.
use agh_operating_systems.Prelude.{
  ℕ, ◌-◌, ◌≤◌, ◌≡◌, ◌↔◌, refl, true, List, [], ◌∷◌, some, if◌then◌else◌, get_elem?, arith, map, ap,
  get_elem?-map-some,
}
use agh_operating_systems.UdpChat.Table.{
  Client, Server, Sent, expired, ping_client, ping_from, ping_clients, alive_message,
  timeout_seconds,
}

pub clients-ping_from :
    (now : ℕ) (cs : List Client) (n : ℕ) → (ping_from now cs n).0 ≡ map (ping_client now) cs
unfolding ping_from
clients-ping_from now [] n = refl
clients-ping_from now (c ∷ cs) n =
    ap (◌∷◌ (ping_client now c)) (clients-ping_from now cs (if expired now c then n - 1 else n))

pub clients-ping_clients :
    (now : ℕ) (s : Server) → (ping_clients now s).0.clients ≡ map (ping_client now) s.clients
unfolding ping_clients
clients-ping_clients now s = clients-ping_from now s.clients s.client_count

-- The clients that are active, in the order of their slots, each with an ALIVE for it.
pub alive_calls : List Client → List Sent
alive_calls [] = []
alive_calls (c ∷ cs) =
    if c.active
    then record { to = c.addr; text = alive_message } ∷ alive_calls cs
    else alive_calls cs

calls-ping_from :
    (now : ℕ) (cs : List Client) (n : ℕ)
    → (ping_from now cs n).2 ≡ alive_calls (ping_from now cs n).0
unfolding ping_from ping_client alive_calls
calls-ping_from now [] n = refl
calls-ping_from now (c ∷ cs) n =
    ground (arith, calls-ping_from now cs (if expired now c then n - 1 else n))

-- What a round does to the client of one slot: it stays active exactly if it was active and its last
-- sign of life is at most 60 seconds old; nothing but the two flags changes.
abbrev pub Pinged : ℕ → Client → Client → Type 0
Pinged now c c' =
    ((c'.active ≡ true) ↔ ((c.active ≡ true) × (now - c.last_ping ≤ timeout_seconds)))
    × (c'.addr ≡ c.addr)
    × (c'.name ≡ c.name)
    × (c'.last_ping ≡ c.last_ping)

pub ping_client-Pinged : (now : ℕ) (c : Client) → Pinged now c (ping_client now c)
unfolding ping_client
ping_client-Pinged now c = (
  (λ h. (ground arith, ground arith), λ h. ground arith),
  ground arith,
  ground arith,
  ground arith,
)

-- One round of the ping thread: in each slot the client stays active exactly if it was active and was
-- heard of at most 60 seconds ago, with its address, name and time unchanged; and ALIVE goes
-- out once to each client that is still active, in the order of the slots, and to nobody else.
pub ping_clients_lem :
    (now : ℕ) (s : Server)
    → let (t, out) = ping_clients now s in
      ((i : ℕ) (c : Client)
        → get_elem? s.clients i ≡ some c
        → (c' : Client) × (get_elem? t.clients i ≡ some c') × Pinged now c c')
      × (out ≡ alive_calls t.clients)
unfolding ping_clients
ping_clients_lem now s = (
  λ i c g. (
    ping_client now c,
    rw (clients-ping_from now s.clients s.client_count)
        (get_elem?-map-some (ping_client now) s.clients i c g),
    ping_client-Pinged now c,
  ),
  calls-ping_from now s.clients s.client_count,
)
