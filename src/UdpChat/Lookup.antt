-- ===== src/UdpChat/Lookup.antt =====
-- The look-ups of cw12/assignment/server.c, before and after a client's time is refreshed.
use agh_operating_systems.Prelude.{
  none, ◌⊎◌, inl, inr, Bool-cases, take, All, All-map, find_index-none-All, find_index-some-All, ℕ,
  ◌≡◌, ◌≢◌, refl, sym, ◌∙◌, true, false, [], ◌∷◌, ap, some, get_elem?, set, arith, subst,
  find_index-set, find_index-eq-some, get_elem?-set_self, get_elem?-set_ne, get_elem?-lt,
}
use mathlib.Core.Option.{some-injective}
use native.Mathlib.Decide.{ℕ_discrete}
use agh_operating_systems.CString.{Bytes, bytes, strncmp_eq, strcmp_eq_iff}
use agh_operating_systems.UdpChat.Table.{
  Addr, Client, Server, has_name, has_addr, same_addr, find_client_by_addr, find_client_by_name,
}
use agh_operating_systems.UdpChat.Messages.{
  Datagram, touch, handle_command, handle_message, name_at, send_to_client,
}

-- The slot that is found by address is active, and has the address.
pub found_by_addr :
    (a : Addr) (s : Server) (i : ℕ)
    → find_client_by_addr a s ≡ some i
    → (c : Client) × (get_elem? s.clients i ≡ some c) × (c.active ≡ true) × (c.addr ≡ a)
unfolding find_client_by_addr same_addr
found_by_addr a s i f =
    let (c, g, h) = find_index-eq-some (has_addr a) s.clients i f in
    (c, g, ground arith, ground arith)

pub found_slot :
    (a : Addr) (s : Server) (i : ℕ) (c : Client)
    → find_client_by_addr a s ≡ some i
    → get_elem? s.clients i ≡ some c
    → (c.active ≡ true) × (a ≡ c.addr)
found_slot a s i c f g =
    let (o, go, ao, e) = found_by_addr a s i f in
    let q : o ≡ c = some-injective o c (sym go ∙ g) in
    (sym (ap (λ x. x.active) q) ∙ ao, sym e ∙ ap (λ x. x.addr) q)

-- The slot that is found by name is active, and has the name.
pub found_by_name :
    (n : Bytes) (s : Server) (i : ℕ)
    → find_client_by_name n s ≡ some i
    → (c : Client) × (get_elem? s.clients i ≡ some c) × (c.active ≡ true) × (c.name ≡ n)
unfolding find_client_by_name
found_by_name n s i f =
    let (c, g, h) = find_index-eq-some (has_name n) s.clients i f in
    (c, g, ground arith, ground (arith, strcmp_eq_iff c.name n))

module _ (i now : ℕ) (s : Server) (c : Client) (g : get_elem? s.clients i ≡ some c) where
  pub touch-eq :
      touch i now s ≡ record s { clients = set s.clients i (record c { last_ping = now }) }
  unfolding touch
  touch-eq = rw (g, touch)

  pub get_elem?-touch : get_elem? (touch i now s).clients i ≡ some (record c { last_ping = now })
  get_elem?-touch = rw touch-eq (get_elem?-set_self s.clients i _ (get_elem?-lt s.clients i c g))

  pub client_count-touch : (touch i now s).client_count ≡ s.client_count
  client_count-touch = rw touch-eq refl

  pub get_elem?-touch_ne :
      (j : ℕ) → i ≢ j → get_elem? (touch i now s).clients j ≡ get_elem? s.clients j
  get_elem?-touch_ne j ne = rw touch-eq (get_elem?-set_ne s.clients i j _ ne)

  pub find_client_by_name-touch :
      (n : Bytes) → find_client_by_name n (touch i now s) ≡ find_client_by_name n s
  unfolding find_client_by_name
  find_client_by_name-touch n =
      rw touch-eq (find_index-set (has_name n) s.clients i c (record c { last_ping = now }) g refl)

  pub name_at-touch : name_at i (touch i now s) ≡ c.name
  unfolding name_at
  name_at-touch = rw (get_elem?-touch, name_at)

  -- A message to slot `j` goes to the same address as before.
  pub send_to_client-touch :
      (text : Bytes) (j : ℕ) (o : Client)
      → get_elem? s.clients j ≡ some o
      → o.active ≡ true
      → send_to_client text j (touch i now s) ≡ record { to = o.addr; text = text } ∷ []
  unfolding send_to_client
  send_to_client-touch text j o h a = elim (ℕ_discrete i j) [
    | yes e ↦
        (let q : o ≡ c = ground (arith, subst (λ m. get_elem? s.clients m ≡ some c) e g) in
          rw
            (
              subst (λ m. get_elem? (touch i now s).clients m ≡ some (record c { last_ping = now }))
                  e get_elem?-touch,
              send_to_client,
            )
            (ground (arith, q)))
    | no ne ↦ rw (get_elem?-touch_ne j ne, h, send_to_client, a)
  ]

-- A datagram of a registered client that is no REGISTER is a command, after its time is refreshed.
pub handle_message-command :
    (d : Datagram) (s : Server) (i : ℕ)
    → strncmp_eq d.buffer (bytes "REGISTER ") 9 ≡ false
    → find_client_by_addr d.from s ≡ some i
    → handle_message d s ≡ handle_command d i (touch i d.now s)
unfolding handle_message
handle_message-command d s i r f = rw (r, f, handle_message)

-- No active client of that name.
abbrev pub Unnamed : Bytes → Client → Type 0
Unnamed n c = (c.active ≡ false) ⊎ (c.name ≢ n)

has_name-Unnamed : (n : Bytes) (c : Client) → has_name n c ≡ false → Unnamed n c
has_name-Unnamed n c h = elim (Bool-cases c.active) [
  | inl a ↦ inr (λ e. absurd (ground (arith, strcmp_eq_iff c.name n)))
  | inr a ↦ inl a
]

-- The look-up finds the first active client of that name, or there is none.
pub find_client_by_name-none :
    (n : Bytes) (s : Server) → find_client_by_name n s ≡ none → All (Unnamed n) s.clients
unfolding find_client_by_name
find_client_by_name-none n s e =
    All-map (has_name-Unnamed n) s.clients (find_index-none-All (has_name n) s.clients e)

pub find_client_by_name-first :
    (n : Bytes) (s : Server) (j : ℕ)
    → find_client_by_name n s ≡ some j
    → All (Unnamed n) (take j s.clients)
unfolding find_client_by_name
find_client_by_name-first n s j e =
    All-map (has_name-Unnamed n) (take j s.clients) (find_index-some-All (has_name n) s.clients j e)
