-- ===== src/UdpChat/Registration.antt =====
-- What `register_client` of cw12/assignment/server.c does in each of its three outcomes.
use agh_operating_systems.Prelude.{
  ℕ, ◌+◌, ◌<◌, ◌≡◌, refl, sym, ◌∙◌, ◌≢◌, true, false, Option, none, some, get_elem?, length, arith,
  inl, inr, Option-cases, count, count-le, find_index, find_index-eq-some, find_index-eq-none,
  find_index-not-none, get_elem?-set_self, get_elem?-set_ne, get_elem?-lt, find_index_earlier,
}
use mathlib.Core.Bool.{false≢true}
use native.Mathlib.Decide.{dec_lt}
use agh_operating_systems.CString.{Bytes, strcmp_eq_iff}
use agh_operating_systems.UdpChat.Table.{
  Addr, Client, Server, Registration, registered_at, name_taken, server_full, max_clients,
  is_active, is_free, has_name, new_client, occupy, register_client, find_client_by_name,
}
use agh_operating_systems.UdpChat.WellFormed.{WellFormed}

-- What the caller of `register_client` may rely on, by the result.
abbrev pub Registers : Client → Bytes → Server → Registration → Server → Type 0
Registers c name s name_taken t =
    (t ≡ s)
    × ((i : ℕ) × (o : Client) × (get_elem? s.clients i ≡ some o)
        × (o.active ≡ true)
        × (o.name ≡ name))
Registers c name s server_full t =
    (t ≡ s)
    × (s.client_count ≡ max_clients)
    × ((i : ℕ) (o : Client) → get_elem? s.clients i ≡ some o → (o.active ≡ true) × (o.name ≢ name))
Registers c name s (registered_at i) t =
    (i < max_clients)
    × ((o : Client) × (get_elem? s.clients i ≡ some o) × (o.active ≡ false))
    × ((j : ℕ) (o : Client) → j < i → get_elem? s.clients j ≡ some o → o.active ≡ true)
    × ((j : ℕ) (o : Client) → get_elem? s.clients j ≡ some o → o.active ≡ true → o.name ≢ name)
    × (get_elem? t.clients i ≡ some c)
    × ((j : ℕ) → i ≢ j → get_elem? t.clients j ≡ get_elem? s.clients j)
    × (t.client_count ≡ s.client_count + 1)

-- No active slot has the name when the look-up fails.
pub name_unused :
    (name : Bytes) (s : Server) (j : ℕ) (o : Client)
    → find_client_by_name name s ≡ none
    → get_elem? s.clients j ≡ some o
    → o.active ≡ true
    → o.name ≢ name
unfolding find_client_by_name
name_unused name s j o f g a q =
    ground (arith, find_index-eq-none (has_name name) s.clients j o f g, strcmp_eq_iff o.name name)

all_active :
    (s : Server) (i : ℕ) (o : Client)
    → find_index is_free s.clients ≡ none
    → get_elem? s.clients i ≡ some o
    → o.active ≡ true
all_active s i o f g = ground (arith, find_index-eq-none is_free s.clients i o f g)

full_count :
    (s : Server) → WellFormed s → find_index is_free s.clients ≡ none → s.client_count ≡ max_clients
full_count s w f = elim (dec_lt (count is_active s.clients) (length s.clients)) [
  | yes lt ↦
      let (i, o, g, a) = find_index-not-none is_active s.clients lt in
      absurd (false≢true (sym a ∙ all_active s i o f g))
  | no ge ↦ omega (arith, w.counted, w.slots, count-le is_active s.clients)
]

name_used :
    (name : Bytes) (s : Server) (i : ℕ)
    → find_client_by_name name s ≡ some i
    → (j : ℕ) × (o : Client) × (get_elem? s.clients j ≡ some o)
      × (o.active ≡ true)
      × (o.name ≡ name)
unfolding find_client_by_name
name_used name s i f =
    let (o, g, h) = find_index-eq-some (has_name name) s.clients i f in
    (i, o, g, ground arith, ground (arith, strcmp_eq_iff o.name name))

occupy-Registers :
    (c : Client) (name : Bytes) (o : Option ℕ) (s : Server)
    → WellFormed s
    → find_client_by_name name s ≡ none
    → find_index is_free s.clients ≡ o
    → Registers c name s (occupy c o s).0 (occupy c o s).1
unfolding occupy
occupy-Registers c name none s w n f = (
  refl,
  full_count s w f,
  λ i o g. let a = all_active s i o f g in (a, name_unused name s i o n g a),
)
occupy-Registers c name (some i) s w n f =
    let (o, g, free) = find_index-eq-some is_free s.clients i f in
    let lt = get_elem?-lt s.clients i o g in
    (
      omega (arith, w.slots),
      (o, g, ground arith),
      (λ j x below gx. ground (arith, find_index_earlier is_free s.clients i j x f below gx)),
      (λ j x gx a. name_unused name s j x n gx a),
      get_elem?-set_self s.clients i c lt,
      (λ j ne. get_elem?-set_ne s.clients i j c ne),
      refl,
    )

-- `register_client` on a well-formed table. The result -2 leaves the table alone, and an active slot
-- has the name. The result -1 leaves it alone, 50 slots are active, and none has the name. A result
-- `i` is the first free slot: it now holds the new client, its other slots are unchanged, the
-- count is one higher, and no active slot had the name.
pub register_client_lem :
    (name : Bytes) (addr : Addr) (len now : ℕ) (s : Server)
    → WellFormed s
    → let (r, t) = register_client name addr len now s in
      Registers (new_client name addr len now) name s r t
unfolding register_client
register_client_lem name addr len now s w = elim (Option-cases (find_client_by_name name s)) [
  | inl e ↦
      rw (e, register_client)
        (occupy-Registers (new_client name addr len now) name (find_index is_free s.clients) s w e
          refl)
  | inr (i, e) ↦ rw (e, register_client) (refl, name_used name s i e)
]
