-- ===== src/UdpChat/WellFormed.antt =====
-- The invariant of the client table of cw12/assignment/server.c.
use agh_operating_systems.Prelude.{
  ℕ, ◌+◌, ◌-◌, ◌≤◌, ◌≡◌, refl, sym, ◌∙◌, true, List, [], ◌∷◌, Option, none, some, if◌then◌else◌,
  get_elem?, set, length, length-set, length-take, arith, ap, length-map, All-replicate, subst, inl,
  inr, Bool-cases, Option-cases, All, All-set, All-get_elem?, count, count-set, count-pos,
  find_index, find_index-eq-some, weight, map,
}
use agh_operating_systems.CString.{Bytes}
use agh_operating_systems.UdpChat.Table.{
  Addr, Client, Server, init, max_clients, max_name_len, is_active, is_free, new_client, occupy,
  register_client, cleared, remove_client, expired, ping_client, ping_from, ping_clients,
  empty_slot, find_client_by_name,
}
use agh_operating_systems.UdpChat.Changes.{
  Change, kept, joined, touched, parted, swept, step-Change,
}
use agh_operating_systems.UdpChat.Messages.{Event, touch, Reach, start, next}

-- A slot is registered exactly while it is active, and its name fits into the array.
abbrev pub IsSound : Client → Type 0
IsSound c = (c.registered ≡ c.active) × (length c.name ≤ max_name_len - 1)

pub record WellFormed (s : Server) : Type 0 where
  pub slots : length s.clients ≡ max_clients
  pub counted : s.client_count ≡ count is_active s.clients
  pub sound : All IsSound s.clients

pub init-WellFormed : WellFormed init
unfolding init count
init-WellFormed = record {
  slots = refl;
  counted = refl;
  sound = All-replicate IsSound max_clients empty_slot (refl, omega arith);
}

-- Writing one slot keeps the table well-formed if the count follows the flag.
set-WellFormed :
    (s : Server) (i n : ℕ) (c v : Client)
    → WellFormed s
    → get_elem? s.clients i ≡ some c
    → IsSound v
    → n + weight is_active c ≡ s.client_count + weight is_active v
    → WellFormed (record { clients = set s.clients i v; client_count = n })
set-WellFormed s i n c v w g h e = record {
  slots = length-set s.clients i v ∙ w.slots;
  counted = omega (arith, count-set is_active s.clients i c v g, w.counted);
  sound = All-set IsSound s.clients i v w.sound h;
}

occupy-WellFormed :
    (c : Client) (o : Option ℕ) (s : Server)
    → find_index is_free s.clients ≡ o
    → IsSound c
    → c.active ≡ true
    → WellFormed s
    → WellFormed (occupy c o s).1
unfolding occupy
occupy-WellFormed c none s f h a w = w
occupy-WellFormed c (some i) s f h a w =
    let (d, g, free) = find_index-eq-some is_free s.clients i f in
    set-WellFormed s i (s.client_count + 1) d c w g h (ground arith)

pub register_client-WellFormed :
    (name : Bytes) (addr : Addr) (len now : ℕ) (s : Server)
    → WellFormed s
    → WellFormed (register_client name addr len now s).1
unfolding register_client
register_client-WellFormed name addr len now s w =
    elim (Option-cases (find_client_by_name name s)) [
      | inl e ↦
          rw (e, register_client)
            (occupy-WellFormed (new_client name addr len now) (find_index is_free s.clients) s refl
              (refl, omega (arith, length-take 31 name)) refl w)
      | inr (i, e) ↦ rw (e, register_client) w
    ]

pub remove_client-WellFormed : (i : ℕ) (s : Server) → WellFormed s → WellFormed (remove_client i s)
unfolding remove_client
remove_client-WellFormed i s w = elim (Option-cases (get_elem? s.clients i)) [
  | inl e ↦ rw (e, remove_client) w
  | inr (c, e) ↦ elim (Bool-cases c.active) [
    | inl a ↦
        rw (e, remove_client, a)
          (set-WellFormed s i (s.client_count - 1) c (cleared c) w e (refl, omega arith)
            (ground (arith, w.counted, count-pos is_active s.clients i c)))
    | inr a ↦ rw (e, remove_client, a) w
  ]
]

pub touch-WellFormed : (i now : ℕ) (s : Server) → WellFormed s → WellFormed (touch i now s)
unfolding touch
touch-WellFormed i now s w = elim (Option-cases (get_elem? s.clients i)) [
  | inl e ↦ rw (e, touch) w
  | inr (c, e) ↦
      rw (e, touch)
        (set-WellFormed s i s.client_count c (record c { last_ping = now }) w e
          (All-get_elem? IsSound s.clients i c w.sound e) refl)
]

-- The loop of the ping thread: it keeps the slots in place and sound, and counts what is left.
ping_from_lem :
    (now : ℕ) (cs : List Client) (n : ℕ)
    → count is_active cs ≤ n
    → All IsSound cs
    → ((ping_from now cs n).0 ≡ map (ping_client now) cs)
      × ((ping_from now cs n).1 + count is_active cs ≡ n + count is_active (ping_from now cs n).0)
      × All IsSound (ping_from now cs n).0
unfolding ping_from ping_client count
ping_from_lem now [] n h a = (refl, omega arith, tt)
ping_from_lem now (c ∷ cs) n h a =
    ground (arith, ping_from_lem now cs (if expired now c then n - 1 else n))

pub ping_clients-WellFormed :
    (now : ℕ) (s : Server) → WellFormed s → WellFormed (ping_clients now s).0
unfolding ping_clients
ping_clients-WellFormed now s w =
    let (cs, n, a) =
      ping_from_lem now s.clients s.client_count (omega (arith, w.counted)) w.sound in
    record {
      slots = ap length cs ∙ length-map (ping_client now) s.clients ∙ w.slots;
      counted = omega (arith, n, w.counted);
      sound = a;
    }

Change-WellFormed : {e : Event} {s t : Server} → Change e s t → WellFormed s → WellFormed t
Change-WellFormed (kept q) w = subst WellFormed (sym q) w
Change-WellFormed {s = s} (joined d _ _ q) w =
    subst WellFormed (sym q) (register_client-WellFormed _ _ _ _ s w)
Change-WellFormed {s = s} (touched i now q) w =
    subst WellFormed (sym q) (touch-WellFormed i now s w)
Change-WellFormed {s = s} (parted i now q) w =
    subst WellFormed (sym q) (remove_client-WellFormed i _ (touch-WellFormed i now s w))
Change-WellFormed {s = s} (swept now q) w =
    subst WellFormed (sym q) (ping_clients-WellFormed now s w)

-- Every state that the server reaches from its start, by any datagrams, failed receives and ping
-- rounds, has 50 slots, counts its active slots right, and holds only names that fit.
pub Reach-WellFormed : {P : Event → Type 0} {s : Server} → Reach P s → WellFormed s
Reach-WellFormed start = init-WellFormed
Reach-WellFormed (next e out _ r h) =
    Change-WellFormed (step-Change e _ _ out h) (Reach-WellFormed r)
