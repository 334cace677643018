-- ===== src/UdpChat/Names.antt =====
-- Whether the names in the table of cw12/assignment/server.c tell the clients apart.
-- `register_client` compares the whole name that it is given, and stores its first 31 bytes.
use agh_operating_systems.Prelude.{
  ℕ, ◌+◌, ◌-◌, ◌≤◌, ◌<◌, ◌≡◌, ◌≢◌, refl, sym, ◌∙◌, Bool, true, ap, some, if◌then◌else◌, leb,
  get_elem?, set, take, drop, length, arith, inl, inr, Bool-cases, Option-cases,
  get_elem?-set_cases, ◌⊎◌, get_elem?-replicate, All-get_elem?, get_elem?-map, take_all, subst,
}
use native.Mathlib.Decide.{ℕ_discrete}
use mathlib.Core.Bool.{false≢true}
use agh_operating_systems.CString.{Bytes, bytes, strncmp_eq}
use agh_operating_systems.UdpChat.Table.{
  Addr, Client, Server, Registration, registered_at, name_taken, server_full, max_clients, init,
  max_name_len, new_client, register_client, remove_client, ping_client, ping_clients, empty_slot,
}
use agh_operating_systems.UdpChat.Messages.{
  Event, received, receive_failed, ping_round, touch, as_text, Reach, start, next,
}
use agh_operating_systems.UdpChat.Changes.{
  Change, kept, joined, touched, parted, swept, step-Change,
}
use agh_operating_systems.UdpChat.Ping.{clients-ping_clients}
use agh_operating_systems.UdpChat.WellFormed.{
  WellFormed, IsSound, register_client-WellFormed, Reach-WellFormed,
}
use agh_operating_systems.UdpChat.Registration.{Registers, register_client_lem}

-- No two active slots hold the same name.
abbrev pub Distinct : Server → Type 0
Distinct s =
    (i j : ℕ) (a b : Client)
    → get_elem? s.clients i ≡ some a
    → get_elem? s.clients j ≡ some b
    → a.active ≡ true
    → b.active ≡ true
    → a.name ≡ b.name
    → i ≡ j

-- Every active slot of `t` was active in `s` with the same name.
abbrev Shrinks : Server → Server → Type 0
Shrinks s t =
    (i : ℕ) (b : Client)
    → get_elem? t.clients i ≡ some b
    → b.active ≡ true
    → (a : Client) × (get_elem? s.clients i ≡ some a) × (a.active ≡ true) × (a.name ≡ b.name)

Shrinks-Distinct : (s t : Server) → Shrinks s t → Distinct s → Distinct t
Shrinks-Distinct s t h d i j a b ga gb aa ab e =
    let (a', ga', aa', ea) = h i a ga aa in
    let (b', gb', ab', eb) = h j b gb ab in d i j a' b' ga' gb' aa' ab' (ea ∙ e ∙ sym eb)

-- A write that frees the slot, or keeps the client's name, shrinks the table.
set-Shrinks :
    (s : Server) (i n : ℕ) (c v : Client)
    → get_elem? s.clients i ≡ some c
    → (v.active ≡ true → (c.active ≡ true) × (c.name ≡ v.name))
    → Shrinks s (record { clients = set s.clients i v; client_count = n })
set-Shrinks s i n c v g k j b h a = elim (get_elem?-set_cases s.clients i j v b h) [
  | inl (e, q) ↦ (
    c,
    subst (λ m. get_elem? s.clients m ≡ some c) e g,
    (k (ap (λ x. x.active) (sym q) ∙ a)).0,
    (k (ap (λ x. x.active) (sym q) ∙ a)).1 ∙ ap (λ x. x.name) (sym q),
  )
  | inr (e, q) ↦ (b, q, a, refl)
]

kept-Shrinks : (s : Server) → Shrinks s s
kept-Shrinks s i b g a = (b, g, a, refl)

touch-Shrinks : (i now : ℕ) (s : Server) → Shrinks s (touch i now s)
unfolding touch
touch-Shrinks i now s = elim (Option-cases (get_elem? s.clients i)) [
  | inl e ↦ rw (e, touch) (kept-Shrinks s)
  | inr (c, e) ↦
      rw (e, touch)
        (set-Shrinks s i s.client_count c (record c { last_ping = now }) e (λ a. (a, refl)))
]

remove_client-Shrinks : (i : ℕ) (s : Server) → Shrinks s (remove_client i s)
unfolding remove_client
remove_client-Shrinks i s = elim (Option-cases (get_elem? s.clients i)) [
  | inl e ↦ rw (e, remove_client) (kept-Shrinks s)
  | inr (c, e) ↦ elim (Bool-cases c.active) [
    | inl a ↦
        rw (e, remove_client, a)
          (set-Shrinks s i (s.client_count - 1) c _ e (λ h. absurd (false≢true h)))
    | inr a ↦ rw (e, remove_client, a) (kept-Shrinks s)
  ]
]

ping_clients-Shrinks : (now : ℕ) (s : Server) → Shrinks s (ping_clients now s).0
unfolding ping_client
ping_clients-Shrinks now s i b g a =
    let (c, gc, e) =
      get_elem?-map (ping_client now) s.clients i b (rw (clients-ping_clients now s) at g) in
    (c, gc, ground arith, ground arith)

-- A slot of the table after a registration holds the new client, or what it held.
slot_cases :
    (c : Client) (name : Bytes) (s t : Server) (k : ℕ)
    → Registers c name s (registered_at k) t
    → (j : ℕ) (b : Client) → get_elem? t.clients j ≡ some b
    → ((k ≡ j) × (b ≡ c)) ⊎ (get_elem? s.clients j ≡ some b)
slot_cases c name s t k h j b g = elim (ℕ_discrete k j) [
  | yes e ↦ inl (e, ground (arith, subst (λ m. get_elem? t.clients m ≡ some c) e h.4))
  | no ne ↦ inr (sym (h.5 j ne) ∙ g)
]

registered_at-Distinct :
    (c : Client) (name : Bytes) (s t : Server) (k : ℕ)
    → c.name ≡ name
    → Registers c name s (registered_at k) t
    → Distinct s
    → Distinct t
registered_at-Distinct c name s t k e h d i j a b ga gb aa ab q =
    elim (slot_cases c name s t k h i a ga) [
      | inl (ki, ac) ↦ elim (slot_cases c name s t k h j b gb) [
        | inl (kj, bc) ↦ sym ki ∙ kj
        | inr old ↦ absurd (h.3 j b old ab (sym q ∙ ap (λ x. x.name) ac ∙ e))
      ]
      | inr old ↦ elim (slot_cases c name s t k h j b gb) [
        | inl (kj, bc) ↦ absurd (h.3 i a old aa (q ∙ ap (λ x. x.name) bc ∙ e))
        | inr old' ↦ d i j a b old old' aa ab q
      ]
    ]

-- Registration with a name that fits keeps the names apart.
Registers-Distinct :
    (c : Client) (name : Bytes) (s t : Server) (r : Registration)
    → c.name ≡ name
    → Registers c name s r t
    → Distinct s
    → Distinct t
Registers-Distinct c name s t name_taken e h d = subst Distinct (sym h.0) d
Registers-Distinct c name s t server_full e h d = subst Distinct (sym h.0) d
Registers-Distinct c name s t (registered_at k) e h d = registered_at-Distinct c name s t k e h d

-- A REGISTER carries a name of at most 31 bytes; every other event is as it may be.
unfoldable pub name_fits : Event → Bool
name_fits (received d) =
    if strncmp_eq (as_text d).buffer (bytes "REGISTER ") 9
    then leb (length (drop 9 (as_text d).buffer)) (max_name_len - 1)
    else true
name_fits receive_failed = true
name_fits (ping_round now) = true

Change-Distinct :
    {e : Event} {s t : Server}
    → Change e s t
    → name_fits e ≡ true
    → WellFormed s
    → Distinct s
    → Distinct t
unfolding name_fits
Change-Distinct (kept q) f w d = subst Distinct (sym q) d
Change-Distinct {s = s} (joined m em r q) f w d =
    let name = drop 9 (as_text m).buffer in
    let f' : name_fits (received m) ≡ true = subst (λ x. name_fits x ≡ true) em f in
    let fit : length name ≤ 31 = ground (arith, f', r) in
    subst Distinct (sym q) (
      Registers-Distinct (new_client name m.from m.addr_len m.now) name s _ _ (take_all 31 name fit)
        (register_client_lem name m.from m.addr_len m.now s w) d)
Change-Distinct {s = s} (touched i now q) f w d =
    subst Distinct (sym q) (Shrinks-Distinct s (touch i now s) (touch-Shrinks i now s) d)
Change-Distinct {s = s} (parted i now q) f w d = subst Distinct (sym q) (
    Shrinks-Distinct (touch i now s) (remove_client i (touch i now s))
      (remove_client-Shrinks i (touch i now s))
      (Shrinks-Distinct s (touch i now s) (touch-Shrinks i now s) d))
Change-Distinct {s = s} (swept now q) f w d =
    subst Distinct (sym q)
      (Shrinks-Distinct s (ping_clients now s).0 (ping_clients-Shrinks now s) d)

init-Distinct : Distinct init
unfolding init
init-Distinct i j a b ga gb aa ab q =
    absurd (
      false≢true
        (sym (ap (λ x. x.active) (get_elem?-replicate max_clients empty_slot i a ga)) ∙ aa))

-- While every REGISTER that arrives carries a name of at most 31 bytes, no two active clients of the
-- server ever have the same name.
pub Reach-Distinct : {s : Server} → Reach (λ e. name_fits e ≡ true) s → Distinct s
Reach-Distinct start = init-Distinct
Reach-Distinct (next e out f r h) =
    Change-Distinct (step-Change e _ _ out h) f (Reach-WellFormed r) (Reach-Distinct r)

-- A name that does not fit is never found, so below 50 clients it is accepted.
long_name_accepted :
    (name : Bytes) (addr : Addr) (len now : ℕ) (s : Server)
    → WellFormed s
    → max_name_len ≤ length name
    → s.client_count < max_clients
    → (i : ℕ) × (t : Server) × (register_client name addr len now s ≡ (registered_at i, t))
      × Registers (new_client name addr len now) name s (registered_at i) t
long_name_accepted name addr len now s w long room =
    go (register_client name addr len now s) refl (register_client_lem name addr len now s w)
  where
    go :
        (p : Registration × Server)
        → register_client name addr len now s ≡ p
        → Registers (new_client name addr len now) name s p.0 p.1
        → (i : ℕ) × (t : Server) × (register_client name addr len now s ≡ (registered_at i, t))
          × Registers (new_client name addr len now) name s (registered_at i) t
    go (name_taken, t) e (_, (i, o, g, a, q)) =
        absurd (omega (arith, (All-get_elem? IsSound s.clients i o w.sound g).1, ap length q))
    go (server_full, t) e (_, n, _) = absurd (omega arith)
    go (registered_at i, t) e h = (i, t, e, h)

-- A name of 32 bytes or more can be registered twice while two slots are free: both calls succeed, at
-- different slots, and both slots hold the same 31 bytes.
pub long_name_twice :
    (name : Bytes) (a b : Addr) (la lb na nb : ℕ) (s : Server)
    → WellFormed s
    → max_name_len ≤ length name
    → s.client_count + 1 < max_clients
    → (i j : ℕ) × (t u : Server) × (c d : Client) × (register_client name a la na s
        ≡ (registered_at i, t))
      × (register_client name b lb nb t ≡ (registered_at j, u))
      × (i ≢ j)
      × (get_elem? u.clients i ≡ some c)
      × (get_elem? u.clients j ≡ some d)
      × (c.name ≡ take (max_name_len - 1) name)
      × (d.name ≡ take (max_name_len - 1) name)
long_name_twice name a b la lb na nb s w long room =
    let (i, t, e, h) = long_name_accepted name a la na s w long (omega arith) in
    let wt = subst WellFormed (ap (λ p. p.1) e) (register_client-WellFormed name a la na s w) in
    let (j, u, e', h') = long_name_accepted name b lb nb t wt long (omega (arith, h.6)) in
    let (o, g, free) = h'.1 in
    let ne : j ≢ i = λ q. ground (arith, h.4, subst (λ m. get_elem? t.clients m ≡ some o) q g) in
    (
      i,
      j,
      t,
      u,
      new_client name a la na,
      new_client name b lb nb,
      e,
      e',
      (λ q. ne (sym q)),
      h'.5 i ne ∙ h.4,
      h'.4,
      refl,
      refl,
    )
