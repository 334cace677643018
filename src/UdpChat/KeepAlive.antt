-- ===== src/UdpChat/KeepAlive.antt =====
-- How the slot of a client of cw12/assignment/server.c comes through what happens after the client was heard of.
use agh_operating_systems.Prelude.{
  ℕ, ◌+◌, ◌≤◌, ◌≡◌, ◌≢◌, refl, sym, ◌∙◌, ap, true, false, List, Option, none, some, get_elem?,
  arith, inl, inr, subst, Bool-cases, Option-cases, find_index, find_index-eq-some,
  get_elem?-set_ne, get_elem?-map-some, drop,
}
use mathlib.Core.Option.{some-injective}
use agh_operating_systems.CString.{Bytes, bytes, strncmp_eq}
use agh_operating_systems.UdpChat.Table.{
  Addr, Client, Server, Sent, is_free, new_client, occupy, register_client, find_client_by_addr,
  find_client_by_name, remove_client, cleared, ping_clients, ping_client, timeout_seconds,
}
use agh_operating_systems.UdpChat.Messages.{
  Datagram, Event, received, receive_failed, ping_round, step, as_text, touch, handle_message,
  handle_register,
}
use agh_operating_systems.UdpChat.Ping.{clients-ping_clients}
use agh_operating_systems.UdpChat.Lookup.{
  found_by_addr, get_elem?-touch, get_elem?-touch_ne, handle_message-command,
}
use agh_operating_systems.UdpChat.Changes.{joined_by, handle_command_state}

-- What may happen in the minute after the client at `a` was heard of at `now`, while it is silent: datagrams from
-- other addresses, failed receives, and ping rounds up to 60 seconds later.
abbrev pub Within : Addr → ℕ → Event → Type 0
Within a now (received d) = d.from ≢ a
Within a now receive_failed = Unit
Within a now (ping_round later) = later ≤ now + timeout_seconds

-- The states that the server reaches by such events.
pub data Later (a : Addr) (now : ℕ) (from : Server) : Server → Type 0 where
  at_once : Later a now from from
  after :
      {s t : Server} {out : List Sent} (e : Event)
      → Later a now from s
      → Within a now e
      → step e s ≡ some (t, out)
      → Later a now from t

occupy_keeps :
    (c o : Client) (x : Option ℕ) (i : ℕ) (s : Server)
    → find_index is_free s.clients ≡ x
    → get_elem? s.clients i ≡ some c
    → c.active ≡ true
    → get_elem? (occupy o x s).1.clients i ≡ some c
unfolding occupy
occupy_keeps c o none i s f g a = g
occupy_keeps c o (some j) i s f g a =
    let (free, h, q) = find_index-eq-some is_free s.clients j f in
    get_elem?-set_ne s.clients j i o (λ e.
      let same : free ≡ c =
        some-injective free c (sym h ∙ subst (λ m. get_elem? s.clients m ≡ some c) (sym e) g) in
      absurd (ground (arith, ap (λ x. x.active) same)))
    ∙ g

register_keeps :
    (name : Bytes) (from : Addr) (len now i : ℕ) (s : Server) (c : Client)
    → get_elem? s.clients i ≡ some c
    → c.active ≡ true
    → get_elem? (register_client name from len now s).1.clients i ≡ some c
unfolding register_client
register_keeps name from len now i s c g a = elim (Option-cases (find_client_by_name name s)) [
  | inl e ↦
      rw (e, register_client)
        (occupy_keeps c (new_client name from len now) (find_index is_free s.clients) i s refl g a)
  | inr (j, e) ↦ rw (e, register_client) g
]

remove_client_keeps :
    (i j : ℕ) (s : Server) (c o : Client)
    → get_elem? s.clients j ≡ some o
    → get_elem? s.clients i ≡ some c
    → j ≢ i
    → get_elem? (remove_client j s).clients i ≡ some c
unfolding remove_client
remove_client_keeps i j s c o h g ne = elim (Bool-cases o.active) [
  | inl e ↦ rw (h, remove_client, e) (get_elem?-set_ne s.clients j i (cleared o) ne ∙ g)
  | inr e ↦ rw (h, remove_client, e) g
]

module _ (i : ℕ) (c : Client) where
  -- A command of a client in another slot.
  command_keeps :
      (d : Datagram) (j : ℕ) (s t : Server) (o : Client) (out : List Sent)
      → get_elem? s.clients j ≡ some o
      → get_elem? s.clients i ≡ some c
      → j ≢ i
      → handle_message d s ≡ some (t, out)
      → strncmp_eq d.buffer (bytes "REGISTER ") 9 ≡ false
      → find_client_by_addr d.from s ≡ some j
      → get_elem? t.clients i ≡ some c
  command_keeps d j s t o out h g ne q r f =
      let touched : Server = touch j d.now s in
      let gt : get_elem? touched.clients i ≡ some c = get_elem?-touch_ne j d.now s o h i ne ∙ g in
      let ht = get_elem?-touch j d.now s o h in
      elim (handle_command_state d j touched t out (sym (handle_message-command d s j r f) ∙ q)) [
        | inl e ↦ subst (λ x. get_elem? x.clients i ≡ some c) (sym e) gt
        | inr e ↦
            subst (λ x. get_elem? x.clients i ≡ some c) (sym e)
              (remove_client_keeps i j touched c (record o { last_ping = d.now }) ht gt ne)
      ]

  message_keeps :
      (d : Datagram) (s t : Server) (out : List Sent)
      → get_elem? s.clients i ≡ some c
      → c.active ≡ true
      → d.from ≢ c.addr
      → handle_message d s ≡ some (t, out)
      → get_elem? t.clients i ≡ some c
  unfolding handle_message handle_register
  message_keeps d s t out g a other q =
      elim (Bool-cases (strncmp_eq d.buffer (bytes "REGISTER ") 9)) [
        | inl r ↦
            let e : t ≡ joined_by d s = ground arith in
            subst (λ x. get_elem? x.clients i ≡ some c) (sym e)
              (register_keeps (drop 9 d.buffer) d.from d.addr_len d.now i s c g a)
        | inr r ↦ elim (Option-cases (find_client_by_addr d.from s)) [
          | inl f ↦
              let e : t ≡ s = ground arith in subst (λ x. get_elem? x.clients i ≡ some c) (sym e) g
          | inr (j, f) ↦
              let (o, h, _, at) = found_by_addr d.from s j f in
              command_keeps d j s t o out h g
                (λ e.
                  let same : o ≡ c =
                    some-injective o c
                      (sym h ∙ subst (λ m. get_elem? s.clients m ≡ some c) (sym e) g) in
                  other (sym at ∙ ap (λ x. x.addr) same))
                q r f
        ]
      ]

  step_keeps :
      (e : Event) (s t : Server) (out : List Sent)
      → get_elem? s.clients i ≡ some c
      → c.active ≡ true
      → Within c.addr c.last_ping e
      → step e s ≡ some (t, out)
      → get_elem? t.clients i ≡ some c
  unfolding step ping_client
  step_keeps (received d) s t out g a w q = message_keeps (as_text d) s t out g a w q
  step_keeps receive_failed s t out g a w q =
      let e : t ≡ s = ground arith in subst (λ x. get_elem? x.clients i ≡ some c) (sym e) g
  step_keeps (ping_round later) s t out g a w q =
      let e : t ≡ (ping_clients later s).0 = ground arith in
      subst (λ x. get_elem? x.clients i ≡ some c) (sym e)
        (rw (clients-ping_clients later s)
          (get_elem?-map-some (ping_client later) s.clients i c g ∙ ap some (ground arith)))

  -- The slot stays as it is.
  pub Later-keeps :
      {s t : Server}
      → Later c.addr c.last_ping s t
      → get_elem? s.clients i ≡ some c
      → c.active ≡ true
      → get_elem? t.clients i ≡ some c
  Later-keeps at_once g a = g
  Later-keeps (after {s = u} {t = t} {out = out} e r w q) g a =
      step_keeps e u t out (Later-keeps r g a) a w q
