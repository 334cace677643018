-- ===== src/UdpChat/Survival.antt =====
-- How long a client of cw12/assignment/server.c stays in the table: what a message buys it, and what
-- QUIT does.
use agh_operating_systems.Prelude.{
  ℕ, ◌+◌, ◌≤◌, ◌≡◌, refl, sym, ◌∙◌, true, false, List, [], ◌∷◌, ◌++◌, ap, none, some, get_elem?,
  set, arith, inl, inr, subst, Option-cases, get_elem?-set_cases, get_elem?-map-some,
}
use mathlib.Core.Bool.{false≢true}
use agh_operating_systems.CString.{Bytes, bytes, strncmp_eq}
use agh_operating_systems.UdpChat.Table.{
  Addr, Client, Server, Sent, find_client_by_addr, remove_client, cleared, ping_clients,
  ping_client, timeout_seconds,
}
use agh_operating_systems.UdpChat.Messages.{
  Datagram, touch, handle_command, handle_message, handle_list, reply,
}
use agh_operating_systems.UdpChat.Ping.{clients-ping_clients}
use agh_operating_systems.UdpChat.Lookup.{
  found_slot, found_by_addr, get_elem?-touch, get_elem?-touch_ne, handle_message-command,
}

handle_command_kept :
    (d : Datagram) (i : ℕ) (s t : Server) (out : List Sent)
    → strncmp_eq d.buffer (bytes "QUIT") 4 ≡ false
    → handle_command d i s ≡ some (t, out)
    → t ≡ s
unfolding handle_command handle_list
handle_command_kept d i s t out q h = ground arith

-- A registered client that sends anything but REGISTER and QUIT is safe for a minute: its slot survives
-- any ping round up to 60 seconds later, with its address and its name.
pub message_keeps_client :
    (d : Datagram) (s t : Server) (out : List Sent) (i now : ℕ) (c : Client)
    → strncmp_eq d.buffer (bytes "REGISTER ") 9 ≡ false
    → strncmp_eq d.buffer (bytes "QUIT") 4 ≡ false
    → find_client_by_addr d.from s ≡ some i
    → get_elem? s.clients i ≡ some c
    → handle_message d s ≡ some (t, out)
    → now ≤ d.now + timeout_seconds
    → get_elem? (ping_clients now t).0.clients i ≡ some (record c { last_ping = d.now })
unfolding ping_client
message_keeps_client d s t out i now c r q f g h soon =
    let (a, _) = found_slot d.from s i c f g in
    let c' = record c { last_ping = d.now } in
    let e : t ≡ touch i d.now s =
      handle_command_kept d i (touch i d.now s) t out q
        (sym (handle_message-command d s i r f) ∙ h) in
    let gt : get_elem? t.clients i ≡ some c' =
      subst (λ x. get_elem? x.clients i ≡ some c') (sym e) (get_elem?-touch i d.now s c g) in
    rw (clients-ping_clients now t)
      (get_elem?-map-some (ping_client now) t.clients i c' gt ∙ ap some (ground arith))

-- No other active slot has the address of slot `i`.
abbrev pub OnlyAt : Addr → ℕ → Server → Type 0
OnlyAt a i s =
    (j : ℕ) (o : Client) → get_elem? s.clients j ≡ some o → o.active ≡ true → o.addr ≡ a → i ≡ j

quit_command :
    (d : Datagram) (i : ℕ) (s : Server) (rest : Bytes)
    → d.buffer ≡ bytes "QUIT" ++ rest
    → (strncmp_eq d.buffer (bytes "REGISTER ") 9 ≡ false)
      × (handle_command d i s ≡ some (remove_client i s, reply d (bytes "OK: Do widzenia") ∷ []))
unfolding strncmp_eq handle_command
quit_command d i s rest b = (rw b refl, simp (b, handle_command) refl)

clients-remove_client :
    (i : ℕ) (s : Server) (c : Client)
    → get_elem? s.clients i ≡ some c
    → c.active ≡ true
    → (remove_client i s).clients ≡ set s.clients i (cleared c)
unfolding remove_client
clients-remove_client i s c g a = rw (g, remove_client, a) refl

removed_unknown :
    (a : Addr) (i now : ℕ) (s : Server)
    → find_client_by_addr a s ≡ some i
    → OnlyAt a i s
    → find_client_by_addr a (remove_client i (touch i now s)) ≡ none
removed_unknown a i now s f only =
    elim (Option-cases (find_client_by_addr a (remove_client i (touch i now s)))) [
      | inl e ↦ e
      | inr (j, e) ↦
          let (c, g, ac, _) = found_by_addr a s i f in
          let c' = record c { last_ping = now } in
          let t = touch i now s in
          let (o, go, ao, eo) = found_by_addr a (remove_client i t) j e in
          let gt = get_elem?-touch i now s c g in
          let go' : get_elem? (set t.clients i (cleared c')) j ≡ some o =
            subst (λ l. get_elem? l j ≡ some o) (clients-remove_client i t c' gt ac) go in
          elim (get_elem?-set_cases t.clients i j (cleared c') o go') [
            | inl (_, q) ↦ absurd (false≢true (sym (ap (λ x. x.active) q) ∙ ao))
            | inr (ne, q) ↦
                absurd (ne (only j o (sym (get_elem?-touch_ne i now s c g j ne) ∙ q) ao eo))
          ]
    ]

unknown_sender :
    (e : Datagram) (t : Server)
    → strncmp_eq e.buffer (bytes "REGISTER ") 9 ≡ false
    → find_client_by_addr e.from t ≡ none
    → handle_message e t ≡ some (t, reply e (bytes "ERROR: Niezarejestrowany klient") ∷ [])
unfolding handle_message
unknown_sender e t r f = rw (r, f, handle_message) refl

-- After QUIT from the only slot with its address the server does not know the sender any more: any
-- later datagram but a REGISTER is refused, and changes nothing.
pub quit_forgets :
    (d e : Datagram) (s : Server) (i : ℕ) (rest : Bytes)
    → d.buffer ≡ bytes "QUIT" ++ rest
    → find_client_by_addr d.from s ≡ some i
    → OnlyAt d.from i s
    → e.from ≡ d.from
    → strncmp_eq e.buffer (bytes "REGISTER ") 9 ≡ false
    → (t : Server) × (handle_message d s ≡ some (t, reply d (bytes "OK: Do widzenia") ∷ []))
      × (handle_message e t ≡ some (t, reply e (bytes "ERROR: Niezarejestrowany klient") ∷ []))
quit_forgets d e s i rest b f only same r =
    let (rd, h) = quit_command d i (touch i d.now s) rest b in
    (
      remove_client i (touch i d.now s),
      handle_message-command d s i rd f ∙ h,
      unknown_sender e (remove_client i (touch i d.now s)) r
          (rw same (removed_unknown d.from i d.now s f only)),
    )
