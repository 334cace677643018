-- ===== src/UdpChat/Handshake.antt =====
-- Client and server of cw12/assignment together: what the client sends and how the server takes it.
use agh_operating_systems.Prelude.{
  ℕ, zero, suc, ◌≤◌, ◌≡◌, refl, ◌∙◌, Bool, true, false, subst, [], ◌∷◌, ◌++◌, some, get_elem?,
  arith, take, length, take_all, length-take,
}
use agh_operating_systems.CString.{Bytes, bytes, strncmp_eq, until_nul, Free}
use agh_operating_systems.UdpChat.Table.{
  Addr, Client, Server, Registration, registered_at, name_taken, server_full, register_client,
  find_client_by_addr, alive_message,
}
use agh_operating_systems.UdpChat.Messages.{
  Datagram, received, step, handle_register, handle_message, handle_command, touch,
  registration_reply,
}
use agh_operating_systems.UdpChat.Lookup.{found_slot, get_elem?-touch, handle_message-command}
use agh_operating_systems.UdpChat.KeepAlive.{Later, Later-keeps}
use agh_operating_systems.UdpChat.Client.{
  client_name, register_msg, register_with_server, ClientState, receive_one, send, print,
  from_server,
}

abbrev pub accepted : Registration → Bool
accepted (registered_at i) = true
accepted name_taken = false
accepted server_full = false

until_nul_text : (s : Bytes) → Free 0 s → until_nul s ≡ s
unfolding until_nul
until_nul_text [] f = refl
until_nul_text (b ∷ s) f = ground (arith, until_nul_text s f.1)

Free-take : (c n : ℕ) (s : Bytes) → Free c s → Free c (take n s)
Free-take c zero s f = tt
Free-take c (suc n) [] f = tt
Free-take c (suc n) (x ∷ s) f = (f.0, Free-take c n s f.1)

reply_accepted :
    (r : Registration) → register_with_server true true (some (registration_reply r)) ≡ accepted r
unfolding register_with_server until_nul strncmp_eq
reply_accepted (registered_at i) = refl
reply_accepted name_taken = refl
reply_accepted server_full = refl

-- The registration request of the client arrives uncut.
register_msg_arrives :
    (arg : Bytes)
    → Free 0 arg
    → until_nul (take 1023 (register_msg (client_name arg))) ≡ bytes "REGISTER " ++ client_name arg
unfolding register_msg client_name
register_msg_arrives arg f =
    let small : length (take 31 arg) ≤ 1014 = omega (arith, length-take 31 arg) in
    rw (take_all 1014 (take 31 arg) small, take_all 1014 (take 31 arg) small)
      (until_nul_text (bytes "REGISTER " ++ take 31 arg) (ground (arith, Free-take 0 31 arg f)))

-- The handshake, for a name with no NUL byte. The server receives the client's request and registers
-- the name that the client cut to 31 bytes; it sends one answer, to the client; and the client
-- takes the answer for a success exactly if the server has registered it.
pub handshake_lem :
    (arg : Bytes) (from : Addr) (len now : ℕ) (stamp : Bytes) (s : Server)
    → Free 0 arg
    → let d : Datagram = record {
      from = from;
      addr_len = len;
      buffer = register_msg (client_name arg);
      now = now;
      stamp = stamp;
    } in
      let (r, t) = register_client (client_name arg) from len now s in
      (step (received d) s ≡ some (t, record { to = from; text = registration_reply r } ∷ []))
      × (register_with_server true true (some (registration_reply r)) ≡ accepted r)
unfolding step handle_message handle_register strncmp_eq
handshake_lem arg from len now stamp s f = (
  rw (register_msg_arrives arg f) refl,
  reply_accepted (register_client (client_name arg) from len now s).0,
)

module _ (from : Addr) (len now : ℕ) (stamp : Bytes) (s : Server) (i : ℕ) (c : Client) where
  -- The keep-alive cycle. A client that receives ALIVE answers PING. The server takes that PING from a
  -- registered client, refreshes its time and answers PONG, which the client prints. From there on the slot keeps
  -- the client, unchanged, through any sequence of ping rounds up to 60 seconds later, failed receives and
  -- datagrams from other addresses, whatever these contain.
  pub keep_alive_lem :
      (k : ClientState) (t : Server)
      → find_client_by_addr from s ≡ some i
      → get_elem? s.clients i ≡ some c
      → Later from now (touch i now s) t
      → let d : Datagram = record {
        from = from;
        addr_len = len;
        buffer = bytes "PING";
        now = now;
        stamp = stamp;
      } in
        let pong : Bytes = bytes "PONG" in
        (receive_one alive_message k ≡ send (bytes "PING") k)
        × (step (received d) s ≡ some (touch i now s, record { to = from; text = pong } ∷ []))
        × (receive_one pong k ≡ print (from_server pong) k)
        × (get_elem? t.clients i ≡ some (record c { last_ping = now }))
        × (c.active ≡ true)
  unfolding step strncmp_eq until_nul receive_one handle_command
  keep_alive_lem k t f g later =
      let d : Datagram = record {
        from = from;
        addr_len = len;
        buffer = bytes "PING";
        now = now;
        stamp = stamp;
      } in
      let h = handle_message-command d s i refl f in
      let (a, e) = found_slot from s i c f g in
      let same : Later c.addr now (touch i now s) t =
        subst (λ x. Later x now (touch i now s) t) e later in
      (
        refl,
        h ∙ refl,
        refl,
        Later-keeps i (record c { last_ping = now }) same (get_elem?-touch i now s c g) a,
        a,
      )
