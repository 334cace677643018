-- ===== src/UdpChat/Delivery.antt =====
-- Who receives a message of the commands 2ALL and 2ONE of cw12/assignment/server.c.
use agh_operating_systems.Prelude.{
  ◌⊎◌, inl, inr, All, ℕ, zero, suc, ◌+◌, ◌<◌, ◌≡◌, refl, ◌∙◌, true, false, List, [], ◌∷◌, ◌++◌,
  Option, ap, none, some, if◌then◌else◌, get_elem?, take, drop, length, arith, map, subst,
  length-map, length-append, count,
}
use native.Mathlib.Nat.{zero-add}
use agh_operating_systems.CString.{Bytes, bytes, strncmp_eq, Free, strchr-append}
use agh_operating_systems.UdpChat.Table.{
  Client, Server, Sent, is_active, find_client_by_addr, find_client_by_name,
}
use agh_operating_systems.UdpChat.Messages.{
  Datagram, touch, broadcast_from, broadcast_message, handle_command, handle_message, name_at,
  handle_private, send_private, public_text, private_text,
}
use agh_operating_systems.UdpChat.WellFormed.{WellFormed, touch-WellFormed}
use agh_operating_systems.UdpChat.Lookup.{
  found_slot, found_by_name, handle_message-command, get_elem?-touch, find_client_by_name-touch,
  name_at-touch, client_count-touch, Unnamed, find_client_by_name-none, find_client_by_name-first,
  send_to_client-touch,
}

-- The active clients, in the order of their slots.
pub active_clients : List Client → List Client
active_clients [] = []
active_clients (c ∷ cs) = if c.active then c ∷ active_clients cs else active_clients cs

-- The active clients of all slots but one.
pub others : ℕ → List Client → List Client
others i cs = active_clients (take i cs) ++ active_clients (drop (suc i) cs)

abbrev pub message_for : Bytes → Client → Sent
message_for text c = record { to = c.addr; text = text }

broadcast_from_past :
    (text : Bytes) (sender k : ℕ) (cs : List Client)
    → sender < k
    → broadcast_from text sender k cs ≡ map (message_for text) (active_clients cs)
unfolding broadcast_from active_clients
broadcast_from_past text sender k [] lt = refl
broadcast_from_past text sender k (c ∷ cs) lt =
    ground (arith, broadcast_from_past text sender (k + 1) cs (omega arith))

broadcast_from_lem :
    (text : Bytes) (k i : ℕ) (cs : List Client)
    → broadcast_from text (k + i) k cs ≡ map (message_for text) (others i cs)
unfolding broadcast_from active_clients others
broadcast_from_lem text k zero [] = refl
broadcast_from_lem text k (suc i) [] = refl
broadcast_from_lem text k zero (c ∷ cs) =
    ground (arith, broadcast_from_past text (k + 0) (k + 1) cs (omega arith))
broadcast_from_lem text k (suc i) (c ∷ cs) =
    let ih : broadcast_from text (k + suc i) (k + 1) cs ≡ map (message_for text) (others i cs) =
      subst (λ m. broadcast_from text m (k + 1) cs ≡ map (message_for text) (others i cs))
        (omega arith) (broadcast_from_lem text (k + 1) i cs) in
    ground (arith, ih)

length-active_clients : (cs : List Client) → length (active_clients cs) ≡ count is_active cs
unfolding active_clients count
length-active_clients [] = refl
length-active_clients (c ∷ cs) = ground (arith, length-active_clients cs)

-- The sender is the one active client that is left out.
length-others :
    (cs : List Client) (i : ℕ) (c : Client)
    → get_elem? cs i ≡ some c
    → c.active ≡ true
    → length (others i cs) + 1 ≡ count is_active cs
unfolding others active_clients count
length-others [] i c g a = absurd (cc)
length-others (x ∷ cs) zero c g a = ground (arith, length-active_clients cs)
length-others (x ∷ cs) (suc i) c g a = ground (
  arith,
  length-others cs i c g a,
  length-append (active_clients (take i cs)) (active_clients (drop (suc i) cs)),
)

broadcast_message_lem :
    (text : Bytes) (i : ℕ) (s : Server)
    → broadcast_message text i s ≡ map (message_for text) (others i s.clients)
unfolding broadcast_message
broadcast_message_lem text i s =
    subst (λ m. broadcast_from text m 0 s.clients ≡ map (message_for text) (others i s.clients))
      (zero-add i) (broadcast_from_lem text 0 i s.clients)

public_command :
    (d : Datagram) (text : Bytes) (i : ℕ) (s : Server)
    → d.buffer ≡ bytes "2ALL " ++ text
    → (strncmp_eq d.buffer (bytes "REGISTER ") 9 ≡ false)
      × (handle_command d i s
          ≡ some (s, broadcast_message (public_text d.stamp (name_at i s) text) i s))
unfolding strncmp_eq handle_command
public_command d text i s b = (rw b refl, rw (handle_command, b) refl)

module _ (d : Datagram) (text : Bytes) (s : Server) (i : ℕ) (c : Client) where
  -- 2ALL from a registered client, in a well-formed table: the sender's time is refreshed, and one
  -- datagram with the same text goes to each other active client, in the order of the slots, and
  -- to nobody else; that is one fewer than the count.
  pub public_message_lem :
      d.buffer ≡ bytes "2ALL " ++ text
      → WellFormed s
      → find_client_by_addr d.from s ≡ some i
      → get_elem? s.clients i ≡ some c
      → let t = touch i d.now s in
        let out = map (message_for (public_text d.stamp c.name text)) (others i t.clients) in
        (handle_message d s ≡ some (t, out)) × (length out + 1 ≡ s.client_count)
  public_message_lem b w f g =
      let t = touch i d.now s in
      let (r, h) = public_command d text i t b in
      let (ao, _) = found_slot d.from s i c f g in
      let gt = get_elem?-touch i d.now s c g in
      (
        handle_message-command d s i r f
            ∙ h
            ∙ ap (λ m. some (t, m))
                (rw (name_at-touch i d.now s c g)
                  (broadcast_message_lem (public_text d.stamp c.name text) i t)),
        omega (
          arith,
          length-map (message_for (public_text d.stamp c.name text)) (others i t.clients),
          length-others t.clients i (record c { last_ping = d.now }) gt ao,
          (touch-WellFormed i d.now s w).counted,
          client_count-touch i d.now s c g,
        ),
      )

private_command :
    (d : Datagram) (target text : Bytes) (i : ℕ) (s : Server)
    → d.buffer ≡ bytes "2ONE " ++ target ++ b' ' ∷ text
    → Free b' ' target
    → (strncmp_eq d.buffer (bytes "REGISTER ") 9 ≡ false)
      × (handle_command d i s ≡ some (s, send_private d i target text s))
unfolding strncmp_eq handle_command handle_private send_private
private_command d target text i s b free = (
  rw b refl,
  rw (handle_command, b, handle_private) (rw (strchr-append b' ' target text free) refl),
)

module _ (d : Datagram) (target text : Bytes) (s : Server) (i : ℕ) (c : Client) where
  abbrev not_found : Bytes
  not_found = take 1023 (bytes "Klient " ++ target ++ bytes " nie zostal znaleziony")

  abbrev confirmed : Bytes
  confirmed = take 1023 (bytes "Wiadomosc wyslana do " ++ target)

  abbrev private_message : Bytes
  private_message =
      take 1023 (bytes "[" ++ d.stamp ++ bytes "] " ++ c.name ++ bytes " (prywatnie): " ++ text)

  -- No active client has the name, and the sender is told.
  pub record Refused (out : List Sent) : Type 0 where
    pub nobody : All (Unnamed target) s.clients
    pub answer : out ≡ message_for not_found c ∷ []

  -- The first active client of the name gets the message, and the sender is told.
  pub record Delivered (out : List Sent) : Type 0 where
    pub slot : ℕ
    pub receiver : Client
    pub there : get_elem? s.clients slot ≡ some receiver
    pub active : receiver.active ≡ true
    pub named : receiver.name ≡ target
    pub first : All (Unnamed target) (take slot s.clients)
    pub sent : out ≡ message_for private_message receiver ∷ message_for confirmed c ∷ []

  private-cases :
      (o : Option ℕ)
      → find_client_by_name target s ≡ o
      → d.from ≡ c.addr
      → get_elem? s.clients i ≡ some c
      → Refused (send_private d i target text (touch i d.now s))
        ⊎ Delivered (send_private d i target text (touch i d.now s))
  unfolding send_private private_text
  private-cases none e q g = inl (record {
    nobody = find_client_by_name-none target s e;
    answer = rw (send_private, find_client_by_name-touch i d.now s c g target, e, q) refl;
  })
  private-cases (some j) e q g =
      let (o, go, ao, eo) = found_by_name target s j e in
      inr (record {
        slot = j;
        receiver = o;
        there = go;
        active = ao;
        named = eo;
        first = find_client_by_name-first target s j e;
        sent =
            rw
              (
                send_private,
                find_client_by_name-touch i d.now s c g target,
                e,
                name_at-touch i d.now s c g,
              )
              (rw
                (send_to_client-touch i d.now s c g (private_text d.stamp c.name text) j o go ao, q)
                refl);
      })

  -- 2ONE from a registered client. The target's name has no space, so it ends at the first one. If some
  -- active client has that name, the first such client gets the text behind the time and the sender's name, then the
  -- sender a confirmation; if none has it, the sender alone receives an answer. The table changes by the
  -- sender's time only.
  pub private_message_lem :
      d.buffer ≡ bytes "2ONE " ++ target ++ b' ' ∷ text
      → Free b' ' target
      → find_client_by_addr d.from s ≡ some i
      → get_elem? s.clients i ≡ some c
      → (out : List Sent) × (handle_message d s ≡ some (touch i d.now s, out))
        × (Refused out ⊎ Delivered out)
  private_message_lem b free f g =
      let t = touch i d.now s in
      let (r, h) = private_command d target text i t b free in
      (
        send_private d i target text t,
        handle_message-command d s i r f ∙ h,
        private-cases (find_client_by_name target s) refl (found_slot d.from s i c f g).1 g,
      )
