-- ===== src/TcpChat/Delivery.antt =====
-- Who receives a message of the commands 2ALL and 2ONE of cw11/assignment/server.c.
use agh_operating_systems.Prelude.{
  ◌≢◌, Bool-cases, All, All-map, find_index-none-All, find_index-some-All, ℕ, zero, suc, ◌+◌, ◌<◌,
  ◌≡◌, ◌⊎◌, refl, ◌∙◌, true, false, List, [], ◌∷◌, ◌++◌, none, some, if◌then◌else◌, get_elem?, take,
  drop, arith, ap, map, subst, inl, inr, Option-cases, ap₂, find_index-eq-some,
}
use agh_operating_systems.CString.{
  Bytes, bytes, strncmp_eq, strncmp_eq_append, snprintf, Free, strcmp_eq_iff, strchr-append,
}
use agh_operating_systems.TcpChat.Table.{
  Client, Server, Action, send, has_name, find_client_by_name,
}
use agh_operating_systems.TcpChat.Messages.{
  Message, broadcast_from, broadcast_message, send_to_client, public_text, private_text, sent_text,
  unknown_text, reply, name_at, send_private, handle_private, buffer_size, again, handle_command,
}

-- The active clients, in the order of their slots.
unfoldable pub active_clients : List Client → List Client
active_clients [] = []
active_clients (c ∷ cs) = if c.active then c ∷ active_clients cs else active_clients cs

-- The active clients of all slots but one.
abbrev pub others : ℕ → List Client → List Client
others i cs = active_clients (take i cs) ++ active_clients (drop (suc i) cs)

abbrev pub message_for : Bytes → Client → Action
message_for text c = send c.socket text

not_list :
    (d : Message) (text : Bytes)
    → d.buffer ≡ bytes "2ALL " ++ text
    → strncmp_eq d.buffer (bytes "LIST") 4 ≡ false
unfolding strncmp_eq
not_list d text e = rw e refl

broadcast_from_past :
    (text : Bytes) (sender k : ℕ) (cs : List Client)
    → sender < k
    → broadcast_from text sender k cs ≡ map (message_for text) (active_clients cs)
unfolding broadcast_from active_clients
broadcast_from_past text sender k [] lt = refl
broadcast_from_past text sender k (c ∷ cs) lt =
    ground (arith, broadcast_from_past text sender (k + 1) cs (omega arith))

broadcast_from_lem :
    (text : Bytes) (k i : ℕ) (cs : List Client)
    → broadcast_from text (k + i) k cs ≡ map (message_for text) (others i cs)
unfolding broadcast_from active_clients
broadcast_from_lem text k zero [] = refl
broadcast_from_lem text k (suc i) [] = refl
broadcast_from_lem text k zero (c ∷ cs) =
    ground (arith, broadcast_from_past text (k + 0) (k + 1) cs (omega arith))
broadcast_from_lem text k (suc i) (c ∷ cs) =
    let ih : broadcast_from text (k + suc i) (k + 1) cs ≡ map (message_for text) (others i cs) =
      subst (λ m. broadcast_from text m (k + 1) cs ≡ map (message_for text) (others i cs))
        (omega arith) (broadcast_from_lem text (k + 1) i cs) in
    ground (arith, ih)

-- 2ALL with a text, from the client in slot `i`: one `send` of the text behind the time and the sender's
-- name, on the descriptor of each other active client, in the order of the slots, and no other call.
pub handle_command-public :
    (d : Message) (i : ℕ) (s : Server) (text : Bytes)
    → d.buffer ≡ bytes "2ALL " ++ text
    → handle_command d i s
      ≡ again (
          map
            (message_for (
              snprintf buffer_size (
                bytes "["
                ++ d.stamp
                ++ bytes "] "
                ++ name_at i s
                ++ bytes ": "
                ++ text
                ++ 10 ∷ [])))
            (others i s.clients))
unfolding handle_command broadcast_message public_text
handle_command-public d i s text e =
    let l : strncmp_eq d.buffer (bytes "LIST") 4 ≡ false = not_list d text e in
    let p : strncmp_eq d.buffer (bytes "2ALL ") 5 ≡ true =
      rw e (strncmp_eq_append (bytes "2ALL ") text) in
    rw (l, p, handle_command)
      (ap again (
        ap (λ m. broadcast_from (public_text d (name_at i s)) m 0 s.clients) (omega arith)
        ∙ broadcast_from_lem (public_text d (name_at i s)) 0 i s.clients
        ∙ ap
            (λ b.
              map
                (message_for (
                  snprintf buffer_size (
                    bytes "["
                    ++ d.stamp
                    ++ bytes "] "
                    ++ name_at i s
                    ++ bytes ": "
                    ++ drop 5 b
                    ++ 10 ∷ [])))
                (others i s.clients))
            e))

private_command :
    (d : Message) (i : ℕ) (s : Server) (target text : Bytes)
    → d.buffer ≡ bytes "2ONE " ++ target ++ b' ' ∷ text
    → Free b' ' target
    → handle_command d i s ≡ again (send_private d i target text s)
unfolding strncmp_eq handle_command handle_private send_private private_text
private_command d i s target text b free =
    rw (handle_command, b, handle_private) (rw (strchr-append b' ' target text free) refl)

found_by_name :
    (n : Bytes) (s : Server) (i : ℕ)
    → find_client_by_name n s ≡ some i
    → (c : Client) × (get_elem? s.clients i ≡ some c) × (c.active ≡ true) × (c.name ≡ n)
unfolding find_client_by_name
found_by_name n s i f =
    let (c, g, h) = find_index-eq-some (has_name n) s.clients i f in
    (c, g, ground arith, ground (arith, strcmp_eq_iff c.name n))

reply_lem :
    (i : ℕ) (c : Client) (s : Server) (text : Bytes)
    → get_elem? s.clients i ≡ some c
    → reply i s text ≡ send c.socket text ∷ []
unfolding reply
reply_lem i c s text g = rw (g, reply) refl

name_at_lem :
    (i : ℕ) (c : Client) (s : Server) → get_elem? s.clients i ≡ some c → name_at i s ≡ c.name
unfolding name_at
name_at_lem i c s g = rw (g, name_at) refl

send_to_client_lem :
    (j : ℕ) (o : Client) (s : Server) (text : Bytes)
    → get_elem? s.clients j ≡ some o
    → o.active ≡ true
    → send_to_client text j s ≡ send o.socket text ∷ []
unfolding send_to_client
send_to_client_lem j o s text g a = rw (g, send_to_client, a) refl

-- No active client of that name.
abbrev pub Unnamed : Bytes → Client → Type 0
Unnamed n c = (c.active ≡ false) ⊎ (c.name ≢ n)

has_name-Unnamed : (n : Bytes) (c : Client) → has_name n c ≡ false → Unnamed n c
has_name-Unnamed n c h = elim (Bool-cases c.active) [
  | inl a ↦ inr (λ e. absurd (ground (arith, strcmp_eq_iff c.name n)))
  | inr a ↦ inl a
]

find_client_by_name-none :
    (n : Bytes) (s : Server) → find_client_by_name n s ≡ none → All (Unnamed n) s.clients
unfolding find_client_by_name
find_client_by_name-none n s e =
    All-map (has_name-Unnamed n) s.clients (find_index-none-All (has_name n) s.clients e)

find_client_by_name-first :
    (n : Bytes) (s : Server) (j : ℕ)
    → find_client_by_name n s ≡ some j
    → All (Unnamed n) (take j s.clients)
unfolding find_client_by_name
find_client_by_name-first n s j e =
    All-map (has_name-Unnamed n) (take j s.clients) (find_index-some-All (has_name n) s.clients j e)

module _ (d : Message) (i : ℕ) (c : Client) (s : Server) (target text : Bytes) where
  abbrev not_found : Bytes
  not_found = take 1023 (bytes "Klient " ++ target ++ bytes " nie zostal znaleziony" ++ 10 ∷ [])

  abbrev confirmed : Bytes
  confirmed = take 1023 (bytes "Wiadomosc wys" ++ 197 ∷ 130 ∷ bytes "ana do " ++ target ++ 10 ∷ [])

  abbrev private_message : Bytes
  private_message =
      take 1023
        (bytes "[" ++ d.stamp ++ bytes "] " ++ c.name ++ bytes " (prywatnie): " ++ text ++ 10 ∷ [])

  -- No active client has the name, and the sender is told.
  pub record Refused : Type 0 where
    pub nobody : All (Unnamed target) s.clients
    pub answer : handle_command d i s ≡ again (send c.socket not_found ∷ [])

  -- The first active client of the name gets the message, and the sender is told.
  pub record Delivered : Type 0 where
    pub slot : ℕ
    pub receiver : Client
    pub there : get_elem? s.clients slot ≡ some receiver
    pub active : receiver.active ≡ true
    pub named : receiver.name ≡ target
    pub first : All (Unnamed target) (take slot s.clients)
    pub sent :
        handle_command d i s
        ≡ again (send receiver.socket private_message ∷ send c.socket confirmed ∷ [])

  -- 2ONE with a name that has no space and a text, from the client in slot `i`. If an active client has the
  -- name, the first such client gets the text behind the time and the sender's name, then the sender a
  -- confirmation; if none has it, the sender alone gets an answer.
  pub handle_command-private :
      d.buffer ≡ bytes "2ONE " ++ target ++ b' ' ∷ text
      → Free b' ' target
      → get_elem? s.clients i ≡ some c
      → Refused ⊎ Delivered
  unfolding send_private private_text sent_text unknown_text
  handle_command-private e f g = elim (Option-cases (find_client_by_name target s)) [
    | inl n ↦ inl (record {
      nobody = find_client_by_name-none target s n;
      answer =
          private_command d i s target text e f
          ∙ ap again (rw (n, send_private) (reply_lem i c s (unknown_text target) g));
    })
    | inr (j, n) ↦
        let (o, go, ao, eo) = found_by_name target s j n in
        inr (record {
          slot = j;
          receiver = o;
          there = go;
          active = ao;
          named = eo;
          first = find_client_by_name-first target s j n;
          sent =
              private_command d i s target text e f
              ∙ ap again (
                  rw (n, send_private, name_at_lem i c s g)
                    (ap₂ ◌++◌ (send_to_client_lem j o s (private_text d c.name text) go ao)
                      (reply_lem i c s (sent_text target) g)));
        })
  ]
