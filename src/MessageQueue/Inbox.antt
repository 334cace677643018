-- ===== src/MessageQueue/Inbox.antt =====
-- What the server of cw07/assignment/server.c sends to the queue of one client.
use agh_operating_systems.Prelude.{
  ℕ, zero, suc, ◌+◌, ◌-◌, ◌<◌, ◌≡◌, ◌≢◌, refl, sym, ◌∙◌, true, false, ◌&&◌, List, [], ◌∷◌, ◌++◌,
  Option, none, some, leb, ◌==◌, if◌then◌else◌, set, length, map, arith, ap, inl, inr, Bool-cases,
  All, All-set, append_assoc,
}
use agh_operating_systems.CString.{Bytes, bytes, strncmp_eq}
use agh_operating_systems.MessageQueue.Server.{
  Message, Response, ClientInfo, Server, max_clients, broadcast_from, broadcast_message,
  broadcast_text, register, handle_message, serve,
}

-- What the loop of the server sends for the messages that arrive.
unfoldable pub responses : List Message → Server → List Response
responses [] s = []
responses (m ∷ ms) s = (handle_message m s).1 ++ responses ms (handle_message m s).0

-- What is in one queue, of all that is sent.
unfoldable pub inbox : ℕ → List Response → List Response
inbox q [] = []
inbox q (r ∷ rs) = let rest = inbox q rs in if r.queue == q then r ∷ rest else rest

-- The chat messages of the others, for the client with an id.
unfoldable pub others : ℕ → List Message → List Message
others id [] = []
others id (m ∷ ms) =
    let rest = others id ms in
    if strncmp_eq m.text (bytes "INIT") 4 then rest else if id == m.pid then rest else m ∷ rest

-- A chat message as it comes to a queue.
abbrev pub delivered : ℕ → Message → Response
delivered q m = record { queue = q; client_id = m.pid; text = broadcast_text m.pid m.text }

pub inbox-append : (q : ℕ) (xs ys : List Response) → inbox q (xs ++ ys) ≡ inbox q xs ++ inbox q ys
unfolding inbox
inbox-append q [] ys = refl
inbox-append q (x ∷ xs) ys = ground (arith, inbox-append q xs ys)

pub responses-append :
    (ms ns : List Message) (s : Server)
    → responses (ms ++ ns) s ≡ responses ms s ++ responses ns (serve ms s)
unfolding responses serve
responses-append [] ns s = refl
responses-append (m ∷ ms) ns s =
    ap (λ x. (handle_message m s).1 ++ x) (responses-append ms ns (handle_message m s).0)
    ∙ sym (append_assoc (handle_message m s).1 _ _)

abbrev entry : (id queue : ℕ) → ClientInfo
entry id queue = record { client_id = id; queue_id = queue; active = true }

set-behind :
    (cs ds : List ClientInfo) (c v : ClientInfo) (k : ℕ)
    → length cs < k
    → set (cs ++ c ∷ ds) k v ≡ cs ++ c ∷ set ds (k - length cs - 1) v
set-behind cs ds c v zero lt = absurd (omega arith)
set-behind [] ds c v (suc k) lt = ap (λ n. c ∷ set ds n v) (omega arith)
set-behind (b ∷ cs) ds c v (suc k) lt =
    ap (◌∷◌ b) (set-behind cs ds c v k (omega arith) ∙ ap (λ n. cs ++ c ∷ set ds n v) (omega arith))

module _ (q : ℕ) where
  -- Another client, or a free slot.
  abbrev pub Foreign : ClientInfo → Type 0
  Foreign c = c.active && c.queue_id == q ≡ false

  broadcast_from-Foreign :
      (sender : ℕ) (text : Bytes) (cs : List ClientInfo)
      → All Foreign cs
      → inbox q (broadcast_from sender text cs) ≡ []
  unfolding inbox broadcast_from
  broadcast_from-Foreign sender text [] f = refl
  broadcast_from-Foreign sender text (c ∷ cs) f =
      ground (arith, broadcast_from-Foreign sender text cs f.1)

  -- The client in the table, among others.
  abbrev pub joined : ℕ → ClientInfo
  joined id = entry id q

  broadcast_from-joined :
      (id sender : ℕ) (text : Bytes) (before behind : List ClientInfo)
      → All Foreign before
      → All Foreign behind
      → inbox q (broadcast_from sender text (before ++ joined id ∷ behind))
        ≡ (if id == sender then [] else record { queue = q; client_id = sender; text = text } ∷ [])
  unfolding inbox broadcast_from
  broadcast_from-joined id sender text [] behind f g =
      ground (arith, broadcast_from-Foreign sender text behind g)
  broadcast_from-joined id sender text (c ∷ cs) behind f g =
      ground (arith, broadcast_from-joined id sender text cs behind f.1 g)

  Foreign-entry : (id p : ℕ) → p ≢ q → Foreign (entry id p)
  Foreign-entry id p ne = ground arith

  -- The client is not in the table.
  abbrev pub Absent : Server → Type 0
  Absent s = All Foreign s.clients

  -- The client is in the table once.
  pub record Joined (id : ℕ) (s : Server) : Type 0 where
    pub before : List ClientInfo
    pub behind : List ClientInfo
    pub found : s.clients ≡ before ++ joined id ∷ behind
    pub foreign_before : All Foreign before
    pub foreign_behind : All Foreign behind
    pub counted : length before < s.client_count

  abbrev pub Avoids : Message → Type 0
  Avoids m = m.queue ≢ some q

  register-Absent : (o : Option ℕ) (s : Server) → o ≢ some q → Absent s → Absent (register o s).0
  unfolding register
  register-Absent none s ne a = a
  register-Absent (some p) s ne a =
      All-set Foreign s.clients s.client_count (entry (s.client_count + 1) p) a
        (Foreign-entry (s.client_count + 1) p (λ e. ne (ap some e)))

  register-inbox : (o : Option ℕ) (s : Server) → o ≢ some q → inbox q (register o s).1 ≡ []
  unfolding register inbox
  register-inbox none s ne = refl
  register-inbox (some p) s ne = let f : p ≢ q = λ e. ne (ap some e) in ground arith

  register-Joined :
      (id : ℕ) (o : Option ℕ) (s : Server) → o ≢ some q → Joined id s → Joined id (register o s).0
  unfolding register
  register-Joined id none s ne j = j
  register-Joined id (some p) s ne j =
      let v = entry (s.client_count + 1) p in
      let k = s.client_count - length j.before - 1 in
      record {
        before = j.before;
        behind = set j.behind k v;
        found =
            ap (λ x. set x s.client_count v) j.found
            ∙ set-behind j.before j.behind (joined id) v s.client_count j.counted;
        foreign_before = j.foreign_before;
        foreign_behind =
            All-set Foreign j.behind k v j.foreign_behind
              (Foreign-entry (s.client_count + 1) p (λ e. ne (ap some e)));
        counted = omega (arith, j.counted);
      }

  -- One message of the others, or of the client itself.
  handle_message-Joined :
      (id : ℕ) (m : Message) (s : Server)
      → Avoids m
      → Joined id s
      → Joined id (handle_message m s).0
  unfolding handle_message
  handle_message-Joined id m s ne j = elim (Bool-cases (strncmp_eq m.text (bytes "INIT") 4)) [
    | inl e ↦ elim (Bool-cases (leb max_clients s.client_count)) [
      | inl f ↦ rw (handle_message, e, f) j
      | inr f ↦ rw (handle_message, e, f) (register-Joined id m.queue s ne j)
    ]
    | inr e ↦ rw (handle_message, e) j
  ]

  chat-inbox :
      (id : ℕ) (m : Message) (ms : List Message) (s : Server)
      → Joined id s
      → inbox q (broadcast_from m.pid (broadcast_text m.pid m.text) s.clients)
          ++ map (delivered q) (others id ms)
        ≡ map (delivered q) (if id == m.pid then others id ms else m ∷ others id ms)
  chat-inbox id m ms s j =
      let b : inbox q (broadcast_from m.pid (broadcast_text m.pid m.text) s.clients)
          ≡ (if id == m.pid then [] else delivered q m ∷ []) =
        ap (λ x. inbox q (broadcast_from m.pid (broadcast_text m.pid m.text) x)) j.found
        ∙ broadcast_from-joined id m.pid (broadcast_text m.pid m.text) j.before j.behind
            j.foreign_before j.foreign_behind in
      elim (Bool-cases (id == m.pid)) [ inl e ↦ rw (b, e) refl | inr e ↦ rw (b, e) refl ]

  handle_message-inbox :
      (id : ℕ) (m : Message) (ms : List Message) (s : Server)
      → Avoids m
      → Joined id s
      → inbox q (handle_message m s).1 ++ map (delivered q) (others id ms)
        ≡ map (delivered q) (others id (m ∷ ms))
  unfolding handle_message broadcast_message others inbox
  handle_message-inbox id m ms s ne j = elim (Bool-cases (strncmp_eq m.text (bytes "INIT") 4)) [
    | inl e ↦ elim (Bool-cases (leb max_clients s.client_count)) [
      | inl f ↦ rw (handle_message, e, f) refl
      | inr f ↦
          rw (handle_message, e, f)
            (ap (λ x. x ++ map (delivered q) (others id ms)) (register-inbox m.queue s ne))
    ]
    | inr e ↦ rw (handle_message, e) (chat-inbox id m ms s j)
  ]

  pub responses-Joined :
      (id : ℕ) (ms : List Message) (s : Server)
      → All Avoids ms
      → Joined id s
      → inbox q (responses ms s) ≡ map (delivered q) (others id ms)
  unfolding responses inbox others
  responses-Joined id [] s ne j = refl
  responses-Joined id (m ∷ ms) s ne j =
      inbox-append q (handle_message m s).1 (responses ms (handle_message m s).0)
      ∙ ap (λ x. inbox q (handle_message m s).1 ++ x)
          (responses-Joined id ms (handle_message m s).0 ne.1 (handle_message-Joined id m s ne.0 j))
      ∙ handle_message-inbox id m ms s ne.0 j

  -- Before the client joins.
  pub handle_message-Absent :
      (m : Message) (s : Server)
      → Avoids m
      → Absent s
      → Absent (handle_message m s).0 × (inbox q (handle_message m s).1 ≡ [])
  unfolding handle_message broadcast_message inbox
  handle_message-Absent m s ne a = elim (Bool-cases (strncmp_eq m.text (bytes "INIT") 4)) [
    | inl e ↦ elim (Bool-cases (leb max_clients s.client_count)) [
      | inl f ↦ rw (handle_message, e, f) (a, refl)
      | inr f ↦
          rw (handle_message, e, f) (register-Absent m.queue s ne a, register-inbox m.queue s ne)
    ]
    | inr e ↦ rw (handle_message, e) (a, broadcast_from-Foreign m.pid _ s.clients a)
  ]
