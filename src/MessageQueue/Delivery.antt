-- ===== src/MessageQueue/Delivery.antt =====
-- Server and clients of cw07/assignment together: what a client reads and prints.
use agh_operating_systems.Prelude.{
  take, ℕ, ◌+◌, ◌-◌, ◌<◌, ◌≡◌, ◌≢◌, refl, ◌∙◌, true, false, List, [], ◌∷◌, ◌++◌, Option, some, ◌==◌,
  length, replicate, map, arith, ap, ap₂, subst, All, All-replicate, append_assoc, take_all,
}
use agh_operating_systems.CString.{Bytes, bytes, digits, strncmp_eq}
use agh_operating_systems.MessageQueue.Server.{
  Message, ClientInfo, Server, unused, init, max_clients, max_text, broadcast_text, id_text,
  handle_message, serve,
}
use agh_operating_systems.MessageQueue.Registry.{Table, serve-Table, handle_message-init}
use agh_operating_systems.MessageQueue.Client.{
  init_message, chat_message, send_messages, client_line, receive_messages, listen,
}
use agh_operating_systems.MessageQueue.Inbox.{
  responses, inbox, others, delivered, inbox-append, responses-append, Foreign, joined, Absent,
  Joined, Avoids, responses-Joined, handle_message-Absent,
}

-- What a listener shows of a chat message: the text behind the sender's number, cut to the 255 bytes of a response.
abbrev pub chat_line : Message → Bytes
chat_line m =
    bytes "[Client] "
    ++ take 255 (bytes "Client " ++ digits m.pid ++ bytes ": " ++ m.text)
    ++ 10 ∷ []

delivered-chat_line :
    (q : ℕ) (ms : List Message) → receive_messages (map (delivered q) ms) ≡ map chat_line ms
unfolding receive_messages client_line broadcast_text
delivered-chat_line q [] = refl
delivered-chat_line q (m ∷ ms) = ap (◌∷◌ (chat_line m)) (delivered-chat_line q ms)

module _ (q : ℕ) where
  inbox-own :
      (id : ℕ) (text : Bytes)
      → inbox q (record { queue = q; client_id = id; text = text } ∷ [])
        ≡ record { queue = q; client_id = id; text = text } ∷ []
  unfolding inbox
  inbox-own id text = ground arith

  serve-Absent :
      (ms : List Message) (s : Server)
      → All (Avoids q) ms
      → Absent q s
      → Absent q (serve ms s) × (inbox q (responses ms s) ≡ [])
  unfolding serve responses inbox
  serve-Absent [] s ne a = (a, refl)
  serve-Absent (m ∷ ms) s ne a =
      let (b, e) = handle_message-Absent q m s ne.0 a in
      let (c, f) = serve-Absent ms (handle_message m s).0 ne.1 b in
      (
        c,
        inbox-append q (handle_message m s).1 (responses ms (handle_message m s).0)
            ∙ ap₂ (λ x y. x ++ y) e f,
      )

  init-Absent : Absent q init
  unfolding init
  init-Absent = All-replicate (Foreign q) max_clients unused refl

  All-left : (xs ys : List ClientInfo) → All (Foreign q) (xs ++ ys) → All (Foreign q) xs
  All-left [] ys h = tt
  All-left (x ∷ xs) ys h = (h.0, All-left xs ys h.1)

  is_init : (pid : ℕ) → strncmp_eq (init_message pid q).text (bytes "INIT") 4 ≡ true
  unfolding init_message strncmp_eq
  is_init pid = refl

  -- The client joins.
  init_message-Joined :
      (pid : ℕ) (s : Server) (t : Table s)
      → Absent q s
      → s.client_count < max_clients
      → Joined q (s.client_count + 1) (handle_message (init_message pid q) s).0
        × ((handle_message (init_message pid q) s).1
            ≡ record {
              queue = q;
              client_id = s.client_count + 1;
              text = id_text (s.client_count + 1);
            }
              ∷ [])
  unfolding init_message
  init_message-Joined pid s t a lt =
      let id = s.client_count + 1 in
      let (sent, n, table) = handle_message-init (init_message pid q) s t q refl (is_init pid) lt in
      let free = replicate (max_clients - id) unused in
      (
        record {
          before = t.entries;
          behind = free;
          found = table ∙ append_assoc t.entries (joined q id ∷ []) free;
          foreign_before = All-left t.entries _ (subst (All (Foreign q)) t.filled a);
          foreign_behind = All-replicate (Foreign q) (max_clients - id) unused refl;
          counted = omega (arith, t.counted, n);
        },
        sent,
      )

  -- A client that sends INIT from its own queue while fewer than ten are registered: of all that the server sends before
  -- and after, in whatever order the messages of all clients arrive, the client reads its id first, which is the number of
  -- clients then registered, itself included, and prints exactly the chat messages that the server handles after its INIT and that other
  -- clients have sent, each behind its sender's id and cut to 255 bytes with it, in the order in which the server
  -- handles them.
  pub listen-others :
      (pid : ℕ) (earlier later : List Message)
      → All (Avoids q) earlier
      → All (Avoids q) later
      → (serve earlier init).client_count < max_clients
      → let id = (serve earlier init).client_count + 1 in
        listen (inbox q (responses (earlier ++ init_message pid q ∷ later) init))
        ≡ some (id, map chat_line (others id later))
  unfolding responses listen inbox
  listen-others pid earlier later ne ne' lt =
      let s = serve earlier init in
      let (a, e) = serve-Absent earlier init ne init-Absent in
      let (j, sent) = init_message-Joined pid s (serve-Table earlier) a lt in
      let after = (handle_message (init_message pid q) s).0 in
      ap listen (
        ap (inbox q) (responses-append earlier (init_message pid q ∷ later) init)
        ∙ inbox-append q (responses earlier init) _
        ∙ ap₂ (λ x y. x ++ y) e
            (inbox-append q (handle_message (init_message pid q) s).1 (responses later after)
              ∙ ap₂ (λ x y. x ++ y)
                  (ap (inbox q) sent
                    ∙ inbox-own (s.client_count + 1) (id_text (s.client_count + 1)))
                  (responses-Joined q (s.client_count + 1) later after ne' j)))
      ∙ ap (λ (l : List Bytes). some (s.client_count + 1, l))
          (delivered-chat_line q (others (s.client_count + 1) later))

abbrev pub marked : ℕ → Bytes → Bytes
marked a line = bytes "Client " ++ digits a ++ bytes ": " ++ line

-- A line of the client `a` that is no INIT, and that fits with its mark into a text.
abbrev pub IsChat : ℕ → Bytes → Type 0
IsChat a line = (strncmp_eq line (bytes "INIT") 4 ≡ false) × (length (marked a line) < max_text)

send_messages-others :
    (id a : ℕ) (fresh : Option ℕ) (lines : List Bytes)
    → id == a ≡ false
    → All (IsChat a) lines
    → others id (send_messages a fresh lines) ≡ send_messages a fresh lines
unfolding others send_messages chat_message
send_messages-others id a fresh [] ne h = refl
send_messages-others id a fresh (line ∷ rest) ne h =
    rw (h.0.0, ne)
      (ap (λ x. chat_message a fresh line ∷ x) (send_messages-others id a fresh rest ne h.1))

send_messages-Avoids :
    (q a : ℕ) (fresh : Option ℕ) (lines : List Bytes)
    → fresh ≢ some q
    → All (Avoids q) (send_messages a fresh lines)
unfolding send_messages chat_message
send_messages-Avoids q a fresh [] ne = tt
send_messages-Avoids q a fresh (line ∷ rest) ne = (ne, send_messages-Avoids q a fresh rest ne)

-- What a listener prints for a line that another client has typed.
unfoldable pub heard : ℕ → Bytes → Bytes
heard a line = bytes "[Client] " ++ marked a line ++ 10 ∷ []

send_messages-heard :
    (a : ℕ) (fresh : Option ℕ) (lines : List Bytes)
    → All (IsChat a) lines
    → map chat_line (send_messages a fresh lines) ≡ map (heard a) lines
unfolding send_messages chat_message heard
send_messages-heard a fresh [] h = refl
send_messages-heard a fresh (line ∷ rest) h =
    ap₂ (λ x xs. x ∷ xs)
      (ap (λ x. bytes "[Client] " ++ x ++ 10 ∷ [])
        (take_all 255 (marked a line) (omega (arith, h.0.1))))
      (send_messages-heard a fresh rest h.1)

-- A client that sends INIT from its own queue while fewer than ten are registered, before the client `a`, another one,
-- sends the lines that its user types, none of which starts with INIT or is too long for a text with its mark: it prints
-- each of those lines, whole and in order, behind `Client` and the number `a`, and nothing else.
pub listen-send_messages :
    (q pid a : ℕ) (fresh : Option ℕ) (earlier : List Message) (lines : List Bytes)
    → All (Avoids q) earlier
    → fresh ≢ some q
    → (serve earlier init).client_count < max_clients
    → (serve earlier init).client_count + 1 == a ≡ false
    → All (IsChat a) lines
    → listen
        (inbox q (responses (earlier ++ init_message pid q ∷ send_messages a fresh lines) init))
      ≡ some ((serve earlier init).client_count + 1, map (heard a) lines)
listen-send_messages q pid a fresh earlier lines ne f lt other h =
    let id = (serve earlier init).client_count + 1 in
    listen-others q pid earlier (send_messages a fresh lines) ne
      (send_messages-Avoids q a fresh lines f) lt
    ∙ ap (λ ms. some (id, map chat_line ms)) (send_messages-others id a fresh lines other h)
    ∙ ap (λ (l : List Bytes). some (id, l)) (send_messages-heard a fresh lines h)
