-- ===== src/MessageQueue/Registry.antt =====
-- The table of cw07/assignment/server.c, and who receives a message.
use agh_operating_systems.Prelude.{
  ℕ, zero, suc, ◌+◌, ◌-◌, ◌≤◌, ◌<◌, ◌≡◌, refl, sym, ◌∙◌, true, false, List, [], ◌∷◌, ◌++◌, Option,
  none, some, leb, set, take, drop, length, replicate, map, arith, ap, ap₂, inl, inr, Bool-cases,
  length-append,
}
use agh_operating_systems.CString.{Bytes, bytes, strncmp_eq}
use agh_operating_systems.MessageQueue.Server.{
  Message, Response, ClientInfo, Server, unused, init, max_clients, broadcast_from,
  broadcast_message, broadcast_text, register, id_text, handle_message, serve,
}

-- Active entries whose ids are k + 1, k + 2, ….
abbrev pub Numbered : ℕ → List ClientInfo → Type 0
Numbered k [] = Unit
Numbered k (c ∷ cs) = (c.active ≡ true) × (c.client_id ≡ k + 1) × Numbered (k + 1) cs

-- The table is filled from the left with numbered entries, and unused behind them.
pub record Table (s : Server) : Type 0 where
  pub entries : List ClientInfo
  pub filled : s.clients ≡ entries ++ replicate (max_clients - s.client_count) unused
  pub counted : length entries ≡ s.client_count
  pub room : s.client_count ≤ max_clients
  pub numbered : Numbered 0 entries

set-end :
    (cs : List ClientInfo) (e v : ClientInfo) (m : ℕ)
    → set (cs ++ replicate (suc m) e) (length cs) v ≡ (cs ++ v ∷ []) ++ replicate m e
set-end [] e v m = refl
set-end (c ∷ cs) e v m = ap (◌∷◌ c) (set-end cs e v m)

Numbered-append :
    (k : ℕ) (cs : List ClientInfo) (v : ClientInfo)
    → Numbered k cs
    → v.active ≡ true
    → v.client_id ≡ k + length cs + 1
    → Numbered k (cs ++ v ∷ [])
Numbered-append k [] v n a e = (a, omega arith, tt)
Numbered-append k (c ∷ cs) v n a e = (n.0, n.1, Numbered-append (k + 1) cs v n.2 a (omega arith))

register-Table :
    (o : Option ℕ) (s : Server) → s.client_count < max_clients → Table s → Table (register o s).0
unfolding register
register-Table none s lt t = t
register-Table (some q) s lt t =
    let v : ClientInfo = record { client_id = s.client_count + 1; queue_id = q; active = true } in
    record {
      entries = t.entries ++ v ∷ [];
      filled =
          ap₂ (λ l m. set l m v) (t.filled ∙ ap (λ m. t.entries ++ replicate m unused) (more lt))
            (sym t.counted)
          ∙ set-end t.entries unused v (max_clients - (s.client_count + 1));
      counted = omega (arith, length-append t.entries (v ∷ []), t.counted);
      room = omega arith;
      numbered = Numbered-append 0 t.entries v t.numbered refl (omega (arith, t.counted));
    }
  where
    more :
        s.client_count < max_clients
        → max_clients - s.client_count ≡ suc (max_clients - (s.client_count + 1))
    more h = omega arith

handle_message-Table : (m : Message) (s : Server) → Table s → Table (handle_message m s).0
unfolding handle_message
handle_message-Table m s t = elim (Bool-cases (strncmp_eq m.text (bytes "INIT") 4)) [
  | inl e ↦ elim (Bool-cases (leb max_clients s.client_count)) [
    | inl f ↦ rw (handle_message, e, f) t
    | inr f ↦ rw (handle_message, e, f) (register-Table m.queue s (ground arith) t)
  ]
  | inr e ↦ rw (handle_message, e) t
]

serve_from-Table : (ms : List Message) (s : Server) → Table s → Table (serve ms s)
unfolding serve
serve_from-Table [] s t = t
serve_from-Table (m ∷ ms) s t =
    serve_from-Table ms (handle_message m s).0 (handle_message-Table m s t)

init-Table : Table init
unfolding init
init-Table = record {
  entries = [];
  filled = refl;
  counted = refl;
  room = omega arith;
  numbered = tt;
}

-- After any messages the table is filled from the left: `client_count` active entries, at most ten, whose
-- ids are 1, 2, … in the order of the slots, and unused slots behind them.
pub serve-Table : (ms : List Message) → Table (serve ms init)
serve-Table ms = serve_from-Table ms init init-Table

abbrev pub response_for : ℕ → Bytes → ClientInfo → Response
response_for sender text c = record { queue = c.queue_id; client_id = sender; text = text }

broadcast-unused :
    (sender : ℕ) (text : Bytes) (m : ℕ) → broadcast_from sender text (replicate m unused) ≡ []
unfolding broadcast_from
broadcast-unused sender text zero = refl
broadcast-unused sender text (suc m) = broadcast-unused sender text m

-- Entries with ids above the sender's all receive.
broadcast-above :
    (k : ℕ) (sender : ℕ) (text : Bytes) (cs : List ClientInfo) (m : ℕ)
    → sender ≤ k
    → Numbered k cs
    → broadcast_from sender text (cs ++ replicate m unused) ≡ map (response_for sender text) cs
unfolding broadcast_from
broadcast-above k sender text [] m le n = broadcast-unused sender text m
broadcast-above k sender text (c ∷ cs) m le n =
    ground (arith, broadcast-above (k + 1) sender text cs m (omega arith) n.2)

broadcast-others :
    (k j : ℕ) (sender : ℕ) (text : Bytes) (cs : List ClientInfo) (m : ℕ)
    → sender ≡ k + j + 1
    → Numbered k cs
    → broadcast_from sender text (cs ++ replicate m unused)
      ≡ map (response_for sender text) (take j cs ++ drop (suc j) cs)
unfolding broadcast_from
broadcast-others k zero sender text [] m e n = broadcast-unused sender text m
broadcast-others k (suc j) sender text [] m e n = broadcast-unused sender text m
broadcast-others k zero sender text (c ∷ cs) m e n =
    ground (arith, broadcast-above (k + 1) sender text cs m (omega arith) n.2)
broadcast-others k (suc j) sender text (c ∷ cs) m e n =
    ground (arith, broadcast-others (k + 1) j sender text cs m (omega arith) n.2)

-- A text from the client with id `j + 1` that does not start with INIT, in a table as above: the table does not
-- change, and one response with the sender's id and the marked text goes to the queue of each
-- entry but the one at `j`, in their order.
pub handle_message-broadcast :
    (m : Message) (s : Server) (t : Table s) (j : ℕ)
    → m.pid ≡ j + 1
    → strncmp_eq m.text (bytes "INIT") 4 ≡ false
    → handle_message m s ≡ (
      s,
      map
          (response_for (j + 1) (broadcast_text (j + 1) m.text))
          (take j t.entries ++ drop (suc j) t.entries),
    )
unfolding handle_message broadcast_message
handle_message-broadcast m s t j p e =
    rw (handle_message, e)
      (ap (λ (l : List Response). (s, l))
        (ap₂ (λ i cs. broadcast_from i (broadcast_text i m.text) cs) p t.filled
          ∙ broadcast-others 0 j (j + 1) (broadcast_text (j + 1) m.text) t.entries _ (omega arith)
              t.numbered))

-- INIT while fewer than ten clients are there, with a queue that exists: the client gets the next id, its answer
-- is the only response, goes to its own queue and carries that id; the entries before it stay.
pub handle_message-init :
    (m : Message) (s : Server) (t : Table s) (q : ℕ)
    → m.queue ≡ some q
    → strncmp_eq m.text (bytes "INIT") 4 ≡ true
    → s.client_count < max_clients
    → let id = s.client_count + 1 in
      let v : ClientInfo = record { client_id = id; queue_id = q; active = true } in
      ((handle_message m s).1 ≡ record { queue = q; client_id = id; text = id_text id } ∷ [])
      × ((handle_message m s).0.client_count ≡ id)
      × ((handle_message m s).0.clients
          ≡ (t.entries ++ v ∷ []) ++ replicate (max_clients - id) unused)
unfolding handle_message register
handle_message-init m s t q e i lt =
    let f : leb max_clients s.client_count ≡ false = ground arith in
    let more : max_clients - s.client_count ≡ suc (max_clients - (s.client_count + 1)) =
      omega arith in
    let v : ClientInfo = record { client_id = s.client_count + 1; queue_id = q; active = true } in
    rw (handle_message, i, f, e)
      (
        refl,
        refl,
        ap₂ (λ l n. set l n v) (t.filled ∙ ap (λ n. t.entries ++ replicate n unused) more)
              (sym t.counted)
            ∙ set-end t.entries unused v (max_clients - (s.client_count + 1)),
      )
