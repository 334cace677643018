-- ===== src/TcpChat/Handshake.antt =====
-- Client and server of cw11/assignment together, when a connection is made.
use agh_operating_systems.Prelude.{
  ℕ, ◌≡◌, refl, Bool, true, false, List, ◌∷◌, Option, none, some, inl, inr, Option-cases,
  find_index,
}
use agh_operating_systems.CString.{Bytes, strncmp_eq, until_nul}
use agh_operating_systems.TcpChat.Table.{
  Server, Action, send, Connection, accept_client, take_slot, find_client_by_name, client_name,
  is_free, name_error, full_error, welcome,
}
use agh_operating_systems.TcpChat.Client.{first_answer}

abbrev pub is_started : Option ℕ → Bool
is_started none = false
is_started (some i) = true

abbrev pub Answered : Connection → Option ℕ × Server × List Action → Type 0
Answered k (o, t, out) =
    (text : Bytes) × (rest : List Action) × (out ≡ send k.socket text ∷ rest)
    × ((first_answer (some text)).0 ≡ is_started o)

-- The three answers, read by the client.
welcome_taken : (first_answer (some welcome)).0 ≡ true
unfolding first_answer until_nul strncmp_eq
welcome_taken = refl

name_error_taken : (first_answer (some name_error)).0 ≡ false
unfolding first_answer until_nul strncmp_eq
name_error_taken = refl

full_error_taken : (first_answer (some full_error)).0 ≡ false
unfolding first_answer until_nul strncmp_eq
full_error_taken = refl

take_slot-Answered :
    (k : Connection) (name : Bytes) (o : Option ℕ) (s : Server) → Answered k (take_slot k name o s)
unfolding take_slot
take_slot-Answered k name none s = (full_error, _, refl, full_error_taken)
take_slot-Answered k name (some i) s = (welcome, _, refl, welcome_taken)

-- A connection on which a name is received: the first thing that the server does on it is to send an answer,
-- and the client that receives this answer goes on exactly if the server has taken it into the
-- table and starts a thread for it.
pub handshake :
    (k : Connection) (raw : Bytes) (s : Server)
    → k.received ≡ some raw
    → Answered k (accept_client k s)
unfolding accept_client
handshake k raw s e = elim (Option-cases (find_client_by_name (client_name raw) s)) [
  | inl f ↦
      rw (e, accept_client, f)
        (take_slot-Answered k (client_name raw) (find_index is_free s.clients) s)
  | inr (j, f) ↦ rw (e, accept_client, f) (name_error, _, refl, name_error_taken)
]
