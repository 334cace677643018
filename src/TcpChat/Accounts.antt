-- ===== src/TcpChat/Accounts.antt =====
-- What the threads of cw11/assignment/server.c do to the descriptors, over a whole run.
use agh_operating_systems.Prelude.{
  ℕ, ◌+◌, ◌≡◌, refl, ◌∙◌, Bool, List, [], ◌∷◌, Option, none, some, ltb, get_elem?, length, arith,
  ap₂, subst, inl, inr, Option-cases, if_rule, count, drop,
}
use mathlib.Core.Option.{some-injective}
use agh_operating_systems.CString.{Bytes, bytes, strncmp_eq, strchr}
use agh_operating_systems.TcpChat.Table.{Client, Server, Action, init, find_client_by_name}
use agh_operating_systems.TcpChat.Messages.{
  Message, effect, list_text, buffer_size, public_text, name_at, broadcast_from, broadcast_message,
  send_to_client, touch, reply, send_private, handle_private, Round, again, leave, overflow,
  handle_list, handle_command, end_round, handle_client, test_active, slot_active, Event, accepted,
  tested, received, ping_round, step, Reach, start, next,
}
use agh_operating_systems.TcpChat.Descriptors.{
  closes, opens, holds, closes-append, opens-append, Counted, Books, touch-Books,
  remove_client-Books, come, accept_client-Books, ping_clients-Books,
}

-- No message makes the server close anything.
broadcast_from-closes :
    (k : ℕ) (text : Bytes) (sender i : ℕ) (cs : List Client)
    → closes k (broadcast_from text sender i cs) ≡ 0
unfolding broadcast_from
broadcast_from-closes k text sender i [] = refl
broadcast_from-closes k text sender i (c ∷ cs) =
    ground (arith, broadcast_from-closes k text sender (i + 1) cs)

reply-closes : (k i : ℕ) (s : Server) (text : Bytes) → closes k (reply i s text) ≡ 0
unfolding reply
reply-closes k i s text = elim (Option-cases (get_elem? s.clients i)) [
  | inl e ↦ rw (e, reply) refl
  | inr (c, e) ↦ rw (e, reply) refl
]

send_to_client-closes :
    (k i : ℕ) (s : Server) (text : Bytes) → closes k (send_to_client text i s) ≡ 0
unfolding send_to_client
send_to_client-closes k i s text = elim (Option-cases (get_elem? s.clients i)) [
  | inl e ↦ rw (e, send_to_client) refl
  | inr (c, e) ↦ rw (e, send_to_client) (ground arith)
]

send_private-closes :
    (k : ℕ) (d : Message) (i : ℕ) (target text : Bytes) (s : Server)
    → closes k (send_private d i target text s) ≡ 0
unfolding send_private
send_private-closes k d i target text s = elim (Option-cases (find_client_by_name target s)) [
  | inl e ↦ rw (e, send_private) (reply-closes k i s _)
  | inr (j, e) ↦
      rw (e, send_private)
        (closes-append k (send_to_client _ j s) (reply i s _)
          ∙ ap₂ ◌+◌ (send_to_client-closes k j s _) (reply-closes k i s _))
]

handle_private-closes :
    (k : ℕ) (d : Message) (i : ℕ) (s : Server) → closes k (handle_private d i s) ≡ 0
unfolding handle_private
handle_private-closes k d i s = elim (Option-cases (strchr (drop 5 d.buffer) b' ')) [
  | inl e ↦ rw (e, handle_private) refl
  | inr ((target, text), e) ↦ rw (e, handle_private) (send_private-closes k d i target text s)
]

data Quiet (k : ℕ) : Round → Type 0 where
  stays : {out : List Action} → closes k out ≡ 0 → Quiet k (again out)
  leaves : Quiet k leave
  overflows : Quiet k overflow

reply-Quiet : (k i : ℕ) (s : Server) (text : Bytes) → Quiet k (again (reply i s text))
reply-Quiet k i s text = stays (reply-closes k i s text)

broadcast-Quiet :
    (k : ℕ) (text : Bytes) (i : ℕ) (s : Server) → Quiet k (again (broadcast_message text i s))
unfolding broadcast_message
broadcast-Quiet k text i s = stays (broadcast_from-closes k text i 0 s.clients)

handle_command-Quiet : (k : ℕ) (d : Message) (i : ℕ) (s : Server) → Quiet k (handle_command d i s)
unfolding handle_command handle_list
handle_command-Quiet k d i s =
    if_rule (Quiet k) (strncmp_eq d.buffer (bytes "LIST") 4) _ _
      (if_rule (Quiet k) (ltb (length (list_text s)) buffer_size) _ _
        (reply-Quiet k i s (list_text s)) overflows)
      (if_rule (Quiet k) (strncmp_eq d.buffer (bytes "2ALL ") 5) _ _
        (broadcast-Quiet k (public_text d (name_at i s)) i s)
        (if_rule (Quiet k) (strncmp_eq d.buffer (bytes "2ONE ") 5) _ _
          (stays {out = handle_private d i s} (handle_private-closes k d i s))
          (if_rule (Quiet k) (strncmp_eq d.buffer (bytes "STOP") 4) _ _ leaves (
            if_rule (Quiet k) (strncmp_eq d.buffer (bytes "PING") 4) _ _ (reply-Quiet k i s _)
              (stays {out = []} refl)))))

-- A result of a round that keeps the books, if it is one.
data RoundBooks (k : ℕ) (s : Server) : Option (Bool × Server × List Action) → Type 0 where
  fails : RoundBooks k s none
  ends :
      {more : Bool} {t : Server} {out : List Action}
      → Books k 0 s t out
      → RoundBooks k s (some (more, t, out))

end_round-Books :
    (k i : ℕ) (s : Server) (r : Round) → Counted s → Quiet k r → RoundBooks k s (end_round i s r)
unfolding end_round
end_round-Books k i s _ v (stays q) = ends (record { kept = v; balance = omega (arith, q) })
end_round-Books k i s _ v leaves = ends (remove_client-Books k i s v)
end_round-Books k i s _ v overflows = fails

-- The books of a round that starts with a silent change.
RoundBooks-trans :
    (k : ℕ) (s t : Server) (o : Option (Bool × Server × List Action))
    → Books k 0 s t []
    → RoundBooks k t o
    → RoundBooks k s o
RoundBooks-trans k s t _ a fails = fails
RoundBooks-trans k s t _ a (ends b) =
    ends (record { kept = b.kept; balance = omega (arith, a.balance, b.balance) })

handle_client-Books :
    (k : ℕ) (d : Option Message) (i : ℕ) (s : Server)
    → Counted s
    → RoundBooks k s (handle_client d i s)
unfolding handle_client
handle_client-Books k none i s v = end_round-Books k i s leave v leaves
handle_client-Books k (some d) i s v =
    let t : Server = touch i d.now s in
    let b : Books k 0 s t [] = touch-Books k i d.now s v in
    RoundBooks-trans k s t _ b (end_round-Books k i t _ b.kept (handle_command-Quiet k _ i t))

test_active-Books : (k i : ℕ) (s : Server) → Counted s → RoundBooks k s (test_active i s)
unfolding test_active end_round
test_active-Books k i s v =
    if_rule (RoundBooks k s) (slot_active i s) _ _
      (end_round-Books k i s (again []) v (stays {out = []} refl))
      (end_round-Books k i s leave v leaves)

received-Books :
    (k : ℕ) (s : Server) (o : Option (Bool × Server × List Action)) (t : Server) (out : List Action)
    → RoundBooks k s o
    → effect o ≡ some (t, out)
    → Books k 0 s t out
received-Books k s _ t out fails h = absurd (cc)
received-Books k s _ t out (ends b) h = subst (λ r. Books k 0 s r.0 r.1) (some-injective _ _ h) b

step-Books :
    (k : ℕ) (e : Event) (s t : Server) (out : List Action)
    → Counted s
    → step e s ≡ some (t, out)
    → Books k (opens k (e ∷ [])) s t out
unfolding step
step-Books k (accepted c) s t out v h =
    subst (λ r. Books k (come k c) s r.0 r.1) (some-injective _ _ h) (accept_client-Books k c s v)
step-Books k (tested i) s t out v h = received-Books k s _ t out (test_active-Books k i s v) h
step-Books k (received i d) s t out v h =
    received-Books k s _ t out (handle_client-Books k d i s v) h
step-Books k (ping_round now) s t out v h =
    subst (λ r. Books k 0 s r.0 r.1) (some-injective _ _ h) (ping_clients-Books k now s v)

init-Counted : Counted init
unfolding init count
init-Counted = record { slots = refl; counted = refl }

init-none : (k : ℕ) → count (holds k) init.clients ≡ 0
unfolding init count
init-none k = refl

Reach-Counted : {s : Server} {es : List Event} {log : List Action} → Reach s es log → Counted s
Reach-Counted start = init-Counted
Reach-Counted (next {s} {t} e out r h) = (step-Books 0 e s t out (Reach-Counted r) h).kept

-- No descriptor is leaked or closed twice: whatever has happened, for each number `k`, `accept` has
-- returned `k` as often as the server has closed it, and once more for each active slot that holds it.
pub Reach-balance :
    (k : ℕ) {s : Server} {es : List Event} {log : List Action}
    → Reach s es log
    → opens k es ≡ closes k log + count (holds k) s.clients
Reach-balance k start = omega (arith, init-none k)
Reach-balance k (next {s} {t} {es} {log} e out r h) = omega (
  arith,
  Reach-balance k r,
  (step-Books k e s t out (Reach-Counted r) h).balance,
  opens-append k es (e ∷ []),
  closes-append k log out,
)
