-- ===== src/TcpChat/Unique.antt =====
-- The names of the clients of cw11/assignment/server.c, over a whole run.
use agh_operating_systems.Prelude.{
  ℕ, ◌+◌, ◌-◌, ◌≤◌, ◌≡◌, sym, ◌∙◌, List, [], ◌∷◌, Option, none, some, take, length, arith, ap,
  subst, inl, inr, Option-cases, find_index, get_elem?-replicate, length-take, take_all,
}
use mathlib.Core.Bool.{false≢true}
use mathlib.Core.Option.{some-injective}
use agh_operating_systems.CString.{Bytes, until_nul}
use agh_operating_systems.TcpChat.Table.{
  Server, Action, init, empty_slot, is_free, max_clients, max_name_len, find_client_by_name,
  Connection, client_name, new_client, take_slot, accept_client, ping_clients,
}
use agh_operating_systems.TcpChat.Messages.{
  Event, accepted, tested, received, ping_round, effect, handle_client, test_active, step, Reach,
  start, next,
}
use agh_operating_systems.TcpChat.Names.{
  DistinctNames, Shrinks-DistinctNames, EffectShrinks, fails, ends, handle_client-Shrinks,
  test_active-Shrinks, ping_clients-Shrinks, new-DistinctNames,
}

length-until_nul : (s : Bytes) → length (until_nul s) ≤ length s
unfolding until_nul
length-until_nul [] = omega arith
length-until_nul (b ∷ s) = ground (arith, length-until_nul s)

-- The name that was received fits into the slot uncut.
client_name-fits : (raw : Bytes) → take (max_name_len - 1) (client_name raw) ≡ client_name raw
client_name-fits raw =
    take_all (max_name_len - 1) (client_name raw)
      (omega (arith, length-until_nul (take 31 raw), length-take 31 raw))

take_slot-DistinctNames :
    (k : Connection) (raw : Bytes) (o : Option ℕ) (s : Server)
    → find_client_by_name (client_name raw) s ≡ none
    → DistinctNames s
    → let (more, t, out) = take_slot k (client_name raw) o s in DistinctNames t
unfolding take_slot
take_slot-DistinctNames k raw none s f d = d
take_slot-DistinctNames k raw (some i) s f d =
    new-DistinctNames s i (s.client_count + 1) (new_client k (client_name raw))
      (ap (λ n. find_client_by_name n s) (client_name-fits raw) ∙ f) d

accept_client-DistinctNames :
    (k : Connection) (s : Server)
    → DistinctNames s
    → let (more, t, out) = accept_client k s in DistinctNames t
unfolding accept_client
accept_client-DistinctNames k s d = elim (Option-cases k.received) [
  | inl e ↦ rw (e, accept_client) d
  | inr (raw, e) ↦ elim (Option-cases (find_client_by_name (client_name raw) s)) [
    | inl f ↦
        rw (e, accept_client, f)
          (take_slot-DistinctNames k raw (find_index is_free s.clients) s f d)
    | inr (j, f) ↦ rw (e, accept_client, f) d
  ]
]

effect-DistinctNames :
    (s t : Server) (out : List Action) (o : Option (Server × List Action))
    → EffectShrinks s o
    → o ≡ some (t, out)
    → DistinctNames s
    → DistinctNames t
effect-DistinctNames s t out _ fails h d = absurd (cc)
effect-DistinctNames s t out _ (ends {t = u} {out = sent} k) h d =
    subst (λ (r : Server × List Action). DistinctNames r.0) (some-injective _ _ h)
      (Shrinks-DistinctNames s u k d)

step-DistinctNames :
    (e : Event) (s t : Server) (out : List Action)
    → step e s ≡ some (t, out)
    → DistinctNames s
    → DistinctNames t
unfolding step
step-DistinctNames (accepted c) s t out h d =
    subst (λ (r : Server × List Action). DistinctNames r.0) (some-injective _ _ h)
      (accept_client-DistinctNames c s d)
step-DistinctNames (tested i) s t out h d =
    effect-DistinctNames s t out (effect (test_active i s)) (test_active-Shrinks i s) h d
step-DistinctNames (received i m) s t out h d =
    effect-DistinctNames s t out (effect (handle_client m i s)) (handle_client-Shrinks m i s) h d
step-DistinctNames (ping_round now) s t out h d =
    subst (λ (r : Server × List Action). DistinctNames r.0) (some-injective _ _ h)
      (Shrinks-DistinctNames s (ping_clients now s).0 (ping_clients-Shrinks now s) d)

init-DistinctNames : DistinctNames init
unfolding init
init-DistinctNames i j a b ga gb aa ab e =
    absurd (
      false≢true
        (sym (ap (λ c. c.active) (get_elem?-replicate max_clients empty_slot i a ga)) ∙ aa))

-- Whatever the clients send, no two active clients of the server ever have the same name.
pub Reach-DistinctNames :
    {s : Server} {es : List Event} {log : List Action} → Reach s es log → DistinctNames s
Reach-DistinctNames start = init-DistinctNames
Reach-DistinctNames (next {s} {t} e out r h) =
    step-DistinctNames e s t out h (Reach-DistinctNames r)
