-- ===== src/TcpChat/Names.antt =====
-- The names in the table of cw11/assignment/server.c.
use agh_operating_systems.Prelude.{
  ℕ, ◌-◌, ◌≡◌, ◌≢◌, refl, sym, ◌∙◌, Bool, true, List, [], ◌∷◌, Option, none, some, get_elem?, set,
  arith, ap, map, subst, inl, inr, Bool-cases, Option-cases, if_rule, find_index-eq-none,
  get_elem?-set_cases, get_elem?-map,
}
use mathlib.Core.Bool.{false≢true}
use agh_operating_systems.CString.{strcmp_eq_iff}
use agh_operating_systems.TcpChat.Table.{
  Client, Server, Action, has_name, find_client_by_name, remove_client, ping_client, ping_from,
  ping_clients, cleared,
}
use agh_operating_systems.TcpChat.Messages.{
  Message, touch, Round, again, leave, overflow, handle_command, end_round, handle_client,
  test_active, slot_active, as_text, effect,
}

-- No two active slots hold the same name.
abbrev pub DistinctNames : Server → Type 0
DistinctNames s =
    (i j : ℕ) (a b : Client)
    → get_elem? s.clients i ≡ some a
    → get_elem? s.clients j ≡ some b
    → a.active ≡ true
    → b.active ≡ true
    → a.name ≡ b.name
    → i ≡ j

-- Every active slot of `t` was active in `s` with the same name.
abbrev pub Shrinks : Server → Server → Type 0
Shrinks s t =
    (i : ℕ) (b : Client)
    → get_elem? t.clients i ≡ some b
    → b.active ≡ true
    → (a : Client) × (get_elem? s.clients i ≡ some a) × (a.active ≡ true) × (a.name ≡ b.name)

pub Shrinks-DistinctNames : (s t : Server) → Shrinks s t → DistinctNames s → DistinctNames t
Shrinks-DistinctNames s t h d i j a b ga gb aa ab e =
    let (a', ga', aa', ea) = h i a ga aa in
    let (b', gb', ab', eb) = h j b gb ab in d i j a' b' ga' gb' aa' ab' (ea ∙ e ∙ sym eb)

Shrinks-trans : (s t u : Server) → Shrinks s t → Shrinks t u → Shrinks s u
Shrinks-trans s t u h k i b g a =
    let (c, gc, ac, ec) = k i b g a in let (d, gd, ad, ed) = h i c gc ac in (d, gd, ad, ed ∙ ec)

set-Shrinks :
    (s : Server) (i n : ℕ) (c v : Client)
    → get_elem? s.clients i ≡ some c
    → (v.active ≡ true → (c.active ≡ true) × (c.name ≡ v.name))
    → Shrinks s (record { clients = set s.clients i v; client_count = n })
set-Shrinks s i n c v g k j b h a = elim (get_elem?-set_cases s.clients i j v b h) [
  | inl (e, q) ↦
      let (x, y) = k (ap (λ r. r.active) (sym q) ∙ a) in
      (c, subst (λ m. get_elem? s.clients m ≡ some c) e g, x, y ∙ ap (λ r. r.name) (sym q))
  | inr (e, q) ↦ (b, q, a, refl)
]

kept-Shrinks : (s : Server) → Shrinks s s
kept-Shrinks s i b g a = (b, g, a, refl)

touch-Shrinks : (i now : ℕ) (s : Server) → Shrinks s (touch i now s)
unfolding touch
touch-Shrinks i now s = elim (Option-cases (get_elem? s.clients i)) [
  | inl e ↦ rw (e, touch) (kept-Shrinks s)
  | inr (c, e) ↦
      rw (e, touch)
        (set-Shrinks s i s.client_count c (record c { last_ping = now }) e (λ a. (a, refl)))
]

remove_client-Shrinks : (i : ℕ) (s : Server) → Shrinks s (remove_client i s).0
unfolding remove_client
remove_client-Shrinks i s = elim (Option-cases (get_elem? s.clients i)) [
  | inl e ↦ rw (e, remove_client) (kept-Shrinks s)
  | inr (c, e) ↦ elim (Bool-cases c.active) [
    | inl a ↦
        rw (e, remove_client, a)
          (set-Shrinks s i (s.client_count - 1) c (cleared c) e (λ h. absurd (false≢true h)))
    | inr a ↦ rw (e, remove_client, a) (kept-Shrinks s)
  ]
]

ping_from-map :
    (now : ℕ) (cs : List Client) (n : ℕ) → (ping_from now cs n).0 ≡ map (ping_client now) cs
unfolding ping_from
ping_from-map now [] n = refl
ping_from-map now (c ∷ cs) n = ap (◌∷◌ (ping_client now c)) (ping_from-map now cs _)

pub ping_clients-Shrinks : (now : ℕ) (s : Server) → Shrinks s (ping_clients now s).0
unfolding ping_clients ping_client
ping_clients-Shrinks now s i b g a =
    let (c, gc, e) =
      get_elem?-map (ping_client now) s.clients i b
        (subst (λ l. get_elem? l i ≡ some b) (ping_from-map now s.clients s.client_count) g) in
    (c, gc, ground arith, ground arith)

-- The effect of a round of a client's thread, if it has one, takes names away at most.
pub data EffectShrinks (s : Server) : Option (Server × List Action) → Type 0 where
  fails : EffectShrinks s none
  ends : {t : Server} {out : List Action} → Shrinks s t → EffectShrinks s (some (t, out))

end_round-Shrinks :
    (i : ℕ) (s t : Server) (r : Round) → Shrinks s t → EffectShrinks s (effect (end_round i t r))
unfolding end_round
end_round-Shrinks i s t (again out) h = ends h
end_round-Shrinks i s t leave h =
    ends (Shrinks-trans s t (remove_client i t).0 h (remove_client-Shrinks i t))
end_round-Shrinks i s t overflow h = fails

pub handle_client-Shrinks :
    (d : Option Message) (i : ℕ) (s : Server) → EffectShrinks s (effect (handle_client d i s))
unfolding handle_client
handle_client-Shrinks none i s = end_round-Shrinks i s s leave (kept-Shrinks s)
handle_client-Shrinks (some d) i s =
    end_round-Shrinks i s (touch i d.now s) (handle_command (as_text d) i (touch i d.now s))
      (touch-Shrinks i d.now s)

pub test_active-Shrinks : (i : ℕ) (s : Server) → EffectShrinks s (effect (test_active i s))
unfolding test_active end_round
test_active-Shrinks i s =
    if_rule (λ (o : Option (Bool × Server × List Action)). EffectShrinks s (effect o))
      (slot_active i s) _ _ (end_round-Shrinks i s s (again []) (kept-Shrinks s))
      (end_round-Shrinks i s s leave (kept-Shrinks s))

-- The new client's name is not in the table.
pub new-DistinctNames :
    (s : Server) (i n : ℕ) (v : Client)
    → find_client_by_name v.name s ≡ none
    → DistinctNames s
    → DistinctNames (record { clients = set s.clients i v; client_count = n })
unfolding find_client_by_name
new-DistinctNames s i n v f d j k a b ga gb aa ab e =
    let unused : (m : ℕ) (c : Client)
        → get_elem? s.clients m ≡ some c
        → c.active ≡ true
        → c.name ≢ v.name =
      λ m c g h q. false≢true (
        sym (find_index-eq-none (has_name v.name) s.clients m c f g)
        ∙ rw h ((strcmp_eq_iff c.name v.name).1 q)) in
    elim (get_elem?-set_cases s.clients i j v a ga) [
      | inl (p, q) ↦ elim (get_elem?-set_cases s.clients i k v b gb) [
        | inl (p', q') ↦ sym p ∙ p'
        | inr (p', q') ↦ absurd (unused k b q' ab (sym e ∙ ap (λ r. r.name) q))
      ]
      | inr (p, q) ↦ elim (get_elem?-set_cases s.clients i k v b gb) [
        | inl (p', q') ↦ absurd (unused j a q aa (e ∙ ap (λ r. r.name) q'))
        | inr (p', q') ↦ d j k a b q q' aa ab e
      ]
    ]
