-- ===== src/TcpChat/Descriptors.antt =====
-- The descriptors of the connections of cw11/assignment/server.c: which are opened, closed and held.
use agh_operating_systems.Prelude.{
  ℕ, suc, ◌+◌, ◌-◌, ◌≤◌, ◌≡◌, refl, ◌∙◌, Bool, ◌&&◌, List, [], ◌∷◌, ◌++◌, Option, none, some, ◌==◌,
  if◌then◌else◌, get_elem?, set, length, arith, inl, inr, Bool-cases, Option-cases, count, weight,
  count-set, count-pos, length-set, find_index, find_index-eq-some,
}
use agh_operating_systems.CString.{Bytes}
use agh_operating_systems.TcpChat.Table.{
  Client, Server, Action, send, close, is_active, is_free, max_clients, find_client_by_name,
  remove_client, Connection, client_name, new_client, take_slot, accept_client, expired,
  ping_client, ping_action, ping_from, ping_clients, cleared,
}
use agh_operating_systems.TcpChat.Messages.{touch, Event, accepted, tested, received, ping_round}

-- How often `close` is called on descriptor `k`.
abbrev pub closes : ℕ → List Action → ℕ
closes k [] = 0
closes k (send fd text ∷ out) = closes k out
closes k (close fd ∷ out) = if fd == k then suc (closes k out) else closes k out

-- How often `accept` has returned descriptor `k`.
abbrev pub opens : ℕ → List Event → ℕ
opens k [] = 0
opens k (accepted c ∷ es) = if c.socket == k then suc (opens k es) else opens k es
opens k (_ ∷ es) = opens k es

abbrev pub holds : ℕ → Client → Bool
holds k c = c.active && (c.socket == k)

pub closes-append : (k : ℕ) (xs ys : List Action) → closes k (xs ++ ys) ≡ closes k xs + closes k ys
closes-append k [] ys = omega arith
closes-append k (send fd text ∷ xs) ys = closes-append k xs ys
closes-append k (close fd ∷ xs) ys = ground (arith, closes-append k xs ys)

pub opens-append : (k : ℕ) (xs ys : List Event) → opens k (xs ++ ys) ≡ opens k xs + opens k ys
opens-append k [] ys = omega arith
opens-append k (accepted c ∷ xs) ys = ground (arith, opens-append k xs ys)
opens-append k (tested i ∷ xs) ys = opens-append k xs ys
opens-append k (received i d ∷ xs) ys = opens-append k xs ys
opens-append k (ping_round now ∷ xs) ys = opens-append k xs ys

-- The table has its slots and counts them right.
pub record Counted (s : Server) : Type 0 where
  pub slots : length s.clients ≡ max_clients
  pub counted : s.client_count ≡ count is_active s.clients

-- `n` connections `k` come in: they and those held before are closed or held behind it.
pub record Books (k n : ℕ) (s t : Server) (out : List Action) : Type 0 where
  pub kept : Counted t
  pub balance : n + count (holds k) s.clients ≡ closes k out + count (holds k) t.clients

idle-Books :
    (k : ℕ) (s : Server) (out : List Action) → Counted s → closes k out ≡ 0 → Books k 0 s s out
idle-Books k s out v e = record { kept = v; balance = omega arith }

-- One slot is written.
write-Books :
    (k n : ℕ) (s : Server) (i m : ℕ) (c d : Client) (out : List Action)
    → Counted s
    → get_elem? s.clients i ≡ some c
    → m + weight is_active c ≡ s.client_count + weight is_active d
    → n + weight (holds k) c ≡ closes k out + weight (holds k) d
    → Books k n s (record { clients = set s.clients i d; client_count = m }) out
write-Books k n s i m c d out v g e b = record {
  kept = record {
    slots = length-set s.clients i d ∙ v.slots;
    counted = omega (arith, v.counted, count-set is_active s.clients i c d g);
  };
  balance = omega (arith, count-set (holds k) s.clients i c d g);
}

pub remove_client-Books :
    (k i : ℕ) (s : Server) → Counted s → Books k 0 s (remove_client i s).0 (remove_client i s).1
unfolding remove_client
remove_client-Books k i s v = elim (Option-cases (get_elem? s.clients i)) [
  | inl e ↦ rw (e, remove_client) (idle-Books k s [] v refl)
  | inr (c, e) ↦ elim (Bool-cases c.active) [
    | inl a ↦
        rw (e, remove_client, a)
          (write-Books k 0 s i (s.client_count - 1) c (cleared c) (close c.socket ∷ []) v e
            (ground (arith, v.counted, count-pos is_active s.clients i c)) (ground arith))
    | inr a ↦ rw (e, remove_client, a) (idle-Books k s [] v refl)
  ]
]

abbrev pub come : ℕ → Connection → ℕ
come k c = if c.socket == k then 1 else 0

take_slot-Books :
    (k : ℕ) (c : Connection) (name : Bytes) (s : Server)
    → Counted s
    → (o : Option ℕ) → find_index is_free s.clients ≡ o
    → let (more, t, out) = take_slot c name o s in Books k (come k c) s t out
unfolding take_slot
take_slot-Books k c name s v none e = record { kept = v; balance = ground arith }
take_slot-Books k c name s v (some i) e =
    let (d, g, free) = find_index-eq-some is_free s.clients i e in
    write-Books k (come k c) s i (s.client_count + 1) d (new_client c name) (send c.socket _ ∷ []) v
      g (ground arith) (ground arith)

pub accept_client-Books :
    (k : ℕ) (c : Connection) (s : Server)
    → Counted s
    → let (more, t, out) = accept_client c s in Books k (come k c) s t out
unfolding accept_client
accept_client-Books k c s v = elim (Option-cases c.received) [
  | inl e ↦ rw (e, accept_client) (record { kept = v; balance = ground arith })
  | inr (raw, e) ↦ elim (Option-cases (find_client_by_name (client_name raw) s)) [
    | inl f ↦
        rw (e, accept_client, f)
          (take_slot-Books k c (client_name raw) s v (find_index is_free s.clients) refl)
    | inr (j, f) ↦ rw (e, accept_client, f) (record { kept = v; balance = ground arith })
  ]
]

ping_from_lem :
    (k now : ℕ) (cs : List Client) (n : ℕ)
    → count is_active cs ≤ n
    → let (cs', m, out) = ping_from now cs n in
      (length cs' ≡ length cs)
      × (m + count is_active cs ≡ n + count is_active cs')
      × (count (holds k) cs ≡ closes k out + count (holds k) cs')
unfolding ping_from ping_client ping_action count
ping_from_lem k now [] n h = (refl, omega arith, refl)
ping_from_lem k now (c ∷ cs) n h =
    ground (arith, ping_from_lem k now cs (if expired now c then n - 1 else n))

pub ping_clients-Books :
    (k now : ℕ) (s : Server) → Counted s → Books k 0 s (ping_clients now s).0 (ping_clients now s).1
unfolding ping_clients
ping_clients-Books k now s v =
    let (a, b, c) = ping_from_lem k now s.clients s.client_count (omega (arith, v.counted)) in
    record {
      kept = record { slots = a ∙ v.slots; counted = omega (arith, v.counted, b) };
      balance = omega (arith, c);
    }

pub touch-Books : (k i now : ℕ) (s : Server) → Counted s → Books k 0 s (touch i now s) []
unfolding touch
touch-Books k i now s v = elim (Option-cases (get_elem? s.clients i)) [
  | inl e ↦ rw (e, touch) (idle-Books k s [] v refl)
  | inr (c, e) ↦
      rw (e, touch)
        (write-Books k 0 s i s.client_count c (record c { last_ping = now }) [] v e refl refl)
]
