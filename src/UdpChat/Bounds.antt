-- ===== src/UdpChat/Bounds.antt =====
-- The size of what cw12/assignment/server.c writes into its 1024 bytes of `response`, and sends.
use agh_operating_systems.Prelude.{
  ℕ, ◌+◌, ◌-◌, ◌*◌, ◌≤◌, ◌≡◌, ◌≢◌, ◌⊎◌, if_rule, refl, false, List, [], ◌∷◌, ◌++◌, Option, none,
  some, if◌then◌else◌, get_elem?, drop, length, arith, inl, inr, subst, length-append, length-take,
  Option-cases, Bool-cases, count, All, All-append, ltb, ltb→lt, le→ltb_false,
}
use agh_operating_systems.CString.{Bytes, bytes, strncmp_eq, strchr, snprintf}
use agh_operating_systems.UdpChat.Table.{
  Client, Server, Sent, Registration, registered_at, name_taken, server_full, is_active,
  find_client_by_addr, find_client_by_name, max_name_len, ping_from, ping_clients, expired,
}
use agh_operating_systems.UdpChat.Messages.{
  Datagram, Event, received, receive_failed, ping_round, touch, broadcast_from, broadcast_message,
  handle_command, handle_message, handle_list, handle_register, name_at, send_to_client,
  handle_private, send_private, public_text, private_text, buffer_size, client_info, client_lines,
  list_text, list_response, step, as_text, registration_reply,
}
use agh_operating_systems.UdpChat.WellFormed.{WellFormed, IsSound, touch-WellFormed}
use agh_operating_systems.UdpChat.Lookup.{found_by_addr, client_count-touch}

-- "- ", at most 31 bytes, and a line feed.
length-client_info : (c : Client) → length c.name ≤ 31 → length (client_info c) ≡ length c.name + 3
length-client_info c h =
    omega (arith, length-take 61 (c.name ++ 10 ∷ []), length-append c.name (10 ∷ []))

length-client_lines-le :
    (cs : List Client) → All IsSound cs → length (client_lines cs) ≤ 34 * count is_active cs
unfolding client_lines count
length-client_lines-le [] a = omega arith
length-client_lines-le (c ∷ cs) a = ground (
  arith,
  length-client_lines-le cs a.1,
  length-append (client_info c) (client_lines cs),
  length-client_info c a.0.1,
)

length-list_text-le : (s : Server) → WellFormed s → length (list_text s) ≤ 17 + 34 * s.client_count
unfolding list_text
length-list_text-le s w = omega (arith, length-client_lines-le s.clients w.sound, w.counted)

list_response-none : (s : Server) → list_response s ≡ none → buffer_size ≤ length (list_text s)
unfolding list_response
list_response-none s h = ground arith

handle_command-none :
    (d : Datagram) (i : ℕ) (s : Server) → handle_command d i s ≡ none → list_response s ≡ none
unfolding handle_command handle_list
handle_command-none d i s h = ground arith

handle_message-none :
    (d : Datagram) (s : Server) → WellFormed s → handle_message d s ≡ none → 30 ≤ s.client_count
unfolding handle_message
handle_message-none d s w h = elim (Bool-cases (strncmp_eq d.buffer (bytes "REGISTER ") 9)) [
  | inl r ↦ absurd (ground arith)
  | inr r ↦ elim (Option-cases (find_client_by_addr d.from s)) [
    | inl f ↦ absurd (ground arith)
    | inr (i, f) ↦
        let t = touch i d.now s in
        let (c, g, _, _) = found_by_addr d.from s i f in
        omega (
          arith,
          list_response-none t (handle_command-none d i t (ground arith)),
          length-list_text-le t (touch-WellFormed i d.now s w),
          client_count-touch i d.now s c g,
        )
  ]
]

-- Whatever happens, in a well-formed table with at most 29 clients the server does not write behind
-- the end of `response`.
pub step-ne-none : (e : Event) (s : Server) → WellFormed s → s.client_count ≤ 29 → step e s ≢ none
unfolding step
step-ne-none (received d) s w few h = omega (arith, handle_message-none (as_text d) s w h)
step-ne-none receive_failed s w few h = cc
step-ne-none (ping_round now) s w few h = cc

-- Every active client has a name of 31 bytes.
abbrev pub IsLong : Client → Type 0
IsLong c = (c.active ≡ false) ⊎ (length c.name ≡ max_name_len - 1)

length-client_lines_long :
    (cs : List Client) → All IsLong cs → length (client_lines cs) ≡ 34 * count is_active cs
unfolding client_lines count
length-client_lines_long [] a = refl
length-client_lines_long (c ∷ cs) a = elim a.0 [
  | inl q ↦ ground (arith, length-client_lines_long cs a.1)
  | inr q ↦ ground (
    arith,
    length-client_lines_long cs a.1,
    length-append (client_info c) (client_lines cs),
    length-client_info c (omega arith),
  )
]

-- With 30 or more clients whose names have 31 bytes, LIST writes behind the end of `response`.
pub list_response_overflows :
    (s : Server)
    → WellFormed s
    → All IsLong s.clients
    → 30 ≤ s.client_count
    → list_response s ≡ none
unfolding list_response list_text
list_response_overflows s w long many = rw (
    le→ltb_false (length (list_text s)) buffer_size
      (omega (arith, length-client_lines_long s.clients long, w.counted)))

-- At most 1023 bytes.
abbrev pub Fits : Sent → Type 0
Fits m = length m.text ≤ buffer_size - 1

Fits-broadcast :
    (text : Bytes) (k i : ℕ) (cs : List Client)
    → length text ≤ buffer_size - 1
    → All Fits (broadcast_from text k i cs)
unfolding broadcast_from
Fits-broadcast text k i [] h = tt
Fits-broadcast text k i (c ∷ cs) h = ground (arith, Fits-broadcast text k (i + 1) cs h)

Fits-ping : (now : ℕ) (cs : List Client) (n : ℕ) → All Fits (ping_from now cs n).2
unfolding ping_from
Fits-ping now [] n = tt
Fits-ping now (c ∷ cs) n = ground (arith, Fits-ping now cs (if expired now c then n - 1 else n))

abbrev FitsAll : Option (Server × List Sent) → Type 0
FitsAll none = Unit
FitsAll (some (t, out)) = All Fits out

Fits-snprintf : (text : Bytes) → length (snprintf buffer_size text) ≤ buffer_size - 1
Fits-snprintf text = omega (arith, length-take 1023 text)

Fits-send_to_client :
    (text : Bytes) (i : ℕ) (s : Server)
    → length text ≤ buffer_size - 1
    → All Fits (send_to_client text i s)
unfolding send_to_client
Fits-send_to_client text i s h = elim (Option-cases (get_elem? s.clients i)) [
  | inl e ↦ rw (e, send_to_client) tt
  | inr (c, e) ↦ rw (e, send_to_client) (if_rule (All Fits) c.active _ _ (h, tt) tt)
]

Fits-send_private :
    (d : Datagram) (i : ℕ) (target text : Bytes) (s : Server)
    → All Fits (send_private d i target text s)
unfolding send_private private_text
Fits-send_private d i target text s = elim (Option-cases (find_client_by_name target s)) [
  | inl e ↦
      rw (e, send_private)
        (Fits-snprintf (bytes "Klient " ++ target ++ bytes " nie zostal znaleziony"), tt)
  | inr (j, e) ↦
      rw (e, send_private)
        (All-append Fits (send_to_client (private_text d.stamp (name_at i s) text) j s) _
          (Fits-send_to_client _ j s (
            Fits-snprintf (
              bytes "[" ++ d.stamp ++ bytes "] " ++ name_at i s ++ bytes " (prywatnie): " ++ text)))
          (Fits-snprintf (bytes "Wiadomosc wyslana do " ++ target), tt))
]

Fits-handle_private : (d : Datagram) (i : ℕ) (s : Server) → All Fits (handle_private d i s)
unfolding handle_private
Fits-handle_private d i s = elim (Option-cases (strchr (drop 5 d.buffer) b' ')) [
  | inl e ↦ rw (e, handle_private) tt
  | inr ((target, text), e) ↦ rw (e, handle_private) (Fits-send_private d i target text s)
]

Fits-handle_list : (d : Datagram) (s : Server) → FitsAll (handle_list d s)
unfolding handle_list list_response
Fits-handle_list d s = elim (Bool-cases (ltb (length (list_text s)) buffer_size)) [
  | inl e ↦
      rw (handle_list, list_response, e)
        (omega (arith, ltb→lt (length (list_text s)) buffer_size e), tt)
  | inr e ↦ rw (handle_list, list_response, e) tt
]

Fits-handle_command : (d : Datagram) (i : ℕ) (s : Server) → FitsAll (handle_command d i s)
unfolding handle_command public_text broadcast_message
Fits-handle_command d i s =
    let text = bytes "[" ++ d.stamp ++ bytes "] " ++ name_at i s ++ bytes ": " ++ drop 5 d.buffer in
    if_rule FitsAll (strncmp_eq d.buffer (bytes "LIST") 4) _ _ (Fits-handle_list d s) (
      if_rule FitsAll (strncmp_eq d.buffer (bytes "2ALL ") 5) _ _
        (Fits-broadcast (snprintf buffer_size text) i 0 s.clients (Fits-snprintf text))
        (if_rule FitsAll (strncmp_eq d.buffer (bytes "2ONE ") 5) _ _ (Fits-handle_private d i s) (
          if_rule FitsAll (strncmp_eq d.buffer (bytes "QUIT") 4) _ _ (omega arith, tt)
            (if_rule FitsAll (strncmp_eq d.buffer (bytes "PING") 4) _ _ (omega arith, tt) tt))))

Fits-registration_reply : (r : Registration) → length (registration_reply r) ≤ buffer_size - 1
Fits-registration_reply (registered_at i) = omega arith
Fits-registration_reply name_taken = omega arith
Fits-registration_reply server_full = omega arith

Fits-handle_message : (d : Datagram) (s : Server) → FitsAll (handle_message d s)
unfolding handle_message handle_register
Fits-handle_message d s =
    if_rule FitsAll (strncmp_eq d.buffer (bytes "REGISTER ") 9) _ _ (Fits-registration_reply _, tt)
      (elim (Option-cases (find_client_by_addr d.from s)) [
        | inl e ↦ rw e (omega arith, tt)
        | inr (i, e) ↦ rw e (Fits-handle_command d i (touch i d.now s))
      ])

Fits-step : (e : Event) (s : Server) → FitsAll (step e s)
unfolding step ping_clients
Fits-step (received d) s = Fits-handle_message (as_text d) s
Fits-step receive_failed s = tt
Fits-step (ping_round now) s = Fits-ping now s.clients s.client_count

-- Whatever happens in whatever state, each datagram that the server sends has at most 1023 bytes.
pub step-Fits :
    (e : Event) (s t : Server) (out : List Sent) → step e s ≡ some (t, out) → All Fits out
step-Fits e s t out h = subst FitsAll h (Fits-step e s)
