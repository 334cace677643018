-- ===== src/UdpChat/Changes.antt =====
-- What a step of the server of cw12/assignment/server.c can do to the client table, and the
-- induction over its runs that follows.
use agh_operating_systems.Prelude.{
  ℕ, ◌≡◌, ◌⊎◌, refl, true, List, some, arith, inl, inr, drop, Bool-cases, Option-cases,
}
use agh_operating_systems.CString.{bytes, strncmp_eq}
use agh_operating_systems.UdpChat.Table.{
  Server, Sent, register_client, remove_client, ping_clients, find_client_by_addr,
}
use agh_operating_systems.UdpChat.Messages.{
  Datagram, Event, received, receive_failed, ping_round, handle_list, handle_register, touch,
  handle_command, handle_message, as_text, step,
}

-- `register_client` as `handle_message` calls it.
abbrev pub joined_by : Datagram → Server → Server
joined_by d s = (register_client (drop 9 d.buffer) d.from d.addr_len d.now s).1

pub data Change (e : Event) (s t : Server) : Type 0 where
  kept : t ≡ s → Change e s t
  joined :
      (d : Datagram)
      → e ≡ received d
      → strncmp_eq (as_text d).buffer (bytes "REGISTER ") 9 ≡ true
      → t ≡ joined_by (as_text d) s
      → Change e s t
  touched : (i now : ℕ) → t ≡ touch i now s → Change e s t
  parted : (i now : ℕ) → t ≡ remove_client i (touch i now s) → Change e s t
  swept : (now : ℕ) → t ≡ (ping_clients now s).0 → Change e s t

pub handle_command_state :
    (d : Datagram) (i : ℕ) (s t : Server) (out : List Sent)
    → handle_command d i s ≡ some (t, out)
    → (t ≡ s) ⊎ (t ≡ remove_client i s)
unfolding handle_command handle_list
handle_command_state d i s t out h = ground arith

handle_message_state :
    (d : Datagram) (s t : Server) (out : List Sent)
    → handle_message (as_text d) s ≡ some (t, out)
    → Change (received d) s t
unfolding handle_message handle_register
handle_message_state d s t out h =
    elim (Bool-cases (strncmp_eq (as_text d).buffer (bytes "REGISTER ") 9)) [
      | inl e ↦ joined d refl e (ground arith)
      | inr e ↦ elim (Option-cases (find_client_by_addr d.from s)) [
        | inl f ↦ kept (ground arith)
        | inr (i, f) ↦
            elim (handle_command_state (as_text d) i (touch i d.now s) t out (ground arith)) [
              | inl q ↦ touched i d.now q
              | inr q ↦ parted i d.now q
            ]
      ]
    ]

pub step-Change :
    (e : Event) (s t : Server) (out : List Sent) → step e s ≡ some (t, out) → Change e s t
unfolding step
step-Change (received d) s t out h = handle_message_state d s t out h
step-Change receive_failed s t out h = kept (ground arith)
step-Change (ping_round now) s t out h = swept now (ground arith)
