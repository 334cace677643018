-- ===== src/UdpChat/Tests.antt =====
-- Runs of the chat of cw12/assignment on small inputs.
use agh_operating_systems.Prelude.{
  ◌⊎◌, ℕ, zero, suc, ◌+◌, ◌≡◌, ◌≢◌, refl, true, false, List, [], ◌∷◌, ◌++◌, none, some, get_elem?,
  replicate, length, map, arith, All, All-replicate, All-append, get_elem?-replicate, ap, sym, ◌∙◌,
  count, inl, inr, find_index,
}
use mathlib.Core.Bool.{false≢true}
use agh_operating_systems.CString.{Bytes, bytes, strncmp_eq, strcmp_eq, until_nul}
use agh_operating_systems.UdpChat.Table.{
  Addr, Client, Server, Sent, init, empty_slot, new_client, register_client, ping_clients,
  find_client_by_addr, find_client_by_name, same_addr, occupy, ping_from, ping_client, cleared,
  remove_client,
}
use agh_operating_systems.UdpChat.Messages.{
  Datagram, received, ping_round, handle_message, handle_register, handle_command, step, start,
  next, touch, public_text,
}
use agh_operating_systems.UdpChat.WellFormed.{IsSound, WellFormed, Reach-WellFormed}
use agh_operating_systems.UdpChat.Registration.{Registers, register_client_lem}
use agh_operating_systems.UdpChat.Names.{Distinct, name_fits, Reach-Distinct}
use agh_operating_systems.UdpChat.Ping.{Pinged, alive_calls, ping_clients_lem}
use agh_operating_systems.UdpChat.Delivery.{
  others, message_for, public_message_lem, Refused, Delivered, private_message_lem,
}
use agh_operating_systems.UdpChat.Bounds.{IsLong, step-ne-none}
use agh_operating_systems.UdpChat.Survival.{OnlyAt}
use agh_operating_systems.UdpChat.Client.{
  ClientState, from_server, receive_one, send, print, until_newline,
}
use agh_operating_systems.UdpChat.ClientLoops.{is_quit}
use agh_operating_systems.UdpChat.KeepAlive.{Later, at_once, after}
use agh_operating_systems.UdpChat.Handshake.{keep_alive_lem}

abbrev addr_a : Addr
addr_a = record { ip = 10; port = 4000 }

abbrev addr_b : Addr
addr_b = record { ip = 11; port = 4001 }

abbrev ala : Client
ala = new_client (bytes "ala") addr_a 16 100

abbrev olek : Client
olek = new_client (bytes "olek") addr_b 16 110

-- ala and olek are registered.
abbrev two : Server
two = record { clients = ala ∷ olek ∷ replicate 48 empty_slot; client_count = 2 }

abbrev packet : Addr → ℕ → Bytes → Datagram
packet from now buffer = record {
  from = from;
  addr_len = 16;
  buffer = buffer;
  now = now;
  stamp = bytes "12:00:00";
}

abbrev one : Server
one = record { clients = ala ∷ replicate 49 empty_slot; client_count = 1 }

abbrev welcome : List Sent
welcome = record { to = addr_a; text = bytes "OK: Zarejestrowano pomyslnie" } ∷ []

register_step :
    step (received (packet addr_a 100 (bytes "REGISTER ala"))) init ≡ some (one, welcome)
unfolding step handle_message handle_register register_client find_client_by_name find_index occupy
    init strncmp_eq strcmp_eq until_nul
register_step = refl

two-WellFormed : WellFormed two
unfolding count
two-WellFormed = record {
  slots = refl;
  counted = refl;
  sound = (
    (refl, omega arith),
    ((refl, omega arith), All-replicate IsSound 48 empty_slot (refl, omega arith)),
  );
}

Reach-WellFormed_example : WellFormed one
Reach-WellFormed_example =
    Reach-WellFormed {P = λ _. Unit {0}}
      (next (received (packet addr_a 100 (bytes "REGISTER ala"))) welcome tt start register_step)

fits_step : name_fits (received (packet addr_a 100 (bytes "REGISTER ala"))) ≡ true
unfolding name_fits strncmp_eq until_nul
fits_step = refl

Reach-Distinct_example : Distinct one
Reach-Distinct_example = Reach-Distinct (
    next (received (packet addr_a 100 (bytes "REGISTER ala"))) welcome fits_step start
      register_step)

register_client_lem_example :
    let (r, t) = register_client (bytes "ewa") addr_a 16 120 two in
    Registers (new_client (bytes "ewa") addr_a 16 120) (bytes "ewa") two r t
register_client_lem_example = register_client_lem (bytes "ewa") addr_a 16 120 two two-WellFormed

abbrev long_name : Bytes
long_name = replicate 40 b'x'

-- At time 165 ala has been silent for 65 seconds and olek for 55.
ping_clients_lem_example :
    let (t, out) = ping_clients 165 two in
    ((i : ℕ) (c : Client)
      → get_elem? two.clients i ≡ some c
      → (c' : Client) × (get_elem? t.clients i ≡ some c') × Pinged 165 c c')
    × (out ≡ alive_calls t.clients)
ping_clients_lem_example = ping_clients_lem 165 two

ala_dropped : (ping_clients 165 two).1 ≡ record { to = addr_b; text = bytes "ALIVE" } ∷ []
unfolding ping_clients ping_from ping_client
ala_dropped = refl

ala_found : find_client_by_addr addr_a two ≡ some 0
unfolding find_client_by_addr find_index same_addr
ala_found = refl

public_message_lem_example :
    let t = touch 0 120 two in
    let out =
      map
        (message_for (public_text (bytes "12:00:00") (bytes "ala") (bytes "hej")))
        (others 0 t.clients) in
    (handle_message (packet addr_a 120 (bytes "2ALL hej")) two ≡ some (t, out))
    × (length out + 1 ≡ 2)
public_message_lem_example =
    public_message_lem (packet addr_a 120 (bytes "2ALL hej")) (bytes "hej") two 0 ala refl
      two-WellFormed ala_found refl

abbrev whisper : Datagram
whisper = packet addr_a 120 (bytes "2ONE olek hej")

private_message_lem_example :
    (out : List Sent) × (handle_message (packet addr_a 120 (bytes "2ONE olek hej")) two
      ≡ some (touch 0 120 two, out))
    × (Refused whisper (bytes "olek") (bytes "hej") two 0 ala out
        ⊎ Delivered whisper (bytes "olek") (bytes "hej") two 0 ala out)
private_message_lem_example =
    private_message_lem (packet addr_a 120 (bytes "2ONE olek hej")) (bytes "olek") (bytes "hej") two
      0 ala refl (omega arith) ala_found refl

step-ne-none_example : step (received (packet addr_a 120 (bytes "LIST"))) two ≢ none
step-ne-none_example =
    step-ne-none (received (packet addr_a 120 (bytes "LIST"))) two two-WellFormed (omega arith)

abbrev crowd : Server
crowd = record {
  clients = replicate 30 (new_client long_name addr_a 16 1) ++ replicate 20 empty_slot;
  client_count = 30;
}

crowd-IsSound : All IsSound crowd.clients
crowd-IsSound =
    All-append IsSound (replicate 30 (new_client long_name addr_a 16 1)) (replicate 20 empty_slot)
      (All-replicate IsSound 30 (new_client long_name addr_a 16 1) (refl, omega arith))
      (All-replicate IsSound 20 empty_slot (refl, omega arith))

crowd-IsLong : All IsLong crowd.clients
crowd-IsLong =
    All-append IsLong (replicate 30 (new_client long_name addr_a 16 1)) (replicate 20 empty_slot)
      (All-replicate IsLong 30 (new_client long_name addr_a 16 1) (inr refl))
      (All-replicate IsLong 20 empty_slot (inl refl))

crowd-WellFormed : WellFormed crowd
unfolding count
crowd-WellFormed = record { slots = refl; counted = refl; sound = crowd-IsSound }

ping_step :
    handle_message (packet addr_a 150 (bytes "PING")) two
    ≡ some (touch 0 150 two, record { to = addr_a; text = bytes "PONG" } ∷ [])
unfolding handle_message handle_command find_client_by_addr find_index same_addr strncmp_eq
ping_step = refl

ping_is_no_register : strncmp_eq (bytes "PING") (bytes "REGISTER ") 9 ≡ false
unfolding strncmp_eq
ping_is_no_register = refl

ping_is_no_quit : strncmp_eq (bytes "PING") (bytes "QUIT") 4 ≡ false
unfolding strncmp_eq
ping_is_no_quit = refl

two-OnlyAt : OnlyAt addr_a 0 two
two-OnlyAt zero o g a e = refl
two-OnlyAt (suc zero) o g a e = absurd (ground arith)
two-OnlyAt (suc (suc j)) o g a e =
    absurd (false≢true (sym (ap (λ x. x.active) (get_elem?-replicate 48 empty_slot j o g)) ∙ a))

abbrev idle_client : ClientState
idle_client = record { running = true; sent = []; printed = [] }

-- Behind the PING of ala: a round after 20 seconds, the QUIT of olek, a round after 60 seconds.
abbrev ala_later : Client
ala_later = record ala { last_ping = 150 }

abbrev after_round : Server
after_round = record { clients = ala_later ∷ olek ∷ replicate 48 empty_slot; client_count = 2 }

abbrev a_minute_later : Server
a_minute_later = record {
  clients = ala_later ∷ cleared (record olek { last_ping = 180 }) ∷ replicate 48 empty_slot;
  client_count = 1;
}

abbrev alive_to : Addr → Sent
alive_to a = record { to = a; text = bytes "ALIVE" }

first_round :
    step (ping_round 170) (touch 0 150 two)
    ≡ some (after_round, alive_to addr_a ∷ alive_to addr_b ∷ [])
unfolding step touch ping_clients ping_from ping_client
first_round = refl

olek_quits :
    step (received (packet addr_b 180 (bytes "QUIT"))) after_round
    ≡ some (a_minute_later, record { to = addr_b; text = bytes "OK: Do widzenia" } ∷ [])
unfolding step handle_message handle_command find_client_by_addr find_index same_addr strncmp_eq
    until_nul touch remove_client
olek_quits = refl

last_round : step (ping_round 210) a_minute_later ≡ some (a_minute_later, alive_to addr_a ∷ [])
unfolding step ping_clients ping_from ping_client
last_round = refl

to_a_minute_later : Later addr_a 150 (touch 0 150 two) a_minute_later
to_a_minute_later =
    after (ping_round 210)
      (after (received (packet addr_b 180 (bytes "QUIT")))
        (after (ping_round 170) at_once (omega arith) first_round)
        (λ e. absurd (ground (arith, ap (λ x. x.ip) e))) olek_quits)
      (omega arith) last_round

keep_alive_lem_example :
    let d : Datagram = packet addr_a 150 (bytes "PING") in
    let pong : Bytes = bytes "PONG" in
    (receive_one (bytes "ALIVE") idle_client ≡ send (bytes "PING") idle_client)
    × (step (received d) two ≡ some (touch 0 150 two, record { to = addr_a; text = pong } ∷ []))
    × (receive_one pong idle_client ≡ print (from_server pong) idle_client)
    × (get_elem? a_minute_later.clients 0 ≡ some ala_later)
    × (ala.active ≡ true)
keep_alive_lem_example =
    keep_alive_lem addr_a 16 150 (bytes "12:00:00") two 0 ala idle_client a_minute_later ala_found
      refl to_a_minute_later

list_is_no_quit : is_quit (bytes "LIST") ≡ false
unfolding strcmp_eq until_newline
list_is_no_quit = refl
