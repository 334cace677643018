-- ===== src/TcpChat/Tests.antt =====
-- Concrete runs of cw11/assignment.
use agh_operating_systems.Prelude.{
  false, ◌+◌, ◌≡◌, ◌⊎◌, refl, true, List, [], ◌∷◌, ◌++◌, none, some, get_elem?, count, arith,
  find_index,
}
use agh_operating_systems.CString.{bytes, until_nul, strcmp_eq}
use agh_operating_systems.TcpChat.Table.{
  Client, Server, Action, Connection, init, find_client_by_name, remove_client, take_slot,
  accept_client,
}
use agh_operating_systems.TcpChat.Messages.{
  Message, accepted, received, Reach, start, next, handle_client, step, end_round,
}
use agh_operating_systems.TcpChat.Descriptors.{opens, closes, holds}
use agh_operating_systems.TcpChat.Accounts.{Reach-balance}
use agh_operating_systems.TcpChat.Names.{DistinctNames}
use agh_operating_systems.TcpChat.Unique.{Reach-DistinctNames}
use agh_operating_systems.TcpChat.Delivery.{handle_command-private, Refused, Delivered}
use agh_operating_systems.TcpChat.Client.{until_newline}
use agh_operating_systems.TcpChat.Session.{is_quit}

abbrev ann : Connection
ann = record { socket = 4; received = some (bytes "ann"); now = 100 }

abbrev bob : Connection
bob = record { socket = 5; received = some (bytes "bob"); now = 101 }

abbrev one_client : Server
one_client = let (o, t, out) = accept_client ann init in t

abbrev two_clients : Server
two_clients = let (o, t, out) = accept_client bob one_client in t

abbrev first_calls : List Action
first_calls = let (o, t, out) = accept_client ann init in out

abbrev second_calls : List Action
second_calls = let (o, t, out) = accept_client bob one_client in out

one_reached : Reach one_client (accepted ann ∷ []) first_calls
unfolding step
one_reached = next (accepted ann) first_calls start refl

two_reached : Reach two_clients (accepted ann ∷ accepted bob ∷ []) (first_calls ++ second_calls)
unfolding step
two_reached = next (accepted bob) second_calls one_reached refl

-- The client in slot 0 hangs up: its descriptor is closed.
hung_up :
    Reach
      (remove_client 0 two_clients).0
      (accepted ann ∷ accepted bob ∷ received 0 none ∷ [])
      ((first_calls ++ second_calls) ++ (remove_client 0 two_clients).1)
unfolding step handle_client end_round
hung_up = next (received 0 none) (remove_client 0 two_clients).1 two_reached refl

Reach-balance_example :
    opens 4 (accepted ann ∷ accepted bob ∷ received 0 none ∷ [])
    ≡ closes 4 ((first_calls ++ second_calls) ++ (remove_client 0 two_clients).1)
      + count (holds 4) (remove_client 0 two_clients).0.clients
Reach-balance_example = Reach-balance 4 hung_up

Reach-DistinctNames_example : DistinctNames two_clients
Reach-DistinctNames_example = Reach-DistinctNames two_reached

abbrev greeting : Message
greeting = record { buffer = bytes "2ALL hello"; now = 110; stamp = bytes "10:00:00" }

abbrev whisper : Message
whisper = record { buffer = bytes "2ONE bob psst"; now = 110; stamp = bytes "10:00:00" }

abbrev ann_client : Client
ann_client = record { socket = 4; name = bytes "ann"; active = true; last_ping = 100 }

ann_there : get_elem? two_clients.clients 0 ≡ some ann_client
unfolding accept_client take_slot init find_client_by_name until_nul strcmp_eq find_index
ann_there = refl

handle_command-private_example :
    Refused whisper 0 ann_client two_clients (bytes "bob") (bytes "psst")
    ⊎ Delivered whisper 0 ann_client two_clients (bytes "bob") (bytes "psst")
handle_command-private_example =
    handle_command-private whisper 0 ann_client two_clients (bytes "bob") (bytes "psst") refl
      (omega arith) ann_there

list_is_no_quit : is_quit (bytes "LIST") ≡ false
unfolding strcmp_eq until_newline
list_is_no_quit = refl
