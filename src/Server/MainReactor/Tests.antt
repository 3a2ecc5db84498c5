-- ===== src/Server/MainReactor/Tests.antt =====
-- Two clients of a main reactor with two sub-reactors.
use muse_rpc.Common.{ℕ, ◌≡◌, refl, ◌==◌, true, false, [], ◌∷◌, some, if◌then◌else◌, arith}
use muse_rpc.Memory.{Memory, little_endian}
use muse_rpc.Protocol.{new_protocol, parse}
use muse_rpc.Server.MainReactor.{
  Peer, same_peer, find_peer, accept_connection, MainReactor, MainArrival, arrives, receive,
  handle_all, new_main_reactor,
}
use muse_rpc.Server.MainReactor.Places.{IsPlaced, peer_stays, hands_on_in_range}

abbrev first_client : Peer
first_client = record { client_port = 4000; client_ip_address = 100 }

abbrev second_client : Peer
second_client = record { client_port = 4001; client_ip_address = 100 }

-- A datagram of 26 bytes with the word of the protocol.
abbrev some_datagram : Memory
some_datagram i = if i == 0 then 240 else 0

abbrev from : Peer → ℕ → MainArrival
from peer fd = record {
  buffer = some_datagram;
  received = 26;
  peer = peer;
  is_active = λ servlet. false;
  new_socket = some fd;
  is_connected = true;
  is_accepted = true;
}

abbrev known : MainReactor
known = record {
  counter = 1;
  con_queue = (first_client, record { socket = 7; sub_reactor_index = 0 }) ∷ [];
  main_effects = [];
}

datagram_parses : (parse little_endian (new_protocol little_endian) some_datagram 26).1 ≡ true
unfolding parse
datagram_parses = refl

known_found :
    find_peer known.con_queue first_client ≡ some (record { socket = 7; sub_reactor_index = 0 })
unfolding find_peer same_peer
known_found = refl

peer_stays_example :
    let r' = handle_all little_endian 2 false known (arrives (from second_client 8) ∷ []) in
    (receive little_endian 2 false r' (from first_client 9)).main_effects
    ≡ accept_connection 0 7 first_client false ∷ r'.main_effects
peer_stays_example =
    peer_stays little_endian 2 false known (arrives (from second_client 8) ∷ [])
      (from first_client 9) (record { socket = 7; sub_reactor_index = 0 }) known_found (tt, tt)
      datagram_parses refl

hands_on_in_range_example : IsPlaced little_endian 2 false (
    handle_all little_endian 2 false
      (new_main_reactor little_endian 2 false)
      (arrives (from first_client 7) ∷ (arrives (from second_client 8) ∷ [])))
hands_on_in_range_example =
    hands_on_in_range little_endian 2 false (omega arith)
      (arrives (from first_client 7) ∷ (arrives (from second_client 8) ∷ []))
