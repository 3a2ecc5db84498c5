-- ===== src/Server/MainReactor.antt =====
-- The main reactor, which gives every client to a sub-reactor: include/rpc/server/reactor.cpp and peer.cpp.
pub mod Places
mod Tests
use muse_rpc.Common.{
  ℕ, ◌+◌, ◌%◌, ◌^◌, ◌<◌, ◌≡◌, Bool, true, false, not, ◌&&◌, List, [], ◌∷◌, Option, some, none, ltb,
  ◌==◌, if◌then◌else◌,
}
use muse_rpc.Memory.{ByteSequence, Memory}
use muse_rpc.Protocol.{new_protocol, parse}
use muse_rpc.Server.Servlet.{Servlet}

pub record Peer : Type 0 where
  pub client_port : ℕ
  pub client_ip_address : ℕ

-- `operator <`.
unfoldable pub peer_less : Peer → Peer → Bool
peer_less me other =
    if not (me.client_ip_address == other.client_ip_address)
    then ltb other.client_ip_address me.client_ip_address
    else ltb other.client_port me.client_port

-- `std::map` takes two keys to be the same if neither is less than the other.
unfoldable pub same_peer : Peer → Peer → Bool
unfolding peer_less
same_peer a b = not (peer_less a b) && not (peer_less b a)

pub record SocketConnection : Type 0 where
  pub socket : ℕ
  pub sub_reactor_index : ℕ

unfoldable pub find_peer : List (Peer × SocketConnection) → Peer → Option SocketConnection
find_peer [] peer = none
find_peer ((key, connection) ∷ rest) peer =
    let more = find_peer rest peer in if same_peer key peer then some connection else more

unfoldable pub erase_peer : List (Peer × SocketConnection) → Peer → List (Peer × SocketConnection)
erase_peer [] peer = []
erase_peer ((key, connection) ∷ rest) peer =
    let more = erase_peer rest peer in if same_peer key peer then more else (key, connection) ∷ more

-- `insert_or_assign`.
unfoldable pub assign_peer :
    List (Peer × SocketConnection) → Peer → SocketConnection → List (Peer × SocketConnection)
unfolding erase_peer
assign_peer entries peer connection = (peer, connection) ∷ erase_peer entries peer

pub data MainEffect : Type 0 where
  complain : Peer → MainEffect
  accept_new_data : (time_point : ℕ) → MainEffect
  accept_connection : (index socket : ℕ) → Peer → (new_connection : Bool) → MainEffect
  close_socket : ℕ → MainEffect

-- The latest effect is the first.
pub record MainReactor : Type 0 where
  pub counter : ℕ
  pub con_queue : List (Peer × SocketConnection)
  pub main_effects : List MainEffect

-- A datagram on the server's port, and what the system and the other parts do: whether a request that the server
-- itself has sent is waiting for it, the new socket, whether it is connected, and whether the sub-reactor runs.
pub record MainArrival : Type 0 where
  pub buffer : Memory
  pub received : ℕ
  pub peer : Peer
  pub is_active : Servlet → Bool
  pub new_socket : Option ℕ
  pub is_connected : Bool
  pub is_accepted : Bool

pub data MainEvent : Type 0 where
  arrives : MainArrival → MainEvent
  closes : Peer → MainEvent  -- the timer that `closeSocket` sets runs

abbrev pub noted : MainReactor → MainEffect → MainReactor
noted r effect = record r { main_effects = effect ∷ r.main_effects }

module _ (host : ByteSequence) (sub_reactor_count : ℕ) (has_transmitter : Bool) where
  abbrev pub new_main_reactor : MainReactor
  new_main_reactor = record { counter = 0; con_queue = []; main_effects = [] }

  -- A peer without a connection: the next sub-reactor has it, if there is a socket for it.
  unfoldable pub build_connection : MainReactor → MainArrival → Option ℕ → MainReactor
  unfolding assign_peer
  build_connection r a none = r
  build_connection r a (some fd) =
      let index = r.counter % sub_reactor_count in
      let r1 =
        noted (record r { counter = (r.counter + 1) % 2 ^ 32 })
          (accept_connection index fd a.peer true) in
      if not a.is_connected
      then r
      else if not a.is_accepted
      then noted r1 (close_socket fd)
      else record r1 {
        con_queue =
            assign_peer r1.con_queue a.peer (record { socket = fd; sub_reactor_index = index });
      }

  -- A datagram that is not an answer to the server's own requests.
  unfoldable pub dispatch : MainReactor → MainArrival → Option SocketConnection → MainReactor
  unfolding build_connection
  dispatch r a none = build_connection r a a.new_socket
  dispatch r a (some connection) =
      noted r (accept_connection connection.sub_reactor_index connection.socket a.peer false)

  -- The servlet of a datagram.
  abbrev pub servlet_of : ℕ → Peer → Servlet
  servlet_of time_point peer = record {
    request_id = time_point;
    client_port = peer.client_port;
    client_ip_address = peer.client_ip_address;
  }

  unfoldable pub receive : MainReactor → MainArrival → MainReactor
  unfolding dispatch find_peer
  receive r a =
      let (header, is_success) = parse host (new_protocol host) a.buffer a.received in
      if not is_success
      then noted r (complain a.peer)
      else if has_transmitter && a.is_active (servlet_of header.time_point a.peer)
      then noted r (accept_new_data header.time_point)
      else dispatch r a (find_peer r.con_queue a.peer)

  unfoldable pub handle : MainReactor → MainEvent → MainReactor
  unfolding receive erase_peer
  handle r (arrives a) = receive r a
  handle r (closes peer) = record r { con_queue = erase_peer r.con_queue peer }

  unfoldable pub handle_all : MainReactor → List MainEvent → MainReactor
  unfolding handle
  handle_all r [] = r
  handle_all r (event ∷ events) = handle_all (handle r event) events
