-- ===== src/Server/Reactor.antt =====
-- `SubReactor` of include/rpc/server/sub_reactor.hpp and sub_reactor.cpp: its state, the datagrams that
-- reach a virtual connection, and its timers. A connection is named by its index in `connections`.
-- System calls and the thread pool are recorded as effects.
pub mod Accept
pub mod Freed
pub mod Full
pub mod Known
pub mod Questions
pub mod Responses
pub mod Slots
pub mod Timers
mod Tests
use muse_rpc.Common.{
  ℕ, zero, suc, ◌+◌, ◌-◌, ◌*◌, ◌%◌, ◌^◌, ◌==◌, ltb, leb, if◌then◌else◌, Bool, true, false, ◌&&◌,
  ◌||◌, not, List, [], ◌∷◌, ◌++◌, Option, some, none, length, get_elem?, set, Outcome, ok, thrown,
  undefined, ◌>>=◌,
}
use muse_rpc.Memory.{Memory, ByteSequence, memcpy}
use muse_rpc.Protocol.Header.{
  ProtocolHeader, CommunicationPhase, request, response, ProtocolType, request_send, receiver_ack,
  request_ack, timed_out_request_heartbeat, timed_out_response_heartbeat, hear_beat,
  unsupported_network_protocol, state_reset, the_server_resources_exhausted,
}
use muse_rpc.Protocol.{
  new_protocol, parse, protocol_header_size, default_piece_limit_size, piece_count_of,
}
use muse_rpc.Timer.Tree.{TimerTree, set_timeout}
use muse_rpc.Packets.{send_ack, send_reset, send_heartbeat, send_exhausted, response_piece}
use muse_rpc.Server.PieceState.{get_ack_number}
use muse_rpc.Server.Servlet.{Servlet, find, modify, emplace, erase}
use muse_rpc.Server.Request.{Request, receive_known, receive_first, trigger}
use muse_rpc.Server.Response.{Response, new_response, set_ack_accept, set_new_ack_state}

abbrev pub connection_time_out : ℕ
connection_time_out = 120000

abbrev pub request_time_out : ℕ
request_time_out = 10000

abbrev pub response_time_out : ℕ
response_time_out = 15000

pub record Address : Type 0 where
  pub port : ℕ
  pub ip : ℕ

-- A free slot has the socket -1, here `none`.
pub record VirtualConnection : Type 0 where
  pub socket_fd : Option ℕ
  pub last_active : ℕ
  pub addr : Address
  pub responses : List (ℕ × Response)
  pub messages : List ℕ

pub data Effect : Type 0 where
  send : Option ℕ → Memory → ℕ → Effect
  wrong_protocol : Option ℕ → Effect
  close_socket : Option ℕ → Address → Effect
  close_fd : ℕ → Effect
  wake_up : Effect
  add_to_epoll : ℕ → ℕ → Effect
  commit : ℕ → Memory → Servlet → ℕ → Effect

-- The callbacks of the reactor's timer tree.
pub data TimerEvent : Type 0 where
  check_delete_socket : ℕ → TimerEvent
  judge_delete : Servlet → TimerEvent
  judge_response : ℕ → ℕ → TimerEvent
  response_ready : Memory → ℕ → Servlet → ℕ → TimerEvent

pub record NewConnection : Type 0 where
  pub fd : ℕ
  pub recv_length : ℕ
  pub addr : Address
  pub content : Memory
  pub is_new : Bool

pub record SubReactor : Type 0 where
  pub open_max_connection : ℕ
  pub run_state : Bool
  pub new_connections : List NewConnection
  pub messages : List (Servlet × Request)
  pub connections : List VirtualConnection
  pub last_empty_place : ℕ
  pub active_connections_count : ℕ
  pub tree_timer : TimerTree TimerEvent
  pub effects : List Effect

-- What a call finds outside: the machine, the bytes of fresh buffers, the clock, whether the thread
-- pool takes a task and `epoll_ctl` a socket, the bytes of a block that was freed and a number that
-- was never set.
pub record Environment : Type 0 where
  pub host : ByteSequence
  pub raw : Memory
  pub allocated : Memory
  pub now : ℕ
  pub pool_accepts : Bool
  pub epoll_accepts : Bool
  pub freed : Memory
  pub uninitialised : ℕ

unfoldable pub emit : SubReactor → Effect → SubReactor
emit r x = record r { effects = r.effects ++ (x ∷ []) }

unfoldable pub set_timer : Environment → SubReactor → ℕ → TimerEvent → SubReactor
unfolding set_timeout
set_timer e r milliseconds event = record r {
  tree_timer = (set_timeout r.tree_timer e.now milliseconds event).0;
}

-- `std::unordered_map<uint64_t, Response>`.
unfoldable pub find_response : ℕ → List (ℕ × Response) → Option Response
find_response id [] = none
find_response id ((k, v) ∷ rest) = if k == id then some v else find_response id rest

unfoldable pub put_response : ℕ → Response → List (ℕ × Response) → List (ℕ × Response)
put_response id v [] = (id, v) ∷ []
put_response id v ((k, w) ∷ rest) =
    if k == id then (k, v) ∷ rest else (k, w) ∷ put_response id v rest

unfoldable pub erase_response : ℕ → List (ℕ × Response) → List (ℕ × Response)
erase_response id [] = []
erase_response id ((k, w) ∷ rest) =
    if k == id then erase_response id rest else (k, w) ∷ erase_response id rest

unfoldable pub has_message : ℕ → List ℕ → Bool
has_message id [] = false
has_message id (k ∷ rest) = if k == id then true else has_message id rest

-- `std::list::remove`.
unfoldable pub remove_message : ℕ → List ℕ → List ℕ
remove_message id [] = []
remove_message id (k ∷ rest) =
    if k == id then remove_message id rest else k ∷ remove_message id rest

unfoldable pub set_connection : SubReactor → ℕ → VirtualConnection → SubReactor
set_connection r slot vc = record r { connections = set r.connections slot vc }

module _ (e : Environment) where
  -- At most one piece is sent: the next one that the client has not acknowledged.
  unfoldable pub send_response_data_to_client : SubReactor → VirtualConnection → ℕ → SubReactor
  unfolding find_response emit
  send_response_data_to_client r vc message_id = elim (find_response message_id vc.responses) [
    | none ↦ r
    | some res ↦
        if res.ack_accept == res.piece_count
        then r
        else if ltb res.ack_accept ((res.ack_accept + 1) % 2 ^ 16)
            && ltb res.ack_accept res.piece_count
        then (let size =
              (if res.ack_accept + 1 == res.piece_count
                then res.last_piece_size
                else default_piece_limit_size) in
            emit r (
              send vc.socket_fd
                (response_piece e.host e.raw res.servlet.request_id res.content res.total_data_size
                  res.ack_accept size)
                (protocol_header_size + size)))
        else r
  ]

  -- A complete request goes to the thread pool; if the pool is full, the client hears of it.
  unfoldable pub commit_request :
      SubReactor → ℕ → VirtualConnection → ℕ → Memory → Servlet → SubReactor
  unfolding emit
  commit_request r slot vc data_size content servlet =
      if e.pool_accepts
      then emit r (commit data_size content servlet slot)
      else emit r (send vc.socket_fd (send_exhausted e.host e.raw) protocol_header_size)

  -- After a data piece of either kind: acknowledge, and hand over a request that is complete.
  unfoldable pub after_piece :
      SubReactor → ℕ → VirtualConnection → Servlet → ProtocolHeader → Request → ℕ → SubReactor
  unfolding emit commit_request set_connection
  after_piece r slot vc base header req ack =
      let r1 =
        emit r
          (send vc.socket_fd (send_ack e.host e.raw ack header.time_point) protocol_header_size) in
      if ack == header.total_count
      then (let vc' = record vc { messages = vc.messages ++ (header.time_point ∷ []) } in
          let r2 = set_connection r1 slot vc' in
          if req.is_trigger
          then r2
          else (let req' = trigger req in
              let r3 = record r2 { messages = modify r2.messages base req' } in
              commit_request r3 slot vc' req'.total_data_size req'.content base))
      else r1

  -- `found` is the kept request, its activity already noted.
  unfoldable pub handle_request_send :
      SubReactor
      → ℕ
      → VirtualConnection
      → Servlet
      → Option Request
      → ProtocolHeader
      → Memory
      → ℕ
      → Outcome SubReactor
  unfolding set_timer after_piece
  handle_request_send r slot vc base found header buf fd = elim found [
    | some req ↦ receive_known req header buf >>= λ t. ok (
        after_piece (record r { messages = modify r.messages base t.0 }) slot vc base header t.0
          t.1)
    | none ↦
        receive_first base.client_port base.client_ip_address fd e.now header e.allocated buf
        >>= λ t. ok (
            after_piece
              (set_timer e (record r { messages = emplace r.messages base t.0 }) request_time_out
                (judge_delete base))
              slot vc base header t.0 t.1)
  ]

  reply : SubReactor → VirtualConnection → Memory → SubReactor
  unfolding emit
  reply r vc m = emit r (send vc.socket_fd m protocol_header_size)

  unfoldable pub handle_request_phase :
      SubReactor
      → ℕ
      → VirtualConnection
      → Servlet
      → Option Request
      → ProtocolHeader
      → Memory
      → ℕ
      → Outcome SubReactor
  unfolding reply handle_request_send
  handle_request_phase r slot vc base found header buf fd = elim header.type [
    | request_send ↦ handle_request_send r slot vc base found header buf fd
    | request_ack ↦ ok (elim found [
      | some req ↦
          reply r vc (send_ack e.host e.raw (get_ack_number req.piece_state) header.time_point)
      | none ↦ reply r vc (send_reset e.host e.raw header.time_point header.phase)
    ])
    | timed_out_request_heartbeat ↦ ok (elim found [
      | some req ↦ reply r vc (send_heartbeat e.host e.raw header.time_point header.phase)
      | none ↦ reply r vc (send_reset e.host e.raw header.time_point header.phase)
    ])
    | _ ↦ ok (reply r vc (send_reset e.host e.raw header.time_point header.phase))
  ]

  unfoldable pub handle_response_phase :
      SubReactor → ℕ → VirtualConnection → ProtocolHeader → SubReactor
  unfolding reply has_message find_response put_response set_connection send_response_data_to_client
  handle_response_phase r slot vc header =
      if has_message header.time_point vc.messages
      then (elim (find_response header.time_point vc.responses) [
        | none ↦ reply r vc (send_heartbeat e.host e.raw header.time_point response)
        | some res0 ↦
            let res = record res0 { last_active = e.now } in
            elim header.type [
              | receiver_ack ↦
                  let res' = set_ack_accept (set_new_ack_state res true) header.accept_order in
                  let vc' = record vc {
                    responses = put_response header.time_point res' vc.responses;
                  } in
                  let r' = set_connection r slot vc' in
                  if res'.ack_accept == res'.piece_count
                  then r'
                  else send_response_data_to_client r' vc' res'.servlet.request_id
              | timed_out_request_heartbeat ↦
                  let vc' = record vc {
                    responses = put_response header.time_point res vc.responses;
                  } in
                  let r' = set_connection r slot vc' in
                  if ltb res.ack_accept res.piece_count
                  then send_response_data_to_client r' vc' res.servlet.request_id
                  else r'
              | _ ↦
                  set_connection r slot
                    (record vc { responses = put_response header.time_point res vc.responses })
            ]
      ])
      else reply r vc (send_reset e.host e.raw header.time_point response)

  -- The requests after `it->second.active_dt = now`, and the one that was found.
  unfoldable pub note_activity : SubReactor → Servlet → SubReactor × Option Request
  note_activity r base = elim (find r.messages base) [
    | none ↦ (r, none)
    | some req ↦
        let req' = record req { active_dt = e.now } in
        (record r { messages = modify r.messages base req' }, some req')
  ]

  -- One `EPOLLIN` event: `received` is what `recvfrom` returned, 0 if it failed.
  unfoldable pub handle_datagram :
      SubReactor → ℕ → VirtualConnection → Address → Memory → ℕ → ℕ → Outcome SubReactor
  unfolding set_connection emit note_activity handle_request_phase handle_response_phase
  handle_datagram r0 slot vc0 addr buf received fd =
      let vc = record vc0 { last_active = e.now } in
      let r = set_connection r0 slot vc in
      if received == 0
      then ok r
      else (let (header, success) = parse e.host (new_protocol e.host) buf received in
          if success
          then (let base : Servlet = record {
            request_id = header.time_point;
            client_port = addr.port;
            client_ip_address = addr.ip;
          } in
              let (r1, found) = note_activity r base in
              elim header.phase [
                | request ↦ handle_request_phase r1 slot vc base found header buf fd
                | response ↦ ok (handle_response_phase r1 slot vc header)
              ])
          else ok (emit r (wrong_protocol vc.socket_fd)))
