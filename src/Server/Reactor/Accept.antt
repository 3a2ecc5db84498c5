-- ===== src/Server/Reactor/Accept.antt =====
-- `SubReactor::dealWithNewConnection` and `acceptConnection` of include/rpc/server/sub_reactor.cpp: what
-- the main reactor hands over, and the first datagram of each new connection.
use muse_rpc.Common.{
  ℕ, zero, suc, ◌+◌, ◌%◌, ◌==◌, if◌then◌else◌, Bool, true, false, List, [], ◌∷◌, ◌++◌, Option, some,
  none, length, get_elem?, Outcome, ok, undefined, ◌>>=◌,
}
use muse_rpc.Memory.{Memory}
use muse_rpc.Protocol.Header.{ProtocolHeader, request_send, request_ack}
use muse_rpc.Protocol.{new_protocol, parse, protocol_header_size}
use muse_rpc.Packets.{send_ack, send_reset, send_heartbeat, send_exhausted}
use muse_rpc.Server.PieceState.{get_ack_number}
use muse_rpc.Server.Servlet.{Servlet, find, modify, emplace}
use muse_rpc.Server.Request.{receive_known_new_connection, receive_first}
use muse_rpc.Server.Reactor.{
  SubReactor, VirtualConnection, NewConnection, Environment, send, wrong_protocol, close_fd,
  add_to_epoll, wake_up, emit, set_connection, set_timer, check_delete_socket, judge_delete,
  request_time_out, connection_time_out, after_piece,
}
use muse_rpc.Server.Reactor.Slots.{find_connections_empty_place}

unfoldable pub accept_connection : SubReactor → NewConnection → SubReactor × Bool
unfolding emit
accept_connection r c =
    if r.run_state
    then (emit (record r { new_connections = r.new_connections ++ (c ∷ []) }) wake_up, true)
    else (r, false)

-- The place that already has this socket, searched from the last place given out.
unfoldable pub look_for_socket : ℕ → List VirtualConnection → ℕ → ℕ → ℕ → ℕ → Option ℕ
look_for_socket fd cs last places zero i = none
look_for_socket fd cs last places (suc n) i =
    let rest = look_for_socket fd cs last places n (suc i) in
    elim (get_elem? cs ((last + i) % places)) [
      | none ↦ rest
      | some vc ↦ elim vc.socket_fd [
        | none ↦ rest
        | some k ↦ if k == fd then some ((last + i) % places) else rest
      ]
    ]

module _ (e : Environment) where
  -- The place of the datagram's connection. For a new one a place is taken, and if there is none the
  -- client hears of it.
  unfoldable pub place_of : SubReactor → NewConnection → SubReactor × Option ℕ
  unfolding emit set_connection look_for_socket find_connections_empty_place
  place_of r c =
      if c.is_new
      then (let (r1, found) = find_connections_empty_place e r in
          elim found [
            | none ↦ (
              emit (emit r1 (send (some c.fd) (send_exhausted e.host e.raw) protocol_header_size))
                  (close_fd c.fd),
              none,
            )
            | some idx ↦ elim (get_elem? r1.connections idx) [
              | none ↦ (r1, none)
              | some vc ↦
                  let r2 =
                    set_connection r1 idx
                      (record vc { socket_fd = some c.fd; last_active = e.now; addr = c.addr }) in
                  (
                    record r2 { active_connections_count = r2.active_connections_count + 1 },
                    some idx,
                  )
            ]
          ])
      else (
        r,
        look_for_socket c.fd r.connections r.last_empty_place r.open_max_connection
            r.open_max_connection 0,
      )

  answer : SubReactor → NewConnection → Memory → SubReactor
  unfolding emit
  answer r c m = emit r (send (some c.fd) m protocol_header_size)

  -- A data piece. After a duplicate on this path the number sent is 0.
  unfoldable pub new_connection_piece :
      SubReactor
      → ℕ
      → VirtualConnection
      → NewConnection
      → Servlet
      → ProtocolHeader
      → Outcome SubReactor
  unfolding set_timer after_piece
  new_connection_piece r slot vc c servlet header = elim (find r.messages servlet) [
    | some req ↦
        receive_known_new_connection (record req { active_dt = e.now }) header c.content >>= λ t.
        ok (
          after_piece e (record r { messages = modify r.messages servlet t.0 }) slot vc servlet
            header t.0 t.1)
    | none ↦ receive_first c.addr.port c.addr.ip c.fd e.now header e.allocated c.content >>= λ t.
        ok (
          after_piece e
            (set_timer e (record r { messages = emplace r.messages servlet t.0 }) request_time_out
              (judge_delete servlet))
            slot vc servlet header t.0 t.1)
  ]

  unfoldable pub new_connection_datagram :
      SubReactor → ℕ → VirtualConnection → NewConnection → ProtocolHeader → Outcome SubReactor
  unfolding answer new_connection_piece
  new_connection_datagram r slot vc c header =
      let servlet : Servlet = record {
        request_id = header.time_point;
        client_port = c.addr.port;
        client_ip_address = c.addr.ip;
      } in
      elim header.type [
        | request_send ↦ new_connection_piece r slot vc c servlet header
        | request_ack ↦ ok (elim (find r.messages servlet) [
          | some req ↦
              answer r c (send_ack e.host e.raw (get_ack_number req.piece_state) header.time_point)
          | none ↦ answer r c (send_reset e.host e.raw header.time_point header.phase)
        ])
        | _ ↦ ok (elim (find r.messages servlet) [
          | some req ↦ answer r c (send_heartbeat e.host e.raw header.time_point header.phase)
          | none ↦ answer r c (send_reset e.host e.raw header.time_point header.phase)
        ])
      ]

  -- A new connection is watched from now on; whether the round goes on to `pop`.
  unfoldable pub register : SubReactor → ℕ → NewConnection → SubReactor × Bool
  unfolding emit set_timer
  register r slot c =
      if c.is_new
      then (if e.epoll_accepts
          then (
            set_timer e (emit r (add_to_epoll c.fd slot)) connection_time_out
                (check_delete_socket slot),
            true,
          )
          else (emit r (close_fd c.fd), false))
      else (r, true)

  -- One round with the datagram at the head of the queue; whether the round goes on to `pop`.
  unfoldable pub deal_with_head : SubReactor → NewConnection → Outcome (SubReactor × Bool)
  unfolding emit place_of register new_connection_datagram
  deal_with_head r c =
      let (header, success) = parse e.host (new_protocol e.host) c.content c.recv_length in
      if success
      then (let (r1, place) = place_of r c in
          elim place [
            | none ↦ ok (r1, false)
            | some slot ↦ elim (get_elem? r1.connections slot) [
              | none ↦ undefined
              | some vc ↦
                  new_connection_datagram r1 slot vc c header >>= λ r2. ok (register r2 slot c)
            ]
          ])
      else ok (emit r (wrong_protocol (some c.fd)), true)

  -- `n` rounds; every round reads the head again, which undefined behaviour it is of an empty queue.
  unfoldable pub deal_from : ℕ → SubReactor → Outcome SubReactor
  unfolding deal_with_head
  deal_from zero r = ok r
  deal_from (suc n) r = elim r.new_connections [
    | [] ↦ undefined
    | c ∷ rest ↦ deal_with_head r c >>= λ t.
        deal_from n (if t.1 then (record (t.0) { new_connections = rest }) else t.0)
  ]

  unfoldable pub deal_with_new_connection : SubReactor → Outcome SubReactor
  unfolding deal_from
  deal_with_new_connection r = deal_from (length r.new_connections) r
