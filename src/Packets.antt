-- ===== src/Packets.antt =====
-- The datagrams that the two sides send: the send functions of include/rpc/server/sub_reactor.cpp and
-- include/rpc/client/invoker.cpp up to the system call. `raw` is what the buffer held before.
pub mod Parsed
mod Tests
use muse_rpc.Common.{ℕ, ◌+◌, ◌*◌}
use muse_rpc.Memory.{Memory, ByteSequence, memcpy}
use muse_rpc.Protocol.Header.{
  CommunicationPhase, request, response, request_send, receiver_ack, request_ack,
  timed_out_request_heartbeat, timed_out_response_heartbeat, state_reset,
  the_server_resources_exhausted,
}
use muse_rpc.Protocol.{
  new_protocol, protocol_header_size, default_piece_limit_size, initiate_sender_protocol_header,
  set_protocol_type, set_protocol_phase, set_ack_accept_order, set_protocol_order_and_size,
}
use muse_rpc.Protocol.Pieces.{piece_size_of}

module _ (host : ByteSequence) (raw : Memory) where
  unfoldable pub fresh : ℕ → ℕ → Memory
  fresh message_id total_size =
      (initiate_sender_protocol_header host (new_protocol host) raw message_id total_size
        protocol_header_size).0

  -- `SubReactor::sendACK`, both overloads.
  unfoldable pub send_ack : ℕ → ℕ → Memory
  send_ack ack_number message_id =
      set_ack_accept_order host (new_protocol host)
        (set_protocol_type (fresh message_id 0) receiver_ack) ack_number

  -- The phase that the caller passes is not written.
  unfoldable pub send_reset : ℕ → CommunicationPhase → Memory
  send_reset message_id phase = set_protocol_type (fresh message_id 0) state_reset

  -- The phase is written only after the datagram is gone.
  unfoldable pub send_heartbeat : ℕ → CommunicationPhase → Memory
  send_heartbeat message_id phase =
      set_protocol_type (fresh message_id 0) timed_out_response_heartbeat

  unfoldable pub send_exhausted : Memory
  send_exhausted = set_protocol_type (fresh 0 0) the_server_resources_exhausted

  unfoldable pub send_require_ack : ℕ → ℕ → CommunicationPhase → Memory
  send_require_ack message_id accept_min_order phase =
      set_protocol_phase
        (set_protocol_type
          (set_ack_accept_order host (new_protocol host) (fresh message_id 0) accept_min_order)
          request_ack)
        phase

  -- `Invoker::sendResponseACK`.
  unfoldable pub send_response_ack : ℕ → ℕ → Memory
  send_response_ack ack_number message_id =
      set_ack_accept_order host (new_protocol host)
        (set_protocol_phase (set_protocol_type (fresh message_id 0) receiver_ack) response)
        ack_number

  -- `Invoker::sendHeartbeat`.
  unfoldable pub invoker_send_heartbeat : ℕ → Memory
  invoker_send_heartbeat message_id =
      set_protocol_phase (set_protocol_type (fresh message_id 0) timed_out_response_heartbeat)
        response

  unfoldable pub send_request_heartbeat : ℕ → Memory
  send_request_heartbeat message_id =
      set_protocol_phase (set_protocol_type (fresh message_id 0) timed_out_request_heartbeat)
        response

  -- The question for an acknowledgement, after a timeout of the first phase.
  unfoldable pub ask_ack : ℕ → ℕ → Memory
  ask_ack message_id data_size = set_protocol_type (fresh message_id data_size) request_ack

  -- Piece `order` of a request, as `Invoker::request` builds it.
  unfoldable pub request_piece : ℕ → Memory → ℕ → ℕ → Memory
  request_piece message_id whole data_size order =
      memcpy
        (set_protocol_order_and_size host (new_protocol host)
          (set_protocol_type (fresh message_id data_size) request_send) order
          (piece_size_of data_size order))
        protocol_header_size whole (order * default_piece_limit_size)
        (piece_size_of data_size order)

  -- Piece `order` of a response, as `SubReactor::sendResponseDataToClient` builds it.
  unfoldable pub response_piece : ℕ → Memory → ℕ → ℕ → ℕ → Memory
  response_piece message_id whole data_size order size =
      memcpy
        (set_protocol_order_and_size host (new_protocol host)
          (set_protocol_phase (set_protocol_type (fresh message_id data_size) request_send)
            response)
          order size)
        protocol_header_size whole (order * default_piece_limit_size) size
