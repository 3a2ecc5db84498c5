-- ===== src/Packets/Parsed.antt =====
-- What the other side reads from the datagrams of Packets: any machine parses the header that any
-- machine wrote.
use muse_rpc.Common.{ℕ, ◌+◌, ◌*◌, ◌^◌, ◌<◌, ◌≡◌, refl, ◌∙◌, ap, true, arith}
use muse_rpc.Memory.{Memory, ByteSequence, memcpy, memcpy_inside}
use muse_rpc.Protocol.Header.{
  CommunicationPhase, ProtocolHeader, InRange, request, response, request_send, receiver_ack,
  request_ack, timed_out_request_heartbeat, timed_out_response_heartbeat, state_reset,
  the_server_resources_exhausted,
}
use muse_rpc.Protocol.{new_protocol, parse, piece_count_of}
use muse_rpc.Protocol.Pieces.{piece_size_of, IsMessageSize, piece_fits}
use muse_rpc.Protocol.Wire.{
  Encodes, initial_header, initiate-Encodes, set_protocol_type-Encodes, set_protocol_phase-Encodes,
  set_ack_accept_order-Encodes, set_protocol_order_and_size-Encodes,
}
use muse_rpc.Protocol.Parse.{parse-Encodes}
use muse_rpc.Server.Request.Receipt.{piece_header, Carries}
use muse_rpc.Packets.{
  fresh, send_ack, send_reset, send_heartbeat, send_exhausted, send_require_ack, send_response_ack,
  invoker_send_heartbeat, send_request_heartbeat, ask_ack, request_piece, response_piece,
}

-- A datagram of `n` bytes that a machine of either byte order parses to `header`.
abbrev pub Reads : Memory → ℕ → ProtocolHeader → Type 0
Reads m n header =
    (receiver : ByteSequence) → parse receiver (new_protocol receiver) m n ≡ (header, true)

-- Data behind the header leaves the header as it is.
behind-Encodes :
    (m : Memory) (header : ProtocolHeader) (from : Memory) (b n : ℕ)
    → Encodes m header
    → Encodes (memcpy m 26 from b n) header
unfolding memcpy
behind-Encodes m header from b n e = omega arith

exhausted-Reads :
    (host : ByteSequence) (raw : Memory)
    → Reads
        (send_exhausted host raw)
        26
        (record (initial_header 0 0) { type = the_server_resources_exhausted })
unfolding send_exhausted fresh
exhausted-Reads host raw receiver =
    parse-Encodes receiver _ (record (initial_header 0 0) { type = the_server_resources_exhausted })
      26 (omega arith)
      (set_protocol_type-Encodes _ _ the_server_resources_exhausted
        (initiate-Encodes host raw 0 0 26 (omega arith) (omega arith) (omega arith)))
      refl (omega arith)

module _ (host : ByteSequence) (raw : Memory) (message_id : ℕ) (fits : message_id < 2 ^ 64) where
  fresh-Encodes :
      (total_size : ℕ)
      → total_size < 2 ^ 32
      → Encodes (fresh host raw message_id total_size) (initial_header message_id total_size)
  unfolding fresh
  fresh-Encodes total_size h =
      initiate-Encodes host raw message_id total_size 26 fits h (omega arith)

  -- The acknowledgement of the server and that of the client differ in their phase only.
  pub acks_read :
      (ack : ℕ)
      → ack < 2 ^ 16
      → Reads
          (send_ack host raw ack message_id)
          26
          (record (initial_header message_id 0) { type = receiver_ack; accept_order = ack })
        × Reads
            (send_response_ack host raw ack message_id)
            26
            (record (initial_header message_id 0) {
              type = receiver_ack;
              phase = response;
              accept_order = ack;
            })
  unfolding send_ack send_response_ack
  acks_read ack h = (
    (λ receiver.
        parse-Encodes receiver _
          (record (initial_header message_id 0) { type = receiver_ack; accept_order = ack }) 26
          (omega arith)
          (set_ack_accept_order-Encodes host _ _ ack h
            (set_protocol_type-Encodes _ _ receiver_ack (fresh-Encodes 0 (omega arith))))
          refl (omega arith)),
    (λ receiver.
        parse-Encodes receiver _
          (record (initial_header message_id 0) {
            type = receiver_ack;
            phase = response;
            accept_order = ack;
          })
          26 (omega arith)
          (set_ack_accept_order-Encodes host _ _ ack h (
            set_protocol_phase-Encodes _ _ response
              (set_protocol_type-Encodes _ _ receiver_ack (fresh-Encodes 0 (omega arith)))))
          refl (omega arith)),
  )

  pub controls_read :
      (phase : CommunicationPhase) (order data_size : ℕ)
      → order < 2 ^ 16
      → data_size < 2 ^ 32
      → Reads
          (send_reset host raw message_id phase)
          26
          (record (initial_header message_id 0) { type = state_reset })
        × Reads
            (send_heartbeat host raw message_id phase)
            26
            (record (initial_header message_id 0) { type = timed_out_response_heartbeat })
        × Reads
            (send_exhausted host raw)
            26
            (record (initial_header 0 0) { type = the_server_resources_exhausted })
        × Reads
            (send_require_ack host raw message_id order phase)
            26
            (record (initial_header message_id 0) {
              type = request_ack;
              phase = phase;
              accept_order = order;
            })
        × Reads
            (invoker_send_heartbeat host raw message_id)
            26
            (record (initial_header message_id 0) {
              type = timed_out_response_heartbeat;
              phase = response;
            })
        × Reads
            (send_request_heartbeat host raw message_id)
            26
            (record (initial_header message_id 0) {
              type = timed_out_request_heartbeat;
              phase = response;
            })
        × Reads
            (ask_ack host raw message_id data_size)
            26
            (record (initial_header message_id data_size) { type = request_ack })
  unfolding send_reset send_heartbeat send_require_ack invoker_send_heartbeat send_request_heartbeat
      ask_ack
  controls_read phase order data_size ho hd =
      let e = fresh-Encodes 0 (omega arith) in
      (
        (λ r.
            parse-Encodes r _ (record (initial_header message_id 0) { type = state_reset }) 26
              (omega arith) (set_protocol_type-Encodes _ _ state_reset e) refl (omega arith)),
        (λ r.
            parse-Encodes r _
              (record (initial_header message_id 0) { type = timed_out_response_heartbeat }) 26
              (omega arith) (set_protocol_type-Encodes _ _ timed_out_response_heartbeat e) refl
              (omega arith)),
        exhausted-Reads host raw,
        (λ r.
            parse-Encodes r _
              (record (initial_header message_id 0) {
                type = request_ack;
                phase = phase;
                accept_order = order;
              })
              26 (omega arith)
              (set_protocol_phase-Encodes _ _ phase (
                set_protocol_type-Encodes _ _ request_ack
                  (set_ack_accept_order-Encodes host _ _ order ho e)))
              refl (omega arith)),
        (λ r.
            parse-Encodes r _
              (record (initial_header message_id 0) {
                type = timed_out_response_heartbeat;
                phase = response;
              })
              26 (omega arith)
              (set_protocol_phase-Encodes _ _ response
                (set_protocol_type-Encodes _ _ timed_out_response_heartbeat e))
              refl (omega arith)),
        (λ r.
            parse-Encodes r _
              (record (initial_header message_id 0) {
                type = timed_out_request_heartbeat;
                phase = response;
              })
              26 (omega arith)
              (set_protocol_phase-Encodes _ _ response
                (set_protocol_type-Encodes _ _ timed_out_request_heartbeat e))
              refl (omega arith)),
        (λ r.
            parse-Encodes r _ (record (initial_header message_id data_size) { type = request_ack })
              26 (omega arith)
              (set_protocol_type-Encodes _ _ request_ack (fresh-Encodes data_size hd)) refl
              (omega arith)),
      )

  piece_header-InRange :
      (n order : ℕ) (phase : CommunicationPhase)
      → IsMessageSize n
      → order < piece_count_of n
      → InRange (record (piece_header message_id n order) { phase = phase })
  piece_header-InRange n order phase s h =
      let (fit, small, few) = piece_fits n order s h in
      record {
        piece_order_fits = omega arith;
        piece_size_fits = omega arith;
        accept_min_order_fits = omega arith;
        time_point_fits = fits;
        total_count_fits = omega arith;
        piece_standard_size_fits = omega arith;
        total_size_fits = omega (arith, s.countable);
        accept_order_fits = omega arith;
      }

  -- A piece that the client sends, or the server, is read as the header of that piece of that message,
  -- in the sender's phase, and carries its bytes of the message.
  pub pieces_read :
      (whole : Memory) (n order : ℕ)
      → IsMessageSize n
      → order < piece_count_of n
      → Reads
          (request_piece host raw message_id whole n order)
          (26 + piece_size_of n order)
          (piece_header message_id n order)
        × Carries whole n order (request_piece host raw message_id whole n order)
        × Reads
            (response_piece host raw message_id whole n order (piece_size_of n order))
            (26 + piece_size_of n order)
            (record (piece_header message_id n order) { phase = response })
        × Carries whole n order
            (response_piece host raw message_id whole n order (piece_size_of n order))
  unfolding request_piece response_piece
  pieces_read whole n order s h =
      let (fit, small, few) = piece_fits n order s h in
      let e = fresh-Encodes n (omega (arith, s.countable)) in
      (
        (λ r.
            parse-Encodes r _ (piece_header message_id n order) (26 + piece_size_of n order)
              (piece_header-InRange n order request s h)
              (behind-Encodes _ _ whole (order * 522) (piece_size_of n order) (
                set_protocol_order_and_size-Encodes host _ _ order (piece_size_of n order)
                  (omega arith) (omega arith) (set_protocol_type-Encodes _ _ request_send e)))
              refl (omega arith)),
        (λ j hj.
            memcpy_inside _ whole 26 (order * 522) (piece_size_of n order) j hj
            ∙ ap whole (omega arith)),
        (λ r.
            parse-Encodes r _ (record (piece_header message_id n order) { phase = response })
              (26 + piece_size_of n order) (piece_header-InRange n order response s h)
              (behind-Encodes _ _ whole (order * 522) (piece_size_of n order) (
                set_protocol_order_and_size-Encodes host _ _ order (piece_size_of n order)
                  (omega arith) (omega arith)
                  (set_protocol_phase-Encodes _ _ response
                    (set_protocol_type-Encodes _ _ request_send e))))
              refl (omega arith)),
        (λ j hj.
            memcpy_inside _ whole 26 (order * 522) (piece_size_of n order) j hj
            ∙ ap whole (omega arith)),
      )
