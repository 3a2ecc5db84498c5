-- ===== src/Server/Reactor/Questions.antt =====
-- The control datagrams of the request phase: what `SubReactor::loop` of include/rpc/server/sub_reactor.cpp
-- answers to a question about a request.
use muse_rpc.Common.{ℕ, ◌^◌, ◌<◌, ◌≡◌, ◌≢◌, refl, Option, some, none, Outcome, ok, length, arith}
use muse_rpc.Memory.{Memory}
use muse_rpc.Protocol.{protocol_header_size}
use muse_rpc.Protocol.Header.{
  ProtocolHeader, ProtocolType, request_send, receiver_ack, request_ack,
  timed_out_request_heartbeat, timed_out_response_heartbeat, hear_beat,
  unsupported_network_protocol, state_reset, the_server_resources_exhausted,
}
use muse_rpc.Protocol.Wire.{initial_header}
use muse_rpc.Packets.{send_ack, send_reset, send_heartbeat}
use muse_rpc.Packets.Parsed.{Reads, acks_read, controls_read}
use muse_rpc.Server.PieceState.{IsAck, get_ack_number, get_ack_number-IsAck}
use muse_rpc.Server.Servlet.{Servlet}
use muse_rpc.Server.Request.{Request}
use muse_rpc.Server.Reactor.{
  SubReactor, VirtualConnection, Environment, send, emit, handle_request_phase,
}

-- What the client should read: the number of leading pieces, a sign of life, or a reset.
abbrev pub Expected : ℕ → ProtocolType → Option Request → ProtocolHeader → Type 0
Expected id request_ack (some req) answer =
    (ack : ℕ) × IsAck req.piece_state ack
    × (answer ≡ record (initial_header id 0) { type = receiver_ack; accept_order = ack })
Expected id timed_out_request_heartbeat (some req) answer =
    answer ≡ record (initial_header id 0) { type = timed_out_response_heartbeat }
Expected id _ _ answer = answer ≡ record (initial_header id 0) { type = state_reset }

-- One datagram goes out, and nothing else changes.
pub record Answers (e : Environment) (r : SubReactor) (result : Outcome SubReactor)
    (vc : VirtualConnection) (id : ℕ) (question : ProtocolType) (found : Option Request)
    : Type 0 where
  pub datagram : Memory
  pub answer : ProtocolHeader
  pub sent : result ≡ ok (emit r (send vc.socket_fd datagram protocol_header_size))
  pub reads : Reads datagram protocol_header_size answer
  pub expected : Expected id question found answer

module _ (e : Environment) (r : SubReactor) (slot : ℕ) (vc : VirtualConnection) (base : Servlet)
    (header : ProtocolHeader) (buf : Memory) (fd : ℕ) (fits : header.time_point < 2 ^ 64) where
  abbrev Answered : ProtocolType → Option Request → Type 0
  Answered t found =
      Answers e r (handle_request_phase e r slot vc base found (record header { type = t }) buf fd)
        vc header.time_point t found

  reset-Reads :
      Reads
        (send_reset e.host e.raw header.time_point header.phase)
        26
        (record (initial_header header.time_point 0) { type = state_reset })
  reset-Reads =
      (controls_read e.host e.raw header.time_point fits header.phase 0 0 (omega arith)
        (omega arith)).0

  beat-Reads :
      Reads
        (send_heartbeat e.host e.raw header.time_point header.phase)
        26
        (record (initial_header header.time_point 0) { type = timed_out_response_heartbeat })
  beat-Reads =
      (controls_read e.host e.raw header.time_point fits header.phase 0 0 (omega arith)
        (omega arith)).1

  abbrev reset : ProtocolHeader
  reset = record (initial_header header.time_point 0) { type = state_reset }

  reset_answer :
      (t : ProtocolType) (found : Option Request)
      → handle_request_phase e r slot vc base found (record header { type = t }) buf fd
        ≡ ok (
            emit r (
              send vc.socket_fd
                (send_reset e.host e.raw header.time_point header.phase)
                protocol_header_size))
      → Expected header.time_point t found reset
      → Answered t found
  reset_answer t found q x = record {
    datagram = send_reset e.host e.raw header.time_point header.phase;
    answer = reset;
    sent = q;
    reads = reset-Reads;
    expected = x;
  }

  -- In the request phase a question about a kept request is answered with the number of its leading
  -- pieces, or with a sign of life, whichever was asked for; any other datagram but a data piece, and any
  -- question about a request that is not kept, with a reset. Nothing else changes.
  pub questions_lem :
      (t : ProtocolType) (found : Option Request)
      → t ≢ request_send
      → ((req : Request) → found ≡ some req → length req.piece_state < 2 ^ 16)
      → Answered t found
  unfolding handle_request_phase
  questions_lem request_send found n h = absurd (n refl)
  questions_lem request_ack (some req) n h =
      let isack = get_ack_number-IsAck req.piece_state in
      record {
        datagram = send_ack e.host e.raw (get_ack_number req.piece_state) header.time_point;
        answer = record (initial_header header.time_point 0) {
          type = receiver_ack;
          accept_order = get_ack_number req.piece_state;
        };
        sent = refl;
        reads =
            (acks_read e.host e.raw header.time_point fits (get_ack_number req.piece_state)
              (omega (arith, isack.in_range, h req refl))).0;
        expected = (get_ack_number req.piece_state, isack, refl);
      }
  questions_lem request_ack none n h = reset_answer request_ack none refl refl
  questions_lem timed_out_request_heartbeat (some req) n h = record {
    datagram = send_heartbeat e.host e.raw header.time_point header.phase;
    answer = record (initial_header header.time_point 0) { type = timed_out_response_heartbeat };
    sent = refl;
    reads = beat-Reads;
    expected = refl;
  }
  questions_lem timed_out_request_heartbeat none n h =
      reset_answer timed_out_request_heartbeat none refl refl
  questions_lem receiver_ack found n h = reset_answer receiver_ack found refl refl
  questions_lem hear_beat found n h = reset_answer hear_beat found refl refl
  questions_lem timed_out_response_heartbeat found n h =
      reset_answer timed_out_response_heartbeat found refl refl
  questions_lem unsupported_network_protocol found n h =
      reset_answer unsupported_network_protocol found refl refl
  questions_lem state_reset found n h = reset_answer state_reset found refl refl
  questions_lem the_server_resources_exhausted found n h =
      reset_answer the_server_resources_exhausted found refl refl
