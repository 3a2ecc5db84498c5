-- ===== src/Protocol/Header.antt =====
-- include/rpc/protocol/protocol_type.h, communication_phase.h and the struct of protocol.hpp: the
-- two enumerations with their numbers, and the header as a record of numbers.
use muse_rpc.Common.{ℕ, ◌==◌, ◌≡◌, refl, ◌<◌, if◌then◌else◌, Option, none, some, arith, ◌^◌}

pub data CommunicationPhase : Type 0 where
  request : CommunicationPhase
  response : CommunicationPhase

pub data ProtocolType : Type 0 where
  request_send : ProtocolType
  hear_beat : ProtocolType
  receiver_ack : ProtocolType
  request_ack : ProtocolType
  timed_out_request_heartbeat : ProtocolType
  timed_out_response_heartbeat : ProtocolType
  unsupported_network_protocol : ProtocolType
  state_reset : ProtocolType
  the_server_resources_exhausted : ProtocolType

abbrev pub phase_byte : CommunicationPhase → ℕ
phase_byte request = 0
phase_byte response = 1

abbrev pub type_byte : ProtocolType → ℕ
type_byte request_send = 0
type_byte hear_beat = 1
type_byte receiver_ack = 2
type_byte request_ack = 3
type_byte timed_out_request_heartbeat = 4
type_byte timed_out_response_heartbeat = 5
type_byte unsupported_network_protocol = 6
type_byte state_reset = 7
type_byte the_server_resources_exhausted = 8

-- The `switch (phase)` of the parsers: `none` is their `default`.
abbrev pub phase_of_byte : ℕ → Option CommunicationPhase
phase_of_byte b = if b == 0 then some request else if b == 1 then some response else none

-- The `switch (type)` of the parsers.
abbrev pub type_of_byte : ℕ → Option ProtocolType
type_of_byte b =
    if b == 0
    then some request_send
    else if b == 1
    then some hear_beat
    else if b == 2
    then some receiver_ack
    else if b == 3
    then some request_ack
    else if b == 4
    then some timed_out_request_heartbeat
    else if b == 5
    then some timed_out_response_heartbeat
    else if b == 6
    then some unsupported_network_protocol
    else if b == 7
    then some state_reset
    else if b == 8
    then some the_server_resources_exhausted
    else none

pub record ProtocolHeader : Type 0 where
  pub synchronous_word : ℕ
  pub phase : CommunicationPhase
  pub type : ProtocolType
  pub piece_order : ℕ
  pub piece_size : ℕ
  pub accept_min_order : ℕ
  pub time_point : ℕ
  pub total_count : ℕ
  pub piece_standard_size : ℕ
  pub total_size : ℕ
  pub accept_order : ℕ

-- `ProtocolHeader header{}`.
abbrev pub zero_header : ProtocolHeader
zero_header = record {
  synchronous_word = 0;
  phase = request;
  type = request_send;
  piece_order = 0;
  piece_size = 0;
  accept_min_order = 0;
  time_point = 0;
  total_count = 0;
  piece_standard_size = 0;
  total_size = 0;
  accept_order = 0;
}

-- The fields fit the integer types of the struct.
pub record InRange (header : ProtocolHeader) : Type 0 where
  pub piece_order_fits : header.piece_order < 2 ^ 16
  pub piece_size_fits : header.piece_size < 2 ^ 16
  pub accept_min_order_fits : header.accept_min_order < 2 ^ 16
  pub time_point_fits : header.time_point < 2 ^ 64
  pub total_count_fits : header.total_count < 2 ^ 16
  pub piece_standard_size_fits : header.piece_standard_size < 2 ^ 16
  pub total_size_fits : header.total_size < 2 ^ 32
  pub accept_order_fits : header.accept_order < 2 ^ 16

pub phase_of_byte-phase_byte : (p : CommunicationPhase) → phase_of_byte (phase_byte p) ≡ some p
phase_of_byte-phase_byte request = refl
phase_of_byte-phase_byte response = refl

pub type_of_byte-type_byte : (t : ProtocolType) → type_of_byte (type_byte t) ≡ some t
type_of_byte-type_byte request_send = refl
type_of_byte-type_byte hear_beat = refl
type_of_byte-type_byte receiver_ack = refl
type_of_byte-type_byte request_ack = refl
type_of_byte-type_byte timed_out_request_heartbeat = refl
type_of_byte-type_byte timed_out_response_heartbeat = refl
type_of_byte-type_byte unsupported_network_protocol = refl
type_of_byte-type_byte state_reset = refl
type_of_byte-type_byte the_server_resources_exhausted = refl

pub phase_byte-phase_of_byte :
    (b : ℕ) (p : CommunicationPhase) → phase_of_byte b ≡ some p → b ≡ phase_byte p
phase_byte-phase_of_byte b p e = ground arith

pub type_byte-type_of_byte : (b : ℕ) (t : ProtocolType) → type_of_byte b ≡ some t → b ≡ type_byte t
type_byte-type_of_byte b t e = ground arith

pub phase_byte-lt : (p : CommunicationPhase) → phase_byte p < 2
phase_byte-lt request = omega arith
phase_byte-lt response = omega arith

pub type_byte-lt : (t : ProtocolType) → type_byte t < 9
type_byte-lt request_send = omega arith
type_byte-lt hear_beat = omega arith
type_byte-lt _ = omega arith
