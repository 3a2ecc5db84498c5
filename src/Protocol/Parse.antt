-- ===== src/Protocol/Parse.antt =====
-- What the parsers of protocol.cpp accept and what they read, against the wire format.
use muse_rpc.Common.{
  ℕ, ◌+◌, ◌*◌, ◌/◌, ◌<◌, ◌≤◌, ◌≡◌, ◌∙◌, true, arith, ge→ltb, bit_and, some, none, if◌then◌else◌,
  ◌==◌, ==_iff,
}
use muse_rpc.Common.Bits.{low_nibble}
use muse_rpc.Memory.{Memory, ByteSequence, big_endian, little_endian, get_byte_sequence_lem}
use muse_rpc.Protocol.Header.{
  phase_byte, type_byte, ProtocolHeader, phase_byte-lt, type_byte-lt, InRange, phase_of_byte,
  type_of_byte, phase_of_byte-phase_byte, type_of_byte-type_byte,
}
use muse_rpc.Protocol.{
  Protocol, new_protocol, protocol_header_size, default_synchronous_word, parse, memory_parse,
  read_numbers, get_protocol_type, get_protocol_phase, get_accept_min_order,
}
use muse_rpc.Protocol.Wire.{Encodes}

read_numbers-Encodes :
    (host : ByteSequence) (m : Memory) (header start : ProtocolHeader)
    → InRange header
    → Encodes m header
    → read_numbers host (new_protocol host) m start ≡ record header {
      synchronous_word = start.synchronous_word;
      phase = start.phase;
      type = start.type;
    }
unfolding read_numbers new_protocol
read_numbers-Encodes big_endian m header start r e =
    rw (get_byte_sequence_lem big_endian) (ground arith)
read_numbers-Encodes little_endian m header start r e =
    rw (get_byte_sequence_lem little_endian) (ground arith)

type_of_kind : (p t : ℕ) → p < 2 → t < 9 → bit_and (p * 16 + t) 0b00001111 ≡ t
type_of_kind p t hp ht = rw (low_nibble (p * 16 + t) (omega arith)) (omega arith)

phase_of_kind : (p t : ℕ) → t < 9 → (p * 16 + t) / 16 ≡ p
phase_of_kind p t ht = omega arith

kind_phase :
    (m : Memory) (header : ProtocolHeader)
    → Encodes m header
    → phase_of_byte (m 1 / 16) ≡ some header.phase
kind_phase m header e =
    rw
      (
        e.kind_at,
        phase_of_kind (phase_byte header.phase) (type_byte header.type) (type_byte-lt header.type),
      )
      (phase_of_byte-phase_byte header.phase)

kind_type :
    (m : Memory) (header : ProtocolHeader)
    → Encodes m header
    → type_of_byte (bit_and (m 1) 0b00001111) ≡ some header.type
kind_type m header e =
    rw
      (
        e.kind_at,
        type_of_kind (phase_byte header.phase) (type_byte header.type) (phase_byte-lt header.phase)
            (type_byte-lt header.type),
      )
      (type_of_byte-type_byte header.type)

-- A datagram that carries a header under the synchronous word is parsed to that header.
pub parse-Encodes :
    (host : ByteSequence) (m : Memory) (header : ProtocolHeader) (size : ℕ)
    → InRange header
    → Encodes m header
    → header.synchronous_word ≡ default_synchronous_word
    → protocol_header_size ≤ size
    → parse host (new_protocol host) m size ≡ (header, true)
unfolding parse
parse-Encodes host m header size r e s h =
    let sync : (m 0 == default_synchronous_word) ≡ true =
      (==_iff (m 0) default_synchronous_word).1 (e.synchronous_word_at ∙ s) in
    rw
      (
        ge→ltb size 26 h,
        sync,
        kind_phase m header e,
        kind_type m header e,
        read_numbers-Encodes host m header _ r e,
      )
      (ground arith)

-- The getters read the same byte.
pub get_protocol_type-Encodes :
    (m : Memory) (header : ProtocolHeader)
    → Encodes m header
    → get_protocol_type m ≡ some header.type
unfolding get_protocol_type
get_protocol_type-Encodes m header e = kind_type m header e

pub get_protocol_phase-Encodes :
    (m : Memory) (header : ProtocolHeader)
    → Encodes m header
    → get_protocol_phase m ≡ some header.phase
unfolding get_protocol_phase
get_protocol_phase-Encodes m header e = kind_phase m header e

pub get_accept_min_order-Encodes :
    (host : ByteSequence) (m : Memory) (header : ProtocolHeader)
    → InRange header
    → Encodes m header
    → get_accept_min_order host (new_protocol host) m ≡ header.accept_min_order
unfolding get_accept_min_order new_protocol
get_accept_min_order-Encodes big_endian m header r e =
    rw (get_byte_sequence_lem big_endian) (omega arith)
get_accept_min_order-Encodes little_endian m header r e =
    rw (get_byte_sequence_lem little_endian) (omega arith)

-- The two parsers agree: a null pointer stands for a failed parse.
pub memory_parse-parse :
    (host : ByteSequence) (this : Protocol) (m : Memory) (size : ℕ)
    → memory_parse host this m size
      ≡ (if (parse host this m size).1 then some (parse host this m size).0 else none)
unfolding parse memory_parse
memory_parse-parse host this m size = ground arith
