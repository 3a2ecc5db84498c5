-- ===== src/Protocol/Wire.antt =====
-- The wire format, stated apart from the code: which byte of a datagram carries what. Numbers are
-- in network order, the most significant byte first. Each function that writes a header is
-- matched with an update of the header record.
use muse_rpc.Common.{ℕ, ◌+◌, ◌*◌, ◌/◌, ◌%◌, ◌^◌, ◌<◌, ◌≤◌, ◌≡◌, arith, ge→ltb, bit_and, bit_or}
use muse_rpc.Common.Bits.{low_nibble, high_nibble, or_nibbles}
use muse_rpc.Memory.{Memory, ByteSequence, big_endian, little_endian, get_byte_sequence_lem}
use muse_rpc.Protocol.Header.{
  CommunicationPhase, ProtocolType, phase_byte, type_byte, ProtocolHeader, zero_header,
  phase_byte-lt, type_byte-lt,
}
use muse_rpc.Protocol.{
  new_protocol, protocol_header_size, default_piece_limit_size, default_synchronous_word,
  piece_count_of, initiate_sender_protocol_header, set_protocol_order_and_size,
  set_ack_accept_order, set_accept_min_order, set_protocol_type, set_protocol_phase,
}

abbrev pub Big16 : Memory → ℕ → ℕ → Type 0
Big16 m a v = (m a ≡ v / 256) × (m (a + 1) ≡ v % 256)

abbrev pub Big32 : Memory → ℕ → ℕ → Type 0
Big32 m a v = Big16 m a (v / 2 ^ 16) × Big16 m (a + 2) (v % 2 ^ 16)

abbrev pub Big64 : Memory → ℕ → ℕ → Type 0
Big64 m a v = Big32 m a (v / 2 ^ 32) × Big32 m (a + 4) (v % 2 ^ 32)

pub record Encodes (m : Memory) (header : ProtocolHeader) : Type 0 where
  pub synchronous_word_at : m 0 ≡ header.synchronous_word
  pub kind_at : m 1 ≡ phase_byte header.phase * 16 + type_byte header.type
  pub piece_order_at : Big16 m 2 header.piece_order
  pub piece_size_at : Big16 m 4 header.piece_size
  pub accept_min_order_at : Big16 m 6 header.accept_min_order
  pub time_point_at : Big64 m 8 header.time_point
  pub total_count_at : Big16 m 16 header.total_count
  pub piece_standard_size_at : Big16 m 18 header.piece_standard_size
  pub total_size_at : Big32 m 20 header.total_size
  pub accept_order_at : Big16 m 24 header.accept_order

-- The header that a sender starts from.
abbrev pub initial_header : ℕ → ℕ → ProtocolHeader
initial_header time_point total_size = record zero_header {
  synchronous_word = default_synchronous_word;
  piece_size = protocol_header_size;
  time_point = time_point;
  total_count = piece_count_of total_size;
  piece_standard_size = default_piece_limit_size;
  total_size = total_size;
}

-- On a machine of either byte order, whatever the buffer held before, a call with a buffer that is
-- long enough leaves the initial header of that message in the wire format.
pub initiate-Encodes :
    (host : ByteSequence) (m : Memory) (time_point total_size size : ℕ)
    → time_point < 2 ^ 64
    → total_size < 2 ^ 32
    → protocol_header_size ≤ size
    → Encodes
        (initiate_sender_protocol_header host (new_protocol host) m time_point total_size size).0
        (initial_header time_point total_size)
unfolding initiate_sender_protocol_header new_protocol
initiate-Encodes big_endian m t n size ht hn hs =
    rw (get_byte_sequence_lem big_endian, ge→ltb size 26 hs) (omega arith)
initiate-Encodes little_endian m t n size ht hn hs =
    rw (get_byte_sequence_lem little_endian, ge→ltb size 26 hs) (omega arith)

-- A function that writes numbers leaves the other fields as they were.
pub set_protocol_order_and_size-Encodes :
    (host : ByteSequence) (m : Memory) (header : ProtocolHeader) (order size : ℕ)
    → order < 2 ^ 16
    → size < 2 ^ 16
    → Encodes m header
    → Encodes
        (set_protocol_order_and_size host (new_protocol host) m order size)
        (record header { piece_order = order; piece_size = size })
unfolding set_protocol_order_and_size new_protocol
set_protocol_order_and_size-Encodes big_endian m header order size ho hs e =
    rw (get_byte_sequence_lem big_endian) (omega arith)
set_protocol_order_and_size-Encodes little_endian m header order size ho hs e =
    rw (get_byte_sequence_lem little_endian) (omega arith)

pub set_ack_accept_order-Encodes :
    (host : ByteSequence) (m : Memory) (header : ProtocolHeader) (order : ℕ)
    → order < 2 ^ 16
    → Encodes m header
    → Encodes
        (set_ack_accept_order host (new_protocol host) m order)
        (record header { accept_order = order })
unfolding set_ack_accept_order new_protocol
set_ack_accept_order-Encodes big_endian m header order ho e =
    rw (get_byte_sequence_lem big_endian) (omega arith)
set_ack_accept_order-Encodes little_endian m header order ho e =
    rw (get_byte_sequence_lem little_endian) (omega arith)

pub set_accept_min_order-Encodes :
    (host : ByteSequence) (m : Memory) (header : ProtocolHeader) (order : ℕ)
    → order < 2 ^ 16
    → Encodes m header
    → Encodes
        (set_accept_min_order host (new_protocol host) m order)
        (record header { accept_min_order = order })
unfolding set_accept_min_order new_protocol
set_accept_min_order-Encodes big_endian m header order ho e =
    rw (get_byte_sequence_lem big_endian) (omega arith)
set_accept_min_order-Encodes little_endian m header order ho e =
    rw (get_byte_sequence_lem little_endian) (omega arith)

-- The byte that the phase and the type share.
type_bits :
    (p t' : ℕ) (t : ℕ)
    → p < 2
    → t' < 9
    → t < 9
    → bit_or (bit_and (p * 16 + t') 0b11110000) t % 256 ≡ p * 16 + t
type_bits p t' t hp ht' ht =
    let half : (p * 16 + t') / 16 ≡ p = omega arith in
    rw (high_nibble (p * 16 + t') (omega arith), half, or_nibbles p t (omega arith) (omega arith))
      (omega arith)

phase_bits :
    (p' p t : ℕ)
    → p' < 2
    → p < 2
    → t < 9
    → bit_or (p * 16) (bit_and (p' * 16 + t) 0b00001111) % 256 ≡ p * 16 + t
phase_bits p' p t hp' hp ht =
    let half : (p' * 16 + t) % 16 ≡ t = omega arith in
    rw (low_nibble (p' * 16 + t) (omega arith), half, or_nibbles p t (omega arith) (omega arith))
      (omega arith)

pub set_protocol_type-Encodes :
    (m : Memory) (header : ProtocolHeader) (t : ProtocolType)
    → Encodes m header
    → Encodes (set_protocol_type m t) (record header { type = t })
unfolding set_protocol_type
set_protocol_type-Encodes m header t e = rw e.kind_at (
    omega (
      arith,
      type_bits (phase_byte header.phase) (type_byte header.type) (type_byte t)
          (phase_byte-lt header.phase) (type_byte-lt header.type) (type_byte-lt t),
    ))

pub set_protocol_phase-Encodes :
    (m : Memory) (header : ProtocolHeader) (p : CommunicationPhase)
    → Encodes m header
    → Encodes (set_protocol_phase m p) (record header { phase = p })
unfolding set_protocol_phase
set_protocol_phase-Encodes m header p e = rw e.kind_at (
    omega (
      arith,
      phase_bits (phase_byte header.phase) (phase_byte p) (type_byte header.type)
          (phase_byte-lt header.phase) (phase_byte-lt p) (type_byte-lt header.type),
    ))
