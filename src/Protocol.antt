-- ===== src/Protocol.antt =====
-- include/rpc/protocol/protocol.cpp: every member function of `Protocol`, over raw memory. `host` is
-- the machine's byte order, which multi-byte stores and loads obey; `this.by` is the member `by`.
pub mod Header
pub mod Wire
pub mod Parse
pub mod Accept
pub mod Portable
pub mod Pieces
mod Tests
use muse_rpc.Common.{
  ℕ, ◌+◌, ◌*◌, ◌/◌, ◌%◌, ◌^◌, ◌==◌, ltb, leb, ◌&&◌, if◌then◌else◌, Bool, true, false, Option, none,
  some, bit_and, bit_or,
}
use muse_rpc.Memory.{
  Memory, ByteSequence, big_endian, little_endian, store8, store16, store32, store64, load16,
  load32, load64, reverse_bytes, htons, htonl, get_byte_sequence,
}
use Header.{
  CommunicationPhase, request, ProtocolType, request_send, phase_byte, type_byte, phase_of_byte,
  type_of_byte, ProtocolHeader, zero_header,
}

abbrev pub protocol_header_size : ℕ
protocol_header_size = 26

-- 548 - 26, for a datagram of 576 bytes.
abbrev pub default_piece_limit_size : ℕ
default_piece_limit_size = 522

abbrev pub full_piece_size : ℕ
full_piece_size = protocol_header_size + default_piece_limit_size

abbrev pub default_synchronous_word : ℕ
default_synchronous_word = 0b11110000

pub record Protocol : Type 0 where
  pub by : ByteSequence

-- The constructor asks the machine for its byte order.
unfoldable pub new_protocol : ByteSequence → Protocol
new_protocol host = record { by = get_byte_sequence host }

abbrev pub is_little : ByteSequence → Bool
is_little little_endian = true
is_little big_endian = false

-- The number of pieces that a message of `total_size` bytes is cut into, as the source computes it
-- at each place: before and after the conversion to `uint16_t`.
abbrev pub whole_piece_count : ℕ → ℕ
whole_piece_count total_size =
    total_size / default_piece_limit_size
    + (if total_size % default_piece_limit_size == 0 then 0 else 1)

abbrev pub piece_count_of : ℕ → ℕ
piece_count_of total_size = whole_piece_count total_size % 2 ^ 16

module _ (host : ByteSequence) (this : Protocol) where
  -- The multi-byte fields of a fresh header, as a little-endian machine writes them.
  initiate_swapped : Memory → ℕ → ℕ → Memory
  unfolding store16 store32 store64 htons htonl reverse_bytes
  initiate_swapped m0 time_point total_size =
      let m1 = store16 host m0 4 (htons host protocol_header_size) in
      let m2 = store64 host m1 8 time_point in
      let m3 = reverse_bytes m2 8 8 in
      let m4 = store16 host m3 16 (htons host (piece_count_of total_size)) in
      let m5 = store16 host m4 18 (htons host default_piece_limit_size) in
      store32 host m5 20 (htonl host total_size)

  initiate_plain : Memory → ℕ → ℕ → Memory
  unfolding store16 store32 store64
  initiate_plain m0 time_point total_size =
      let m1 = store16 host m0 4 protocol_header_size in
      let m2 = store64 host m1 8 time_point in
      let m3 = store16 host m2 16 (piece_count_of total_size) in
      let m4 = store16 host m3 18 default_piece_limit_size in store32 host m4 20 total_size

  unfoldable pub initiate_sender_protocol_header : Memory → ℕ → ℕ → ℕ → Memory × Bool
  unfolding initiate_swapped initiate_plain store16
  initiate_sender_protocol_header m time_point total_size protocol_size =
      if ltb protocol_size protocol_header_size
      then (m, false)
      else let m0 = store8 m 0 default_synchronous_word in
        let m1 = store8 m0 1 (bit_or (phase_byte request * 16) (type_byte request_send)) in
        let m2 = store16 host m1 2 0 in
        let m3 = store16 host m2 6 0 in
        let m4 =
          if is_little this.by
          then initiate_swapped m3 time_point total_size
          else initiate_plain m3 time_point total_size in
        (store16 host m4 24 0, true)

  -- The numbers of the header, read once the first two bytes are accepted.
  unfoldable pub read_numbers : Memory → ProtocolHeader → ProtocolHeader
  unfolding load16 load32 load64 htons htonl reverse_bytes store64
  read_numbers m header =
      if is_little this.by
      then (record header {
        piece_order = htons host (load16 host m 2);
        piece_size = htons host (load16 host m 4);
        accept_min_order = htons host (load16 host m 6);
        time_point = load64 host (reverse_bytes (store64 host (λ _. 0) 0 (load64 host m 8)) 0 8) 0;
        total_count = htons host (load16 host m 16);
        piece_standard_size = htons host (load16 host m 18);
        total_size = htonl host (load32 host m 20);
        accept_order = htons host (load16 host m 24);
      })
      else (record header {
        piece_order = load16 host m 2;
        piece_size = load16 host m 4;
        accept_min_order = load16 host m 6;
        time_point = load64 host m 8;
        total_count = load16 host m 16;
        piece_standard_size = load16 host m 18;
        total_size = load32 host m 20;
        accept_order = load16 host m 24;
      })

  -- The header and `success`; a failed parse hands back what it had set so far.
  unfoldable pub parse : Memory → ℕ → ProtocolHeader × Bool
  parse m protocol_size =
      if ltb protocol_size protocol_header_size
      then (zero_header, false)
      else let h0 = record zero_header { synchronous_word = m 0 } in
        if m 0 == default_synchronous_word
        then (elim (phase_of_byte (m 1 / 16)) [
          | none ↦ (h0, false)
          | some p ↦
              let h1 = record h0 { phase = p } in
              elim (type_of_byte (bit_and (m 1) 0b00001111)) [
                | none ↦ (h1, false)
                | some t ↦ (read_numbers m (record h1 { type = t }), true)
              ]
        ])
        else (h0, false)

  -- The parse into shared memory: `none` is the null pointer.
  unfoldable pub memory_parse : Memory → ℕ → Option ProtocolHeader
  memory_parse m protocol_size =
      if ltb protocol_size protocol_header_size
      then none
      else if m 0 == default_synchronous_word
      then (elim (phase_of_byte (m 1 / 16)) [
        | none ↦ none
        | some p ↦ elim (type_of_byte (bit_and (m 1) 0b00001111)) [
          | none ↦ none
          | some t ↦
              some (
                read_numbers m (record zero_header { synchronous_word = m 0; phase = p; type = t }))
        ]
      ])
      else none

  unfoldable pub set_protocol_order_and_size : Memory → ℕ → ℕ → Memory
  unfolding store16 htons
  set_protocol_order_and_size m order size =
      if is_little this.by
      then store16 host (store16 host m 2 (htons host order)) 4 (htons host size)
      else store16 host (store16 host m 2 order) 4 size

  unfoldable pub set_ack_accept_order : Memory → ℕ → Memory
  unfolding store16 htons
  set_ack_accept_order m order =
      if is_little this.by then store16 host m 24 (htons host order) else store16 host m 24 order

  unfoldable pub set_accept_min_order : Memory → ℕ → Memory
  unfolding store16 htons
  set_accept_min_order m order =
      if is_little this.by then store16 host m 6 (htons host order) else store16 host m 6 order

  unfoldable pub get_accept_min_order : Memory → ℕ
  unfolding load16 htons
  get_accept_min_order m =
      if is_little this.by then htons host (load16 host m 6) else load16 host m 6

-- Byte 1: the phase in the high half, the type in the low half.
unfoldable pub set_protocol_type : Memory → ProtocolType → Memory
set_protocol_type m t = store8 m 1 (bit_or (bit_and (m 1) 0b11110000) (type_byte t))

-- `none` is the exception "type error".
unfoldable pub get_protocol_type : Memory → Option ProtocolType
get_protocol_type m = type_of_byte (bit_and (m 1) 0b00001111)

unfoldable pub set_protocol_phase : Memory → CommunicationPhase → Memory
set_protocol_phase m p = store8 m 1 (bit_or (phase_byte p * 16) (bit_and (m 1) 0b00001111))

unfoldable pub get_protocol_phase : Memory → Option CommunicationPhase
get_protocol_phase m = phase_of_byte (m 1 / 16)

unfoldable pub get_send_count : ℕ → ℕ
get_send_count piece_count =
    if leb piece_count 3
    then 1
    else if ltb 3 piece_count && leb piece_count 10
    then 3
    else if ltb 10 piece_count && leb piece_count 1024
    then 5
    else 7
