-- ===== src/Protocol/Tests.antt =====
-- Headers written and parsed at concrete inputs, and the theorems at inputs that meet their
-- hypotheses.
use muse_rpc.Common.{
  ◌*◌, ◌+◌, ◌≤◌, ◌↔◌, ℕ, ◌-◌, ◌≡◌, ◌<◌, refl, [], ◌∷◌, ◌==◌, true, arith, if◌then◌else◌,
}
use muse_rpc.Memory.{Memory, IsByte, zeroed, big_endian, little_endian, bytes_of, get_byte_sequence}
use muse_rpc.Protocol.Header.{InRange}
use muse_rpc.Protocol.{
  new_protocol, initiate_sender_protocol_header, parse, protocol_header_size,
  default_synchronous_word, default_piece_limit_size, piece_count_of,
}
use muse_rpc.Protocol.Wire.{Encodes, initial_header, initiate-Encodes}
use muse_rpc.Protocol.Accept.{parse_accepts}
use muse_rpc.Protocol.Portable.{initiate_portable}
use muse_rpc.Protocol.Pieces.{pieces_cover, last_piece_size_of}

initiate-Encodes_example :
    Encodes
      (initiate_sender_protocol_header little_endian
        (new_protocol little_endian)
        zeroed
        77
        600
        26).0
      (initial_header 77 600)
initiate-Encodes_example =
    initiate-Encodes little_endian zeroed 77 600 26 (omega arith) (omega arith) (omega arith)

-- Message 77 of 600 bytes, on a little-endian machine.
fresh_bytes :
    bytes_of
      (initiate_sender_protocol_header little_endian
        (new_protocol little_endian)
        zeroed
        77
        600
        26).0
      0
      26
    ≡ 240 ∷ 0 ∷ 0 ∷ 0 ∷ 0 ∷ 26 ∷ 0 ∷ 0 ∷ 0 ∷ 0 ∷ 0 ∷ 0 ∷ 0 ∷ 0 ∷ 0 ∷ 77 ∷ 0 ∷ 2 ∷ 2 ∷ 10 ∷ 0 ∷ 0 ∷ 2
      ∷ 88 ∷ 0 ∷ 0 ∷ []
unfolding bytes_of initiate_sender_protocol_header new_protocol get_byte_sequence
fresh_bytes = refl

-- A fixed datagram: the bytes of that header, and zeros behind it.
abbrev datagram : Memory
datagram i =
    if i == 0
    then 240
    else if i == 5
    then 26
    else if i == 15
    then 77
    else if i == 17
    then 2
    else if i == 18
    then 2
    else if i == 19
    then 10
    else if i == 22
    then 2
    else if i == 23
    then 88
    else 0

datagram-IsByte : (i : ℕ) → IsByte (datagram i)
datagram-IsByte i = ground arith

parse_accepts_example :
    (parse big_endian (new_protocol big_endian) datagram 26 ≡ (initial_header 77 600, true)) ↔ (
      (protocol_header_size ≤ 26)
      × (datagram 0 ≡ default_synchronous_word)
      × InRange (initial_header 77 600)
      × Encodes datagram (initial_header 77 600))
parse_accepts_example = parse_accepts big_endian datagram 26 (initial_header 77 600) datagram-IsByte

datagram_parsed :
    parse big_endian (new_protocol big_endian) datagram 26 ≡ (initial_header 77 600, true)
datagram_parsed = parse_accepts_example.1 (omega arith)

initiate_portable_example :
    bytes_of
      (initiate_sender_protocol_header big_endian (new_protocol big_endian) zeroed 77 600 26).0
      0
      26
    ≡ bytes_of
        (initiate_sender_protocol_header little_endian
          (new_protocol little_endian)
          datagram
          77
          600
          26).0
        0
        26
initiate_portable_example =
    initiate_portable zeroed datagram 77 600 26 (omega arith) (omega arith) (omega arith)

pieces_cover_example :
    (0 < piece_count_of 600)
    × ((piece_count_of 600 - 1) * default_piece_limit_size + last_piece_size_of 600 ≡ 600)
    × (0 < last_piece_size_of 600)
    × (last_piece_size_of 600 ≤ default_piece_limit_size)
pieces_cover_example = pieces_cover 600 (omega arith) (omega arith)
