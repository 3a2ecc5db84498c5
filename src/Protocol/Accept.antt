-- ===== src/Protocol/Accept.antt =====
-- Which datagrams the parser of protocol.cpp accepts.
use muse_rpc.Common.{
  ℕ, ◌+◌, ◌*◌, ◌/◌, ◌^◌, ◌<◌, ◌≤◌, ◌≡◌, sym, ◌∙◌, true, arith, bit_and, some, Option-cases, inl,
  inr, ◌↔◌, ap,
}
use muse_rpc.Common.Bits.{low_nibble}
use muse_rpc.Memory.{Memory, IsByte, ByteSequence}
use muse_rpc.Protocol.Header.{
  CommunicationPhase, ProtocolType, phase_byte, type_byte, ProtocolHeader, InRange, phase_of_byte,
  type_of_byte, phase_byte-phase_of_byte, type_byte-type_of_byte,
}
use muse_rpc.Protocol.{
  Protocol, new_protocol, protocol_header_size, default_synchronous_word, parse,
}
use mathlib.Core.Path.{subst}
use muse_rpc.Protocol.Wire.{Encodes}
use muse_rpc.Protocol.Parse.{parse-Encodes}

-- The numbers of the wire format, most significant byte first.
abbrev decoded : Memory → CommunicationPhase → ProtocolType → ProtocolHeader
decoded m p t = record {
  synchronous_word = m 0;
  phase = p;
  type = t;
  piece_order = m 2 * 256 + m 3;
  piece_size = m 4 * 256 + m 5;
  accept_min_order = m 6 * 256 + m 7;
  time_point =
      (((m 8 * 256 + m 9) * 2 ^ 16 + (m 10 * 256 + m 11)) * 2 ^ 32)
      + ((m 12 * 256 + m 13) * 2 ^ 16 + (m 14 * 256 + m 15));
  total_count = m 16 * 256 + m 17;
  piece_standard_size = m 18 * 256 + m 19;
  total_size = (m 20 * 256 + m 21) * 2 ^ 16 + (m 22 * 256 + m 23);
  accept_order = m 24 * 256 + m 25;
}

record Bytes (m : Memory) : Type 0 where
  b2 : m 2 < 256
  b3 : m 3 < 256
  b4 : m 4 < 256
  b5 : m 5 < 256
  b6 : m 6 < 256
  b7 : m 7 < 256
  b8 : m 8 < 256
  b9 : m 9 < 256
  b10 : m 10 < 256
  b11 : m 11 < 256
  b12 : m 12 < 256
  b13 : m 13 < 256
  b14 : m 14 < 256
  b15 : m 15 < 256
  b16 : m 16 < 256
  b17 : m 17 < 256
  b18 : m 18 < 256
  b19 : m 19 < 256
  b20 : m 20 < 256
  b21 : m 21 < 256
  b22 : m 22 < 256
  b23 : m 23 < 256
  b24 : m 24 < 256
  b25 : m 25 < 256

all_Bytes : (m : Memory) → ((i : ℕ) → IsByte (m i)) → Bytes m
all_Bytes m h = record {
  b2 = h 2;
  b3 = h 3;
  b4 = h 4;
  b5 = h 5;
  b6 = h 6;
  b7 = h 7;
  b8 = h 8;
  b9 = h 9;
  b10 = h 10;
  b11 = h 11;
  b12 = h 12;
  b13 = h 13;
  b14 = h 14;
  b15 = h 15;
  b16 = h 16;
  b17 = h 17;
  b18 = h 18;
  b19 = h 19;
  b20 = h 20;
  b21 = h 21;
  b22 = h 22;
  b23 = h 23;
  b24 = h 24;
  b25 = h 25;
}

decoded-InRange :
    (m : Memory) (p : CommunicationPhase) (t : ProtocolType) → Bytes m → InRange (decoded m p t)
decoded-InRange m p t b = omega arith

decoded-Encodes :
    (m : Memory) (p : CommunicationPhase) (t : ProtocolType)
    → Bytes m
    → m 1 ≡ phase_byte p * 16 + type_byte t
    → Encodes m (decoded m p t)
decoded-Encodes m p t b k = omega arith

-- What a successful parse has tested.
record Tested (m : Memory) (size : ℕ) : Type 0 where
  found_phase : CommunicationPhase
  found_type : ProtocolType
  long_enough : protocol_header_size ≤ size
  synchronous : m 0 ≡ default_synchronous_word
  phase_known : phase_of_byte (m 1 / 16) ≡ some found_phase
  type_known : type_of_byte (bit_and (m 1) 0b00001111) ≡ some found_type

parse-Tested :
    (host : ByteSequence) (this : Protocol) (m : Memory) (size : ℕ)
    → (parse host this m size).1 ≡ true
    → Tested m size
unfolding parse
parse-Tested host this m size e = elim (Option-cases (phase_of_byte (m 1 / 16))) [
  | inl p ↦ absurd (ground arith)
  | inr (p, ep) ↦ elim (Option-cases (type_of_byte (bit_and (m 1) 0b00001111))) [
    | inl t ↦ absurd (ground arith)
    | inr (t, et) ↦ record {
      found_phase = p;
      found_type = t;
      long_enough = ground arith;
      synchronous = ground arith;
      phase_known = ep;
      type_known = et;
    }
  ]
]

kind_of_tested :
    (b : ℕ) (p : CommunicationPhase) (t : ProtocolType)
    → b < 256
    → phase_of_byte (b / 16) ≡ some p
    → type_of_byte (bit_and b 0b00001111) ≡ some t
    → b ≡ phase_byte p * 16 + type_byte t
kind_of_tested b p t hb hp ht = omega (
  arith,
  low_nibble b hb,
  phase_byte-phase_of_byte (b / 16) p hp,
  type_byte-type_of_byte (bit_and b 0b00001111) t ht,
)

-- On any datagram the parser succeeds with `header` exactly when the datagram is long enough, opens
-- with the synchronous word, and carries `header` in the wire format.
pub parse_accepts :
    (host : ByteSequence) (m : Memory) (size : ℕ) (header : ProtocolHeader)
    → ((i : ℕ) → IsByte (m i))
    → (parse host (new_protocol host) m size ≡ (header, true)) ↔ (
        (protocol_header_size ≤ size)
        × (m 0 ≡ default_synchronous_word)
        × InRange header
        × Encodes m header)
parse_accepts host m size header bytes = (there, back)
  where
    there :
        parse host (new_protocol host) m size ≡ (header, true)
        → (protocol_header_size ≤ size)
          × (m 0 ≡ default_synchronous_word)
          × InRange header
          × Encodes m header
    there e =
        let b = all_Bytes m bytes in
        let s = parse-Tested host (new_protocol host) m size (ap (λ r. r.1) e) in
        let w = decoded m s.found_phase s.found_type in
        let range = decoded-InRange m s.found_phase s.found_type b in
        let wire =
          decoded-Encodes m s.found_phase s.found_type b (
            kind_of_tested (m 1) s.found_phase s.found_type (bytes 1) s.phase_known s.type_known) in
        let same : w ≡ header =
          ap (λ r. r.0)
            (sym (parse-Encodes host m w size range wire s.synchronous s.long_enough) ∙ e) in
        (s.long_enough, s.synchronous, subst InRange same range, subst (Encodes m) same wire)

    back :
        (protocol_header_size ≤ size)
          × (m 0 ≡ default_synchronous_word)
          × InRange header
          × Encodes m header
        → parse host (new_protocol host) m size ≡ (header, true)
    back (h, s, r, e) = parse-Encodes host m header size r e (sym e.synchronous_word_at ∙ s) h
