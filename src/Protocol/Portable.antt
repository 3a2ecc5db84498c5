-- ===== src/Protocol/Portable.antt =====
-- The datagrams of protocol.cpp do not depend on the machine, and a call writes only the header.
use muse_rpc.Common.{ℕ, ◌^◌, ◌<◌, ◌≤◌, ◌≡◌, false, arith}
use muse_rpc.Memory.{
  Memory, ByteSequence, big_endian, little_endian, bytes_of, get_byte_sequence_lem,
}
use muse_rpc.Protocol.Header.{ProtocolHeader}
use muse_rpc.Protocol.{new_protocol, protocol_header_size, initiate_sender_protocol_header}
use muse_rpc.Protocol.Wire.{Encodes, initiate-Encodes}

-- Two buffers that carry the same header hold the same 26 bytes.
pub Encodes-bytes_of :
    (m m' : Memory) (header : ProtocolHeader)
    → Encodes m header
    → Encodes m' header
    → bytes_of m 0 protocol_header_size ≡ bytes_of m' 0 protocol_header_size
unfolding bytes_of
Encodes-bytes_of m m' header e e' = ground arith

-- A fresh header is sent as the same 26 bytes by a machine of either byte order, whatever the
-- buffers held before.
pub initiate_portable :
    (m m' : Memory) (time_point total_size size : ℕ)
    → time_point < 2 ^ 64
    → total_size < 2 ^ 32
    → protocol_header_size ≤ size
    → bytes_of
        (initiate_sender_protocol_header big_endian
          (new_protocol big_endian)
          m
          time_point
          total_size
          size).0
        0
        protocol_header_size
      ≡ bytes_of
          (initiate_sender_protocol_header little_endian
            (new_protocol little_endian)
            m'
            time_point
            total_size
            size).0
          0
          protocol_header_size
initiate_portable m m' t n size ht hn hs =
    Encodes-bytes_of _ _ _ (initiate-Encodes big_endian m t n size ht hn hs)
      (initiate-Encodes little_endian m' t n size ht hn hs)

-- A call that reports success has changed no byte behind the header, and a call on a buffer shorter
-- than the header changes nothing and reports failure.
pub initiate_frame :
    (host : ByteSequence) (m : Memory) (time_point total_size size i : ℕ)
    → ((protocol_header_size ≤ i
          → (initiate_sender_protocol_header host
                (new_protocol host)
                m
                time_point
                total_size
                size).0
              i
            ≡ m i)
        × (size < protocol_header_size
            → initiate_sender_protocol_header host (new_protocol host) m time_point total_size size
              ≡ (m, false)))
unfolding initiate_sender_protocol_header new_protocol
initiate_frame big_endian m t n size i =
    rw (get_byte_sequence_lem big_endian) ((λ h. ground arith), (λ h. ground arith))
initiate_frame little_endian m t n size i =
    rw (get_byte_sequence_lem little_endian) ((λ h. ground arith), (λ h. ground arith))
