-- ===== src/Packets/Tests.antt =====
-- The theorems on datagrams at a concrete message: number 77, 600 bytes, its last piece.
use muse_rpc.Common.{◌%◌, ◌+◌, arith}
use muse_rpc.Memory.{Memory, zeroed, little_endian}
use muse_rpc.Protocol.Header.{response}
use muse_rpc.Protocol.Pieces.{IsMessageSize}
use muse_rpc.Server.Request.Receipt.{piece_header, Carries}
use muse_rpc.Packets.{request_piece, response_piece}
use muse_rpc.Packets.Parsed.{Reads, pieces_read}

abbrev whole : Memory
whole x = x % 251

abbrev six_hundred : IsMessageSize 600
six_hundred = record { some_bytes = omega arith; countable = omega arith }

pieces_read_example :
    Reads (request_piece little_endian zeroed 77 whole 600 1) (26 + 78) (piece_header 77 600 1)
    × Carries whole 600 1 (request_piece little_endian zeroed 77 whole 600 1)
    × Reads
        (response_piece little_endian zeroed 77 whole 600 1 78)
        (26 + 78)
        (record (piece_header 77 600 1) { phase = response })
    × Carries whole 600 1 (response_piece little_endian zeroed 77 whole 600 1 78)
pieces_read_example =
    pieces_read little_endian zeroed 77 (omega arith) whole 600 1 six_hundred (omega arith)
