-- ===== src/Transfer/Tests.antt =====
-- The transfer of a message of ten bytes, in one piece.
use muse_rpc.Common.{◌≡◌, ◌≢◌, refl, ◌%◌, none, some, true, false, [], ◌∷◌, arith}
use muse_rpc.Memory.{Memory, memcpy, zeroed, big_endian, little_endian}
use muse_rpc.Packets.{request_piece}
use muse_rpc.Packets.Parsed.{pieces_read}
use muse_rpc.Protocol.Pieces.{IsMessageSize}
use muse_rpc.Server.PieceState.{get_ack_number, set_piece_state}
use muse_rpc.Server.Request.{Request, receive_first, store_piece}
use muse_rpc.Server.Request.Receipt.{Carries}
use muse_rpc.Client.Invoker.{Caller, start}
use muse_rpc.Transfer.{
  Transfer, Arriving, sending, arrived, Move, Step, first_piece, begin, stage, Holds,
}
use muse_rpc.Transfer.Refines.{transfer_refines}

abbrev caller : Caller
caller = record {
  host = big_endian;
  raw = zeroed;
  allocated = zeroed;
  message_id = 77;
  client_out = λ m n. (m, n);
  client_in = λ m n. (m, n);
}

abbrev whole : Memory
whole x = x % 251

abbrev ten : IsMessageSize 10
ten = record { some_bytes = omega arith; countable = omega arith }

abbrev piece : Memory
piece = request_piece little_endian zeroed 77 whole 10 0

piece-Carries : Carries whole 10 0 piece
piece-Carries = (pieces_read little_endian zeroed 77 (omega arith) whole 10 0 ten (omega arith)).1

abbrev nothing_there : Arriving
nothing_there = record { port = 5; ip = 6; fd = 7; now = 8; allocated = zeroed }

abbrev before : Transfer
before = record { server = none; client = start zeroed []; acks = [] }

-- The server's request with its only piece in.
abbrev received : Request
received = record {
  servlet = record { request_id = 77; client_port = 5; client_ip_address = 6 };
  piece_state = true ∷ [];
  piece_count = 1;
  total_data_size = 10;
  socket_fd = some 7;
  is_trigger = false;
  active_dt = 8;
  content = memcpy zeroed 0 piece 26 10;
}

abbrev afterwards : Transfer
afterwards = record { server = some received; client = start zeroed []; acks = 1 ∷ [] }

piece_arrives : Step caller whole 10 before afterwards
unfolding receive_first set_piece_state store_piece get_ack_number memcpy
piece_arrives = first_piece nothing_there 0 piece received 1 (omega arith) piece-Carries refl refl

transfer_refines_example :
    Move (stage caller whole 10 before) (stage caller whole 10 afterwards)
    × (stage caller whole 10 afterwards ≢ sending → Holds whole 10 afterwards.server)
transfer_refines_example =
    transfer_refines caller whole 10 ten before afterwards (begin (start zeroed []) refl)
      piece_arrives

-- That step is the arrival of the message.
view_moves : (stage caller whole 10 before ≡ sending) × (stage caller whole 10 afterwards ≡ arrived)
unfolding get_ack_number
view_moves = (refl, refl)
