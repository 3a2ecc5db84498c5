-- ===== src/Server/Request.antt =====
-- `Request` of include/rpc/server/reqeust.hpp and request.cpp, and the receipt of one piece of it as
-- include/rpc/server/sub_reactor.cpp does it in two places.
pub mod Receipt
pub mod Reassembly
use muse_rpc.Common.{
  ℕ, ◌+◌, ◌*◌, ◌^◌, ◌≤◌, ◌<◌, ◌≡◌, Bool, true, false, ◌&&◌, List, Option, some, none, replicate,
  ltb, leb, if◌then◌else◌, Outcome, ok, thrown, undefined, ◌>>=◌,
}
use muse_rpc.Memory.{Memory, memcpy}
use muse_rpc.Protocol.Header.{ProtocolHeader}
use muse_rpc.Protocol.{protocol_header_size, full_piece_size}
use muse_rpc.Server.PieceState.{get_ack_number, get_piece_state, set_piece_state}
use muse_rpc.Server.Servlet.{Servlet}

-- `data` has `total_data_size` bytes. A socket is `none` for -1.
pub record Request : Type 0 where
  pub servlet : Servlet
  pub piece_state : List Bool
  pub piece_count : ℕ
  pub total_data_size : ℕ
  pub socket_fd : Option ℕ
  pub is_trigger : Bool
  pub active_dt : ℕ
  pub content : Memory

-- The constructor, with the freshly allocated `data`, whose bytes are whatever the pool held.
unfoldable pub new_request : ℕ → ℕ → ℕ → ℕ → ℕ → Memory → Request
new_request id port ip pieces data_size allocated = record {
  servlet = record { request_id = id; client_port = port; client_ip_address = ip };
  piece_state = replicate pieces false;
  piece_count = pieces;
  total_data_size = data_size;
  socket_fd = none;
  is_trigger = false;
  active_dt = 0;
  content = allocated;
}

unfoldable pub set_socket : Request → ℕ → Request
set_socket r fd = record r { socket_fd = some fd }

unfoldable pub trigger : Request → Request
trigger r = record r { is_trigger = true }

-- The receive buffers of the reactors.
abbrev pub buffer_size : ℕ
buffer_size = full_piece_size + 1

-- The copy of a piece's data to its place, `pieceStandardSize * pieceOrder` computed as an `int`.
-- It is undefined if it overflows, reads behind the buffer or writes behind the data.
unfoldable pub store_piece : Request → ProtocolHeader → Memory → Outcome Request
unfolding memcpy
store_piece r header buf =
    let offset = header.piece_standard_size * header.piece_order in
    if ltb offset (2 ^ 31)
      && leb (protocol_header_size + header.piece_size) buffer_size
      && leb (offset + header.piece_size) r.total_data_size
    then ok
        (record r { content = memcpy r.content offset buf protocol_header_size header.piece_size })
    else undefined

-- A piece of a request that is already kept, in `SubReactor::loop`: the request and the
-- acknowledgement number to send.
unfoldable pub receive_known : Request → ProtocolHeader → Memory → Outcome (Request × ℕ)
receive_known r header buf = do
  received ← get_piece_state r.piece_state r.piece_count header.piece_order
  if received then ok (r, get_ack_number r.piece_state) else (do
    r' ← store_piece r header buf
    (bits, ack) ← set_piece_state r'.piece_state r'.piece_count header.piece_order true
    ok (record r' { piece_state = bits }, ack))

-- The same in `SubReactor::dealWithNewConnection`, where a duplicate leaves the number at 0.
unfoldable pub receive_known_new_connection :
    Request → ProtocolHeader → Memory → Outcome (Request × ℕ)
receive_known_new_connection r header buf = do
  received ← get_piece_state r.piece_state r.piece_count header.piece_order
  if received then ok (r, 0) else (do
    r' ← store_piece r header buf
    (bits, ack) ← set_piece_state r'.piece_state r'.piece_count header.piece_order true
    ok (record r' { piece_state = bits }, ack))

-- The first piece of a request: the state of the piece is set before the data is allocated.
unfoldable pub receive_first :
    ℕ → ℕ → ℕ → ℕ → ProtocolHeader → Memory → Memory → Outcome (Request × ℕ)
unfolding new_request set_socket
receive_first port ip fd now header allocated buf = do
  let r =
      set_socket
        (new_request header.time_point port ip header.total_count header.total_size allocated) fd
  (bits, ack) ← set_piece_state r.piece_state r.piece_count header.piece_order true
  r' ← store_piece (record r { piece_state = bits; active_dt = now }) header buf
  ok (r', ack)
