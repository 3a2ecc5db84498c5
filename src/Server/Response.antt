-- ===== src/Server/Response.antt =====
-- `Response` of include/rpc/server/response.hpp and response.cpp: a response on its way to a client.
use muse_rpc.Common.{ℕ, ◌%◌, ◌^◌, ltb, if◌then◌else◌, Bool, true}
use muse_rpc.Memory.{Memory}
use muse_rpc.Protocol.Pieces.{last_piece_size_of}
use muse_rpc.Server.Servlet.{Servlet}

pub record Response : Type 0 where
  pub servlet : Servlet
  pub piece_count : ℕ
  pub last_piece_size : ℕ
  pub total_data_size : ℕ
  pub ack_accept : ℕ
  pub is_get_new_ack : Bool
  pub last_active : ℕ
  pub content : Memory

unfoldable pub new_response : Servlet → ℕ → ℕ → ℕ → Memory → Response
new_response servlet pieces data_size now content = record {
  servlet = servlet;
  piece_count = pieces;
  last_piece_size = last_piece_size_of data_size % 2 ^ 16;
  total_data_size = data_size;
  ack_accept = 0;
  is_get_new_ack = true;
  last_active = now;
  content = content;
}

unfoldable pub set_ack_accept : Response → ℕ → Response
set_ack_accept r new_ack =
    if ltb r.ack_accept new_ack then (record r { ack_accept = new_ack }) else r

unfoldable pub set_new_ack_state : Response → Bool → Response
set_new_ack_state r value = record r { is_get_new_ack = value }
