-- ===== src/Client/ResponseData.antt =====
-- `ResponseData` of include/rpc/client/response_data.hpp and response_data.cpp: the answer that a client
-- puts together.
use muse_rpc.Common.{ℕ, Bool, true, false, List, [], replicate, if◌then◌else◌, Outcome, ok, ◌>>=◌}
use muse_rpc.Memory.{Memory}
use muse_rpc.Server.PieceState.{get_piece_state, set_piece_state, get_ack_number}

pub data FailureReason : Type 0 where
  no_failure : FailureReason
  the_server_resources_exhausted : FailureReason
  network_timeout : FailureReason
  the_running_logic_of_the_server_incorrect : FailureReason

-- `content` has `total_size` bytes once the response is initialised.
pub record ResponseData : Type 0 where
  pub message_id : ℕ
  pub piece_state : List Bool
  pub piece_count : ℕ
  pub total_size : ℕ
  pub is_initial : Bool
  pub is_success : Bool
  pub reason : FailureReason
  pub content : Memory

-- `getResponseData` of a factory.
unfoldable pub get_response_data : Memory → ResponseData
get_response_data unset = record {
  message_id = 0;
  piece_state = [];
  piece_count = 0;
  total_size = 0;
  is_initial = false;
  is_success = false;
  reason = no_failure;
  content = unset;
}

-- `allocated` is what the fresh block holds. Only the first call does something.
unfoldable pub initialize : ResponseData → ℕ → ℕ → ℕ → Memory → ResponseData
initialize r id pieces size allocated = if r.is_initial then r else (record r {
  piece_state = replicate pieces false;
  message_id = id;
  piece_count = pieces;
  total_size = size;
  content = allocated;
  is_initial = true;
})

unfoldable pub response_piece_state : ResponseData → ℕ → Outcome Bool
unfolding get_piece_state
response_piece_state r index = get_piece_state r.piece_state r.piece_count index

unfoldable pub response_set_piece_state : ResponseData → ℕ → Bool → Outcome (ResponseData × ℕ)
unfolding set_piece_state
response_set_piece_state r index value =
    set_piece_state r.piece_state r.piece_count index value >>= λ t.
    ok (record r { piece_state = t.0 }, t.1)

unfoldable pub response_ack_number : ResponseData → ℕ
unfolding get_ack_number
response_ack_number r = get_ack_number r.piece_state

unfoldable pub fail : ResponseData → FailureReason → ResponseData
fail r why = record r { is_success = false; reason = why }
