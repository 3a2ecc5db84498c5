-- ===== src/Rpc/Header.antt =====
-- The header of a response: include/rpc/server/rpc_response_header.hpp.
use muse_rpc.Common.{ℕ, Bool, List, [], Outcome, ok, thrown}
use muse_rpc.Memory.{ByteSequence}
use muse_rpc.Serializer.Shape.{Shape, boolean, scalar, int32, user_class, end, field, Value}
use muse_rpc.Serializer.Writer.{Written, wrote, refused, input}

pub data RpcFailureReason : Type 0 where
  success : RpcFailureReason
  parameter_error : RpcFailureReason
  method_not_exist : RpcFailureReason
  client_inner_exception : RpcFailureReason
  server_inner_exception : RpcFailureReason
  method_execution_error : RpcFailureReason
  unexpected_return_value : RpcFailureReason

abbrev pub reason_number : RpcFailureReason → ℕ
reason_number success = 0
reason_number parameter_error = 1
reason_number method_not_exist = 2
reason_number client_inner_exception = 3
reason_number server_inner_exception = 4
reason_number method_execution_error = 5
reason_number unexpected_return_value = 6

pub record RpcResponseHeader : Type 0 where
  pub is_ok : Bool
  pub reason : ℕ

-- `MUSE_IBinarySerializable(ok, reason)`.
abbrev pub header_shape : Shape
header_shape = user_class (field boolean (field (scalar int32) end))

abbrev pub header_value : RpcResponseHeader → Value header_shape
header_value h = (h.is_ok, (h.reason, tt))

abbrev pub read_header : Value header_shape → RpcResponseHeader
read_header (is_ok, (reason, u)) = record { is_ok = is_ok; reason = reason }

-- The stream of a writer that returns; its exception otherwise.
abbrev pub written : Written → Outcome (List ℕ)
written (wrote stream) = ok stream
written (refused why stream) = thrown

abbrev pub header_of : Bool → RpcFailureReason → RpcResponseHeader
header_of is_ok reason = record { is_ok = is_ok; reason = reason_number reason }

-- `clear`, and the header.
unfoldable pub write_header : ByteSequence → RpcResponseHeader → Outcome (List ℕ)
write_header host header = written (input host header_shape (header_value header) [])
