-- ===== src/Rpc/Caller.antt =====
-- The caller's side of a remote call: include/rpc/client/client.hpp and outcome.hpp.
use muse_rpc.Common.{
  ℕ, Bool, true, false, if◌then◌else◌, List, [], Option, some, none, Outcome, ok, undefined,
}
use muse_rpc.Memory.{ByteSequence}
use muse_rpc.Serializer.Shape.{Shape, Shapes, text, tuple, Value, Values}
use muse_rpc.Serializer.Writer.{Written, after, input}
use muse_rpc.Serializer.Reader.{got, failed, overrun, output}
use muse_rpc.Client.ResponseData.{FailureReason, no_failure}
use muse_rpc.Rpc.Header.{
  RpcResponseHeader, header_shape, read_header, header_of, success, unexpected_return_value,
}

-- `Outcome<R>`; the value is `none` until it is read.
pub record CallOutcome (R : Type 0) : Type 0 where
  pub value : Option R
  pub response : RpcResponseHeader
  pub protocol_reason : FailureReason

abbrev pub is_no_failure : FailureReason → Bool
is_no_failure no_failure = true
is_no_failure reason = false

unfoldable pub is_ok_outcome : {R : Type 0} → CallOutcome R → Bool
is_ok_outcome o = if o.response.is_ok then is_no_failure o.protocol_reason else false

-- A new outcome, with the header that its constructor makes.
abbrev pub new_outcome : {R : Type 0} → CallOutcome R
new_outcome = record {
  value = none;
  response = header_of false success;
  protocol_reason = no_failure;
}

abbrev pub unexpected : {R : Type 0} → CallOutcome R
unexpected = record {
  value = none;
  response = header_of false unexpected_return_value;
  protocol_reason = no_failure;
}

module _ (host : ByteSequence) where
  -- The request of `call`: the name and the tuple of arguments.
  unfoldable pub package_call : (name : List ℕ) (params : Shapes) → Values params → Written
  package_call name params args =
      after (input host text name []) (λ stream. input host (tuple params) args stream)

  -- What `call` makes of the data of a response that arrived, for a method with a result.
  unfoldable pub read_response : (result : Shape) → List ℕ → Outcome (CallOutcome (Value result))
  read_response result bytes = elim (output host bytes header_shape 0) [
    | got header position ↦
        (let h = read_header header in
          if h.is_ok
          then (elim (output host bytes result position) [
            | got v position' ↦
                ok (record { value = some v; response = h; protocol_reason = no_failure })
            | failed why position' ↦ ok unexpected
            | overrun ↦ undefined
          ])
          else ok (record { value = none; response = h; protocol_reason = no_failure }))
    | failed why position ↦ ok unexpected
    | overrun ↦ undefined
  ]

  -- The same for a method without a result.
  unfoldable pub read_response_void : List ℕ → Outcome (CallOutcome (Unit {0}))
  read_response_void bytes = elim (output host bytes header_shape 0) [
    | got header position ↦
        ok (record { value = none; response = read_header header; protocol_reason = no_failure })
    | failed why position ↦ ok unexpected
    | overrun ↦ undefined
  ]

  -- `call` after `Invoker::request`: whether the response arrived, the failure of the protocol, and the data. With
  -- a result, the failure is compared where it should be assigned.
  unfoldable pub call_result :
      (result : Shape)
      → (is_ok : Bool) → FailureReason
      → List ℕ
      → Outcome (CallOutcome (Value result))
  unfolding read_response
  call_result result is_ok reason bytes =
      if is_ok then read_response result bytes else ok new_outcome

  unfoldable pub call_result_void :
      (is_ok : Bool) → FailureReason → List ℕ → Outcome (CallOutcome (Unit {0}))
  unfolding read_response_void
  call_result_void is_ok reason bytes =
      if is_ok
      then read_response_void bytes
      else ok
          (record { value = none; response = header_of false success; protocol_reason = reason })
