-- ===== src/Rpc/Refusals.antt =====
-- Remote calls that come to no value: include/rpc/server/route_service.cpp and registry.hpp, and what
-- include/rpc/client/client.hpp makes of their answers.
use muse_rpc.Common.{
  ◌++◌, List, [], ◌∷◌, Bool-cases, ℕ, ◌^◌, ◌<◌, ◌≡◌, inl, inr, refl, sym, ap, ◌∙◌, true, false,
  Option, some, none, ok, arith, length,
}
use mathlib.Core.List.{append-nil}
use muse_rpc.Memory.{ByteSequence}
use muse_rpc.Serializer.Shape.{Shape, Shapes, text, tuple, Value, Values, Fits}
use muse_rpc.Serializer.Writer.{wrote}
use muse_rpc.Serializer.Reader.{output}
use muse_rpc.Serializer.Wire.{encoding}
use muse_rpc.Serializer.Portable.{KeepsCounts}
use muse_rpc.Client.ResponseData.{no_failure}
use muse_rpc.Rpc.Header.{
  header_shape, header_value, header_of, RpcFailureReason, reason_number, success, parameter_error,
  method_not_exist, client_inner_exception, server_inner_exception, method_execution_error,
  unexpected_return_value,
}
use muse_rpc.Rpc.Registry.{Method, Registry, same_name, find_method, check, bind, call_bind}
use muse_rpc.Rpc.Route.{route_in}
use muse_rpc.Rpc.Caller.{CallOutcome, package_call, read_response}
use muse_rpc.Rpc.Middleware.{MiddlewareService, IsUndone, client_in, client_out}
use muse_rpc.Rpc.Trigger.{context_prefix, begins_with, trigger_task}
use muse_rpc.Rpc.Through.{route_service, call_through, prepare_plain}
use muse_rpc.Rpc.Calls.{
  header_bytes, request_bytes, write_header_lem, package_call_lem, output_first, output_second,
  route_in_lem,
}

-- The outcome of a call that the server refused.
abbrev pub refused_for : {R : Type 0} → RpcFailureReason → CallOutcome R
refused_for reason = record {
  value = none;
  response = header_of false reason;
  protocol_reason = no_failure;
}

reason_number-lt : (reason : RpcFailureReason) → reason_number reason < 256 ^ 4
reason_number-lt success = omega arith
reason_number-lt parameter_error = omega arith
reason_number-lt method_not_exist = omega arith
reason_number-lt client_inner_exception = omega arith
reason_number-lt server_inner_exception = omega arith
reason_number-lt method_execution_error = omega arith
reason_number-lt unexpected_return_value = omega arith

read_refusal :
    (client : ByteSequence) (result : Shape) (reason : RpcFailureReason)
    → read_response client result (header_bytes (header_of false reason)) ≡ ok (refused_for reason)
unfolding read_response
read_refusal client result reason = rw (
  (ap (λ bytes. output client bytes header_shape 0)
        (sym (append-nil (header_bytes (header_of false reason))))
      ∙ output_first client header_shape (header_value (header_of false reason)) []
          (tt, (reason_number-lt reason, tt))),
  read_response,
)

-- Let a client call a name that neither registry of the server knows; name and arguments are within the limits of
-- the serializer and written in full. Then the server answers, and the client is told that the method does not
-- exist, and has no value.
pub unknown_method :
    (client server : ByteSequence) (registry concurrent_registry : Registry) (name : List ℕ)
    (params : Shapes) (result : Shape) (args : Values params)
    → check registry name ≡ false
    → check concurrent_registry name ≡ false
    → Fits text name
    → Fits (tuple params) args
    → KeepsCounts client (tuple params)
    → (request : List ℕ) × (answer : List ℕ) × (package_call client name params args
        ≡ wrote request)
      × (route_in server registry concurrent_registry request ≡ ok answer)
      × (read_response client result answer ≡ ok (refused_for method_not_exist))
unfolding route_in
unknown_method client server registry concurrent_registry name params result args new new' n h k = (
  request_bytes name params args,
  header_bytes (header_of false method_not_exist),
  package_call_lem client name params args n h k,
  rw (output_first server text name (encoding (tuple params) args) n, route_in)
      (rw new (rw new' (write_header_lem server (header_of false method_not_exist) (omega arith)))),
  read_refusal client result method_not_exist,
)

failed_answer :
    (server : ByteSequence) (registry concurrent_registry : Registry) (name : List ℕ)
    (params : Shapes) (result : Shape) (func : Values params → Option (Value result))
    (args : Values params)
    → check registry name ≡ false
    → func args ≡ none
    → Fits text name
    → Fits (tuple params) args
    → route_in server
        (bind registry name (call_bind server params result func)).0
        concurrent_registry
        (request_bytes name params args)
      ≡ ok (header_bytes (header_of false method_execution_error))
unfolding call_bind
failed_answer server registry concurrent_registry name params result func args new e n h =
    route_in_lem server registry concurrent_registry name (call_bind server params result func)
      (encoding (tuple params) args) _ n new
      (rw (output_second server (tuple params) args (encoding text name) h, call_bind)
        (rw e (write_header_lem server (header_of false method_execution_error) (omega arith))))

-- Let client and server have the same services before the route, which take back whatever they give out of less than
-- 4 GB, and let a client call a method that throws for its arguments, bound under a new name that does not begin with
-- `@context/`; name and arguments are within the limits of the serializer and written in full, and the request has less
-- than 4 GB. Then the task of the server gives out an answer, and the client is told that the method failed, and has
-- no value.
pub failed_method :
    (client server : ByteSequence) (services : List MiddlewareService)
    (registry concurrent_registry : Registry) (ip port : ℕ) (name : List ℕ) (params : Shapes)
    (result : Shape) (func : Values params → Option (Value result)) (args : Values params)
    → ((bytes : List ℕ) → length bytes < 256 ^ 4 → IsUndone services bytes)
    → begins_with context_prefix name ≡ false
    → check registry name ≡ false
    → func args ≡ none
    → Fits text name
    → Fits (tuple params) args
    → KeepsCounts client (tuple params)
    → length (request_bytes name params args) < 256 ^ 4
    → let chain =
        services
        ++ (route_service server
              (bind registry name (call_bind server params result func)).0
              concurrent_registry
            ∷ []) in
      (request : List ℕ) × (sent : List ℕ) × (returned : List ℕ) × (received : List ℕ)
      × (package_call client name params args ≡ wrote request)
      × (client_out chain request ≡ ok sent)
      × (trigger_task server chain ip port sent ≡ ok returned)
      × (client_in chain returned ≡ ok received)
      × (read_response client result received ≡ ok (refused_for method_execution_error))
failed_method client server services registry concurrent_registry ip port name params result func
      args undone plain new e n h k small =
    let (sent, returned, out, answered, into) =
      call_through server services (bind registry name (call_bind server params result func)).0
        concurrent_registry ip port name _ _ _ _ (undone _ small) (undone _ (omega arith))
        (output_first server text name (encoding (tuple params) args) n)
        (prepare_plain server ip port name _ _ plain)
        (failed_answer server registry concurrent_registry name params result func args new e n
          h) in
    (
      _,
      sent,
      returned,
      _,
      package_call_lem client name params args n h k,
      out,
      answered,
      into,
      read_refusal client result method_execution_error,
    )

same_name-eq : (xs ys : List ℕ) → same_name xs ys ≡ true → xs ≡ ys
same_name-eq [] [] e = refl
same_name-eq [] (y ∷ ys) e = absurd (ground (arith, e))
same_name-eq (x ∷ xs) [] e = absurd (ground (arith, e))
same_name-eq (x ∷ xs) (y ∷ ys) e = ground (arith, same_name-eq xs ys)

known_name :
    (registry : Registry) (name : List ℕ) (method : Method)
    → find_method registry name ≡ some method
    → check registry name ≡ true
unfolding check
known_name registry name method e = rw (e, check)

new_name :
    (registry : Registry) (name name' : List ℕ) (method : Method)
    → find_method registry name ≡ some method
    → check registry name' ≡ false
    → same_name name' name ≡ false
new_name registry name name' method e new = elim (Bool-cases (same_name name' name)) [
  | inl same ↦ absurd (
      ground (
        arith,
        new,
        rw (sym (same_name-eq name' name same)) at (known_name registry name method e),
      ))
  | inr other ↦ other
]

-- A method that is bound stays bound under its name, whatever is bound afterwards.
pub bound_kept :
    (registry : Registry) (name name' : List ℕ) (method method' : Method)
    → find_method registry name ≡ some method
    → find_method (bind registry name' method').0 name ≡ some method
unfolding find_method bind
bound_kept registry name name' method method' e = elim (Bool-cases (check registry name')) [
  | inl known ↦ rw known e
  | inr new ↦ rw (new) (rw (new_name registry name name' method e new) e)
]
