-- ===== src/Rpc/Calls.antt =====
-- A remote call and the call of the method itself: include/rpc/client/client.hpp, include/rpc/server/route_service.cpp
-- and registry.hpp.
use mathlib.Core.List.{append-nil}
use muse_rpc.Common.{
  ℕ, ◌+◌, ◌^◌, ◌<◌, ◌≡◌, refl, ap, ◌∙◌, true, false, List, [], ◌∷◌, ◌++◌, length, Option, some, ok,
  arith,
}
use muse_rpc.Memory.{ByteSequence}
use muse_rpc.Serializer.Shape.{Shape, Shapes, text, tuple, Value, Values, Fits}
use muse_rpc.Serializer.Writer.{wrote, after, input}
use muse_rpc.Serializer.Reader.{got, output}
use muse_rpc.Serializer.Wire.{encoding}
use muse_rpc.Serializer.RoundTrip.{output-Takes}
use muse_rpc.Serializer.Portable.{KeepsCounts, round_trip}
use muse_rpc.Client.ResponseData.{no_failure}
use muse_rpc.Rpc.Header.{
  RpcResponseHeader, header_shape, header_value, header_of, write_header, success,
}
use muse_rpc.Rpc.Registry.{
  Method, Registry, same_name, find_method, check, bind, run_ensured, call_bind,
}
use muse_rpc.Rpc.Route.{route_in}
use muse_rpc.Rpc.Caller.{package_call, read_response}

-- The bytes of a header, of a request and of an answer.
abbrev pub header_bytes : RpcResponseHeader → List ℕ
header_bytes h = encoding header_shape (header_value h)

abbrev pub request_bytes : List ℕ → (params : Shapes) → Values params → List ℕ
request_bytes name params args = encoding text name ++ encoding (tuple params) args

same_name_refl : (name : List ℕ) → same_name name name ≡ true
same_name_refl [] = refl
same_name_refl (x ∷ xs) = ground (arith, same_name_refl xs)

-- A reader at the start of a stream, and behind a first part.
pub output_first :
    (reader : ByteSequence) (s : Shape) (v : Value s) (rest : List ℕ)
    → Fits s v
    → output reader (encoding s v ++ rest) s 0 ≡ got v (length (encoding s v))
output_first reader s v rest h =
    output-Takes reader s v h [] rest ∙ ap (λ pos. got v pos) (omega arith)

pub output_second :
    (reader : ByteSequence) (s : Shape) (v : Value s) (stream : List ℕ)
    → Fits s v
    → output reader (stream ++ encoding s v) s (length stream)
      ≡ got v (length stream + length (encoding s v))
output_second reader s v stream h =
    rw (append-nil (encoding s v)) at (output-Takes reader s v h stream [])

module _ (host : ByteSequence) where
  pub write_header_lem :
      (h : RpcResponseHeader) → h.reason < 256 ^ 4 → write_header host h ≡ ok (header_bytes h)
  unfolding write_header
  write_header_lem h l =
      rw ((round_trip host host header_shape (header_value h) [] [] (tt, (l, tt)) (tt, (tt, tt))).0)

  pub package_call_lem :
      (name : List ℕ) (params : Shapes) (args : Values params)
      → Fits text name
      → Fits (tuple params) args
      → KeepsCounts host (tuple params)
      → package_call host name params args ≡ wrote (request_bytes name params args)
  unfolding package_call
  package_call_lem name params args h g k =
      rw ((round_trip host host text name [] [] h tt).0)
        ((round_trip host host (tuple params) args (encoding text name) [] g k).0)

  answer_lem :
      (result : Shape) (r : Value result)
      → Fits result r
      → KeepsCounts host result
      → after
          (input host header_shape (header_value (header_of true success)) [])
          (λ stream. input host result r stream)
        ≡ wrote (header_bytes (header_of true success) ++ encoding result r)
  answer_lem result r h k =
      rw
        ((round_trip host host header_shape (header_value (header_of true success)) [] []
          (tt, (omega arith, tt)) (tt, (tt, tt))).0)
        ((round_trip host host result r (header_bytes (header_of true success)) [] h k).0)

  call_bind_lem :
      (name : List ℕ) (params : Shapes) (result : Shape)
      (func : Values params → Option (Value result)) (args : Values params) (r : Value result)
      → Fits (tuple params) args
      → func args ≡ some r
      → Fits result r
      → KeepsCounts host result
      → call_bind host params result func
          (request_bytes name params args)
          (length (encoding text name))
        ≡ ok (header_bytes (header_of true success) ++ encoding result r)
  unfolding call_bind
  call_bind_lem name params result func args r h e g k =
      rw (output_second host (tuple params) args (encoding text name) h, call_bind)
        (rw e (rw (answer_lem result r g k)))

  find_method-bind :
      (registry : Registry) (name : List ℕ) (method : Method)
      → check registry name ≡ false
      → find_method (bind registry name method).0 name ≡ some method
  unfolding bind find_method
  find_method-bind registry name method e = rw e (rw (same_name_refl name))

  run_ensured-bind :
      (registry : Registry) (name : List ℕ) (method : Method) (stream : List ℕ) (position : ℕ)
      → check registry name ≡ false
      → run_ensured (bind registry name method).0 name stream position ≡ method stream position
  unfolding run_ensured
  run_ensured-bind registry name method stream position e =
      rw (find_method-bind registry name method e, run_ensured)

  check-bind :
      (registry : Registry) (name : List ℕ) (method : Method)
      → check registry name ≡ false
      → check (bind registry name method).0 name ≡ true
  unfolding check
  check-bind registry name method e = rw (find_method-bind registry name method e, check)

  -- The request of `call` for a bound name, on a server.
  pub route_in_lem :
      (registry concurrent_registry : Registry) (name : List ℕ) (method : Method)
      (rest reply : List ℕ)
      → Fits text name
      → check registry name ≡ false
      → method (encoding text name ++ rest) (length (encoding text name)) ≡ ok reply
      → route_in host (bind registry name method).0 concurrent_registry (encoding text name ++ rest)
        ≡ ok reply
  unfolding route_in
  route_in_lem registry concurrent_registry name method rest reply h e m =
      rw (output_first host text name rest h, route_in)
        (rw (check-bind registry name method e) (
          rw (
            run_ensured-bind registry name method (encoding text name ++ rest)
              (length (encoding text name)) e
            ∙ m)))

  pub read_response_lem :
      (result : Shape) (r : Value result)
      → Fits result r
      → read_response host result (header_bytes (header_of true success) ++ encoding result r)
        ≡ ok (record {
          value = some r;
          response = header_of true success;
          protocol_reason = no_failure;
        })
  unfolding read_response
  read_response_lem result r h =
      rw
        (
          output_first host header_shape (header_value (header_of true success)) (encoding result r)
              (tt, (omega arith, tt)),
          read_response,
        )
        (rw (output_second host result r (header_bytes (header_of true success)) h))

  -- The route runs the method and answers with its value.
  pub routed_lem :
      (registry concurrent_registry : Registry) (name : List ℕ) (params : Shapes) (result : Shape)
      (func : Values params → Option (Value result)) (args : Values params) (r : Value result)
      → check registry name ≡ false
      → Fits text name
      → Fits (tuple params) args
      → func args ≡ some r
      → Fits result r
      → KeepsCounts host result
      → route_in host
          (bind registry name (call_bind host params result func)).0
          concurrent_registry
          (request_bytes name params args)
        ≡ ok (header_bytes (header_of true success) ++ encoding result r)
  routed_lem registry concurrent_registry name params result func args r new n h e g l =
      route_in_lem registry concurrent_registry name (call_bind host params result func)
        (encoding (tuple params) args) _ n new
        (call_bind_lem name params result func args r h e g l)
