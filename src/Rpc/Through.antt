-- ===== src/Rpc/Through.antt =====
-- A remote call through the middleware of both sides: include/rpc/rpc.cpp puts the compression before the route.
use muse_rpc.Common.{
  ℕ, ◌+◌, ◌^◌, ◌<◌, ◌≤◌, ◌≡◌, refl, ◌∙◌, true, false, List, [], ◌∷◌, ◌++◌, length, Option, some, ok,
}
use muse_rpc.Memory.{ByteSequence}
use muse_rpc.Serializer.Shape.{
  Shape, Shapes, text, tuple, shape_count, max_tuple_count, Value, Values, Fits,
}
use muse_rpc.Serializer.Writer.{wrote}
use muse_rpc.Serializer.Wire.{encoding}
use muse_rpc.Serializer.Portable.{KeepsCounts}
use muse_rpc.Client.ResponseData.{no_failure}
use muse_rpc.Rpc.Header.{header_of, success}
use muse_rpc.Rpc.Registry.{Registry, check, bind, call_bind}
use muse_rpc.Rpc.Route.{route_in}
use muse_rpc.Rpc.Caller.{CallOutcome, package_call, read_response}
use muse_rpc.Rpc.Calls.{
  header_bytes, request_bytes, routed_lem, output_first, package_call_lem, read_response_lem,
}
use muse_rpc.Rpc.Middleware.{MiddlewareService, IsUndone, client_in, client_out, passed_through}
use muse_rpc.Rpc.Trigger.{
  context_prefix, begins_with, add_context, prepare, trigger_task, trigger_task_lem,
}
use muse_rpc.Rpc.Context.{with_context, context_args, context_args-Fits, add_context_lem}
use muse_rpc.Serializer.Reader.{got, output}

-- `RouteService`, which gives everything out as it is.
abbrev pub route_service : ByteSequence → Registry → Registry → MiddlewareService
route_service host registry concurrent_registry = record {
  service_in = route_in host registry concurrent_registry;
  service_out = λ bytes. ok bytes;
}

-- The way of a call through both chains and the task of the server.
pub call_through :
    (server : ByteSequence) (services : List MiddlewareService)
    (registry concurrent_registry : Registry) (ip port : ℕ) (name request prepared reply : List ℕ)
    (position : ℕ)
    → IsUndone services request
    → IsUndone services reply
    → output server request text 0 ≡ got name position
    → prepare server ip port name request position ≡ ok prepared
    → route_in server registry concurrent_registry prepared ≡ ok reply
    → let chain = services ++ (route_service server registry concurrent_registry ∷ []) in
      (sent : List ℕ) × (returned : List ℕ) × (client_out chain request ≡ ok sent)
      × (trigger_task server chain ip port sent ≡ ok returned)
      × (client_in chain returned ≡ ok reply)
call_through server services registry concurrent_registry ip port name request prepared reply
      position u v a b d =
    let router = route_service server registry concurrent_registry in
    let (sent, returned, out, into, out', into') =
      passed_through services router request reply u v refl in
    (
      sent,
      returned,
      out,
      trigger_task_lem server services router ip port name sent request prepared reply returned
          position into a b d out',
      into',
    )

-- A request for a name without the prefix is given to the route as it is.
pub prepare_plain :
    (server : ByteSequence) (ip port : ℕ) (name bytes : List ℕ) (position : ℕ)
    → begins_with context_prefix name ≡ false
    → prepare server ip port name bytes position ≡ ok bytes
unfolding prepare
prepare_plain server ip port name bytes position e = rw e

prepare_context :
    (server : ByteSequence) (ip port : ℕ) (name bytes : List ℕ) (position : ℕ)
    → begins_with context_prefix name ≡ true
    → prepare server ip port name bytes position ≡ add_context server ip port bytes position
unfolding prepare
prepare_context server ip port name bytes position e = rw e refl

-- The value that a call ends with, and that all went well.
abbrev pub value_of : {R : Type 0} → R → CallOutcome R
value_of r = record {
  value = some r;
  response = header_of true success;
  protocol_reason = no_failure;
}

-- Let client and server have the same services before the route, which take back whatever they give out of less than
-- 4 GB; let a method be bound under a new name that does not begin with `@context/`, and return a value for the arguments
-- of a call; name, arguments and value are within the limits of the serializer and written in full, and request and
-- answer have less than 4 GB. Then the request goes out of the client's chain, the task of the server takes it in, runs
-- the method and gives out the answer, the client's chain takes that in, and the caller has exactly the method's value,
-- and is told that all went well.
pub remote_call_through :
    (client server : ByteSequence) (services : List MiddlewareService)
    (registry concurrent_registry : Registry) (ip port : ℕ) (name : List ℕ) (params : Shapes)
    (result : Shape) (func : Values params → Option (Value result)) (args : Values params)
    (r : Value result)
    → ((bytes : List ℕ) → length bytes < 256 ^ 4 → IsUndone services bytes)
    → begins_with context_prefix name ≡ false
    → check registry name ≡ false
    → Fits text name
    → Fits (tuple params) args
    → KeepsCounts client (tuple params)
    → func args ≡ some r
    → Fits result r
    → KeepsCounts server result
    → length (request_bytes name params args) < 256 ^ 4
    → length (header_bytes (header_of true success) ++ encoding result r) < 256 ^ 4
    → let chain =
        services
        ++ (route_service server
              (bind registry name (call_bind server params result func)).0
              concurrent_registry
            ∷ []) in
      (request : List ℕ) × (sent : List ℕ) × (returned : List ℕ) × (received : List ℕ)
      × (package_call client name params args ≡ wrote request)
      × (client_out chain request ≡ ok sent)
      × (trigger_task server chain ip port sent ≡ ok returned)
      × (client_in chain returned ≡ ok received)
      × (read_response client result received ≡ ok (value_of r))
remote_call_through client server services registry concurrent_registry ip port name params result
      func args r undone plain new n h k e g l small small' =
    let (sent, returned, out, answered, into) =
      call_through server services (bind registry name (call_bind server params result func)).0
        concurrent_registry ip port name _ _ _ _ (undone _ small) (undone _ small')
        (output_first server text name (encoding (tuple params) args) n)
        (prepare_plain server ip port name _ _ plain)
        (routed_lem server registry concurrent_registry name params result func args r new n h e g
          l) in
    (
      _,
      sent,
      returned,
      _,
      package_call_lem client name params args n h k,
      out,
      answered,
      into,
      read_response_lem client result r g,
    )

-- Let the name begin with `@context/`, and let the method bound under it have two parameters more than the call, for
-- the client's address and port, and return a value for the arguments of the call with the client's address and port
-- behind them; everything else as for a name without the prefix, and at most 62 arguments. Then the server adds them,
-- whatever the number and the types of the other arguments, and the caller has exactly the method's value.
pub context_call_through :
    (client server : ByteSequence) (services : List MiddlewareService)
    (registry concurrent_registry : Registry) (ip port : ℕ) (name : List ℕ) (params : Shapes)
    (result : Shape) (func : Values (with_context params) → Option (Value result))
    (args : Values params) (r : Value result)
    → ((bytes : List ℕ) → length bytes < 256 ^ 4 → IsUndone services bytes)
    → begins_with context_prefix name ≡ true
    → check registry name ≡ false
    → Fits text name
    → Fits (tuple params) args
    → shape_count params + 2 ≤ max_tuple_count
    → ip < 2 ^ 32
    → port < 2 ^ 16
    → KeepsCounts client (tuple params)
    → func (context_args params args ip port) ≡ some r
    → Fits result r
    → KeepsCounts server result
    → length (request_bytes name params args) < 256 ^ 4
    → length (header_bytes (header_of true success) ++ encoding result r) < 256 ^ 4
    → let chain =
        services
        ++ (route_service server
              (bind registry name (call_bind server (with_context params) result func)).0
              concurrent_registry
            ∷ []) in
      (request : List ℕ) × (sent : List ℕ) × (returned : List ℕ) × (received : List ℕ)
      × (package_call client name params args ≡ wrote request)
      × (client_out chain request ≡ ok sent)
      × (trigger_task server chain ip port sent ≡ ok returned)
      × (client_in chain returned ≡ ok received)
      × (read_response client result received ≡ ok (value_of r))
context_call_through client server services registry concurrent_registry ip port name params result
      func args r undone prefixed new n h few i p k e g l small small' =
    let fits = context_args-Fits params args ip port h few i p in
    let (sent, returned, out, answered, into) =
      call_through server services
        (bind registry name (call_bind server (with_context params) result func)).0
        concurrent_registry ip port name _ _ _ _ (undone _ small) (undone _ small')
        (output_first server text name (encoding (tuple params) args) n)
        (prepare_context server ip port name _ _ prefixed
          ∙ add_context_lem server name params args ip port few i p)
        (routed_lem server registry concurrent_registry name (with_context params) result func
          (context_args params args ip port) r new n fits e g l) in
    (
      _,
      sent,
      returned,
      _,
      package_call_lem client name params args n h k,
      out,
      answered,
      into,
      read_response_lem client result r g,
    )
