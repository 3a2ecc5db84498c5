-- ===== src/Rpc/Tests.antt =====
-- A division that a client calls, with the compression in between, and the theorems there.
use muse_rpc.Common.{
  ◌+◌, ℕ, zero, suc, ◌/◌, ◌≡◌, refl, ap, sym, ◌==◌, false, if◌then◌else◌, List, [], ◌∷◌, ◌++◌,
  length, Option, some, none, ok, arith, ◌<◌, ◌^◌,
}
use muse_rpc.Memory.{big_endian, little_endian}
use muse_rpc.Serializer.Shape.{Shapes, scalar, uint32, end, field, Values}
use muse_rpc.Serializer.Writer.{wrote}
use muse_rpc.Client.ResponseData.{network_timeout}
use muse_rpc.Rpc.Header.{header_of, success, method_not_exist, method_execution_error}
use muse_rpc.Rpc.Registry.{Method, find_method, bind, check, call_bind}
use muse_rpc.Rpc.Route.{route_in}
use muse_rpc.Rpc.Caller.{package_call, read_response, call_result, call_result_void, new_outcome}
use muse_rpc.Rpc.Middleware.{MiddlewareService, IsUndone, client_in, client_out}
use muse_rpc.Rpc.Zlib.{IsCompression, zlib_service, zlib_service-IsUndone}
use muse_rpc.Rpc.Through.{route_service, value_of, remote_call_through, context_call_through}
use muse_rpc.Rpc.Trigger.{context_prefix, trigger_task}
use muse_rpc.Rpc.Context.{with_context}
use muse_rpc.Rpc.Refusals.{refused_for, unknown_method, failed_method, bound_kept}

abbrev div_name : List ℕ
div_name = 100 ∷ 105 ∷ 118 ∷ []

abbrev mod_name : List ℕ
mod_name = 109 ∷ 111 ∷ 100 ∷ []

abbrev two_numbers : Shapes
two_numbers = field (scalar uint32) (field (scalar uint32) end)

abbrev divide : Values two_numbers → Option ℕ
divide (a, (b, u)) = if b == 0 then none else some (a / b)

abbrev divider : Method
divider = call_bind big_endian two_numbers (scalar uint32) divide

-- A compression that keeps the data, and reads as much as fits.
abbrev keep : ℕ → List ℕ → Option (List ℕ)
keep limit bytes = some bytes

abbrev front : ℕ → List ℕ → List ℕ
front zero bytes = []
front (suc n) [] = []
front (suc n) (b ∷ bytes) = b ∷ front n bytes

abbrev unkeep : ℕ → List ℕ → Option (List ℕ)
unkeep limit bytes = some (front limit bytes)

abbrev zlib : MiddlewareService
zlib = zlib_service little_endian (λ n. n) keep unkeep (0 ∷ 0 ∷ 0 ∷ 0 ∷ [])

front-append : (bytes behind : List ℕ) → front (length bytes) (bytes ++ behind) ≡ bytes
front-append [] behind = refl
front-append (b ∷ bytes) behind = ap {B = List ℕ} (λ r. b ∷ r) (front-append bytes behind)

kept_whole :
    (bytes out behind : List ℕ)
    → some bytes ≡ some out
    → unkeep (length bytes) (out ++ behind) ≡ some bytes
kept_whole bytes out behind e =
    let same : bytes ≡ out = ground (arith, e) in
    rw (sym same) (ap {B = Option (List ℕ)} (λ r. some r) (front-append bytes behind))

keep-IsCompression : IsCompression (λ n. n) keep unkeep
keep-IsCompression = record {
  compresses = λ bytes. (bytes, refl, omega arith);
  restores = λ bytes out behind limit e. kept_whole bytes out behind e;
}

divide_tests : (divide (7, (2, tt)) ≡ some 3) × (divide (7, (0, tt)) ≡ none)
divide_tests = (refl, refl)

-- The reason of a protocol's failure is lost where the method has a result.
reason_tests :
    (call_result little_endian (scalar uint32) false network_timeout [] ≡ ok new_outcome)
    × (call_result_void little_endian false network_timeout []
        ≡ ok (record {
          value = none;
          response = header_of false success;
          protocol_reason = network_timeout;
        }))
unfolding call_result call_result_void
reason_tests = (refl, refl)

zlib_service-IsUndone_example : IsUndone (zlib ∷ []) (1 ∷ 2 ∷ 3 ∷ [])
zlib_service-IsUndone_example =
    zlib_service-IsUndone little_endian (λ n. n) keep unkeep (0 ∷ 0 ∷ 0 ∷ 0 ∷ []) keep-IsCompression
      (1 ∷ 2 ∷ 3 ∷ []) (omega arith)

zlib-IsUndone : (bytes : List ℕ) → length bytes < 256 ^ 4 → IsUndone (zlib ∷ []) bytes
zlib-IsUndone bytes h =
    zlib_service-IsUndone little_endian (λ n. n) keep unkeep (0 ∷ 0 ∷ 0 ∷ 0 ∷ []) keep-IsCompression
      bytes h

nothing_bound : check [] div_name ≡ false
unfolding check find_method
nothing_bound = refl

nothing_bound_mod : check [] mod_name ≡ false
unfolding check find_method
nothing_bound_mod = refl

div_found : find_method ((div_name, divider) ∷ []) div_name ≡ some divider
unfolding find_method
div_found = refl

remote_call_through_example :
    let chain = (zlib ∷ []) ++ (route_service big_endian (bind [] div_name divider).0 [] ∷ []) in
    (request : List ℕ) × (sent : List ℕ) × (returned : List ℕ) × (received : List ℕ) × (package_call
        little_endian div_name two_numbers
        (7, (2, tt))
      ≡ wrote request)
    × (client_out chain request ≡ ok sent)
    × (trigger_task big_endian chain 100 4000 sent ≡ ok returned)
    × (client_in chain returned ≡ ok received)
    × (read_response little_endian (scalar uint32) received ≡ ok (value_of 3))
remote_call_through_example =
    remote_call_through little_endian big_endian (zlib ∷ []) [] [] 100 4000 div_name two_numbers
      (scalar uint32) divide (7, (2, tt)) 3 zlib-IsUndone refl nothing_bound (omega arith)
      (omega arith, (omega arith, (omega arith, tt))) (tt, (tt, tt)) refl (omega arith) tt
      (omega arith) (omega arith)

-- `@context/age`: the caller gives a number, and the method is told the address and the port as well.
abbrev age_name : List ℕ
age_name = context_prefix ++ (97 ∷ 103 ∷ 101 ∷ [])

abbrev age : Values (with_context (field (scalar uint32) end)) → Option ℕ
age (a, (ip, (port, u))) = some (a + port)

no_age : check [] age_name ≡ false
unfolding check find_method
no_age = refl

context_call_through_example :
    let chain =
      (zlib ∷ [])
      ++ (route_service big_endian
            (bind [] age_name (
              call_bind big_endian
                (with_context (field (scalar uint32) end))
                (scalar uint32)
                age)).0
            []
          ∷ []) in
    (request : List ℕ) × (sent : List ℕ) × (returned : List ℕ) × (received : List ℕ) × (package_call
        little_endian age_name
        (field (scalar uint32) end)
        (7, tt)
      ≡ wrote request)
    × (client_out chain request ≡ ok sent)
    × (trigger_task big_endian chain 100 4000 sent ≡ ok returned)
    × (client_in chain returned ≡ ok received)
    × (read_response little_endian (scalar uint32) received ≡ ok (value_of 4007))
context_call_through_example =
    context_call_through little_endian big_endian (zlib ∷ []) [] [] 100 4000 age_name
      (field (scalar uint32) end) (scalar uint32) age (7, tt) 4007 zlib-IsUndone refl no_age
      (omega arith) (omega arith, (omega arith, tt)) (omega arith) (omega arith) (omega arith)
      (tt, tt) refl (omega arith) tt (omega arith) (omega arith)

unknown_method_example :
    (request : List ℕ) × (answer : List ℕ) × (package_call little_endian mod_name two_numbers
        (7, (2, tt))
      ≡ wrote request)
    × (route_in big_endian [] [] request ≡ ok answer)
    × (read_response little_endian (scalar uint32) answer ≡ ok (refused_for method_not_exist))
unknown_method_example =
    unknown_method little_endian big_endian [] [] mod_name two_numbers (scalar uint32) (7, (2, tt))
      nothing_bound_mod nothing_bound_mod (omega arith)
      (omega arith, (omega arith, (omega arith, tt))) (tt, (tt, tt))

failed_method_example :
    let chain = (zlib ∷ []) ++ (route_service big_endian (bind [] div_name divider).0 [] ∷ []) in
    (request : List ℕ) × (sent : List ℕ) × (returned : List ℕ) × (received : List ℕ) × (package_call
        little_endian div_name two_numbers
        (7, (0, tt))
      ≡ wrote request)
    × (client_out chain request ≡ ok sent)
    × (trigger_task big_endian chain 100 4000 sent ≡ ok returned)
    × (client_in chain returned ≡ ok received)
    × (read_response little_endian (scalar uint32) received
        ≡ ok (refused_for method_execution_error))
failed_method_example =
    failed_method little_endian big_endian (zlib ∷ []) [] [] 100 4000 div_name two_numbers
      (scalar uint32) divide (7, (0, tt)) zlib-IsUndone refl nothing_bound refl (omega arith)
      (omega arith, (omega arith, (omega arith, tt))) (tt, (tt, tt)) (omega arith)

bound_kept_example :
    find_method (bind ((div_name, divider) ∷ []) mod_name divider).0 div_name ≡ some divider
bound_kept_example =
    bound_kept ((div_name, divider) ∷ []) div_name mod_name divider divider div_found
