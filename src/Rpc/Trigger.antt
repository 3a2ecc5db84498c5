-- ===== src/Rpc/Trigger.antt =====
-- The task of the thread pool that answers a request: `triggerTask` of include/rpc/server/sub_reactor.cpp, up to the
-- timer that hands its answer to the reactor.
use muse_rpc.Common.{
  ℕ, zero, suc, ◌+◌, ◌%◌, ◌^◌, ◌≡◌, refl, ◌∙◌, ◌==◌, Bool, true, false, ◌&&◌, if◌then◌else◌, List,
  [], ◌∷◌, ◌++◌, length, Option, some, none, Outcome, ok, thrown, undefined, ◌>>=◌,
}
use muse_rpc.Memory.{ByteSequence}
use muse_rpc.Serializer.Shape.{Shapes, scalar, uint32, uint16, text, tuple, end, field, Values}
use muse_rpc.Serializer.Number.{stored_bytes, loaded_number, turned}
use muse_rpc.Serializer.Writer.{input, input_args}
use muse_rpc.Serializer.Reader.{got, failed, overrun, output}
use muse_rpc.Rpc.Header.{written}
use muse_rpc.Rpc.Middleware.{MiddlewareService, client_in, channel_out}

-- `@context/`.
abbrev pub context_prefix : List ℕ
context_prefix = 64 ∷ 99 ∷ 111 ∷ 110 ∷ 116 ∷ 101 ∷ 120 ∷ 116 ∷ 47 ∷ []

abbrev pub begins_with : List ℕ → List ℕ → Bool
begins_with [] name = true
begins_with (x ∷ xs) [] = false
begins_with (x ∷ xs) (y ∷ ys) = (x == y) && begins_with xs ys

-- The arguments that the server adds: the client's address and its port.
abbrev pub context_shapes : Shapes
context_shapes = field (scalar uint32) (field (scalar uint16) end)

abbrev pub context_values : ℕ → ℕ → Values context_shapes
context_values ip port = (ip, (port, tt))

abbrev pub last_service : List MiddlewareService → Option MiddlewareService
last_service [] = none
last_service (service ∷ []) = some service
last_service (service ∷ (next ∷ services)) = last_service (next ∷ services)

pub returns :
    {A B : Type 0} (x : Outcome A) (f : A → Outcome B) {a : A} → x ≡ ok a → (x >>= f) ≡ f a
returns x f e = rw e refl

module _ (host : ByteSequence) where
  -- The length of a tuple at a position grows by two, in the 16 bits that it has.
  unfoldable pub lengthen : ℕ → List ℕ → Outcome (List ℕ)
  lengthen zero (a ∷ (b ∷ rest)) = ok (
      turned host
        (stored_bytes host 2 ((loaded_number host (turned host (a ∷ b ∷ [])) + 2) % 2 ^ 16))
      ++ rest)
  lengthen zero bytes = undefined
  lengthen (suc n) [] = undefined
  lengthen (suc n) (x ∷ xs) = lengthen n xs >>= (λ ys. ok (x ∷ ys))

  -- The request with the client's address and port as its last arguments. `position` is that behind the name.
  unfoldable pub add_context : (ip port : ℕ) → List ℕ → (position : ℕ) → Outcome (List ℕ)
  unfolding lengthen
  add_context ip port bytes position =
      if length bytes == position
      then (written (input host (tuple context_shapes) (context_values ip port) [])
          >>= (λ more. ok (bytes ++ more)))
      else (written (input_args host context_shapes (context_values ip port) [])
          >>= (λ more. lengthen (position + 1) (bytes ++ more)))

  -- What the route is given.
  unfoldable pub prepare :
      (ip port : ℕ) → (name : List ℕ) → List ℕ → (position : ℕ) → Outcome (List ℕ)
  unfolding add_context
  prepare ip port name bytes position =
      if begins_with context_prefix name then add_context ip port bytes position else ok bytes

  -- The answer to data that the chain has taken in. The last service of the chain is the route.
  unfoldable pub route_task : List MiddlewareService → (ip port : ℕ) → List ℕ → Outcome (List ℕ)
  unfolding channel_out prepare
  route_task chain ip port pure_data = elim (output host pure_data text 0) [
    | got request_rpc_name position ↦ elim (last_service chain) [
      | none ↦ undefined
      | some router ↦
          prepare ip port request_rpc_name pure_data position
          >>= (λ bytes. router.service_in bytes >>= (λ answer. channel_out chain answer))
    ]
    | failed why position ↦ thrown
    | overrun ↦ undefined
  ]

  unfoldable pub trigger_task : List MiddlewareService → (ip port : ℕ) → List ℕ → Outcome (List ℕ)
  unfolding client_in route_task
  trigger_task chain ip port full_data =
      client_in chain full_data >>= (λ pure_data. route_task chain ip port pure_data)

  last_service-append :
      (services : List MiddlewareService) (last : MiddlewareService)
      → last_service (services ++ (last ∷ [])) ≡ some last
  last_service-append [] last = refl
  last_service-append (service ∷ []) last = refl
  last_service-append (service ∷ (next ∷ services)) last =
      last_service-append (next ∷ services) last

  -- The task, when each of its parts returns.
  pub trigger_task_lem :
      (services : List MiddlewareService) (router : MiddlewareService) (ip port : ℕ)
      (name sent pure_data bytes answer returned : List ℕ) (position : ℕ)
      → client_in (services ++ (router ∷ [])) sent ≡ ok pure_data
      → output host pure_data text 0 ≡ got name position
      → prepare ip port name pure_data position ≡ ok bytes
      → router.service_in bytes ≡ ok answer
      → channel_out (services ++ (router ∷ [])) answer ≡ ok returned
      → trigger_task (services ++ (router ∷ [])) ip port sent ≡ ok returned
  unfolding trigger_task
  trigger_task_lem services router ip port name sent pure_data bytes answer returned position a b d
        e f =
      returns (client_in (services ++ (router ∷ [])) sent)
        (λ pure_data. route_task (services ++ (router ∷ [])) ip port pure_data) a
      ∙ (rw (b, route_task)
          (rw (last_service-append services router) (
            returns (prepare ip port name pure_data position)
              (λ bytes.
                router.service_in bytes
                >>= (λ answer. channel_out (services ++ (router ∷ [])) answer))
              d
            ∙ (returns (router.service_in bytes)
                  (λ answer. channel_out (services ++ (router ∷ [])) answer) e
                ∙ f))))
