-- ===== src/Rpc/Middleware.antt =====
-- The chain of middleware of include/rpc/server/middleware_channel.cpp. A service is two functions that may throw.
use muse_rpc.Common.{ℕ, ◌≡◌, refl, ◌∙◌, ap, List, [], ◌∷◌, ◌++◌, All, Outcome, ok, ◌>>=◌}

pub record MiddlewareService : Type 0 where
  pub service_in : List ℕ → Outcome (List ℕ)
  pub service_out : List ℕ → Outcome (List ℕ)

-- `MiddlewareChannel::In`, in the order of the services.
unfoldable pub channel_in : List MiddlewareService → List ℕ → Outcome (List ℕ)
channel_in [] bytes = ok bytes
channel_in (service ∷ services) bytes =
    service.service_in bytes >>= (λ bytes'. channel_in services bytes')

-- `MiddlewareChannel::Out`, from the last service to the first.
unfoldable pub channel_out : List MiddlewareService → List ℕ → Outcome (List ℕ)
channel_out [] bytes = ok bytes
channel_out (service ∷ services) bytes =
    channel_out services bytes >>= (λ bytes'. service.service_out bytes')

-- The services without the last one.
abbrev pub all_but_last : List MiddlewareService → List MiddlewareService
all_but_last [] = []
all_but_last (service ∷ []) = []
all_but_last (service ∷ (next ∷ services)) = service ∷ all_but_last (next ∷ services)

unfoldable pub client_in : List MiddlewareService → List ℕ → Outcome (List ℕ)
unfolding channel_in
client_in services bytes = channel_in (all_but_last services) bytes

unfoldable pub client_out : List MiddlewareService → List ℕ → Outcome (List ℕ)
unfolding channel_out
client_out services bytes = channel_out (all_but_last services) bytes

-- What `service_out` makes of any data, `service_in` takes back.
abbrev pub IsReversible : MiddlewareService → Type 0
IsReversible service =
    (bytes : List ℕ)
    → (bytes' : List ℕ) × (service.service_out bytes ≡ ok bytes')
      × (service.service_in bytes' ≡ ok bytes)

all_but_last-append :
    (services : List MiddlewareService) (last : MiddlewareService)
    → all_but_last (services ++ (last ∷ [])) ≡ services
all_but_last-append [] last = refl
all_but_last-append (service ∷ []) last = refl
all_but_last-append (service ∷ (next ∷ services)) last =
    ap {B = List MiddlewareService} (λ r. service ∷ r) (all_but_last-append (next ∷ services) last)

-- What the chain makes of some data, it takes back.
abbrev pub IsUndone : List MiddlewareService → List ℕ → Type 0
IsUndone services bytes =
    (bytes' : List ℕ) × (channel_out services bytes ≡ ok bytes')
    × (channel_in services bytes' ≡ ok bytes)

-- A chain of services each of which takes back whatever it gave out takes back what it gave out.
pub channel_out-IsUndone :
    (services : List MiddlewareService)
    → All IsReversible services
    → (bytes : List ℕ) → IsUndone services bytes
unfolding channel_in channel_out
channel_out-IsUndone [] h bytes = (bytes, refl, refl)
channel_out-IsUndone (service ∷ services) (h, hs) bytes =
    let (mid, out, into) = channel_out-IsUndone services hs bytes in
    let (last, out', into') = h mid in (last, rw out out', rw into' into)

channel_out-append :
    (services : List MiddlewareService) (last : MiddlewareService) (bytes bytes' : List ℕ)
    → last.service_out bytes ≡ ok bytes'
    → channel_out (services ++ (last ∷ [])) bytes ≡ channel_out services bytes'
unfolding channel_out
channel_out-append [] last bytes bytes' h = rw h refl
channel_out-append (service ∷ services) last bytes bytes' h =
    rw (channel_out-append services last bytes bytes' h) refl

-- Both sides have the same services, which take back the request and the reply, and behind them one that gives
-- everything out as it is. Then the request that the client gives out comes in as it was, and so does the
-- reply that the whole chain of the server gives out.
pub passed_through :
    (services : List MiddlewareService) (answering : MiddlewareService) (request reply : List ℕ)
    → IsUndone services request
    → IsUndone services reply
    → answering.service_out reply ≡ ok reply
    → (sent : List ℕ) × (returned : List ℕ) × (client_out (services ++ (answering ∷ [])) request
        ≡ ok sent)
      × (client_in (services ++ (answering ∷ [])) sent ≡ ok request)
      × (channel_out (services ++ (answering ∷ [])) reply ≡ ok returned)
      × (client_in (services ++ (answering ∷ [])) returned ≡ ok reply)
unfolding client_in client_out
passed_through services answering request reply (sent, out, into) (returned, out', into') keeps = (
  sent,
  returned,
  rw (all_but_last-append services answering) out,
  rw (all_but_last-append services answering) into,
  channel_out-append services answering reply reply keeps ∙ out',
  rw (all_but_last-append services answering) into',
)
