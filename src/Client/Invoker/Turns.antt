-- ===== src/Client/Invoker/Turns.antt =====
-- The two loops of `Invoker::request` of include/rpc/client/invoker.cpp: what their rounds do to a property of
-- the exchange.
use muse_rpc.Common.{ℕ, ◌≡◌, refl, ◌==◌, ltb, if◌then◌else◌, Bool, true, false, arith}
use muse_rpc.Memory.{Memory}
use muse_rpc.Protocol.Header.{
  ProtocolHeader, CommunicationPhase, request, response, ProtocolType, request_send, hear_beat,
  receiver_ack, request_ack, timed_out_request_heartbeat, timed_out_response_heartbeat,
  the_server_resources_exhausted, unsupported_network_protocol, state_reset,
}
use muse_rpc.Protocol.{new_protocol, parse, piece_count_of}
use muse_rpc.Client.ResponseData
use muse_rpc.Client.ResponseData.{ResponseData, fail}
use muse_rpc.Client.Invoker.{
  Caller, Exchange, Progress, going, returned, threw, misbehaved, waiting, out_of_fuel, Turn, again,
  leave, stop, resume, onwards, heard, note_sent, keep_piece, kept, answered, on_phase_two,
  try_times,
}

-- Properties of the exchange with which a loop goes on or breaks, and of the end of a call.
pub data Turns (P L : Exchange → Type 0) (R : Progress → Type 0) : Turn → Type 0 where
  goes_on : {x : Exchange} → P x → Turns P L R (again x)
  breaks : {x : Exchange} → L x → Turns P L R (leave x)
  stops : {p : Progress} → R p → Turns P L R (stop p)

pub data Ensures (P : Exchange → Type 0) (R : Progress → Type 0) : Progress → Type 0 where
  goes : {x : Exchange} → P x → Ensures P R (going x)
  ends : {p : Progress} → R p → Ensures P R p

pub Ensures-if :
    {P : Exchange → Type 0} {R : Progress → Type 0} (b : Bool) {p q : Progress}
    → (b ≡ true → Ensures P R p)
    → (b ≡ false → Ensures P R q)
    → Ensures P R (if b then p else q)
Ensures-if true h k = h refl
Ensures-if false h k = k refl

pub Turns-test :
    {P L : Exchange → Type 0} {R : Progress → Type 0} (b : Bool) {t u : Turn}
    → (b ≡ true → Turns P L R t)
    → (b ≡ false → Turns P L R u)
    → Turns P L R (if b then t else u)
Turns-test true h k = h refl
Turns-test false h k = k refl

pub Turns-if :
    {P L : Exchange → Type 0} {R : Progress → Type 0} (b : Bool) {t u : Turn}
    → Turns P L R t
    → Turns P L R u
    → Turns P L R (if b then t else u)
Turns-if true h k = h
Turns-if false h k = k

module _ {P Q : Exchange → Type 0} {R : Progress → Type 0}
    (never : (x : Exchange) → R (going x) → ⊥) {f : Exchange → Progress}
    (next : (x : Exchange) → P x → Ensures Q R (f x)) where
  pub Ensures-onwards : {p : Progress} → Ensures P R p → Ensures Q R (onwards p f)
  Ensures-onwards (goes {x} h) = next x h
  Ensures-onwards (ends {p} h) = stopped p h
    where
      stopped : (p : Progress) → R p → Ensures Q R (onwards p f)
      stopped (going x) k = absurd (never x k)
      stopped (returned r x) k = ends k
      stopped (threw x) k = ends k
      stopped misbehaved k = ends k
      stopped (waiting x) k = ends k
      stopped out_of_fuel k = ends k

module _ {P L Q : Exchange → Type 0} {R : Progress → Type 0} {f : Exchange → Progress}
    (next : (x : Exchange) → P x → Ensures Q R (f x)) where
  pub Ensures-resume :
      {g : Exchange → Progress}
      → ((x : Exchange) → L x → Ensures Q R (g x))
      → {t : Turn} → Turns P L R t
      → Ensures Q R (resume t f g)
  Ensures-resume last (goes_on {x} h) = next x h
  Ensures-resume last (breaks {x} h) = last x h
  Ensures-resume last (stops h) = ends h

pub Turns-weaken :
    {P L P' L' : Exchange → Type 0} {R : Progress → Type 0} {t : Turn}
    → Turns P L R t
    → ((x : Exchange) → P x → P' x)
    → ((x : Exchange) → L x → L' x)
    → Turns P' L' R t
Turns-weaken (goes_on h) f g = goes_on (f _ h)
Turns-weaken (breaks h) f g = breaks (g _ h)
Turns-weaken (stops h) f g = stops h

pub Ensures-weaken :
    {P Q : Exchange → Type 0} {R : Progress → Type 0} {p : Progress}
    → Ensures P R p
    → ((x : Exchange) → P x → Q x)
    → Ensures Q R p
Ensures-weaken (goes h) f = goes (f _ h)
Ensures-weaken (ends h) f = ends h

-- A call that cannot go on has stopped.
pub Ensures-stopped : {R : Progress → Type 0} {p : Progress} → Ensures (λ _. ⊥) R p → R p
Ensures-stopped (ends h) = h
Ensures-stopped (goes h) = absurd h

-- In the first phase a datagram of the message changes the acknowledgement number only, or ends the call.
module _ (c : Caller) (whole : Memory) (data_size : ℕ) (P : Exchange → Type 0)
    (R : Progress → Type 0) where
  pub heard-Turns :
      (x : Exchange) (phase : CommunicationPhase) (type : ProtocolType) (accept_order : ℕ)
      → ((a : ℕ) → P (record x { ack_accept = a }))
      → R (returned (fail x.response ResponseData.the_server_resources_exhausted) x)
      → Turns P P R (heard c whole data_size x phase type accept_order)
  unfolding heard
  heard-Turns x response t a h k = goes_on (h _)
  heard-Turns x request receiver_ack a h k =
      Turns-if ((if ltb x.ack_accept a then a else x.ack_accept) == piece_count_of data_size)
        (breaks (h _)) (goes_on (h _))
  heard-Turns x request the_server_resources_exhausted a h k = stops k
  heard-Turns x request request_send a h k = goes_on (h _)
  heard-Turns x request hear_beat a h k = goes_on (h _)
  heard-Turns x request request_ack a h k = goes_on (h _)
  heard-Turns x request timed_out_request_heartbeat a h k = goes_on (h _)
  heard-Turns x request timed_out_response_heartbeat a h k = goes_on (h _)
  heard-Turns x request unsupported_network_protocol a h k = goes_on (h _)
  heard-Turns x request state_reset a h k = goes_on (h _)

-- A datagram of the second phase changes the response only if it is a piece of it.
module _ (c : Caller) (P : ResponseData → Type 0) (L : Exchange → Type 0)
    (R : Progress → Type 0) where
  abbrev On : Exchange → Type 0
  On x = P x.response

  answered-Turns :
      (x : Exchange) (phase : CommunicationPhase) (type : ProtocolType) (header : ProtocolHeader)
      (buf : Memory)
      → P x.response
      → (phase ≡ response
          → type ≡ request_send
          → Turns On L R (kept c x header.time_point (keep_piece c x.response header buf)))
      → Turns On L R (answered c x phase type header buf)
  unfolding answered note_sent
  answered-Turns x request type header buf h k = goes_on h
  answered-Turns x response request_send header buf h k = k refl refl
  answered-Turns x response request_ack header buf h k = goes_on h
  answered-Turns x response timed_out_request_heartbeat header buf h k = goes_on h
  answered-Turns x response hear_beat header buf h k = goes_on h
  answered-Turns x response receiver_ack header buf h k = goes_on h
  answered-Turns x response timed_out_response_heartbeat header buf h k = goes_on h
  answered-Turns x response the_server_resources_exhausted header buf h k = goes_on h
  answered-Turns x response unsupported_network_protocol header buf h k = goes_on h
  answered-Turns x response state_reset header buf h k = goes_on h

  pub on_phase_two-Turns :
      (x : Exchange) (buf : Memory) (n : ℕ)
      → P x.response
      → ((header : ProtocolHeader)
          → parse c.host (new_protocol c.host) buf n ≡ (header, true)
          → header.time_point ≡ c.message_id
          → header.phase ≡ response
          → header.type ≡ request_send
          → Turns On L R (
              kept c
                (record x { response_need_try = try_times })
                header.time_point
                (keep_piece c x.response header buf)))
      → Turns On L R (on_phase_two c x buf n)
  unfolding on_phase_two
  on_phase_two-Turns x buf n h k = parsed (parse c.host (new_protocol c.host) buf n) refl
    where
      parsed :
          (result : ProtocolHeader × Bool)
          → parse c.host (new_protocol c.host) buf n ≡ result
          → Turns On L R (on_phase_two c x buf n)
      parsed (header, false) q = rw q (goes_on h)
      parsed (header, true) q = rw q (
          Turns-test (header.time_point == c.message_id)
            (λ e.
              answered-Turns (record x { response_need_try = try_times }) header.phase header.type
                header buf h (λ a b. k header q (ground arith) a b))
            (λ _. goes_on h))
