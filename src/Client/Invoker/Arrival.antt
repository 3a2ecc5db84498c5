-- ===== src/Client/Invoker/Arrival.antt =====
-- The second phase of `Invoker::request` of include/rpc/client/invoker.cpp: the response that it returns.
use muse_rpc.Common.{
  ℕ, ◌-◌, ◌<◌, ◌≡◌, ◌≢◌, refl, sym, ap, ◌∙◌, ◌==◌, true, List, [], ◌∷◌, some, none, All, arith,
}
use muse_rpc.Memory.{Memory}
use muse_rpc.Protocol.Header.{ProtocolHeader, response, request_send}
use muse_rpc.Protocol.{new_protocol, parse, piece_count_of}
use muse_rpc.Protocol.Pieces.{IsMessageSize}
use muse_rpc.Server.Request.Receipt.{Carries}
use muse_rpc.Server.Request.Reassembly.{complete-content}
use muse_rpc.Client.ResponseData.{ResponseData}
use muse_rpc.Client.Invoker.{
  Caller, Exchange, Event, Progress, returned, waiting, keep_piece, kept, phase_two, finish,
  try_times,
}
use muse_rpc.Client.Invoker.Turns.{
  Turns, goes_on, breaks, Ensures, ends, Ensures-if, Ensures-resume, Turns-test, Turns-weaken,
  on_phase_two-Turns,
}
use muse_rpc.Client.Invoker.Collect.{as_request, Collects, Kept, keep_piece-Kept, response_header}

module _ (c : Caller) (whole : Memory) (n : ℕ) where
  -- The buffer holds that piece of the response, as a datagram of `size` bytes.
  abbrev pub IsPiece : ℕ → Memory → ℕ → Type 0
  IsPiece order buf size =
      (parse c.host (new_protocol c.host) buf size ≡ (response_header c.message_id n order, true))
      × (order < piece_count_of n)
      × Carries whole n order buf

  -- A datagram that, if it reads as a data piece of this response, is one.
  abbrev pub IsHonest : Event → Type 0
  IsHonest none = Unit {0}
  IsHonest (some (buf, size)) =
      (header : ProtocolHeader)
      → parse c.host (new_protocol c.host) buf size ≡ (header, true)
      → header.time_point ≡ c.message_id
      → header.phase ≡ response
      → header.type ≡ request_send
      → (order : ℕ) × (header ≡ response_header c.message_id n order)
        × (order < piece_count_of n)
        × Carries whole n order buf

  -- A piece of the response is honest.
  pub IsPiece-IsHonest :
      (order : ℕ) (buf : Memory) (size : ℕ) → IsPiece order buf size → IsHonest (some (buf, size))
  IsPiece-IsHonest order buf size (parses, lt, carries) header q m p t =
      (order, ap (λ r. r.0) (sym q ∙ parses), lt, carries)

  -- A successful answer is the middleware's reading of the message.
  abbrev pub RightAnswer : ResponseData → Type 0
  RightAnswer r =
      (content : Memory) × ((k : ℕ) → k < n → content k ≡ whole k)
      × (◌≡◌ {A = Memory × ℕ} (r.content, r.total_size) (c.client_in content n))

  -- The call never throws or misbehaves, and a success is right.
  abbrev pub IsRight : Progress → Type 0
  IsRight (returned r x) = r.is_success ≡ true → RightAnswer r
  IsRight (waiting x) = Unit {0}
  IsRight p = ⊥

  -- What a piece makes of the response before it, by the number that is acknowledged.
  abbrev pub Took : ℕ → ResponseData → (ℕ → Type 0) → Exchange → Type 0
  Took order r acks x' = (ack : ℕ) × Kept c whole n r x'.response order ack × acks ack

  pub kept-Turns :
      (x : Exchange) (order : ℕ) (buf : Memory) (R : Progress → Type 0)
      → IsMessageSize n
      → order < piece_count_of n
      → Carries whole n order buf
      → Collects c whole n x.response
      → (y : Exchange)
      → Turns
          (Took order x.response (λ ack. ack ≢ piece_count_of n))
          (Took order x.response (λ ack. ack ≡ piece_count_of n))
          R
          (kept c y c.message_id
            (keep_piece c x.response (response_header c.message_id n order) buf))
  unfolding kept
  kept-Turns x order buf R s h k a y =
      let (r', ack, run, got) = keep_piece-Kept c whole n x.response order buf s h k a in
      rw run (
        Turns-test (ack == r'.piece_count) (λ e. breaks (ack, got, ground (arith, count_of r' got)))
          (λ e. goes_on (ack, got, ground (arith, count_of r' got))))
    where
      count_of :
          (r' : ResponseData) {ack : ℕ}
          → Kept c whole n x.response r' order ack
          → r'.piece_count ≡ piece_count_of n
      count_of r' got = rw got.is_ready at got.collects.count_kept

  -- A complete response, as the middleware reads it.
  abbrev pub read_back : ResponseData → ResponseData
  read_back r = record r {
    content = (c.client_in r.content r.total_size).0;
    total_size = (c.client_in r.content r.total_size).1;
    is_success = true;
  }

  pub read_back-RightAnswer :
      (r r' : ResponseData) (order ack : ℕ)
      → IsMessageSize n
      → Kept c whole n r r' order ack
      → ack ≡ piece_count_of n
      → RightAnswer (read_back r')
  read_back-RightAnswer r r' order ack s got e =
      let a = rw got.is_ready at got.collects in
      (
        r'.content,
        complete-content whole n (as_request r') s a (sym got.acknowledges ∙ e),
        rw a.size_kept refl,
      )

  -- The second phase, when nobody forges a piece.
  pub phase_two-IsRight :
      (events : List Event) (x : Exchange)
      → IsMessageSize n
      → All IsHonest events
      → Collects c whole n x.response
      → Ensures (λ _. ⊥) IsRight (phase_two c events x)
  unfolding phase_two finish
  phase_two-IsRight [] x s h a = ends tt
  phase_two-IsRight (none ∷ rest) x s (_, h) a =
      Ensures-if (x.response_need_try - 1 == 0) (λ _. ends (λ e. ground arith))
        (λ _. phase_two-IsRight rest _ s h a)
  phase_two-IsRight (some (buf, size) ∷ rest) x s (h, hs) a =
      Ensures-resume {P = λ x'. Collects c whole n x'.response}
        {L = λ x'. (order : ℕ) × Took order x.response (λ ack. ack ≡ piece_count_of n) x'}
        (λ x' k. phase_two-IsRight rest x' s hs k)
        (λ x' (order, (ack, got, e)).
          ends (λ _. read_back-RightAnswer x.response x'.response order ack s got e))
        (on_phase_two-Turns c (Collects c whole n)
          (λ x'. (order : ℕ) × Took order x.response (λ ack. ack ≡ piece_count_of n) x') IsRight x
          buf size a
          (λ header q m p t.
            let (order, e, lt, k) = h header q m p t in
            rw e (
              Turns-weaken
                (kept-Turns x order buf IsRight s lt k a
                  (record x { response_need_try = try_times }))
                (λ x' (ack, got, _). got.collects) (λ x' took. (order, took)))))
