-- ===== src/Client/Invoker/Safety.antt =====
-- A call of `Invoker::request` of include/rpc/client/invoker.cpp from its start: what it can return.
use muse_rpc.Common.{
  ℕ, zero, suc, ◌-◌, ◌≡◌, refl, ◌==◌, ltb, true, false, List, [], ◌∷◌, some, none, All, arith,
}
use muse_rpc.Memory.{Memory}
use muse_rpc.Protocol.{new_protocol, parse, piece_count_of}
use muse_rpc.Protocol.Pieces.{IsMessageSize}
use muse_rpc.Client.ResponseData.{get_response_data}
use muse_rpc.Client.Invoker.{
  Caller, Exchange, Event, Progress, going, returned, threw, misbehaved, waiting, out_of_fuel,
  on_phase_one, receive_acks, rounds, after_round, one_round, phase_one, note_sent, invoker_request,
  start, enough, largest_request,
}
use muse_rpc.Client.Invoker.Turns.{
  Turns, goes_on, stops, Turns-if, Ensures, goes, ends, Ensures-if, Ensures-onwards, Ensures-resume,
  heard-Turns, Ensures-stopped,
}
use muse_rpc.Client.Invoker.Ends.{IsStop, invoker_request_ends}
use muse_rpc.Client.Invoker.Collect.{fresh-Collects}
use muse_rpc.Client.Invoker.Arrival.{IsHonest, IsRight, RightAnswer, phase_two-IsRight}

module _ (c : Caller) (whole : Memory) (n : ℕ) where
  -- The call comes to an end, no access is out of bounds, and a success is right.
  abbrev pub IsSafe : Progress → Type 0
  IsSafe (returned r x) = r.is_success ≡ true → RightAnswer c whole n r
  IsSafe (waiting x) = Unit {0}
  IsSafe (threw x) = Unit {0}
  IsSafe p = ⊥

  -- The same of the runs whose fuel ends.
  abbrev IsFair : Progress → Type 0
  IsFair (returned r x) = r.is_success ≡ true → RightAnswer c whole n r
  IsFair (waiting x) = Unit {0}
  IsFair (threw x) = Unit {0}
  IsFair out_of_fuel = Unit {0}
  IsFair p = ⊥

  IsFair-IsSafe : (p : Progress) → IsStop p → IsFair p → IsSafe p
  IsFair-IsSafe (going x) s f = s
  IsFair-IsSafe (returned r x) s f = f
  IsFair-IsSafe (threw x) s f = tt
  IsFair-IsSafe misbehaved s f = f
  IsFair-IsSafe (waiting x) s f = tt
  IsFair-IsSafe out_of_fuel s f = s

  IsRight-IsFair : (p : Progress) → IsRight c whole n p → IsFair p
  IsRight-IsFair (going x) h = h
  IsRight-IsFair (returned r x) h = h
  IsRight-IsFair (threw x) h = tt
  IsRight-IsFair misbehaved h = h
  IsRight-IsFair (waiting x) h = tt
  IsRight-IsFair out_of_fuel h = tt

  abbrev Unanswered : Exchange → Type 0
  Unanswered x = (x.response.is_initial ≡ false) × All (IsHonest c whole n) x.events

  module _ (request : Memory) (size : ℕ) where
    on_phase_one-Unanswered :
        (x : Exchange) (buf : Memory) (length : ℕ)
        → Unanswered x
        → Turns Unanswered Unanswered IsFair (on_phase_one c request size x buf length)
    unfolding on_phase_one
    on_phase_one-Unanswered x buf length h =
        let (header, success) = parse c.host (new_protocol c.host) buf length in
        Turns-if success
          (Turns-if (header.time_point == c.message_id)
            (heard-Turns c request size Unanswered IsFair _ header.phase header.type
              header.accept_order (λ a. h) (λ e. ground arith))
            (goes_on h))
          (stops tt)

    receive_acks-Unanswered :
        (rounds : ℕ) (x : Exchange) (events : List Event)
        → x.events ≡ events
        → Unanswered x
        → Ensures Unanswered IsFair (receive_acks c request size rounds x)
    unfolding receive_acks note_sent
    receive_acks-Unanswered zero x events q h = goes h
    receive_acks-Unanswered (suc rounds) x [] q h = rw q (ends tt)
    receive_acks-Unanswered (suc rounds) x (none ∷ rest) q h = rw q (goes (h.0, (rw q at h.1).1))
    receive_acks-Unanswered (suc rounds) x (some (buf, length) ∷ rest) q h = rw q (
        Ensures-resume {P = Unanswered} {L = Unanswered}
          (λ x' k. receive_acks-Unanswered rounds x' x'.events refl k) (λ x' k. goes k)
          (on_phase_one-Unanswered (record x { events = rest }) buf length (h.0, (rw q at h.1).1)))

    after_round-Unanswered :
        (x : Exchange) → Unanswered x → Ensures Unanswered IsFair (after_round c request size x)
    unfolding after_round
    after_round-Unanswered x h =
        Ensures-if (x.receive_message_count == 0)
          (λ _. Ensures-if (x.need_try - 1 == 0) (λ _. ends (λ e. ground arith)) (λ _. goes h))
          (λ _. goes h)

    one_round-Unanswered :
        (x : Exchange) → Unanswered x → Ensures Unanswered IsFair (one_round c request size x)
    unfolding one_round
    one_round-Unanswered x h =
        Ensures-onwards (λ _ k. k) after_round-Unanswered
          (receive_acks-Unanswered (rounds c request size x.ack_accept) _ _ refl
            (ground (arith, h)))

    phase_one-Unanswered :
        (fuel : ℕ) (x : Exchange)
        → Unanswered x
        → Ensures Unanswered IsFair (phase_one c request size fuel x)
    unfolding phase_one
    phase_one-Unanswered zero x h = ends tt
    phase_one-Unanswered (suc fuel) x h =
        Ensures-if (x.ack_accept == piece_count_of size) (λ _. goes h)
          (λ _.
            Ensures-onwards (λ _ k. k) (λ x' k. phase_one-Unanswered fuel x' k)
              (one_round-Unanswered x h))

  Ensures-IsFair :
      {p : Progress} → Ensures (λ _. ⊥) (IsRight c whole n) p → Ensures (λ _. ⊥) IsFair p
  Ensures-IsFair (ends {p} h) = ends (IsRight-IsFair p h)
  Ensures-IsFair (goes h) = absurd h

  -- Call the server, and let every datagram that arrives and reads as a data piece of the response be
  -- one, of a message of `n` bytes that fits the protocol; anything else may arrive too, in any order and with any
  -- repetition or loss. The call comes to an end with no access out of bounds: it returns, throws, or has read
  -- every event and waits. If it returns a success, the data is what the middleware reads from exactly that message.
  pub invoker_request-IsSafe :
      (content unset : Memory) (data_size : ℕ) (events : List Event)
      → IsMessageSize n
      → All (IsHonest c whole n) events
      → IsSafe (invoker_request c content data_size unset events)
  unfolding invoker_request get_response_data
  invoker_request-IsSafe content unset data_size events s h =
      IsFair-IsSafe (invoker_request c content data_size unset events)
        (invoker_request_ends c content unset data_size events)
        (Ensures-stopped (
          Ensures-if (ltb largest_request data_size) (λ _. ends tt)
            (λ _.
              Ensures-onwards {P = Unanswered} (λ _ k. k)
                (λ x k. Ensures-IsFair (
                  phase_two-IsRight c whole n x.events _ s k.1
                    (fresh-Collects c whole n x.response k.0)))
                (phase_one-Unanswered (c.client_out content data_size).0
                  (c.client_out content data_size).1 (enough events) (start unset events)
                  (refl, h)))))
