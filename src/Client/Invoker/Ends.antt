-- ===== src/Client/Invoker/Ends.antt =====
-- The first phase of `Invoker::request` of include/rpc/client/invoker.cpp ends: every round takes an event
-- or a try.
use muse_rpc.Common.{
  ℕ, zero, suc, ◌+◌, ◌-◌, ◌*◌, ◌<◌, ◌≤◌, ◌≡◌, refl, ap, ◌==◌, ltb, if◌then◌else◌, List, [], ◌∷◌,
  some, none, ◌++◌, ◌⊎◌, inl, inr, Outcome, ok, thrown, undefined, length, arith,
}
use muse_rpc.Memory.{Memory}
use muse_rpc.Protocol.{new_protocol, parse, piece_count_of}
use muse_rpc.Client.ResponseData.{ResponseData}
use muse_rpc.Client.Invoker.{
  Caller, Exchange, Event, Progress, going, out_of_fuel, onwards, on_phase_one, receive_acks,
  rounds, after_round, one_round, pieces_from, phase_one, phase_two, note_sent, keep_piece, kept,
  finish, invoker_request, start, enough, largest_request, largest_request,
}
use muse_rpc.Client.Invoker.Turns.{
  Turns, goes_on, breaks, stops, Ensures, goes, ends, Ensures-if, Turns-if, Ensures-onwards,
  Ensures-resume, Ensures-weaken, Ensures-stopped, heard-Turns, on_phase_two-Turns,
}

-- Every end but the lack of fuel.
abbrev pub IsStop : Progress → Type 0
IsStop (going x) = ⊥
IsStop out_of_fuel = ⊥
IsStop p = Unit {0}

-- The tries left are between 1 and 3.
abbrev HasTries : Exchange → Type 0
HasTries x = (0 < x.need_try) × (x.need_try ≤ 3)

module _ (c : Caller) (whole : Memory) (data_size : ℕ) where
  -- A datagram does not touch the events that are left, and the tries only go up.
  abbrev Keeps : Exchange → Exchange → Type 0
  Keeps x x' = (x'.events ≡ x.events) × HasTries x'

  on_phase_one-Keeps :
      (x : Exchange) (buf : Memory) (n : ℕ)
      → HasTries x
      → Turns (Keeps x) (Keeps x) IsStop (on_phase_one c whole data_size x buf n)
  unfolding on_phase_one
  on_phase_one-Keeps x buf n h =
      let (header, success) = parse c.host (new_protocol c.host) buf n in
      Turns-if success
        (Turns-if (header.time_point == c.message_id)
          (heard-Turns c whole data_size (Keeps x) IsStop _ header.phase header.type
            header.accept_order (λ a. (refl, omega arith)) tt)
          (goes_on (refl, h)))
        (stops tt)

  -- A round of listening keeps the tries, and takes an event unless it is no round.
  abbrev Took : ℕ → Exchange → Exchange → Type 0
  Took zero x x' = HasTries x' × (length x'.events ≤ length x.events)
  Took (suc n) x x' = HasTries x' × (length x'.events < length x.events)

  Took-le :
      (n : ℕ) (x x' : Exchange) → Took n x x' → HasTries x' × (length x'.events ≤ length x.events)
  Took-le zero x x' h = h
  Took-le (suc n) x x' (k, h) = (k, omega arith)

  receive_acks-Took :
      (n : ℕ) (x : Exchange) (events : List Event)
      → x.events ≡ events
      → HasTries x
      → Ensures (Took n x) IsStop (receive_acks c whole data_size n x)
  unfolding receive_acks note_sent
  receive_acks-Took zero x events q h = goes (h, omega arith)
  receive_acks-Took (suc n) x [] q h = rw q (ends tt)
  receive_acks-Took (suc n) x (none ∷ rest) q h = rw q (goes (h, omega arith))
  receive_acks-Took (suc n) x (some (buf, size) ∷ rest) q h = rw q (
      Ensures-resume {Q = Took (suc n) (record x { events = some (buf, size) ∷ rest })}
        (λ x' k. Ensures-weaken (receive_acks-Took n x' x'.events refl k.1) (less x' k.0))
        (λ x' k. goes (k.1, omega (arith, ap length k.0)))
        (on_phase_one-Keeps (record x { events = rest }) buf size h))
    where
      less :
          (x' : Exchange)
          → x'.events ≡ rest
          → (x'' : Exchange) → Took n x' x''
          → Took (suc n) (record x { events = some (buf, size) ∷ rest }) x''
      less x' e x'' k = ((Took-le n x' x'' k).0, omega (arith, (Took-le n x' x'' k).1, ap length e))

  -- A round takes four times an event, or a try.
  abbrev measure : Exchange → ℕ
  measure x = 4 * length x.events + x.need_try

  abbrev Falls : Exchange → Exchange → Type 0
  Falls x x' = HasTries x' × (measure x' < measure x)

  after_round-Falls :
      (x y : Exchange)
      → HasTries x
      → measure x ≤ measure y
      → (x.receive_message_count ≡ 0) ⊎ (measure x < measure y)
      → Ensures (Falls y) IsStop (after_round c whole data_size x)
  unfolding after_round
  after_round-Falls x y h k quiet =
      Ensures-if (x.receive_message_count == 0)
        (λ _. Ensures-if (x.need_try - 1 == 0) (λ _. ends tt) (λ more. goes (ground arith)))
        (λ heard_some. goes (h, ground arith))

  one_round-Falls :
      (x : Exchange) → HasTries x → Ensures (Falls x) IsStop (one_round c whole data_size x)
  unfolding one_round receive_acks
  one_round-Falls x h =
      rounds_taken (rounds c whole data_size x.ack_accept)
        (if x.receive_message_count == 0 then x else (record x {
          sent =
              x.sent
              ++ pieces_from c whole data_size x.ack_accept (rounds c whole data_size x.ack_accept);
        }))
        (ground arith) (ground arith)
    where
      rounds_taken :
          (n : ℕ) (x1 : Exchange)
          → x1.events ≡ x.events
          → x1.need_try ≡ x.need_try
          → Ensures (Falls x) IsStop (
              onwards
                (receive_acks c whole data_size n (record x1 { receive_message_count = 0 }))
                (after_round c whole data_size))
      rounds_taken zero x1 e t =
          after_round-Falls (record x1 { receive_message_count = 0 }) x (omega arith)
            (omega (arith, ap length e)) (inl refl)
      rounds_taken (suc n) x1 e t =
          Ensures-onwards (λ _ k. k)
            (λ x' k.
              after_round-Falls x' x k.0 (omega (arith, k, ap length e))
                (inr (omega (arith, k, ap length e))))
            (receive_acks-Took (suc n) (record x1 { receive_message_count = 0 }) x1.events refl
              (omega arith))

  phase_one_ends :
      (fuel : ℕ) (x : Exchange)
      → HasTries x
      → measure x < fuel
      → Ensures
          (λ x'. x'.ack_accept ≡ piece_count_of data_size)
          IsStop
          (phase_one c whole data_size fuel x)
  unfolding phase_one
  phase_one_ends zero x h m = absurd (omega arith)
  phase_one_ends (suc fuel) x h m =
      Ensures-if (x.ack_accept == piece_count_of data_size) (λ e. goes (ground arith))
        (λ _.
          Ensures-onwards (λ _ k. k) (λ x' k. phase_one_ends fuel x' k.0 (omega arith))
            (one_round-Falls x h))

kept-Turns :
    (c : Caller) (x : Exchange) (id : ℕ) (o : Outcome (ResponseData × ℕ))
    → Turns (λ _. Unit {0}) (λ _. Unit {0}) IsStop (kept c x id o)
unfolding kept note_sent
kept-Turns c x id (ok (r, ack)) = Turns-if (ack == r.piece_count) (breaks tt) (goes_on tt)
kept-Turns c x id thrown = stops tt
kept-Turns c x id undefined = stops tt

-- The second phase reads the events and stops.
phase_two_ends :
    (c : Caller) (events : List Event) (x : Exchange)
    → Ensures (λ _. ⊥) IsStop (phase_two c events x)
unfolding phase_two finish
phase_two_ends c [] x = ends tt
phase_two_ends c (none ∷ rest) x =
    Ensures-if (x.response_need_try - 1 == 0) (λ _. ends tt) (λ _. phase_two_ends c rest _)
phase_two_ends c (some (buf, n) ∷ rest) x =
    Ensures-resume {P = λ _. Unit {0}} {L = λ _. Unit {0}} (λ x' _. phase_two_ends c rest x')
      (λ x' _. ends tt)
      (on_phase_two-Turns c (λ _. Unit {0}) (λ _. Unit {0}) IsStop x buf n tt
        (λ header _ _ _ _. kept-Turns c _ header.time_point (keep_piece c x.response header buf)))

-- The call comes to an end whatever arrives: the tries and the events bound the rounds of its first
-- phase, and the bound that the model runs with is never used up. It returns, throws, behaves in an
-- undefined way, or has read every event and waits for the next.
pub invoker_request_ends :
    (c : Caller) (content unset : Memory) (data_size : ℕ) (events : List Event)
    → IsStop (invoker_request c content data_size unset events)
unfolding invoker_request
invoker_request_ends c content unset data_size events = Ensures-stopped (
    Ensures-if (ltb largest_request data_size) (λ _. ends tt)
      (λ _.
        Ensures-onwards {P = λ x'. x'.ack_accept ≡ piece_count_of size} (λ _ k. k)
          (λ x' _. phase_two_ends c x'.events _)
          (phase_one_ends c (c.client_out content data_size).0 size (enough events)
            (start unset events) (omega arith) (omega arith))))
  where
    size : ℕ
    size = (c.client_out content data_size).1
