-- ===== src/Client/Tests.antt =====
-- The theorems on a call of the client at a concrete one: message 77, a response of 600 bytes in two pieces.
use muse_rpc.Common.{ℕ, ◌%◌, ◌<◌, ◌≡◌, refl, true, List, [], ◌∷◌, none, arith}
use muse_rpc.Memory.{Memory, zeroed, big_endian, little_endian}
use muse_rpc.Protocol.{piece_count_of}
use muse_rpc.Protocol.Pieces.{IsMessageSize}
use muse_rpc.Client.ResponseData.{get_response_data}
use muse_rpc.Client.Invoker.{Caller, Event, start, phase_two, invoker_request}
use muse_rpc.Client.Invoker.Ends.{IsStop, invoker_request_ends}
use muse_rpc.Client.Invoker.Answer.{
  Arrival, arrivals, from_server_all, from_server_all-IsArrival, arrivals-IsHonest, is_arrived,
  is_member, Succeeds, response_arrives, response_travels,
}
use muse_rpc.Client.Invoker.Safety.{IsSafe, invoker_request-IsSafe}
use muse_rpc.Client.Invoker.Patience.{IsTimeout, IsWaiting, resets, phase_two_patience}

abbrev caller : Caller
caller = record {
  host = big_endian;
  raw = zeroed;
  allocated = zeroed;
  message_id = 77;
  client_out = λ m n. (m, n);
  client_in = λ m n. (m, n);
}

abbrev whole : Memory
whole x = x % 251

abbrev six_hundred : IsMessageSize 600
six_hundred = record { some_bytes = omega arith; countable = omega arith }

-- The second piece, twice, and then the first.
abbrev orders : List ℕ
orders = 1 ∷ 1 ∷ 0 ∷ []

abbrev datagrams : List Arrival
datagrams = from_server_all little_endian zeroed 77 whole 600 orders

abbrev events : List Event
events = none ∷ arrivals datagrams (none ∷ [])

every_piece : (k : ℕ) → k < piece_count_of 600 → is_member k orders ≡ true
every_piece k h = ground arith

every_datagram : (k : ℕ) → k < piece_count_of 600 → is_arrived k datagrams ≡ true
every_datagram k h = ground arith

invoker_request_ends_example : IsStop (invoker_request caller whole 600 zeroed events)
invoker_request_ends_example = invoker_request_ends caller whole zeroed 600 events

invoker_request-IsSafe_example :
    IsSafe caller whole 600 (invoker_request caller whole 600 zeroed events)
invoker_request-IsSafe_example =
    invoker_request-IsSafe caller whole 600 whole zeroed 600 events six_hundred (
      tt,
      arrivals-IsHonest caller whole 600 datagrams (none ∷ [])
          (from_server_all-IsArrival caller little_endian zeroed whole 600 (omega arith) six_hundred
            orders (omega arith))
          (tt, tt),
    )

response_arrives_example :
    Succeeds caller whole 600 (phase_two caller (arrivals datagrams []) (start zeroed []))
unfolding get_response_data
response_arrives_example =
    response_arrives caller whole 600 datagrams [] (start zeroed []) six_hundred
      (from_server_all-IsArrival caller little_endian zeroed whole 600 (omega arith) six_hundred
        orders (omega arith))
      refl every_datagram

response_travels_example :
    Succeeds caller whole 600 (phase_two caller (arrivals datagrams (none ∷ [])) (start zeroed []))
unfolding get_response_data
response_travels_example =
    response_travels caller little_endian zeroed whole 600 (omega arith) six_hundred orders
      (none ∷ []) (start zeroed []) (omega arith) every_piece refl

phase_two_patience_example :
    IsTimeout (phase_two caller (none ∷ none ∷ none ∷ []) (start zeroed []))
    × IsWaiting (phase_two caller (resets little_endian zeroed 77 4) (start zeroed []))
phase_two_patience_example =
    phase_two_patience caller little_endian zeroed (omega arith) 4 [] (start zeroed []) refl
