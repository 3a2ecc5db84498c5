-- ===== src/Server/Reactor/Tests.antt =====
-- The theorems on the reactor at a small reactor: two places, one of them taken, and one kept request.
use muse_rpc.Common.{
  get_elem?, ◌^◌, ℕ, zero, suc, ◌≡◌, ◌≢◌, ◌<◌, refl, ap, true, false, List, [], ◌∷◌, some, none,
  length, ok, arith,
}
use mathlib.Core.Option.{some_inj}
use muse_rpc.Memory.{zeroed, little_endian}
use muse_rpc.Protocol.Header.{
  ProtocolHeader, request, receiver_ack, response, request_ack, zero_header,
}
use muse_rpc.Packets.{send_reset}
use muse_rpc.Packets.Parsed.{controls_read}
use muse_rpc.Timer.Tree.{set_timeout}
use muse_rpc.Server.Servlet.{Servlet, find, same_key}
use muse_rpc.Server.Request.{Request}
use muse_rpc.Server.Request.Receipt.{piece_header}
use muse_rpc.Server.Response.{Response}
use muse_rpc.Server.Reactor.{
  SubReactor, VirtualConnection, NewConnection, Environment, Address, judge_response,
  handle_request_send, handle_request_phase, handle_response_phase, has_message, find_response,
  response_time_out,
}
use muse_rpc.Server.Reactor.Slots.{find_connections_empty_place, free_at}
use muse_rpc.Server.Reactor.Slots.Clearing.{settled}
use muse_rpc.Server.Reactor.Slots.Search.{Finds, find_connections_empty_place_lem}
use muse_rpc.Server.Reactor.Known.{HandsOver, Keeps, hand_over_once}
use muse_rpc.Server.Reactor.Responses.{Acknowledged, SendsPiece}
use muse_rpc.Server.Reactor.Freed.{made, resting, holding, response_freed}
use muse_rpc.Server.Reactor.Accept.{deal_with_new_connection}
use muse_rpc.Server.Reactor.Questions.{Answers, questions_lem}
use muse_rpc.Server.Reactor.Full.{IsClient, refused, queue_stuck}
use muse_rpc.Server.Reactor.Timers.{
  on_judge_delete, on_judge_response, on_response_ready, judge_delete_lem, judge_response_lem,
}

abbrev environment : ℕ → Environment
environment now = record {
  host = little_endian;
  raw = zeroed;
  allocated = zeroed;
  now = now;
  pool_accepts = true;
  epoll_accepts = true;
  freed = zeroed;
  uninitialised = 0;
}

abbrev client : Servlet
client = record { request_id = 77; client_port = 40000; client_ip_address = 1 }

abbrev client_address : Address
client_address = record { port = 40000; ip = 1 }

-- The first of two pieces is there.
abbrev half_request : Request
half_request = record {
  servlet = client;
  piece_state = true ∷ false ∷ [];
  piece_count = 2;
  total_data_size = 600;
  socket_fd = some 5;
  is_trigger = false;
  active_dt = 1000;
  content = zeroed;
}

-- A response of two pieces, the first of them acknowledged.
abbrev half_response : Response
half_response = record {
  servlet = client;
  piece_count = 2;
  last_piece_size = 78;
  total_data_size = 600;
  ack_accept = 0;
  is_get_new_ack = true;
  last_active = 1000;
  content = zeroed;
}

abbrev taken : VirtualConnection
taken = record {
  socket_fd = some 5;
  last_active = 1000;
  addr = client_address;
  responses = (77, half_response) ∷ [];
  messages = 77 ∷ [];
}

abbrev free : VirtualConnection
free = record {
  socket_fd = none;
  last_active = 0;
  addr = client_address;
  responses = [];
  messages = [];
}

abbrev newcomer : NewConnection
newcomer = record {
  fd = 9;
  recv_length = 26;
  addr = client_address;
  content = send_reset little_endian zeroed 77 request;
  is_new = true;
}

abbrev reactor : List VirtualConnection → SubReactor
reactor places = record {
  open_max_connection = length places;
  run_state = true;
  new_connections = newcomer ∷ [];
  messages = (client, half_request) ∷ [];
  connections = places;
  last_empty_place = 0;
  active_connections_count = 1;
  tree_timer = record { init_id = 0; nodes = [] };
  effects = [];
}

abbrev two_places : SubReactor
two_places = reactor (taken ∷ free ∷ [])

abbrev one_place : SubReactor
one_place = reactor (taken ∷ [])

find_connections_empty_place_lem_example :
    Finds 2000 two_places (find_connections_empty_place (environment 2000) two_places)
find_connections_empty_place_lem_example =
    find_connections_empty_place_lem (environment 2000) two_places
      (record { as_many = refl; last_inside = omega arith })

abbrev last_piece : ProtocolHeader
last_piece = piece_header 77 600 1

is_known : find two_places.messages client ≡ some half_request
unfolding find same_key
is_known = refl

hand_over_once_example :
    (r' : SubReactor) × (ack : ℕ) × (handle_request_send
        (environment 2000)
        two_places
        0
        taken
        client
        (some half_request)
        last_piece
        zeroed
        5
      ≡ ok r')
    × HandsOver (environment 2000) [] r'.effects last_piece false ack
    × Keeps r' client last_piece false ack
hand_over_once_example =
    hand_over_once (environment 2000) two_places 0 taken client last_piece half_request half_request
      zeroed 5 is_known
      (record {
        as_many = refl;
        in_order = omega arith;
        no_overflow = omega arith;
        in_buffer = omega arith;
        in_data = omega arith;
      })

abbrev first_acknowledged : ProtocolHeader
first_acknowledged = record zero_header {
  time_point = 77;
  type = receiver_ack;
  phase = response;
  accept_order = 1;
}

is_heard : has_message 77 taken.messages ≡ true
unfolding has_message
is_heard = refl

-- A connection with a request and no response yet.
abbrev asked : VirtualConnection
asked = record taken { responses = [] }

abbrev waiting : SubReactor
waiting = reactor (asked ∷ [])

abbrev result_made : SubReactor
result_made = on_response_ready (environment 2000) waiting zeroed 0 client 600

is_unanswered : find_response 77 asked.responses ≡ none
unfolding find_response
is_unanswered = refl

response_freed_example :
    SendsPiece [] result_made.effects asked 77 (made (environment 2000) client zeroed 600) 0
    × (get_elem? result_made.connections 0
        ≡ some (holding asked client (resting (environment 2000) client zeroed 600)))
    × ((resting (environment 2000) client zeroed 600).content ≡ (environment 2000).freed)
    × Acknowledged
        (environment 2100)
        result_made
        (handle_response_phase
          (environment 2100)
          result_made
          0
          (holding asked client (resting (environment 2000) client zeroed 600))
          first_acknowledged)
        0
        (holding asked client (resting (environment 2000) client zeroed 600))
        77
        1
        (resting (environment 2000) client zeroed 600)
response_freed_example =
    response_freed (environment 2000) (environment 2100) waiting 0 asked zeroed client 600
      first_acknowledged (omega arith) refl is_unanswered is_heard
      (record { some_bytes = omega arith; countable = omega arith }) refl refl

is_answered : find_response 77 taken.responses ≡ some half_response
unfolding find_response
is_answered = refl

all_settled : (k : ℕ) → settled 2000 one_place.connections k ≡ true
unfolding settled
all_settled zero = refl
all_settled (suc k) = refl

all_taken : (k : ℕ) → k < 1 → free_at one_place.connections k ≡ false
unfolding free_at
all_taken zero h = refl
all_taken (suc k) h = absurd (omega arith)

newcomer_parses : IsClient (environment 2000) newcomer
newcomer_parses = record {
  new = refl;
  parses =
      ap (λ p. p.1)
        ((controls_read little_endian zeroed 77 (omega arith) request 0 0 (omega arith)
            (omega arith)).0
          little_endian);
}

queue_stuck_example :
    (deal_with_new_connection (environment 2000) one_place
      ≡ ok (refused (environment 2000) one_place newcomer 1))
    × ((refused (environment 2000) one_place newcomer 1).new_connections ≡ newcomer ∷ [])
queue_stuck_example =
    queue_stuck (environment 2000) one_place newcomer []
      (record { some_places = omega arith; none_stale = all_settled; none_free = all_taken })
      newcomer_parses refl

judge_delete_lem_example :
    (let r' = on_judge_delete (environment 20000) two_places client in
      (find r'.messages client ≡ none)
      × ((other : Servlet)
          → client ≢ other
          → find r'.messages other ≡ find two_places.messages other)
      × (r'.tree_timer ≡ two_places.tree_timer))
judge_delete_lem_example =
    (judge_delete_lem (environment 20000) two_places client half_request is_known).0 (omega arith)

judge_response_lem_example :
    (let r' = on_judge_response (environment 2000) two_places 0 77 in
      (r'.connections ≡ two_places.connections)
      × (r'.tree_timer
          ≡ (set_timeout two_places.tree_timer 2000 response_time_out (judge_response 0 77)).0))
judge_response_lem_example =
    (judge_response_lem (environment 2000) two_places 0 77 5 taken half_response refl (omega arith)
        refl is_answered).1
      (omega arith)

half_request_fits : (req : Request) → some half_request ≡ some req → length req.piece_state < 2 ^ 16
half_request_fits req q = omega (arith, the_same)
  where
    the_same : length half_request.piece_state ≡ length req.piece_state
    the_same = ap (λ x. length x.piece_state) (some_inj.0 q)

questions_lem_example :
    Answers
      (environment 2000)
      two_places
      (handle_request_phase
        (environment 2000)
        two_places
        0
        taken
        client
        (some half_request)
        (record zero_header { time_point = 77; type = request_ack })
        zeroed
        5)
      taken
      77
      request_ack
      (some half_request)
questions_lem_example =
    questions_lem (environment 2000) two_places 0 taken client
      (record zero_header { time_point = 77 }) zeroed 5 (omega arith) request_ack
      (some half_request) (ground arith) half_request_fits
