-- ===== src/Client/Invoker.antt =====
-- `Invoker::request` of include/rpc/client/invoker.cpp: a request and the wait for its response. The
-- calls of `recvfrom` are a list of events; every datagram that goes out is kept in `sent`.
pub mod Turns
pub mod Ends
pub mod Collect
pub mod Arrival
pub mod Safety
pub mod Answer
pub mod Patience
use muse_rpc.Common.{
  ℕ, zero, suc, ◌+◌, ◌-◌, ◌*◌, ◌%◌, ◌^◌, ◌==◌, ltb, leb, if◌then◌else◌, Bool, true, false, ◌&&◌,
  List, [], ◌∷◌, ◌++◌, Option, some, none, length, Outcome, ok, thrown, undefined, ◌>>=◌,
}
use muse_rpc.Memory.{Memory, ByteSequence, memcpy}
use muse_rpc.Protocol.Header.{
  ProtocolHeader, CommunicationPhase, request, response, ProtocolType, request_send, receiver_ack,
  request_ack, timed_out_request_heartbeat, the_server_resources_exhausted,
}
use muse_rpc.Protocol.{
  new_protocol, parse, protocol_header_size, full_piece_size, default_piece_limit_size,
  piece_count_of, get_send_count,
}
use muse_rpc.Protocol.Pieces.{piece_size_of}
use muse_rpc.Packets.{
  request_piece, ask_ack, send_response_ack, invoker_send_heartbeat, send_request_heartbeat,
}
use muse_rpc.Client.ResponseData
use muse_rpc.Client.ResponseData.{
  ResponseData, FailureReason, network_timeout, get_response_data, initialize, response_piece_state,
  response_set_piece_state, response_ack_number, fail,
}

abbrev pub try_times : ℕ
try_times = 3

-- 100 MB.
abbrev pub largest_request : ℕ
largest_request = 104857600

-- What one `recvfrom` gives: nothing within its timeout, or a datagram and its length.
abbrev pub Event : Type 0
Event = Option (Memory × ℕ)

-- The variables of the call.
pub record Exchange : Type 0 where
  pub ack_accept : ℕ
  pub need_try : ℕ
  pub receive_message_count : ℕ
  pub response_need_try : ℕ
  pub response : ResponseData
  pub sent : List (Memory × ℕ)
  pub events : List Event

-- How far the call came: on to the next phase, back to the caller, out by an exception, or still in
-- `recvfrom` where the events end.
pub data Progress : Type 0 where
  going : Exchange → Progress
  returned : ResponseData → Exchange → Progress
  threw : Exchange → Progress
  misbehaved : Progress
  waiting : Exchange → Progress
  out_of_fuel : Progress

-- What a datagram does to the loop that received it: the loop goes on, or breaks, or the call ends.
pub data Turn : Type 0 where
  again : Exchange → Turn
  leave : Exchange → Turn
  stop : Progress → Turn

abbrev pub resume : Turn → (Exchange → Progress) → (Exchange → Progress) → Progress
resume (again x) on_again on_leave = on_again x
resume (leave x) on_again on_leave = on_leave x
resume (stop p) on_again on_leave = p

abbrev pub onwards : Progress → (Exchange → Progress) → Progress
onwards (going x) f = f x
onwards (returned r x) f = returned r x
onwards (threw x) f = threw x
onwards misbehaved f = misbehaved
onwards (waiting x) f = waiting x
onwards out_of_fuel f = out_of_fuel

-- What the call finds outside: the machine, the bytes of fresh buffers, and the middleware on both ways.
pub record Caller : Type 0 where
  pub host : ByteSequence
  pub raw : Memory
  pub allocated : Memory
  pub message_id : ℕ
  pub client_out : Memory → ℕ → Memory × ℕ
  pub client_in : Memory → ℕ → Memory × ℕ

unfoldable pub note_sent : Exchange → Memory → ℕ → Exchange
note_sent x m n = record x { sent = x.sent ++ ((m, n) ∷ []) }

abbrev pub start : Memory → List Event → Exchange
start unset events = record {
  ack_accept = 0;
  need_try = try_times;
  receive_message_count = 1;
  response_need_try = try_times;
  response = get_response_data unset;
  sent = [];
  events = events;
}

-- Rounds of the first phase that the events can last for.
abbrev pub enough : List Event → ℕ
enough events = 4 * length events + 5

module _ (c : Caller) where
  -- One call's message, after the middleware.
  module _ (whole : Memory) (data_size : ℕ) where
    -- The pieces from `order` on, `n` of them.
    unfoldable pub pieces_from : ℕ → ℕ → List (Memory × ℕ)
    pieces_from order zero = []
    pieces_from order (suc n) =
        (
          request_piece c.host c.raw c.message_id whole data_size order,
          protocol_header_size + piece_size_of data_size order,
        )
        ∷ pieces_from (suc order) n

    -- How often `for (i = ack_accept; i < end && i < piece_count; ++i)` runs, `end` being a `uint16_t`.
    unfoldable pub rounds : ℕ → ℕ
    rounds ack =
        let count = piece_count_of data_size in
        let end = (ack + get_send_count count) % 2 ^ 16 in
        (if ltb end count then end else count) - ack

    -- A datagram of this message in the first phase, by its phase, type and acknowledgement number.
    unfoldable pub heard : Exchange → CommunicationPhase → ProtocolType → ℕ → Turn
    unfolding fail
    heard x response type accept_order = again (record x { ack_accept = piece_count_of data_size })
    heard x request receiver_ack accept_order =
        let x' = record x {
          ack_accept = (if ltb x.ack_accept accept_order then accept_order else x.ack_accept);
        } in
        if x'.ack_accept == piece_count_of data_size then leave x' else again x'
    heard x request the_server_resources_exhausted accept_order =
        stop (returned (fail x.response ResponseData.the_server_resources_exhausted) x)
    heard x request _ accept_order = again x

    -- Any datagram of the first phase.
    unfoldable pub on_phase_one : Exchange → Memory → ℕ → Turn
    unfolding heard
    on_phase_one x buf n =
        let (header, success) = parse c.host (new_protocol c.host) buf n in
        if success
        then (if header.time_point == c.message_id
            then heard
                (record x {
                  receive_message_count = x.receive_message_count + 1;
                  need_try = try_times;
                })
                header.phase header.type header.accept_order
            else again x)
        else stop (threw x)

    -- The `for` loop that waits for acknowledgements, `n` rounds at most.
    unfoldable pub receive_acks : ℕ → Exchange → Progress
    unfolding on_phase_one note_sent
    receive_acks zero x = going x
    receive_acks (suc n) x = elim x.events [
      | [] ↦ waiting x
      | none ∷ rest ↦ going (
          note_sent (record x { events = rest }) (ask_ack c.host c.raw c.message_id data_size)
            protocol_header_size)
      | some (buf, size) ∷ rest ↦
          resume (on_phase_one (record x { events = rest }) buf size) (λ x'. receive_acks n x')
            going
    ]

    -- After a round: a round without any datagram of ours costs a try.
    unfoldable pub after_round : Exchange → Progress
    unfolding fail
    after_round x =
        if x.receive_message_count == 0
        then (let x' = record x { need_try = x.need_try - 1 } in
            if x'.need_try == 0 then returned (fail x'.response network_timeout) x' else going x')
        else going x

    -- A round of the `while` loop: send, unless the last round heard nothing, and listen.
    unfoldable pub one_round : Exchange → Progress
    unfolding pieces_from rounds receive_acks
    one_round x =
        let n = rounds x.ack_accept in
        let x1 =
          (if x.receive_message_count == 0
            then x
            else (record x { sent = x.sent ++ pieces_from x.ack_accept n })) in
        onwards (receive_acks n (record x1 { receive_message_count = 0 })) after_round

    unfoldable pub phase_one : ℕ → Exchange → Progress
    unfolding one_round after_round
    phase_one zero x = out_of_fuel
    phase_one (suc fuel) x =
        let more = onwards (one_round x) (λ x'. phase_one fuel x') in
        if x.ack_accept == piece_count_of data_size then going x else more

  -- A piece of a response that is initialised: copy it unless it is there, and mark it.
  unfoldable pub keep_in : ResponseData → ProtocolHeader → Memory → Outcome (ResponseData × ℕ)
  unfolding response_piece_state response_set_piece_state memcpy
  keep_in r header buf =
      let offset = header.piece_order * default_piece_limit_size in
      response_piece_state r header.piece_order >>= λ received.
      (if received
        then ok r
        else if leb (protocol_header_size + header.piece_size) (full_piece_size + 1)
            && leb (offset + header.piece_size) r.total_size
        then ok (record r {
          content = memcpy r.content offset buf protocol_header_size header.piece_size;
        })
        else undefined)
      >>= λ r'. response_set_piece_state r' header.piece_order true

  -- The block has as many bytes as the first piece announced.
  unfoldable pub keep_piece : ResponseData → ProtocolHeader → Memory → Outcome (ResponseData × ℕ)
  unfolding initialize keep_in
  keep_piece r header buf =
      keep_in (initialize r header.time_point header.total_count header.total_size c.allocated)
        header buf

  -- After `keep_piece`: acknowledge, and break if that was the last missing piece.
  unfoldable pub kept : Exchange → ℕ → Outcome (ResponseData × ℕ) → Turn
  unfolding note_sent
  kept x id (ok (r, ack)) =
      let x' =
        note_sent (record x { response = r }) (send_response_ack c.host c.raw ack id)
          protocol_header_size in
      if ack == r.piece_count then leave x' else again x'
  kept x id thrown = stop (threw x)
  kept x id undefined = stop misbehaved

  -- A datagram of this message in the second phase, by its phase and type.
  unfoldable pub answered :
      Exchange → CommunicationPhase → ProtocolType → ProtocolHeader → Memory → Turn
  unfolding keep_piece kept response_ack_number note_sent
  answered x request type header buf = again x
  answered x response request_send header buf =
      kept x header.time_point (keep_piece x.response header buf)
  answered x response request_ack header buf =
      let ack = (if x.response.is_initial then response_ack_number x.response else 0) in
      again
        (note_sent x (send_response_ack c.host c.raw ack header.time_point) protocol_header_size)
  answered x response timed_out_request_heartbeat header buf =
      again
        (note_sent x (invoker_send_heartbeat c.host c.raw header.time_point) protocol_header_size)
  answered x response _ header buf = again x

  -- Any datagram of the second phase. One that does not parse, or is not ours, is ignored.
  unfoldable pub on_phase_two : Exchange → Memory → ℕ → Turn
  unfolding answered
  on_phase_two x buf n =
      let (header, success) = parse c.host (new_protocol c.host) buf n in
      if success && header.time_point == c.message_id
      then answered (record x { response_need_try = try_times }) header.phase header.type header buf
      else again x

  -- The complete response goes back through the middleware.
  unfoldable pub finish : Exchange → Progress
  finish x =
      let (content, size) = c.client_in x.response.content x.response.total_size in
      let r = record (x.response) { content = content; total_size = size; is_success = true } in
      returned r (record x { response = r })

  unfoldable pub phase_two : List Event → Exchange → Progress
  unfolding on_phase_two finish note_sent fail
  phase_two [] x = waiting x
  phase_two (none ∷ rest) x =
      let x1 =
        note_sent (record x { response_need_try = x.response_need_try - 1 })
          (send_request_heartbeat c.host c.raw c.message_id) protocol_header_size in
      let more = phase_two rest x1 in
      if x1.response_need_try == 0 then returned (fail x1.response network_timeout) x1 else more
  phase_two (some (buf, n) ∷ rest) x =
      resume (on_phase_two x buf n) (λ x'. phase_two rest x') finish

  unfoldable pub invoker_request : Memory → ℕ → Memory → List Event → Progress
  unfolding phase_one phase_two get_response_data
  invoker_request content data_size unset events =
      if ltb largest_request data_size
      then threw (start unset events)
      else (let (whole, size) = c.client_out content data_size in
          onwards (phase_one whole size (enough events) (start unset events))
            (λ x. phase_two x.events (record x { response_need_try = try_times })))
