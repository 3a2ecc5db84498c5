-- ===== src/Server/Reactor/Freed.antt =====
-- The life of a response in include/rpc/server/sub_reactor.cpp: the timer's callback in `triggerTask`
-- makes it, keeps a copy and sends the first piece, and `loop` sends the others as the client
-- acknowledges pieces.
use muse_rpc.Common.{
  ℕ, zero, suc, [], ◌∷◌, length-set, ◌^◌, ◌<◌, ◌≡◌, refl, sym, true, List, some, none, length,
  get_elem?, get_elem?-set_self, arith,
}
use mathlib.Core.Path.{subst}
use muse_rpc.Memory.{Memory}
use muse_rpc.Protocol.{piece_count_of}
use muse_rpc.Protocol.Header.{ProtocolHeader, receiver_ack}
use muse_rpc.Protocol.Pieces.{IsMessageSize}
use muse_rpc.Server.Servlet.{Servlet}
use muse_rpc.Server.Response.{Response, new_response}
use muse_rpc.Server.Reactor.{
  SubReactor, VirtualConnection, Environment, set_connection, has_message, find_response,
  put_response, send_response_data_to_client, handle_response_phase, set_timer, response_time_out,
  judge_response,
}
use muse_rpc.Server.Reactor.Timers.{on_response_ready}
use muse_rpc.Server.Reactor.Responses.{
  IsResponse, SendsPiece, Acknowledged, acknowledgement_lem, find_response-put_self, sends_next,
  send_same,
}

-- The response that the callback makes, with its bytes.
abbrev pub made : Environment → Servlet → Memory → ℕ → Response
made e servlet content count = new_response servlet (piece_count_of count) count e.now content

-- The copy that the connection keeps once the callback has returned.
abbrev pub resting : Environment → Servlet → Memory → ℕ → Response
resting e servlet content count = record (made e servlet content count) {
  content = e.freed;
  last_active = e.uninitialised;
}

abbrev pub holding : VirtualConnection → Servlet → Response → VirtualConnection
holding vc servlet res = record vc { responses = put_response servlet.request_id res vc.responses }

made-IsResponse :
    (e : Environment) (servlet : Servlet) (content : Memory) (count : ℕ)
    → IsMessageSize count
    → IsResponse servlet.request_id (made e servlet content count)
unfolding new_response
made-IsResponse e servlet content count is = record {
  named = refl;
  counted = refl;
  last_counted = ground arith;
  sized = is;
}

get_elem?-some :
    (xs : List VirtualConnection) (i : ℕ) {vc : VirtualConnection}
    → get_elem? xs i ≡ some vc
    → i < length xs
get_elem?-some [] i at = ground arith
get_elem?-some (x ∷ xs) zero at = omega arith
get_elem?-some (x ∷ xs) (suc i) at = let rest = get_elem?-some xs i at in omega arith

ready_run :
    (e : Environment) (r : SubReactor) (slot : ℕ) (vc : VirtualConnection) (content : Memory)
    (servlet : Servlet) (count : ℕ)
    → get_elem? r.connections slot ≡ some vc
    → find_response servlet.request_id vc.responses ≡ none
    → (let fresh = made e servlet content count in
        on_response_ready e r content slot servlet count
        ≡ set_timer e
            (set_connection
              (send_response_data_to_client e r (holding vc servlet fresh) servlet.request_id)
              slot
              (holding vc servlet (resting e servlet content count)))
            response_time_out
            (judge_response slot servlet.request_id))
unfolding on_response_ready new_response
ready_run e r slot vc content servlet count at new = rw (on_response_ready, at, new)

-- A response is made for a known request that has none yet. Its first piece goes out at once, and the
-- client reads it with its bytes of the response. What the connection keeps names the block that was
-- freed when the callback returned: an acknowledgement that arrives then is noted, and while a piece is
-- left it is answered with one datagram that the client reads as the next piece of the response, but
-- with what stands at that piece's place in the freed block.
pub response_freed :
    (e e' : Environment) (r : SubReactor) (slot : ℕ) (vc : VirtualConnection) (content : Memory)
    (servlet : Servlet) (count : ℕ) (header : ProtocolHeader)
    → servlet.request_id < 2 ^ 64
    → get_elem? r.connections slot ≡ some vc
    → find_response servlet.request_id vc.responses ≡ none
    → has_message servlet.request_id vc.messages ≡ true
    → IsMessageSize count
    → header.type ≡ receiver_ack
    → header.time_point ≡ servlet.request_id
    → (let r' = on_response_ready e r content slot servlet count in
        let kept = resting e servlet content count in
        let vc' = holding vc servlet kept in
        SendsPiece r.effects r'.effects vc servlet.request_id (made e servlet content count) 0
        × (get_elem? r'.connections slot ≡ some vc')
        × (kept.content ≡ e.freed)
        × Acknowledged e' r'
            (handle_response_phase e' r' slot vc' header)
            slot
            vc'
            servlet.request_id
            header.accept_order
            kept)
unfolding new_response set_timer set_connection
response_freed e e' r slot vc content servlet count header fits at new heard is t same =
    subst
      (λ x.
        SendsPiece r.effects x.effects vc id fresh 0
        × (get_elem? x.connections slot ≡ some vc')
        × (kept.content ≡ e.freed)
        × Acknowledged e' x (handle_response_phase e' x slot vc' header) slot vc' id
            header.accept_order kept)
      (sym (ready_run e r slot vc content servlet count at new)) (first, there, refl, answered)
  where
    id : ℕ
    id = servlet.request_id

    fresh : Response
    fresh = made e servlet content count

    kept : Response
    kept = resting e servlet content count

    vc' : VirtualConnection
    vc' = holding vc servlet kept

    r' : SubReactor
    r' =
        set_timer e
          (set_connection (send_response_data_to_client e r (holding vc servlet fresh) id) slot vc')
          response_time_out (judge_response slot id)

    fresh-Is : IsResponse id fresh
    fresh-Is = made-IsResponse e servlet content count is

    kept-Is : IsResponse id kept
    kept-Is = record {
      named = refl;
      counted = fresh-Is.counted;
      last_counted = fresh-Is.last_counted;
      sized = is;
    }

    first : SendsPiece r.effects r'.effects vc id fresh 0
    first =
        (let s =
            sends_next e r (holding vc servlet fresh) id fresh fits
              (find_response-put_self id fresh vc.responses) fresh-Is
              (ground (arith, is.some_bytes, is.countable)) in
          record {
            datagram = s.datagram;
            bytes = s.bytes;
            sent = s.sent;
            reads = s.reads;
            carries = s.carries;
          })

    inside :
        slot < length (send_response_data_to_client e r (holding vc servlet fresh) id).connections
    inside =
        subst (λ xs. slot < length xs) (sym (send_same e r (holding vc servlet fresh) id).0)
          (get_elem?-some r.connections slot at)

    there : get_elem? r'.connections slot ≡ some vc'
    there = get_elem?-set_self _ slot vc' inside

    answered :
        Acknowledged e' r'
          (handle_response_phase e' r' slot vc' header)
          slot
          vc'
          id
          header.accept_order
          kept
    answered =
        subst
          (λ i.
            Acknowledged e' r' (handle_response_phase e' r' slot vc' header) slot vc' i
              header.accept_order kept)
          same
          (acknowledgement_lem e' r' slot vc' header kept t (omega (arith, same, fits))
            (subst (λ n. slot < n) (sym (length-set _ slot vc')) inside) (rw (same) heard)
            (rw (same) (find_response-put_self id kept vc.responses))
            (subst (λ i. IsResponse i kept) (sym same) kept-Is))
