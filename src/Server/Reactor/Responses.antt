-- ===== src/Server/Reactor/Responses.antt =====
-- A client's acknowledgement of pieces of a response, in `SubReactor::loop` of
-- include/rpc/server/sub_reactor.cpp, and the piece that `sendResponseDataToClient` sends on it.
use muse_rpc.Common.{
  ℕ, ◌+◌, ◌^◌, ◌<◌, ◌≡◌, refl, sym, ap, ◌∙◌, ◌==◌, ltb, if◌then◌else◌, Bool, true, false, List, [],
  ◌∷◌, ◌++◌, some, length, get_elem?, get_elem?-set_self, arith,
}
use mathlib.Core.Path.{subst}
use muse_rpc.Memory.{Memory}
use muse_rpc.Protocol.{protocol_header_size, default_piece_limit_size, piece_count_of}
use muse_rpc.Protocol.Header.{ProtocolHeader, receiver_ack, response}
use muse_rpc.Protocol.Pieces.{piece_size_of, last_piece_size_of, IsMessageSize, piece_fits}
use muse_rpc.Packets.{response_piece}
use muse_rpc.Packets.Parsed.{Reads, pieces_read}
use muse_rpc.Server.Request.Receipt.{piece_header, Carries}
use muse_rpc.Server.Response.{Response, set_ack_accept, set_new_ack_state}
use muse_rpc.Server.Reactor.{
  SubReactor, VirtualConnection, Environment, Effect, send, emit, set_connection, has_message,
  find_response, put_response, send_response_data_to_client, handle_response_phase,
}

pub find_response-put_self :
    (id : ℕ) (v : Response) (rs : List (ℕ × Response))
    → find_response id (put_response id v rs) ≡ some v
unfolding find_response put_response
find_response-put_self id v [] = ground arith
find_response-put_self id v ((k, w) ∷ rs) = ground (arith, find_response-put_self id v rs)

-- A response as its constructor builds it from a message that the pieces can count.
pub record IsResponse (id : ℕ) (res : Response) : Type 0 where
  pub named : res.servlet.request_id ≡ id
  pub counted : res.piece_count ≡ piece_count_of res.total_data_size
  pub last_counted : res.last_piece_size ≡ last_piece_size_of res.total_data_size
  pub sized : IsMessageSize res.total_data_size

-- One datagram goes out, which the client reads as piece `order` of the response.
pub record SendsPiece (before after : List Effect) (vc : VirtualConnection) (id : ℕ)
    (res : Response) (order : ℕ) : Type 0 where
  pub datagram : Memory
  pub bytes : ℕ
  pub sent : after ≡ before ++ (send vc.socket_fd datagram bytes ∷ [])
  pub reads :
      Reads datagram bytes (record (piece_header id res.total_data_size order) { phase = response })
  pub carries : Carries res.content res.total_data_size order datagram

size_lem :
    (res : Response) {id : ℕ}
    → IsResponse id res
    → res.ack_accept < 65535
    → res.ack_accept < res.piece_count
    → (if res.ack_accept + 1 == res.piece_count
        then res.last_piece_size
        else default_piece_limit_size)
      ≡ piece_size_of res.total_data_size res.ack_accept
size_lem res is few h = ground (arith, is.counted, is.last_counted)

pub sends_next :
    (e : Environment) (r : SubReactor) (vc : VirtualConnection) (id : ℕ) (res : Response)
    → id < 2 ^ 64
    → find_response id vc.responses ≡ some res
    → IsResponse id res
    → res.ack_accept < res.piece_count
    → SendsPiece r.effects (send_response_data_to_client e r vc id).effects vc id res res.ack_accept
unfolding send_response_data_to_client emit
sends_next e r vc id res fits found is h =
    let order_fits : res.ack_accept < piece_count_of res.total_data_size =
      omega (arith, is.counted) in
    let (_, _, few) = piece_fits res.total_data_size res.ack_accept is.sized order_fits in
    let (_, _, reads, carries) =
      pieces_read e.host e.raw id fits res.content res.total_data_size res.ack_accept is.sized
        order_fits in
    record {
      datagram =
          response_piece e.host e.raw id res.content res.total_data_size res.ack_accept
            (piece_size_of res.total_data_size res.ack_accept);
      bytes = protocol_header_size + piece_size_of res.total_data_size res.ack_accept;
      sent = ground (arith, found, is.named, size_lem res is few h, few, h);
      reads = reads;
      carries = carries;
    }

-- The response once the acknowledgement is noted: the largest number seen so far.
abbrev pub largest : ℕ → ℕ → ℕ
largest old new = if ltb old new then new else old

abbrev pub noted : Response → ℕ → ℕ → Response
noted res now accept_order = record res {
  last_active = now;
  is_get_new_ack = true;
  ack_accept = largest res.ack_accept accept_order;
}

-- What an acknowledgement of a response in transfer leads to.
pub record Acknowledged (e : Environment) (r r' : SubReactor) (slot : ℕ) (vc : VirtualConnection)
    (id accept_order : ℕ) (res : Response) : Type 0 where
  pub connection : VirtualConnection
  pub at_slot : get_elem? r'.connections slot ≡ some connection
  pub kept : find_response id connection.responses ≡ some (noted res e.now accept_order)
  pub same_requests : r'.messages ≡ r.messages
  pub continues :
      largest res.ack_accept accept_order < res.piece_count
      → SendsPiece r.effects r'.effects vc id res (largest res.ack_accept accept_order)
  pub finishes : largest res.ack_accept accept_order ≡ res.piece_count → r'.effects ≡ r.effects

noted_lem :
    (res : Response) (now accept_order : ℕ)
    → set_ack_accept (set_new_ack_state (record res { last_active = now }) true) accept_order
      ≡ noted res now accept_order
unfolding set_ack_accept set_new_ack_state
noted_lem res now accept_order = ground arith

-- The connection with the acknowledgement noted.
noted_connection : VirtualConnection → ℕ → Response → VirtualConnection
noted_connection vc id res = record vc { responses = put_response id res vc.responses }

acknowledgement_run :
    (e : Environment) (r : SubReactor) (slot : ℕ) (vc : VirtualConnection) (header : ProtocolHeader)
    (res : Response)
    → header.type ≡ receiver_ack
    → has_message header.time_point vc.messages ≡ true
    → find_response header.time_point vc.responses ≡ some res
    → (let res' = noted res e.now header.accept_order in
        let vc' = noted_connection vc header.time_point res' in
        handle_response_phase e r slot vc header ≡ (
          if res'.ack_accept == res'.piece_count
          then set_connection r slot vc'
          else send_response_data_to_client e
              (set_connection r slot vc')
              vc'
              res'.servlet.request_id))
unfolding handle_response_phase noted_connection set_ack_accept set_new_ack_state
acknowledgement_run e r slot vc header res t m f =
    rw (handle_response_phase, m, f, t, noted_lem res e.now header.accept_order)

pub send_same :
    (e : Environment) (r : SubReactor) (vc : VirtualConnection) (id : ℕ)
    → ((send_response_data_to_client e r vc id).connections ≡ r.connections)
      × ((send_response_data_to_client e r vc id).messages ≡ r.messages)
unfolding send_response_data_to_client emit
send_same e r vc id = (ground arith, ground arith)

noted-IsResponse :
    (id : ℕ) (res : Response) (now accept_order : ℕ)
    → IsResponse id res
    → IsResponse id (noted res now accept_order)
noted-IsResponse id res now accept_order is = record {
  named = is.named;
  counted = is.counted;
  last_counted = is.last_counted;
  sized = is.sized;
}

-- An acknowledgement of a response that is being sent: the server keeps the largest number that it has
-- seen and the time, and while a piece is left it sends one datagram, which the client reads as the
-- piece of that number, with what stands at that piece's place in the block that the connection keeps
-- for the response; once all pieces are acknowledged it sends none.
pub acknowledgement_lem :
    (e : Environment) (r : SubReactor) (slot : ℕ) (vc : VirtualConnection) (header : ProtocolHeader)
    (res : Response)
    → header.type ≡ receiver_ack
    → header.time_point < 2 ^ 64
    → slot < length r.connections
    → has_message header.time_point vc.messages ≡ true
    → find_response header.time_point vc.responses ≡ some res
    → IsResponse header.time_point res
    → Acknowledged e r
        (handle_response_phase e r slot vc header)
        slot
        vc
        header.time_point
        header.accept_order
        res
unfolding set_connection noted_connection
acknowledgement_lem e r slot vc header res t fits inside m f is =
    subst (λ x. Acknowledged e r x slot vc header.time_point header.accept_order res)
      (sym (acknowledgement_run e r slot vc header res t m f))
      (acknowledged (res'.ack_accept == res'.piece_count) refl)
  where
    res' : Response
    res' = noted res e.now header.accept_order

    vc' : VirtualConnection
    vc' = noted_connection vc header.time_point res'

    kept_lem : find_response header.time_point vc'.responses ≡ some res'
    kept_lem = find_response-put_self header.time_point res' vc.responses

    sent : SubReactor
    sent = send_response_data_to_client e (set_connection r slot vc') vc' res'.servlet.request_id

    continued :
        largest res.ack_accept header.accept_order < res.piece_count
        → SendsPiece r.effects sent.effects vc header.time_point res
            (largest res.ack_accept header.accept_order)
    continued h =
        (let s =
            sends_next e (set_connection r slot vc') vc' header.time_point res' fits kept_lem
              (noted-IsResponse header.time_point res e.now header.accept_order is) h in
          subst
            (λ i.
              SendsPiece r.effects
                (send_response_data_to_client e (set_connection r slot vc') vc' i).effects vc
                header.time_point res res'.ack_accept)
            (sym is.named)
            (record {
              datagram = s.datagram;
              bytes = s.bytes;
              sent = s.sent;
              reads = s.reads;
              carries = s.carries;
            }))

    acknowledged :
        (b : Bool)
        → (res'.ack_accept == res'.piece_count) ≡ b
        → Acknowledged e r
            (if b then set_connection r slot vc' else sent)
            slot
            vc
            header.time_point
            header.accept_order
            res
    acknowledged true q = record {
      connection = vc';
      at_slot = get_elem?-set_self r.connections slot vc' inside;
      kept = kept_lem;
      same_requests = refl;
      continues = λ h. ground arith;
      finishes = λ _. refl;
    }
    acknowledged false q = record {
      connection = vc';
      at_slot =
          ap (λ x. get_elem? x slot)
            (send_same e (set_connection r slot vc') vc' res'.servlet.request_id).0
          ∙ get_elem?-set_self r.connections slot vc' inside;
      kept = kept_lem;
      same_requests = (send_same e (set_connection r slot vc') vc' res'.servlet.request_id).1;
      continues = continued;
      finishes = λ h. ground arith;
    }
