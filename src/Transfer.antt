-- ===== src/Transfer.antt =====
-- A request on its way: the client of include/rpc/client/invoker.cpp and the server of
-- include/rpc/server/sub_reactor.cpp, with a network between them that loses, repeats and reorders.
pub mod Behind
pub mod Refines
mod Tests
use muse_rpc.Common.{
  ℕ, ◌<◌, ◌≡◌, ◌==◌, Bool, true, false, List, [], ◌∷◌, Option, some, none, get_elem?, ok,
}
use muse_rpc.Memory.{Memory}
use muse_rpc.Protocol.Header.{request, response, ProtocolType, receiver_ack}
use muse_rpc.Protocol.{piece_count_of}
use muse_rpc.Server.PieceState.{get_ack_number}
use muse_rpc.Server.Request.{Request, receive_first, receive_known}
use muse_rpc.Server.Request.Receipt.{piece_header, Carries}
use muse_rpc.Client.Invoker.{Caller, Exchange, Turn, again, leave, stop, heard}

-- The request at the server, if any, the client's variables, and every acknowledgement that was sent: it
-- may arrive at any time, any number of times, or never.
pub record Transfer : Type 0 where
  pub server : Option Request
  pub client : Exchange
  pub acks : List ℕ

-- The exchange behind a datagram.
abbrev pub after_turn : Exchange → Turn → Exchange
after_turn x (again x') = x'
after_turn x (leave x') = x'
after_turn x (stop p) = x

-- What the server finds outside when a request begins.
pub record Arriving : Type 0 where
  pub port : ℕ
  pub ip : ℕ
  pub fd : ℕ
  pub now : ℕ
  pub allocated : Memory

-- The abstract view: the message is on its way, is at the server, and is known to be there.
pub data Stage : Type 0 where
  sending : Stage
  arrived : Stage
  confirmed : Stage

pub data Move : Stage → Stage → Type 0 where
  stays : {a : Stage} → Move a a
  arrives : Move sending arrived
  confirms : Move arrived confirmed

abbrev pub stage_of : Bool → Bool → Stage
stage_of true complete = confirmed
stage_of false true = arrived
stage_of false false = sending

abbrev pub server_ack : Option Request → ℕ
server_ack none = 0
server_ack (some r) = get_ack_number r.piece_state

-- The server has the message, byte for byte.
abbrev pub Holds : Memory → ℕ → Option Request → Type 0
Holds whole n none = ⊥
Holds whole n (some r) = (i : ℕ) → i < n → r.content i ≡ whole i

module _ (c : Caller) (whole : Memory) (n : ℕ) where
  -- A piece of the message reaches the server, the first or a later one, and is acknowledged; the server
  -- is asked for its acknowledgement number; an acknowledgement that was sent reaches the client; or the
  -- server, with all pieces in, sends something of the response.
  pub data Step (s : Transfer) : Transfer → Type 0 where
    first_piece :
        (a : Arriving) (order : ℕ) (buf : Memory) (r : Request) (ack : ℕ)
        → order < piece_count_of n
        → Carries whole n order buf
        → s.server ≡ none
        → receive_first a.port a.ip a.fd a.now (piece_header c.message_id n order) a.allocated buf
          ≡ ok (r, ack)
        → Step s (record s { server = some r; acks = ack ∷ s.acks })
    next_piece :
        (q : Request) (order : ℕ) (buf : Memory) (r : Request) (ack : ℕ)
        → order < piece_count_of n
        → Carries whole n order buf
        → s.server ≡ some q
        → receive_known q (piece_header c.message_id n order) buf ≡ ok (r, ack)
        → Step s (record s { server = some r; acks = ack ∷ s.acks })
    asked :
        (q : Request)
        → s.server ≡ some q
        → Step s (record s { acks = get_ack_number q.piece_state ∷ s.acks })
    acknowledged :
        (i ack : ℕ)
        → get_elem? s.acks i ≡ some ack
        → Step s (record s {
          client = after_turn s.client (heard c whole n s.client request receiver_ack ack);
        })
    responded :
        (q : Request) (type : ProtocolType) (ack : ℕ)
        → s.server ≡ some q
        → get_ack_number q.piece_state ≡ piece_count_of n
        → Step s
            (record s { client = after_turn s.client (heard c whole n s.client response type ack) })

  pub data Reachable : Transfer → Type 0 where
    begin :
        (x : Exchange)
        → x.ack_accept ≡ 0
        → Reachable (record { server = none; client = x; acks = [] })
    step : {s s' : Transfer} → Reachable s → Step s s' → Reachable s'

  abbrev pub stage : Transfer → Stage
  stage s =
      stage_of (s.client.ack_accept == piece_count_of n) (server_ack s.server == piece_count_of n)
