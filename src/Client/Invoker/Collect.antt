-- ===== src/Client/Invoker/Collect.antt =====
-- A piece of a response, kept by include/rpc/client/invoker.cpp: the client collects as the server does.
use muse_rpc.Common.{
  ℕ, zero, suc, ◌*◌, ◌<◌, ◌≡◌, refl, sym, ap, ◌∙◌, ◌==◌, if◌then◌else◌, Bool, true, false, List, [],
  ◌∷◌, some, none, set, get_elem?, get_elem?-lt, length-replicate, ok, arith,
}
use mathlib.Core.Path.{subst}
use muse_rpc.Memory.{Memory, memcpy}
use muse_rpc.Protocol.Header.{ProtocolHeader, response}
use muse_rpc.Protocol.{piece_count_of}
use muse_rpc.Protocol.Pieces.{IsMessageSize, piece_size_of, piece_fits}
use muse_rpc.Server.PieceState.{get_ack_number, get_piece_state-ok, set_piece_state-ok}
use muse_rpc.Server.Request.{Request}
use muse_rpc.Server.Request.Receipt.{
  piece_header, Carries, Assembles, stored, with_piece, with_piece-Assembles, marked_set,
  blank_state,
}
use muse_rpc.Client.ResponseData.{ResponseData, initialize}
use muse_rpc.Client.Invoker.{Caller, keep_piece, keep_in}

-- The part of a response that a request of the server has too.
abbrev pub as_request : ResponseData → Request
as_request r = record {
  servlet = record { request_id = r.message_id; client_port = 0; client_ip_address = 0 };
  piece_state = r.piece_state;
  piece_count = r.piece_count;
  total_data_size = r.total_size;
  socket_fd = none;
  is_trigger = false;
  active_dt = 0;
  content = r.content;
}

set_same : (bits : List Bool) (i : ℕ) → get_elem? bits i ≡ some true → set bits i true ≡ bits
set_same [] i h = refl
set_same (b ∷ bits) zero h = ground arith
set_same (b ∷ bits) (suc i) h = ap (λ xs. b ∷ xs) (set_same bits i h)

-- The header of piece `order` of a response, as the client reads it.
abbrev pub response_header : ℕ → ℕ → ℕ → ProtocolHeader
response_header id n order = record (piece_header id n order) { phase = response }

module _ (c : Caller) (whole : Memory) (n : ℕ) where
  -- What the first piece makes of a response that has none.
  abbrev pub ready : ResponseData → ResponseData
  ready r = initialize r c.message_id (piece_count_of n) n c.allocated

  -- The response collects the message, once it is initialised.
  abbrev pub Collects : ResponseData → Type 0
  Collects r = Assembles whole n (as_request (ready r))

  -- A piece of the response is kept, new or not, and the rest of the state says so.
  pub record Kept (r r' : ResponseData) (order ack : ℕ) : Type 0 where
    pub collects : Collects r'
    pub is_ready : ready r' ≡ r'
    pub marked :
        (k : ℕ)
        → get_elem? r'.piece_state k
          ≡ (if k == order then some true else get_elem? (ready r).piece_state k)
    pub acknowledges : ack ≡ get_ack_number r'.piece_state

  pub fresh-Collects : (r : ResponseData) → r.is_initial ≡ false → Collects r
  unfolding initialize
  fresh-Collects r h = rw h (record {
    count_kept = refl;
    states_kept = length-replicate (piece_count_of n) false;
    size_kept = refl;
    filled = λ i j g hi hj. absurd (blank_state (piece_count_of n) i g);
  })

  ready_initial : (r : ResponseData) → (ready r).is_initial ≡ true
  unfolding initialize
  ready_initial r = ground arith

  ready_same : (q : ResponseData) → q.is_initial ≡ true → ready q ≡ q
  unfolding initialize
  ready_same q h = rw h

  -- The response with piece `order` in it, copied unless it was there.
  with_response_piece : ResponseData → ℕ → Memory → Bool → ResponseData
  unfolding stored
  with_response_piece q order buf received = record q {
    content = (if received then q.content else stored q.content n order buf);
    piece_state = set q.piece_state order true;
  }

  keep_at :
      (q : ResponseData) (order : ℕ) (buf : Memory) (b : Bool)
      → IsMessageSize n
      → order < piece_count_of n
      → Assembles whole n (as_request q)
      → get_elem? q.piece_state order ≡ some b
      → keep_in c q (response_header c.message_id n order) buf
        ≡ ok (with_response_piece q order buf b, get_ack_number (set q.piece_state order true))
  unfolding keep_in with_response_piece
  keep_at q order buf b s h a g =
      let (fits, small, few) = piece_fits n order s h in
      let state =
        get_piece_state-ok q.piece_state q.piece_count order b (a.states_kept ∙ sym a.count_kept)
          (omega (arith, a.count_kept)) g in
      let sets =
        set_piece_state-ok q.piece_state q.piece_count order true (a.states_kept ∙ sym a.count_kept)
          (omega (arith, a.count_kept)) in
      let place : memcpy q.content (order * 522) buf 26 (piece_size_of n order)
          ≡ stored q.content n order buf =
        ap (λ offset. memcpy q.content offset buf 26 (piece_size_of n order)) (omega arith) in
      ground (arith, state, sets, place, a.size_kept)

  piece-Assembles :
      (q : ResponseData) (order : ℕ) (buf : Memory) (b : Bool)
      → IsMessageSize n
      → order < piece_count_of n
      → Carries whole n order buf
      → get_elem? q.piece_state order ≡ some b
      → Assembles whole n (as_request q)
      → Assembles whole n (as_request (with_response_piece q order buf b))
  unfolding with_response_piece with_piece
  piece-Assembles q order buf true s h k g a = rw (set_same q.piece_state order g) a
  piece-Assembles q order buf false s h k g a =
      with_piece-Assembles whole buf n order (as_request q) s h k a

  pub keep_piece-Kept :
      (r : ResponseData) (order : ℕ) (buf : Memory)
      → IsMessageSize n
      → order < piece_count_of n
      → Carries whole n order buf
      → Collects r
      → (r' : ResponseData) × (ack : ℕ) × (keep_piece c r (response_header c.message_id n order) buf
          ≡ ok (r', ack))
        × Kept r r' order ack
  unfolding keep_piece with_response_piece
  keep_piece-Kept r order buf s h k a =
      let (b, g) = get_elem?-lt (ready r).piece_state order (omega (arith, a.states_kept)) in
      let stays = ready_same (with_response_piece (ready r) order buf b) (ready_initial r) in
      (
        with_response_piece (ready r) order buf b,
        get_ack_number (set (ready r).piece_state order true),
        keep_at (ready r) order buf b s h a g,
        record {
          collects =
              subst (λ q. Assembles whole n (as_request q)) (sym stays)
                (piece-Assembles (ready r) order buf b s h k g a);
          is_ready = stays;
          marked = λ i. marked_set (ready r).piece_state order i (omega (arith, a.states_kept));
          acknowledges = refl;
        },
      )
