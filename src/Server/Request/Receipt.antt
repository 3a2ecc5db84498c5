-- ===== src/Server/Request/Receipt.antt =====
-- One piece of a message reaches its request: what `receive_first` and `receive_known` do to the
-- data and to the piece states, for the datagrams that a sender cuts a message into.
use muse_rpc.Common.{
  ℕ, zero, suc, ◌+◌, ◌*◌, ◌≤◌, ◌<◌, ◌≡◌, ◌≢◌, refl, sym, ◌∙◌, Bool, true, false, List, some, length,
  get_elem?, set, get_elem?-set_self, get_elem?-set_ne, length-set, length-replicate, get_elem?-lt,
  replicate, ◌==◌, if◌then◌else◌, ok, arith, ◌⊎◌,
}
use muse_rpc.Memory.{Memory, memcpy, memcpy_inside, memcpy_outside}
use muse_rpc.Protocol.Header.{ProtocolHeader, zero_header}
use muse_rpc.Protocol.{
  protocol_header_size, default_piece_limit_size, piece_count_of, default_synchronous_word,
}
use muse_rpc.Protocol.Pieces.{piece_size_of, IsMessageSize, piece_fits}
use native.Mathlib.Decide.{ℕ_discrete}
use muse_rpc.Server.PieceState.{
  get_piece_state-ok, set_piece_state-ok, get_ack_number, get_piece_state,
}
use muse_rpc.Server.Request.{
  Request, store_piece, receive_known, receive_first, new_request, set_socket,
}

-- The header of piece `order` of a message of `n` bytes.
abbrev pub piece_header : ℕ → ℕ → ℕ → ProtocolHeader
piece_header id n order = record zero_header {
  synchronous_word = default_synchronous_word;
  time_point = id;
  total_count = piece_count_of n;
  total_size = n;
  piece_standard_size = default_piece_limit_size;
  piece_order = order;
  piece_size = piece_size_of n order;
}

-- The buffer holds, behind the header, that piece of the message `whole`.
abbrev pub Carries : Memory → ℕ → ℕ → Memory → Type 0
Carries whole n order buf =
    (j : ℕ)
    → j < piece_size_of n order
    → buf (protocol_header_size + j) ≡ whole (default_piece_limit_size * order + j)

-- The request keeps the pieces it has marked as received, each where it belongs.
pub record Assembles (whole : Memory) (n : ℕ) (r : Request) : Type 0 where
  pub count_kept : r.piece_count ≡ piece_count_of n
  pub states_kept : length r.piece_state ≡ piece_count_of n
  pub size_kept : r.total_data_size ≡ n
  pub filled :
      (i j : ℕ)
      → get_elem? r.piece_state i ≡ some true
      → i < piece_count_of n
      → j < piece_size_of n i
      → r.content (default_piece_limit_size * i + j) ≡ whole (default_piece_limit_size * i + j)

-- The copy of a piece, byte by byte.
unfoldable pub stored : Memory → ℕ → ℕ → Memory → Memory
unfolding memcpy
stored old n order buf =
    memcpy old (default_piece_limit_size * order) buf protocol_header_size (piece_size_of n order)

pub store_piece-stored :
    (r : Request) (id n order : ℕ) (buf : Memory)
    → IsMessageSize n
    → r.total_data_size ≡ n
    → order < piece_count_of n
    → store_piece r (piece_header id n order) buf
      ≡ ok (record r { content = stored r.content n order buf })
unfolding store_piece stored
store_piece-stored r id n order buf s e h =
    let (fits, small, few) = piece_fits n order s h in ground arith

-- Inside the piece the copy has the message's bytes.
stored_inside :
    (whole old buf : Memory) (n order j : ℕ)
    → Carries whole n order buf
    → j < piece_size_of n order
    → stored old n order buf (default_piece_limit_size * order + j)
      ≡ whole (default_piece_limit_size * order + j)
unfolding stored
stored_inside whole old buf n order j c h =
    memcpy_inside old buf (default_piece_limit_size * order) protocol_header_size
      (piece_size_of n order) j h
    ∙ c j h

apart :
    (order i size size' j : ℕ)
    → size ≤ default_piece_limit_size
    → size' ≤ default_piece_limit_size
    → j < size'
    → i ≢ order
    → (default_piece_limit_size * i + j < default_piece_limit_size * order)
      ⊎ (default_piece_limit_size * order + size ≤ default_piece_limit_size * i + j)
apart order i size size' j s s' h ne = ground arith

stored_outside :
    (old buf : Memory) (n order i j : ℕ)
    → IsMessageSize n
    → order < piece_count_of n
    → i < piece_count_of n
    → j < piece_size_of n i
    → i ≢ order
    → stored old n order buf (default_piece_limit_size * i + j)
      ≡ old (default_piece_limit_size * i + j)
unfolding stored
stored_outside old buf n order i j s ho hi h ne =
    let (fits, small, few) = piece_fits n order s ho in
    let (fits', small', few') = piece_fits n i s hi in
    memcpy_outside old buf (default_piece_limit_size * order) protocol_header_size
      (piece_size_of n order) (default_piece_limit_size * i + j)
      (apart order i (piece_size_of n order) (piece_size_of n i) j small small' h ne)

-- What one piece changes.
pub record Receives (whole : Memory) (n order : ℕ) (r r' : Request) (ack : ℕ) : Type 0 where
  pub assembles : Assembles whole n r'
  pub marked :
      (k : ℕ)
      → get_elem? r'.piece_state k ≡ (if k == order then some true else get_elem? r.piece_state k)
  pub acknowledges : ack ≡ get_ack_number r'.piece_state

pub marked_set :
    (bits : List Bool) (order k : ℕ)
    → order < length bits
    → get_elem? (set bits order true) k ≡ (if k == order then some true else get_elem? bits k)
marked_set bits order k h = elim (ℕ_discrete order k) [
  | yes e ↦ rw (← e) (ground (arith, get_elem?-set_self bits order true h))
  | no ne ↦ rw (get_elem?-set_ne bits order k true ne) (ground arith)
]

marked_known :
    (bits : List Bool) (order k : ℕ)
    → get_elem? bits order ≡ some true
    → get_elem? bits k ≡ (if k == order then some true else get_elem? bits k)
marked_known bits order k h = elim (ℕ_discrete order k) [
  | yes e ↦ rw (← e, h) (ground arith)
  | no ne ↦ ground arith
]

-- The request after the copy and the new state.
unfoldable pub with_piece : Request → ℕ → ℕ → Memory → Request
unfolding stored
with_piece r n order buf = record r {
  content = stored r.content n order buf;
  piece_state = set r.piece_state order true;
}

pub with_piece-Assembles :
    (whole buf : Memory) (n order : ℕ) (r : Request)
    → IsMessageSize n
    → order < piece_count_of n
    → Carries whole n order buf
    → Assembles whole n r
    → Assembles whole n (with_piece r n order buf)
unfolding with_piece
with_piece-Assembles whole buf n order r s h c a = record {
  count_kept = a.count_kept;
  states_kept = length-set r.piece_state order true ∙ a.states_kept;
  size_kept = a.size_kept;
  filled = fill;
}
  where
    fill :
        (i j : ℕ)
        → get_elem? (set r.piece_state order true) i ≡ some true
        → i < piece_count_of n
        → j < piece_size_of n i
        → stored r.content n order buf (default_piece_limit_size * i + j)
          ≡ whole (default_piece_limit_size * i + j)
    fill i j g hi hj = elim (ℕ_discrete i order) [
      | yes e ↦ rw e (stored_inside whole r.content buf n order j c (rw e at hj))
      | no ne ↦
          stored_outside r.content buf n order i j s h hi hj ne
          ∙ a.filled i j (sym (get_elem?-set_ne r.piece_state order i true (λ e. ne (sym e))) ∙ g)
              hi hj
    ]

-- A piece of a message is accepted, new or not: it is never refused and never out of bounds.
pub receive_known-Receives :
    (whole buf : Memory) (id n order : ℕ) (r : Request)
    → IsMessageSize n
    → order < piece_count_of n
    → Carries whole n order buf
    → Assembles whole n r
    → (r' : Request) × (ack : ℕ) × (receive_known r (piece_header id n order) buf ≡ ok (r', ack))
      × Receives whole n order r r' ack
unfolding receive_known with_piece
receive_known-Receives whole buf id n order r s h c a =
    go (get_elem?-lt r.piece_state order (omega (arith, a.states_kept)))
  where
    state :
        (b : Bool)
        → get_elem? r.piece_state order ≡ some b
        → get_piece_state r.piece_state r.piece_count order ≡ ok b
    state b g =
        get_piece_state-ok r.piece_state r.piece_count order b (a.states_kept ∙ sym a.count_kept)
          (omega (arith, a.count_kept)) g

    go :
        (b : Bool) × (get_elem? r.piece_state order ≡ some b)
        → (r' : Request) × (ack : ℕ) × (receive_known r (piece_header id n order) buf
            ≡ ok (r', ack))
          × Receives whole n order r r' ack
    go (true, g) = (
      r,
      get_ack_number r.piece_state,
      rw (receive_known, state true g) refl,
      record {
        assembles = a;
        marked = λ k. marked_known r.piece_state order k g;
        acknowledges = refl;
      },
    )
    go (false, g) = (
      with_piece r n order buf,
      get_ack_number (set r.piece_state order true),
      ground (
        arith,
        state false g,
        store_piece-stored r id n order buf s a.size_kept h,
        set_piece_state-ok r.piece_state r.piece_count order true (a.states_kept ∙ sym a.count_kept)
            (omega (arith, a.count_kept)),
      ),
      record {
        assembles = with_piece-Assembles whole buf n order r s h c a;
        marked = λ k. marked_set r.piece_state order k (omega (arith, a.states_kept));
        acknowledges = refl;
      },
    )

-- The request that `receive_first` starts from.
abbrev pub blank : ℕ → ℕ → ℕ → ℕ → ℕ → Memory → Request
blank port ip fd id n allocated =
    set_socket (new_request id port ip (piece_count_of n) n allocated) fd

pub blank_state : (n i : ℕ) → get_elem? (replicate n false) i ≢ some true
blank_state zero i e = cc
blank_state (suc n) zero e = cc
blank_state (suc n) (suc i) e = blank_state n i e

blank-Assembles :
    (whole allocated : Memory) (port ip fd id n : ℕ)
    → Assembles whole n (blank port ip fd id n allocated)
unfolding new_request set_socket
blank-Assembles whole allocated port ip fd id n = record {
  count_kept = refl;
  states_kept = length-replicate (piece_count_of n) false;
  size_kept = refl;
  filled = λ i j g hi hj. absurd (blank_state (piece_count_of n) i g);
}

-- The first piece to arrive, whichever it is, starts the request.
pub receive_first-Receives :
    (whole buf allocated : Memory) (port ip fd now id n order : ℕ)
    → IsMessageSize n
    → order < piece_count_of n
    → Carries whole n order buf
    → (r' : Request) × (ack : ℕ) × (receive_first port ip fd now
          (piece_header id n order)
          allocated
          buf
        ≡ ok (r', ack))
      × Receives whole n order (blank port ip fd id n allocated) r' ack
unfolding receive_first with_piece
receive_first-Receives whole buf allocated port ip fd now id n order s h c = (
  started,
  get_ack_number (set (replicate (piece_count_of n) false) order true),
  ground (
    arith,
    set_piece_state-ok (replicate (piece_count_of n) false) (piece_count_of n) order true
        (length-replicate (piece_count_of n) false) h,
    store_piece-stored
        (record first {
          piece_state = set (replicate (piece_count_of n) false) order true;
          active_dt = now;
        })
        id n order buf s refl h,
  ),
  record {
    assembles =
        with_piece-Assembles whole buf n order (record first { active_dt = now }) s h c kept;
    marked = λ k.
        marked_set (replicate (piece_count_of n) false) order k
          (omega (arith, length-replicate (piece_count_of n) false));
    acknowledges = refl;
  },
)
  where
    first : Request
    first = blank port ip fd id n allocated

    started : Request
    started = with_piece (record first { active_dt = now }) n order buf

    kept : Assembles whole n (record first { active_dt = now })
    kept =
        let a = blank-Assembles whole allocated port ip fd id n in
        record {
          count_kept = a.count_kept;
          states_kept = a.states_kept;
          size_kept = a.size_kept;
          filled = a.filled;
        }
