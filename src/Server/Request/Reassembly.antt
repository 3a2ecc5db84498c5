-- ===== src/Server/Request/Reassembly.antt =====
-- A whole message reaches the server piece by piece, in any order and with any repetition.
use muse_rpc.Common.{
  ℕ, ◌+◌, ◌*◌, ◌/◌, ◌%◌, ◌<◌, ◌≡◌, refl, sym, ◌∙◌, Bool, true, false, ◌||◌, List, [], ◌∷◌, some,
  get_elem?, ◌==◌, if◌then◌else◌, Outcome, ok, ◌>>=◌, arith, ◌↔◌, All, get_elem?-replicate,
}
use muse_rpc.Memory.{Memory}
use muse_rpc.Protocol.{default_piece_limit_size, piece_count_of}
use muse_rpc.Protocol.Pieces.{IsMessageSize, byte_in_piece}
use muse_rpc.Server.PieceState.{get_ack_number, ack_complete}
use muse_rpc.Server.Request.{Request, receive_known, receive_first, new_request, set_socket}
use muse_rpc.Server.Request.Receipt.{
  piece_header, Carries, Assembles, Receives, blank, receive_known-Receives, receive_first-Receives,
}

-- A datagram that arrived: the piece that it carries, and the buffer that it was read into.
pub record Delivery : Type 0 where
  pub order : ℕ
  pub buf : Memory

abbrev pub IsDelivery : Memory → ℕ → Delivery → Type 0
IsDelivery whole n d = (d.order < piece_count_of n) × Carries whole n d.order d.buf

pub deliver_rest : ℕ → ℕ → Request → ℕ → List Delivery → Outcome (Request × ℕ)
deliver_rest id n r ack [] = ok (r, ack)
deliver_rest id n r ack (d ∷ ds) =
    receive_known r (piece_header id n d.order) d.buf >>= λ t. deliver_rest id n t.0 t.1 ds

-- The first datagram starts the request, and the others find it.
pub deliver : ℕ → ℕ → ℕ → ℕ → ℕ → ℕ → Memory → Delivery → List Delivery → Outcome (Request × ℕ)
deliver port ip fd now id n allocated d ds =
    receive_first port ip fd now (piece_header id n d.order) allocated d.buf >>= λ t.
    deliver_rest id n t.0 t.1 ds

abbrev pub is_delivered : ℕ → List Delivery → Bool
is_delivered k [] = false
is_delivered k (d ∷ ds) = k == d.order || is_delivered k ds

record Delivered (whole : Memory) (n : ℕ) (r : Request) (ds : List Delivery) (r' : Request)
    (ack : ℕ) : Type 0 where
  assembles : Assembles whole n r'
  marked :
      (k : ℕ)
      → get_elem? r'.piece_state k
        ≡ (if is_delivered k ds then some true else get_elem? r.piece_state k)
  acknowledges : ack ≡ get_ack_number r'.piece_state

deliver_rest-Delivered :
    (whole : Memory) (id n : ℕ) (r : Request) (ack : ℕ) (ds : List Delivery)
    → IsMessageSize n
    → Assembles whole n r
    → ack ≡ get_ack_number r.piece_state
    → All (IsDelivery whole n) ds
    → (r' : Request) × (ack' : ℕ) × (deliver_rest id n r ack ds ≡ ok (r', ack'))
      × Delivered whole n r ds r' ack'
unfolding deliver_rest
deliver_rest-Delivered whole id n r ack [] s a e h =
    (r, ack, refl, record { assembles = a; marked = λ k. refl; acknowledges = e })
deliver_rest-Delivered whole id n r ack (d ∷ ds) s a e ((lt, c), h) =
    let (r', ack', run, got) = receive_known-Receives whole d.buf id n d.order r s lt c a in
    let (r'', ack'', rest, done) =
      deliver_rest-Delivered whole id n r' ack' ds s got.assembles got.acknowledges h in
    (
      r'',
      ack'',
      rw run rest,
      record {
        assembles = done.assembles;
        marked = λ k. ground (arith, done.marked k, got.marked k);
        acknowledges = done.acknowledges;
      },
    )

-- With every piece in, the data is the message.
pub complete-content :
    (whole : Memory) (n : ℕ) (r : Request)
    → IsMessageSize n
    → Assembles whole n r
    → get_ack_number r.piece_state ≡ piece_count_of n
    → (x : ℕ) → x < n
    → r.content x ≡ whole x
complete-content whole n r s a e x h =
    let (lt, inside) = byte_in_piece n x s h in
    let split : default_piece_limit_size * (x / default_piece_limit_size)
          + x % default_piece_limit_size
        ≡ x =
      omega arith in
    rw split at (
      a.filled (x / default_piece_limit_size) (x % default_piece_limit_size)
        ((ack_complete r.piece_state).0 (e ∙ sym a.states_kept) _ (omega (arith, a.states_kept))) lt
        inside)

blank_at :
    (port ip fd id n : ℕ) (allocated : Memory) (k : ℕ)
    → k < piece_count_of n
    → get_elem? (blank port ip fd id n allocated).piece_state k ≡ some false
unfolding new_request set_socket
blank_at port ip fd id n allocated k h = get_elem?-replicate (piece_count_of n) k false h

-- What the server makes of the pieces: a request `r` and the last acknowledgement number `ack`.
abbrev pub Reassembled : Memory → ℕ → Delivery → List Delivery → Outcome (Request × ℕ) → Type 0
Reassembled whole n d ds outcome =
    (r : Request) × (ack : ℕ) × (outcome ≡ ok (r, ack))
    × ((ack ≡ piece_count_of n) ↔ ((k : ℕ) → k < piece_count_of n → is_delivered k (d ∷ ds) ≡ true))
    × (ack ≡ piece_count_of n → (x : ℕ) → x < n → r.content x ≡ whole x)

-- Deliver pieces of a message to a server that has not seen it: in any order, with any repetition,
-- at least one. Nothing throws and no access is out of bounds; the acknowledgement number reaches
-- the piece count exactly when every piece has been delivered; and then the request holds the
-- message, byte for byte.
pub reassembly :
    (whole allocated : Memory) (port ip fd now id n : ℕ) (d : Delivery) (ds : List Delivery)
    → IsMessageSize n
    → All (IsDelivery whole n) (d ∷ ds)
    → Reassembled whole n d ds (deliver port ip fd now id n allocated d ds)
unfolding deliver
reassembly whole allocated port ip fd now id n d ds s ((lt, c), h) =
    let (r, ack, run, got) =
      receive_first-Receives whole d.buf allocated port ip fd now id n d.order s lt c in
    let (r', ack', rest, done) =
      deliver_rest-Delivered whole id n r ack ds s got.assembles got.acknowledges h in
    (
      r',
      ack',
      rw run rest,
      (
        (λ e k hk. ground (
          arith,
          all_in r' ack' done.assembles done.acknowledges e k hk,
          state r r' got done k hk,
        )),
        (λ all.
            done.acknowledges
            ∙ (ack_complete r'.piece_state).1
                (λ k hk. ground (arith, all k, done.assembles.states_kept, state r r' got done k))
            ∙ done.assembles.states_kept),
      ),
      (λ e. complete-content whole n r' s done.assembles (sym done.acknowledges ∙ e)),
    )
  where
    all_in :
        (r' : Request) (ack' : ℕ)
        → Assembles whole n r'
        → ack' ≡ get_ack_number r'.piece_state
        → ack' ≡ piece_count_of n
        → (k : ℕ) → k < piece_count_of n
        → get_elem? r'.piece_state k ≡ some true
    all_in r' ack' a e e' k hk =
        (ack_complete r'.piece_state).0 (sym e ∙ e' ∙ sym a.states_kept) k
          (omega (arith, a.states_kept))

    state :
        (r r' : Request) {ack ack' : ℕ}
        → Receives whole n d.order (blank port ip fd id n allocated) r ack
        → Delivered whole n r ds r' ack'
        → (k : ℕ) → k < piece_count_of n
        → get_elem? r'.piece_state k ≡ (if is_delivered k (d ∷ ds) then some true else some false)
    state r r' got done k hk =
        ground (arith, done.marked k, got.marked k, blank_at port ip fd id n allocated k hk)
