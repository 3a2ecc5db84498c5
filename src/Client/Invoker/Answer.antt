-- ===== src/Client/Invoker/Answer.antt =====
-- The second phase of `Invoker::request` of include/rpc/client/invoker.cpp, when the pieces of the response come in.
use muse_rpc.Common.{
  ℕ, ◌+◌, ◌^◌, ◌<◌, ◌≡◌, ◌≢◌, refl, sym, ◌∙◌, ◌==◌, if◌then◌else◌, Bool, true, false, ◌||◌, List,
  [], ◌∷◌, some, get_elem?, get_elem?-replicate, All, arith,
}
use muse_rpc.Memory.{Memory, ByteSequence}
use muse_rpc.Protocol.{piece_count_of, protocol_header_size}
use muse_rpc.Protocol.Pieces.{IsMessageSize, pieces_cover, piece_size_of}
use muse_rpc.Packets.{response_piece}
use muse_rpc.Packets.Parsed.{pieces_read}
use muse_rpc.Server.PieceState.{get_ack_number, ack_complete}
use muse_rpc.Client.ResponseData.{ResponseData, initialize}
use muse_rpc.Client.Invoker.{
  Caller, Exchange, Event, Progress, returned, keep_piece, kept, answered, on_phase_two, phase_two,
  finish, try_times,
}
use muse_rpc.Client.Invoker.Turns.{Ensures, ends, Ensures-resume, Ensures-stopped}
use muse_rpc.Client.Invoker.Collect.{ready, Collects, response_header, fresh-Collects}
use muse_rpc.Client.Invoker.Arrival.{
  IsPiece, IsHonest, IsPiece-IsHonest, RightAnswer, kept-Turns, read_back-RightAnswer,
}

-- A datagram that arrived: the piece that it carries, its bytes and its length.
pub record Arrival : Type 0 where
  pub order : ℕ
  pub buf : Memory
  pub size : ℕ

abbrev pub is_arrived : ℕ → List Arrival → Bool
is_arrived k [] = false
is_arrived k (a ∷ rest) = k == a.order || is_arrived k rest

-- What `recvfrom` gives: these datagrams, and whatever comes later.
abbrev pub arrivals : List Arrival → List Event → List Event
arrivals [] later = later
arrivals (a ∷ rest) later = some (a.buf, a.size) ∷ arrivals rest later

module _ (c : Caller) (whole : Memory) (n : ℕ) where
  -- The call returns the message, read by the middleware.
  abbrev pub Succeeds : Progress → Type 0
  Succeeds (returned r x) = (r.is_success ≡ true) × RightAnswer c whole n r
  Succeeds p = ⊥

  abbrev pub IsArrival : Arrival → Type 0
  IsArrival a = IsPiece c whole n a.order a.buf a.size

  on_phase_two-kept :
      (x : Exchange) (a : Arrival)
      → IsArrival a
      → on_phase_two c x a.buf a.size
        ≡ kept c
            (record x { response_need_try = try_times })
            c.message_id
            (keep_piece c x.response (response_header c.message_id n a.order) a.buf)
  unfolding on_phase_two answered
  on_phase_two-kept x a (parses, _, _) = rw parses (ground arith)

  -- The piece is there, or is to come.
  abbrev Comes : List Arrival → ResponseData → Type 0
  Comes rest r =
      (k : ℕ)
      → k < piece_count_of n
      → (if is_arrived k rest then some true else get_elem? (ready c whole n r).piece_state k)
        ≡ some true

  abbrev IsUnfinished : ResponseData → Type 0
  IsUnfinished r = get_ack_number (ready c whole n r).piece_state ≢ piece_count_of n

  phase_two-Succeeds :
      (rest : List Arrival) (later : List Event) (x : Exchange)
      → IsMessageSize n
      → All IsArrival rest
      → Collects c whole n x.response
      → IsUnfinished x.response
      → Comes rest x.response
      → Ensures (λ _. ⊥) Succeeds (phase_two c (arrivals rest later) x)
  unfolding phase_two finish
  phase_two-Succeeds [] later x s h a u k = absurd (
      u (
        (ack_complete (ready c whole n x.response).piece_state).1
          (λ i hi. k i (omega (arith, a.states_kept)))
        ∙ a.states_kept))
  phase_two-Succeeds (d ∷ rest) later x s (h, hs) a u k = rw (on_phase_two-kept x d h) (
      Ensures-resume
        (λ x' (ack, got, e).
          phase_two-Succeeds rest later x' s hs got.collects
            (rw got.is_ready (λ q. e (got.acknowledges ∙ q)))
            (λ i hi. rw got.is_ready (ground (arith, got.marked i, k i hi))))
        (λ x' (ack, got, e).
          ends (refl, read_back-RightAnswer c whole n x.response x'.response d.order ack s got e))
        (kept-Turns c whole n x d.order d.buf Succeeds s h.1 h.2 a
          (record x { response_need_try = try_times })))

  blank_at :
      (r : ResponseData)
      → r.is_initial ≡ false
      → (k : ℕ) → k < piece_count_of n
      → get_elem? (ready c whole n r).piece_state k ≡ some false
  unfolding initialize
  blank_at r e k h = rw e (get_elem?-replicate (piece_count_of n) k false h)

  -- Let the second phase begin with no piece of the response, and let datagrams with its pieces come in: in any
  -- order, with any repetition, every piece at least once, and whatever comes after them. The call returns a
  -- success, and its data is what the middleware reads from the message, byte for byte.
  pub response_arrives :
      (rest : List Arrival) (later : List Event) (x : Exchange)
      → IsMessageSize n
      → All IsArrival rest
      → x.response.is_initial ≡ false
      → ((k : ℕ) → k < piece_count_of n → is_arrived k rest ≡ true)
      → Succeeds (phase_two c (arrivals rest later) x)
  response_arrives rest later x s h e k =
      let a = fresh-Collects c whole n x.response e in
      Ensures-stopped (
        phase_two-Succeeds rest later x s h a
          (λ q.
            let some_piece : 0 < piece_count_of n = (pieces_cover n s.some_bytes s.countable).0 in
            ground (
              arith,
              blank_at x.response e 0 some_piece,
              (ack_complete (ready c whole n x.response).piece_state).0 (q ∙ sym a.states_kept) 0
                  (omega (arith, a.states_kept)),
            ))
          (λ i hi. rw (k i hi) refl))

-- A piece of the response, as the server sends it.
abbrev pub from_server : ByteSequence → Memory → ℕ → Memory → ℕ → ℕ → Arrival
from_server server raw message_id whole n order = record {
  order = order;
  buf = response_piece server raw message_id whole n order (piece_size_of n order);
  size = protocol_header_size + piece_size_of n order;
}

-- The server's datagrams for the pieces with these numbers.
abbrev pub from_server_all : ByteSequence → Memory → ℕ → Memory → ℕ → List ℕ → List Arrival
from_server_all server raw message_id whole n [] = []
from_server_all server raw message_id whole n (k ∷ ks) =
    from_server server raw message_id whole n k ∷ from_server_all server raw message_id whole n ks

abbrev pub is_member : ℕ → List ℕ → Bool
is_member k [] = false
is_member k (i ∷ rest) = k == i || is_member k rest

module _ (c : Caller) (whole : Memory) (n : ℕ) where
  pub arrivals-IsHonest :
      (rest : List Arrival) (later : List Event)
      → All (IsArrival c whole n) rest
      → All (IsHonest c whole n) later
      → All (IsHonest c whole n) (arrivals rest later)
  arrivals-IsHonest [] later h k = k
  arrivals-IsHonest (a ∷ rest) later (h, hs) k =
      (IsPiece-IsHonest c whole n a.order a.buf a.size h, arrivals-IsHonest rest later hs k)

module _ (c : Caller) (server : ByteSequence) (raw whole : Memory) (n : ℕ)
    (fits : c.message_id < 2 ^ 64) (s : IsMessageSize n) where
  pub from_server_all-IsArrival :
      (orders : List ℕ)
      → All (λ k. k < piece_count_of n) orders
      → All (IsArrival c whole n) (from_server_all server raw c.message_id whole n orders)
  from_server_all-IsArrival [] h = tt
  from_server_all-IsArrival (k ∷ ks) (h, hs) =
      let (_, _, reads, carries) = pieces_read server raw c.message_id fits whole n k s h in
      ((reads c.host, h, carries), from_server_all-IsArrival ks hs)

  is_arrived_lem :
      (k : ℕ) (orders : List ℕ)
      → is_arrived k (from_server_all server raw c.message_id whole n orders) ≡ is_member k orders
  is_arrived_lem k [] = refl
  is_arrived_lem k (i ∷ rest) = rw (is_arrived_lem k rest) refl

  -- The server's datagrams, from a machine of either byte order, bring a response of `n` bytes to a client of either byte order
  -- that waits for it and has no piece yet: they may come in any order and more than once, as long as the
  -- network delivers each piece at least once. The call returns a success with exactly that message, read by the middleware.
  pub response_travels :
      (orders : List ℕ) (later : List Event) (x : Exchange)
      → All (λ k. k < piece_count_of n) orders
      → ((k : ℕ) → k < piece_count_of n → is_member k orders ≡ true)
      → x.response.is_initial ≡ false
      → Succeeds c whole n
          (phase_two c (arrivals (from_server_all server raw c.message_id whole n orders) later) x)
  response_travels orders later x h k e =
      response_arrives c whole n (from_server_all server raw c.message_id whole n orders) later x s
        (from_server_all-IsArrival orders h) e (λ i hi. is_arrived_lem i orders ∙ k i hi)
