-- ===== src/Server/Reactor/Known.antt =====
-- Hand-over of requests to the thread pool: `SubReactor::loop` of include/rpc/server/sub_reactor.cpp and
-- the calls of `trigger` there.
use muse_rpc.Common.{
  ℕ, suc, ◌+◌, ◌*◌, ◌^◌, length, set, get_elem?-lt, ◌≤◌, ◌<◌, ◌≡◌, ◌≢◌, refl, sym, ◌∙◌, ◌==◌, Bool,
  true, false, not, ◌&&◌, List, [], ◌∷◌, ◌++◌, some, ok, ◌>>=◌, bind_ok, arith, if◌then◌else◌,
}
use mathlib.Core.Path.{subst}
use muse_rpc.Memory.{Memory, memcpy}
use muse_rpc.Protocol.{protocol_header_size}
use muse_rpc.Protocol.Header.{ProtocolHeader}
use muse_rpc.Server.PieceState.{
  get_piece_state-ok, set_piece_state-ok, get_ack_number, get_piece_state, set_piece_state,
}
use muse_rpc.Server.Servlet.{Servlet, find, modify, find-modify_self}
use muse_rpc.Server.Request.{Request, receive_known, store_piece, trigger}
use muse_rpc.Server.Reactor.{
  SubReactor, VirtualConnection, Environment, Effect, send, wrong_protocol, close_socket, close_fd,
  wake_up, add_to_epoll, commit, emit, set_connection, commit_request, after_piece,
  handle_request_send,
}

-- How many requests went to the thread pool.
abbrev pub commits : List Effect → ℕ
commits [] = 0
commits (commit size content servlet slot ∷ xs) = suc (commits xs)
commits (send fd m n ∷ xs) = commits xs
commits (wrong_protocol fd ∷ xs) = commits xs
commits (close_socket fd addr ∷ xs) = commits xs
commits (close_fd fd ∷ xs) = commits xs
commits (wake_up ∷ xs) = commits xs
commits (add_to_epoll fd slot ∷ xs) = commits xs

commits-append : (xs ys : List Effect) → commits (xs ++ ys) ≡ commits xs + commits ys
commits-append [] ys = omega arith
commits-append (commit size content servlet slot ∷ xs) ys = omega (arith, commits-append xs ys)
commits-append (send fd m n ∷ xs) ys = commits-append xs ys
commits-append (wrong_protocol fd ∷ xs) ys = commits-append xs ys
commits-append (close_socket fd addr ∷ xs) ys = commits-append xs ys
commits-append (close_fd fd ∷ xs) ys = commits-append xs ys
commits-append (wake_up ∷ xs) ys = commits-append xs ys
commits-append (add_to_epoll fd slot ∷ xs) ys = commits-append xs ys

store_piece_trigger :
    (r r' : Request) (header : ProtocolHeader) (buf : Memory)
    → store_piece r header buf ≡ ok r'
    → r'.is_trigger ≡ r.is_trigger
unfolding store_piece
store_piece_trigger r r' header buf h = ground arith

known_piece_trigger :
    (r : Request) (header : ProtocolHeader) (buf : Memory) (t : Request × ℕ) (received : Bool)
    → (if received
        then ok (r, get_ack_number r.piece_state)
        else (store_piece r header buf >>= λ r'.
            set_piece_state r'.piece_state r'.piece_count header.piece_order true >>= λ u.
            ok (record r' { piece_state = u.0 }, u.1)))
      ≡ ok t
    → t.0.is_trigger ≡ r.is_trigger
known_piece_trigger r header buf t true h = ground arith
known_piece_trigger r header buf t false h =
    let (r', stored, h1) = bind_ok (store_piece r header buf) _ t h in
    let (u, marked, h2) =
      bind_ok (set_piece_state r'.piece_state r'.piece_count header.piece_order true) _ t h1 in
    (let w : t.0.is_trigger ≡ r'.is_trigger = ground arith in
      w ∙ store_piece_trigger r r' header buf stored)

receive_known_trigger :
    (r : Request) (header : ProtocolHeader) (buf : Memory) (t : Request × ℕ)
    → receive_known r header buf ≡ ok t
    → t.0.is_trigger ≡ r.is_trigger
unfolding receive_known store_piece
receive_known_trigger r header buf t h =
    let (received, _, h1) =
      bind_ok (get_piece_state r.piece_state r.piece_count header.piece_order) _ t h in
    known_piece_trigger r header buf t received h1

-- What happens to the thread pool after a piece of a kept request.
pub record HandsOver (e : Environment) (before after : List Effect) (header : ProtocolHeader)
    (triggered : Bool) (ack : ℕ) : Type 0 where
  pub at_most_once : commits after ≤ suc (commits before)
  pub never_again : triggered ≡ true → commits after ≡ commits before
  pub only_complete : ack ≢ header.total_count → commits after ≡ commits before
  pub complete :
      ack ≡ header.total_count
      → triggered ≡ false
      → e.pool_accepts ≡ true
      → commits after ≡ suc (commits before)

after_piece-HandsOver :
    (e : Environment) (r : SubReactor) (slot : ℕ) (vc : VirtualConnection) (base : Servlet)
    (header : ProtocolHeader) (req : Request) (ack : ℕ)
    → HandsOver e r.effects
        (after_piece e r slot vc base header req ack).effects
        header
        req.is_trigger
        ack
unfolding after_piece commit_request emit set_connection trigger
after_piece-HandsOver e r slot vc base header req ack = record {
  at_most_once = grind (arith, commits-append);
  never_again = λ h. grind (arith, commits-append);
  only_complete = λ h. grind (arith, commits-append);
  complete = λ h1 h2 h3. grind (arith, commits-append);
}

-- The kept request after a piece, and that it is marked as handed over once it is complete.
pub record Keeps (r' : SubReactor) (base : Servlet) (header : ProtocolHeader) (triggered : Bool)
    (ack : ℕ) : Type 0 where
  pub kept : Request
  pub is_kept : find r'.messages base ≡ some kept
  pub acknowledged : ack ≡ get_ack_number kept.piece_state
  pub marked : ack ≡ header.total_count → kept.is_trigger ≡ true
  pub stays_marked : triggered ≡ true → kept.is_trigger ≡ true

after_piece-Keeps :
    (e : Environment) (r : SubReactor) (slot : ℕ) (vc : VirtualConnection) (base : Servlet)
    (header : ProtocolHeader) (req : Request) (ack : ℕ)
    → find r.messages base ≡ some req
    → ack ≡ get_ack_number req.piece_state
    → Keeps (after_piece e r slot vc base header req ack) base header req.is_trigger ack
unfolding after_piece commit_request emit set_connection trigger
after_piece-Keeps e r slot vc base header req ack h a =
    elim (ack == header.total_count && not req.is_trigger)
        as (λ t.
          (ack == header.total_count && not req.is_trigger) ≡ t
          → Keeps (after_piece e r slot vc base header req ack) base header req.is_trigger ack) [
            | true ↦ λ q. record {
              kept = record req { is_trigger = true };
              is_kept = ground (
                arith,
                find-modify_self r.messages base (record req { is_trigger = true }) req h,
              );
              acknowledged = a;
              marked = λ _. refl;
              stays_marked = λ _. refl;
            }
            | false ↦ λ q. record {
              kept = req;
              is_kept = ground arith;
              acknowledged = a;
              marked = λ w. ground arith;
              stays_marked = λ w. w;
            }
          ]
      refl

receive_known_ack :
    (r : Request) (header : ProtocolHeader) (buf : Memory) (t : Request × ℕ)
    → receive_known r header buf ≡ ok t
    → t.1 ≡ get_ack_number t.0.piece_state
unfolding receive_known store_piece set_piece_state get_piece_state
receive_known_ack r header buf t h = ground arith

-- A piece that has a place in the request and is no longer than the buffer and the data.
pub record FitsIn (req : Request) (header : ProtocolHeader) : Type 0 where
  pub as_many : req.piece_count ≡ length req.piece_state
  pub in_order : header.piece_order < length req.piece_state
  pub no_overflow : header.piece_standard_size * header.piece_order < 2 ^ 31
  pub in_buffer : header.piece_size ≤ 523
  pub in_data :
      header.piece_standard_size * header.piece_order + header.piece_size ≤ req.total_data_size

known_piece_returns :
    (req : Request) (header : ProtocolHeader) (buf : Memory)
    → FitsIn req header
    → (b : Bool) → get_piece_state req.piece_state req.piece_count header.piece_order ≡ ok b
    → (t : Request × ℕ) × (receive_known req header buf ≡ ok t)
unfolding receive_known store_piece
known_piece_returns req header buf f true q = ((req, get_ack_number req.piece_state), ground arith)
known_piece_returns req header buf f false q =
    let bits = set req.piece_state header.piece_order true in
    let marked =
      set_piece_state-ok req.piece_state req.piece_count header.piece_order true (sym f.as_many)
        (omega (arith, f.as_many, f.in_order)) in
    (
      (
        record req {
          content =
              memcpy req.content (header.piece_standard_size * header.piece_order) buf
                protocol_header_size header.piece_size;
          piece_state = bits;
        },
        get_ack_number bits,
      ),
      ground (arith, marked, f.no_overflow, f.in_buffer, f.in_data),
    )

receive_known_returns :
    (req : Request) (header : ProtocolHeader) (buf : Memory)
    → FitsIn req header
    → (t : Request × ℕ) × (receive_known req header buf ≡ ok t)
receive_known_returns req header buf f =
    let (b, at) = get_elem?-lt req.piece_state header.piece_order f.in_order in
    known_piece_returns req header buf f b (
      get_piece_state-ok req.piece_state req.piece_count header.piece_order b (sym f.as_many)
        (omega (arith, f.as_many, f.in_order)) at)

-- A piece that fits in a request that is kept: the code returns, the request goes to the thread pool at
-- most once, only when it is complete and was not handed over before, and then always if the pool takes
-- it; the request stays kept, the number sent is that of its pieces, and a complete request is marked so
-- that no later piece hands it over again.
pub hand_over_once :
    (e : Environment) (r : SubReactor) (slot : ℕ) (vc : VirtualConnection) (base : Servlet)
    (header : ProtocolHeader) (req w : Request) (buf : Memory) (fd : ℕ)
    → find r.messages base ≡ some w
    → FitsIn req header
    → (r' : SubReactor) × (ack : ℕ) × (handle_request_send e r slot vc base (some req) header buf fd
        ≡ ok r')
      × HandsOver e r.effects r'.effects header req.is_trigger ack
      × Keeps r' base header req.is_trigger ack
unfolding handle_request_send
hand_over_once e r slot vc base header req w buf fd h f =
    let (t, received) = receive_known_returns req header buf f in
    let s : SubReactor = record r { messages = modify r.messages base t.0 } in
    let same = receive_known_trigger req header buf t received in
    let r' = after_piece e s slot vc base header t.0 t.1 in
    (
      r',
      t.1,
      rw received,
      subst (λ b. HandsOver e r.effects r'.effects header b t.1) same
          (after_piece-HandsOver e s slot vc base header t.0 t.1),
      subst (λ b. Keeps r' base header b t.1) same
          (after_piece-Keeps e s slot vc base header t.0 t.1
            (find-modify_self r.messages base t.0 w h)
            (receive_known_ack req header buf t received)),
    )
