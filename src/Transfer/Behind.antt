-- ===== src/Transfer/Behind.antt =====
-- The invariant of the transfer of a request: the client is never ahead of the server.
use muse_rpc.Common.{
  ℕ, zero, suc, thrown, undefined, ◌≤◌, ◌≡◌, refl, sym, ap, ◌∙◌, ltb, if◌then◌else◌, false, List,
  [], ◌∷◌, Option, some, none, get_elem?, length, length-replicate, All, ok, Outcome, ◌⊎◌, inl, inr,
  arith,
}
use mathlib.Core.Path.{subst}
use muse_rpc.Memory.{Memory}
use muse_rpc.Protocol.Header.{request, receiver_ack}
use muse_rpc.Protocol.{piece_count_of}
use muse_rpc.Protocol.Pieces.{IsMessageSize}
use muse_rpc.Server.PieceState.{get_ack_number, get_ack_number-IsAck}
use muse_rpc.Server.Request.{Request, new_request, set_socket}
use muse_rpc.Server.Request.Receipt.{
  Assembles, Receives, blank, receive_known-Receives, receive_first-Receives,
}
use muse_rpc.Client.Invoker.{Caller, Exchange, heard}
use muse_rpc.Transfer.{
  Transfer, Arriving, after_turn, server_ack, Step, first_piece, next_piece, asked, acknowledged,
  responded, Reachable, begin, step,
}

All-get_elem? : (xs : List ℕ) (b i x : ℕ) → All (λ a. a ≤ b) xs → get_elem? xs i ≡ some x → x ≤ b
All-get_elem? [] b i x h e = ground (arith, e)
All-get_elem? (y ∷ xs) b zero x (h, hs) e = ground (arith, e, h)
All-get_elem? (y ∷ xs) b (suc i) x (h, hs) e = All-get_elem? xs b i x hs e

All-weaken : (xs : List ℕ) (b b' : ℕ) → b ≤ b' → All (λ a. a ≤ b) xs → All (λ a. a ≤ b') xs
All-weaken [] b b' k h = tt
All-weaken (x ∷ xs) b b' k (h, hs) = (omega arith, All-weaken xs b b' k hs)

-- A call returns one result only.
unfoldable value_or {ℓ} : {A : Type ℓ} → A → Outcome A → A
value_or a (ok b) = b
value_or a thrown = a
value_or a undefined = a

Receives-same :
    (whole : Memory) (n order : ℕ) (q r r' : Request) (ack ack' : ℕ) (o : Outcome (Request × ℕ))
    → o ≡ ok (r', ack')
    → o ≡ ok (r, ack)
    → Receives whole n order q r' ack'
    → Receives whole n order q r ack
unfolding value_or
Receives-same whole n order q r r' ack ack' o e e' got =
    subst (λ p. Receives whole n order q p.0 p.1) (ap (value_or (r', ack')) (sym e ∙ e')) got

-- Receiving a piece never takes another away.
pub Receives-mono :
    (whole : Memory) (n order : ℕ) (r r' : Request) (ack : ℕ)
    → length r.piece_state ≡ piece_count_of n
    → Receives whole n order r r' ack
    → get_ack_number r.piece_state ≤ get_ack_number r'.piece_state
Receives-mono whole n order r r' ack e got =
    let before = get_ack_number-IsAck r.piece_state in
    let behind = get_ack_number-IsAck r'.piece_state in
    ground (
      arith,
      before.in_range,
      behind.in_range,
      behind.missing_at,
      before.received_below (get_ack_number r'.piece_state),
      got.marked (get_ack_number r'.piece_state),
      got.assembles.states_kept,
    )

module _ (c : Caller) (whole : Memory) (n : ℕ) (small : IsMessageSize n) where
  abbrev pub Kept : Option Request → Type 0
  Kept none = Unit {0}
  Kept (some r) = Assembles whole n r

  -- The server keeps what it marks; no acknowledgement, and not the client, is ahead of it.
  pub record IsBehind (s : Transfer) : Type 0 where
    pub kept : Kept s.server
    pub acks_behind : All (λ a. a ≤ server_ack s.server) s.acks
    pub client_behind : s.client.ack_accept ≤ server_ack s.server

  -- A step that keeps this: the numbers of the two sides only grow, and only one of them does.
  pub record Advances (s s' : Transfer) : Type 0 where
    pub behind : IsBehind s'
    pub client_le : s.client.ack_accept ≤ s'.client.ack_accept
    pub server_le : server_ack s.server ≤ server_ack s'.server
    pub one_side :
        (s.client.ack_accept ≡ s'.client.ack_accept) ⊎ (server_ack s.server ≡ server_ack s'.server)

  -- A piece comes in, the first or not.
  Receives-Advances :
      (s : Transfer) (q r : Request) (order ack : ℕ)
      → IsBehind s
      → server_ack s.server ≤ get_ack_number q.piece_state
      → length q.piece_state ≡ piece_count_of n
      → Receives whole n order q r ack
      → Advances s (record s { server = some r; acks = ack ∷ s.acks })
  Receives-Advances s q r order ack b k e got =
      let more = Receives-mono whole n order q r ack e got in
      record {
        behind = record {
          kept = got.assembles;
          acks_behind = (
            omega (arith, got.acknowledges),
            All-weaken s.acks (server_ack s.server) (get_ack_number r.piece_state) (omega arith)
                b.acks_behind,
          );
          client_behind = omega (arith, b.client_behind);
        };
        client_le = omega arith;
        server_le = omega arith;
        one_side = inl refl;
      }

  pub kept_of : (s : Transfer) (q : Request) → IsBehind s → s.server ≡ some q → Assembles whole n q
  kept_of s q b e = subst Kept e b.kept

  acked :
      (x : Exchange) (a : ℕ)
      → (after_turn x (heard c whole n x request receiver_ack a)).ack_accept
        ≡ (if ltb x.ack_accept a then a else x.ack_accept)
  unfolding heard
  acked x a = ground arith

  length-blank :
      (a : Arriving)
      → length (blank a.port a.ip a.fd c.message_id n a.allocated).piece_state ≡ piece_count_of n
  unfolding new_request set_socket
  length-blank a = length-replicate (piece_count_of n) false

  pub Step-Advances : (s s' : Transfer) → Step c whole n s s' → IsBehind s → Advances s s'
  unfolding heard
  Step-Advances s _ (first_piece a order buf r ack h k e run) b =
      let (r', ack', run', got) =
        receive_first-Receives whole buf a.allocated a.port a.ip a.fd a.now c.message_id n order
          small h k in
      Receives-Advances s (blank a.port a.ip a.fd c.message_id n a.allocated) r order ack b
        (omega (arith, ap server_ack e)) (length-blank a)
        (Receives-same whole n order (blank a.port a.ip a.fd c.message_id n a.allocated) r r' ack
          ack' _ run' run got)
  Step-Advances s _ (next_piece q order buf r ack h k e run) b =
      let (r', ack', run', got) =
        receive_known-Receives whole buf c.message_id n order q small h k (kept_of s q b e) in
      Receives-Advances s q r order ack b (omega (arith, ap server_ack e))
        (kept_of s q b e).states_kept (Receives-same whole n order q r r' ack ack' _ run' run got)
  Step-Advances s _ (asked q e) b = record {
    behind = record {
      kept = b.kept;
      acks_behind = (omega (arith, ap server_ack e), b.acks_behind);
      client_behind = b.client_behind;
    };
    client_le = omega arith;
    server_le = omega arith;
    one_side = inl refl;
  }
  Step-Advances s _ (acknowledged i ack e) b =
      let new = acked s.client ack in
      let old = All-get_elem? s.acks (server_ack s.server) i ack b.acks_behind e in
      record {
        behind = record {
          kept = b.kept;
          acks_behind = b.acks_behind;
          client_behind = ground (arith, new, old, b.client_behind);
        };
        client_le = ground (arith, new);
        server_le = omega arith;
        one_side = inr refl;
      }
  Step-Advances s _ (responded q type ack e f) b = record {
    behind = record {
      kept = b.kept;
      acks_behind = b.acks_behind;
      client_behind = omega (arith, ap server_ack e, f);
    };
    client_le = omega (arith, ap server_ack e, f, b.client_behind);
    server_le = omega arith;
    one_side = inr refl;
  }

  pub Reachable-IsBehind : {s : Transfer} → Reachable c whole n s → IsBehind s
  Reachable-IsBehind (begin x e) = record {
    kept = tt;
    acks_behind = tt;
    client_behind = omega (arith, e);
  }
  Reachable-IsBehind (step {s} {s'} r t) = (Step-Advances s s' t (Reachable-IsBehind r)).behind
