-- ===== src/Transfer/Refines.antt =====
-- The transfer of a request implements its abstract view.
use muse_rpc.Common.{
  ℕ, ◌≤◌, ◌≡◌, ◌≢◌, refl, ◌==◌, Bool, true, false, Option, some, none, ◌⊎◌, inl, inr, arith,
}
use native.Mathlib.Decide.{ℕ_discrete}
use muse_rpc.Memory.{Memory}
use muse_rpc.Protocol.{piece_count_of}
use muse_rpc.Protocol.Pieces.{IsMessageSize, pieces_cover}
use muse_rpc.Server.PieceState.{get_ack_number-IsAck}
use muse_rpc.Server.Request.{Request}
use muse_rpc.Server.Request.Reassembly.{complete-content}
use muse_rpc.Client.Invoker.{Caller}
use muse_rpc.Transfer.{
  Transfer, sending, Move, stays, arrives, confirms, stage_of, server_ack, Step, Reachable, stage,
  Holds,
}
use muse_rpc.Transfer.Behind.{Kept, IsBehind, Step-Advances, Reachable-IsBehind}

still_sending : (p q : Bool) → p ≡ false → q ≡ false → stage_of p q ≡ sending
still_sending p q h k = rw h (rw k refl)

moves :
    (p q p' q' : Bool)
    → (p ≡ true → p' ≡ true)
    → (q ≡ true → q' ≡ true)
    → (p' ≡ true → (p ≡ true) ⊎ (q ≡ true))
    → Move (stage_of p q) (stage_of p' q')
moves true q true q' h k l = stays
moves true q false q' h k l = ground (arith, h)
moves false true true q' h k l = confirms
moves false false true q' h k l = ground (arith, l)
moves false true false true h k l = stays
moves false true false false h k l = ground (arith, k)
moves false false false true h k l = arrives
moves false false false false h k l = stays

-- The same for the numbers of the two sides.
moves_between :
    (a b a' b' count : ℕ)
    → a' ≤ b'
    → b' ≤ count
    → a ≤ a'
    → b ≤ b'
    → (a ≡ a') ⊎ (b ≡ b')
    → Move (stage_of (a == count) (b == count)) (stage_of (a' == count) (b' == count))
moves_between a b a' b' count h k l m (inl e) =
    moves (a == count) (b == count) (a' == count) (b' == count) (λ q. ground arith)
      (λ q. ground arith) (λ q. inl (ground arith))
moves_between a b a' b' count h k l m (inr e) =
    moves (a == count) (b == count) (a' == count) (b' == count) (λ q. ground arith)
      (λ q. ground arith) (λ q. inr (ground arith))

module _ (c : Caller) (whole : Memory) (n : ℕ) (small : IsMessageSize n) where
  server_ack-le : (o : Option Request) → Kept c whole n small o → server_ack o ≤ piece_count_of n
  server_ack-le none k = omega arith
  server_ack-le (some r) k =
      omega (arith, (get_ack_number-IsAck r.piece_state).in_range, k.states_kept)

  complete-Holds :
      (o : Option Request)
      → Kept c whole n small o
      → server_ack o ≡ piece_count_of n
      → Holds whole n o
  complete-Holds none k e =
      absurd (omega (arith, (pieces_cover n small.some_bytes small.countable).0))
  complete-Holds (some r) k e = complete-content whole n r small k e

  -- Beyond `sending` the server is complete.
  stage_complete :
      (s : Transfer)
      → IsBehind c whole n small s
      → stage c whole n s ≢ sending
      → server_ack s.server ≡ piece_count_of n
  stage_complete s b h = elim (ℕ_discrete (server_ack s.server) (piece_count_of n)) [
    | yes e ↦ e
    | no ne ↦ absurd (
        h (
          still_sending _ _ (ground (arith, ne, b.client_behind, server_ack-le s.server b.kept))
            (ground (arith, ne))))
  ]

  -- The transfer of a message in pieces implements its abstract view, over a network that loses, repeats and
  -- reorders datagrams, as long as the server keeps the request. In every state that can be reached, every step of either side leaves the view as it is, or
  -- is the arrival of the whole message, or, after that, its confirmation at the client. And once the view says
  -- that the message has arrived, the server holds it byte for byte: a client that goes on to wait for its
  -- response never waits for a message that is not there.
  pub transfer_refines :
      (s s' : Transfer)
      → Reachable c whole n s
      → Step c whole n s s'
      → Move (stage c whole n s) (stage c whole n s')
        × (stage c whole n s' ≢ sending → Holds whole n s'.server)
  transfer_refines s s' r t =
      let b = Reachable-IsBehind c whole n small r in
      let a = Step-Advances c whole n small s s' t b in
      (
        moves_between s.client.ack_accept (server_ack s.server) s'.client.ack_accept
            (server_ack s'.server) (piece_count_of n) a.behind.client_behind
            (server_ack-le s'.server a.behind.kept) a.client_le a.server_le a.one_side,
        (λ h. complete-Holds s'.server a.behind.kept (stage_complete s' a.behind h)),
      )
