-- ===== src/Server/Reactor/Full.antt =====
-- `SubReactor::dealWithNewConnection` of include/rpc/server/sub_reactor.cpp when every place is taken:
-- its `continue` leaves out the `pop` at the end of the round.
use muse_rpc.Common.{
  ℕ, zero, suc, ◌≡◌, sym, ap, ◌∙◌, true, false, List, [], ◌∷◌, ◌++◌, some, length, ok, arith,
}
use mathlib.Core.List.{append_assoc, append-nil}
use muse_rpc.Protocol.{new_protocol, parse, protocol_header_size}
use muse_rpc.Packets.{send_exhausted}
use muse_rpc.Server.Reactor.{SubReactor, NewConnection, Environment, Effect, send, close_fd, emit}
use muse_rpc.Server.Reactor.Slots.Search.{Full, Full-find}
use muse_rpc.Server.Reactor.Accept.{place_of, deal_with_head, deal_from, deal_with_new_connection}

-- The client is told that the server is exhausted and its socket is closed, `n` times.
pub refusals : Environment → NewConnection → ℕ → List Effect
refusals e c zero = []
refusals e c (suc n) =
    send (some c.fd) (send_exhausted e.host e.raw) protocol_header_size
    ∷ close_fd c.fd
    ∷ refusals e c n

pub refused : Environment → SubReactor → NewConnection → ℕ → SubReactor
refused e r c n = record r { effects = r.effects ++ refusals e c n }

Full-emit : (e : Environment) (r : SubReactor) (x : Effect) → Full e r → Full e (emit r x)
unfolding emit
Full-emit e r x f = record {
  some_places = f.some_places;
  none_stale = f.none_stale;
  none_free = f.none_free;
}

-- A well-formed datagram of a new client.
pub record IsClient (e : Environment) (c : NewConnection) : Type 0 where
  pub new : c.is_new ≡ true
  pub parses : (parse e.host (new_protocol e.host) c.content c.recv_length).1 ≡ true

deal_with_head-Full :
    (e : Environment) (r : SubReactor) (c : NewConnection)
    → Full e r
    → IsClient e c
    → deal_with_head e r c
      ≡ ok (
        emit
            (emit r (send (some c.fd) (send_exhausted e.host e.raw) protocol_header_size))
            (close_fd c.fd),
        false,
      )
unfolding deal_with_head place_of
deal_with_head-Full e r c f i = ground (arith, i.new, i.parses, Full-find e r f)

refused_step :
    (e : Environment) (r : SubReactor) (c : NewConnection) (n : ℕ)
    → refused e
        (emit
          (emit r (send (some c.fd) (send_exhausted e.host e.raw) protocol_header_size))
          (close_fd c.fd))
        c
        n
      ≡ refused e r c (suc n)
unfolding emit refused refusals
refused_step e r c n =
    ap (λ x. record r { effects = x })
      (append_assoc
          (r.effects ++ (send (some c.fd) (send_exhausted e.host e.raw) protocol_header_size ∷ []))
          (close_fd c.fd ∷ []) (refusals e c n)
        ∙ append_assoc r.effects
            (send (some c.fd) (send_exhausted e.host e.raw) protocol_header_size ∷ [])
            (close_fd c.fd ∷ refusals e c n))

deal_from_stays :
    (e : Environment) (n : ℕ) (r r' : SubReactor) (c : NewConnection) (rest : List NewConnection)
    → r.new_connections ≡ c ∷ rest
    → deal_with_head e r c ≡ ok (r', false)
    → deal_from e (suc n) r ≡ deal_from e n r'
unfolding deal_from
deal_from_stays e n r r' c rest q h = ground (arith, q, h)

deal_from-Full :
    (e : Environment) (n : ℕ) (r : SubReactor) (c : NewConnection) (rest : List NewConnection)
    → Full e r
    → IsClient e c
    → r.new_connections ≡ c ∷ rest
    → deal_from e n r ≡ ok (refused e r c n)
unfolding deal_from emit refused refusals
deal_from-Full e zero r c rest f i q =
    ap (λ x. ok (record r { effects = x })) (sym (append-nil r.effects))
deal_from-Full e (suc n) r c rest f i q =
    (let once =
        emit (emit r (send (some c.fd) (send_exhausted e.host e.raw) protocol_header_size))
          (close_fd c.fd) in
      deal_from_stays e n r once c rest q (deal_with_head-Full e r c f i)
      ∙ (deal_from-Full e n once c rest (Full-emit e _ _ (Full-emit e _ _ f)) i q
          ∙ ap ok (refused_step e r c n)))

-- With no place free and no connection timed out, a new client's datagram at the head of the queue is
-- answered with exhaustion in every round of the call, as many times as the queue is long, its socket is
-- closed each time, and neither it nor any other datagram leaves the queue.
pub queue_stuck :
    (e : Environment) (r : SubReactor) (c : NewConnection) (rest : List NewConnection)
    → Full e r
    → IsClient e c
    → r.new_connections ≡ c ∷ rest
    → (deal_with_new_connection e r ≡ ok (refused e r c (length r.new_connections)))
      × ((refused e r c (length r.new_connections)).new_connections ≡ c ∷ rest)
unfolding deal_with_new_connection refused
queue_stuck e r c rest f i q = (deal_from-Full e (length r.new_connections) r c rest f i q, q)
