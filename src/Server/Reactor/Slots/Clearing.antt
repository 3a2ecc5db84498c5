-- ===== src/Server/Reactor/Slots/Clearing.antt =====
-- The clearing of connections that timed out: `clearTimeoutConnections` of
-- include/rpc/server/sub_reactor.cpp.
use muse_rpc.Common.{
  ℕ, zero, suc, ◌+◌, ◌<◌, ◌≤◌, ◌≡◌, refl, ap, ◌∙◌, ltb, Bool, true, false, not, ◌||◌, List, [], ◌∷◌,
  Option, some, none, length, get_elem?, set, length-set, arith,
}
use muse_rpc.Server.Reactor.{SubReactor, VirtualConnection, Environment, emit, set_connection}
use muse_rpc.Server.Reactor.Slots.{
  is_free, is_stale, cleared, clear_one, clear_from, close_connection,
}

-- A place is settled if it is free or its connection has not timed out.
unfoldable pub settled : ℕ → List VirtualConnection → ℕ → Bool
unfolding is_free is_stale
settled now cs i = elim (get_elem? cs i) [
  | none ↦ true
  | some vc ↦ is_free vc || not (is_stale now vc)
]

pub record Clears (now : ℕ) (r r' : SubReactor) : Type 0 where
  pub same_places : r'.open_max_connection ≡ r.open_max_connection
  pub same_last : r'.last_empty_place ≡ r.last_empty_place
  pub same_length : length r'.connections ≡ length r.connections
  pub stays_settled :
      (k : ℕ) → settled now r.connections k ≡ true → settled now r'.connections k ≡ true

settled-set :
    (now : ℕ) (cs : List VirtualConnection) (i k : ℕ) (vc : VirtualConnection)
    → is_free vc ≡ true
    → settled now cs k ≡ true
    → settled now (set cs i vc) k ≡ true
unfolding settled
settled-set now [] i k vc f h = h
settled-set now (x ∷ cs) zero zero vc f h = ground arith
settled-set now (x ∷ cs) zero (suc k) vc f h = h
settled-set now (x ∷ cs) (suc i) zero vc f h = h
settled-set now (x ∷ cs) (suc i) (suc k) vc f h = settled-set now cs i k vc f h

settled_self :
    (now : ℕ) (cs : List VirtualConnection) (i : ℕ) (vc : VirtualConnection)
    → is_free vc ≡ true
    → settled now (set cs i vc) i ≡ true
unfolding settled
settled_self now [] i vc f = refl
settled_self now (x ∷ cs) zero vc f = ground arith
settled_self now (x ∷ cs) (suc i) vc f = settled_self now cs i vc f

-- What one round does to the reactor.
data Cleared (e : Environment) (r r' : SubReactor) (i : ℕ) : Type 0 where
  left : r' ≡ r → settled e.now r.connections i ≡ true → Cleared e r r' i
  emptied :
      (vc : VirtualConnection)
      → is_free vc ≡ true
      → r'.connections ≡ set r.connections i vc
      → r'.open_max_connection ≡ r.open_max_connection
      → r'.last_empty_place ≡ r.last_empty_place
      → Cleared e r r' i

free_cleared : (v : VirtualConnection) → is_free (cleared v) ≡ true
unfolding is_free cleared
free_cleared v = refl

clear_one_at :
    (e : Environment) (r : SubReactor) (count i : ℕ) (found : Option VirtualConnection)
    → get_elem? r.connections i ≡ found
    → Cleared e r (clear_one e (r, count) i).0 i
unfolding clear_one settled close_connection emit set_connection
clear_one_at e r count i none q = left (rw (clear_one, q)) (rw (settled, q))
clear_one_at e r count i (some vc) q =
    elim (is_free vc) as (λ t. is_free vc ≡ t → Cleared e r (clear_one e (r, count) i).0 i) [
      | true ↦ λ f. left (rw (clear_one, q, f)) (rw (settled, q, f))
      | false ↦ λ f.
          elim (is_stale e.now vc)
              as (λ t. is_stale e.now vc ≡ t → Cleared e r (clear_one e (r, count) i).0 i) [
                | true ↦ λ t.
                    emptied (cleared vc) (free_cleared vc) (rw (clear_one, q, f, t))
                      (rw (clear_one, q, f, t)) (rw (clear_one, q, f, t))
                | false ↦ λ t. left (rw (clear_one, q, f, t)) (rw (settled, q, f, t))
              ]
            refl
    ]
      refl

clear_one-Clears :
    (e : Environment) (r r' : SubReactor) (i : ℕ)
    → Cleared e r r' i
    → Clears e.now r r' × (settled e.now r'.connections i ≡ true)
clear_one-Clears e r r' i (left q h) = (
  record {
    same_places = ap (λ x. x.open_max_connection) q;
    same_last = ap (λ x. x.last_empty_place) q;
    same_length = ap (λ x. length x.connections) q;
    stays_settled = λ k s. ap (λ x. settled e.now x.connections k) q ∙ s;
  },
  ap (λ x. settled e.now x.connections i) q ∙ h,
)
clear_one-Clears e r r' i (emptied vc f q a b) = (
  record {
    same_places = a;
    same_last = b;
    same_length = ap length q ∙ length-set r.connections i vc;
    stays_settled =
        λ k s. ap (λ x. settled e.now x k) q ∙ settled-set e.now r.connections i k vc f s;
  },
  ap (λ x. settled e.now x i) q ∙ settled_self e.now r.connections i vc f,
)

pub record ClearsFrom (now n i : ℕ) (r r' : SubReactor) : Type 0 where
  pub clears : Clears now r r'
  pub all_settled : (k : ℕ) → i ≤ k → k < i + n → settled now r'.connections k ≡ true

pub clear_from-ClearsFrom :
    (e : Environment) (n i : ℕ) (s : SubReactor × ℕ)
    → ClearsFrom e.now n i s.0 (clear_from e n i s).0
unfolding clear_from
clear_from-ClearsFrom e zero i s = record {
  clears = record {
    same_places = refl;
    same_last = refl;
    same_length = refl;
    stays_settled = λ k h. h;
  };
  all_settled = λ k a b. absurd (omega arith);
}
clear_from-ClearsFrom e (suc n) i (r, count) =
    let (one, at) =
      clear_one-Clears e r (clear_one e (r, count) i).0 i
        (clear_one_at e r count i (get_elem? r.connections i) refl) in
    let rest = clear_from-ClearsFrom e n (suc i) (clear_one e (r, count) i) in
    record {
      clears = record {
        same_places = rest.clears.same_places ∙ one.same_places;
        same_last = rest.clears.same_last ∙ one.same_last;
        same_length = rest.clears.same_length ∙ one.same_length;
        stays_settled = λ k h. rest.clears.stays_settled k (one.stays_settled k h);
      };
      all_settled = λ k a b.
          elim (ltb i k)
              as (λ t.
                ltb i k ≡ t
                → settled e.now (clear_from e n (suc i) (clear_one e (r, count) i)).0.connections k
                  ≡ true) [
                    | true ↦ λ q. rest.all_settled k (ground arith) (omega arith)
                    | false ↦ λ q. rest.clears.stays_settled k (
                        ap (settled e.now (clear_one e (r, count) i).0.connections)
                          (the_place i k a q)
                        ∙ at)
                  ]
            refl;
    }
  where
    the_place : (i k : ℕ) → i ≤ k → ltb i k ≡ false → k ≡ i
    the_place i k a q = ground arith

clear_one-settled :
    (e : Environment) (r : SubReactor) (count i : ℕ) (found : Option VirtualConnection)
    → get_elem? r.connections i ≡ found
    → settled e.now r.connections i ≡ true
    → clear_one e (r, count) i ≡ (r, count)
unfolding clear_one settled
clear_one-settled e r count i none q s = rw (clear_one, q)
clear_one-settled e r count i (some vc) q s = ground (arith, q, s)

pub clear_from-settled :
    (e : Environment) (n i : ℕ) (r : SubReactor) (count : ℕ)
    → ((k : ℕ) → settled e.now r.connections k ≡ true)
    → clear_from e n i (r, count) ≡ (r, count)
unfolding clear_from
clear_from-settled e zero i r count s = refl
clear_from-settled e (suc n) i r count s =
    ap (clear_from e n (suc i))
      (clear_one-settled e r count i (get_elem? r.connections i) refl (s i))
    ∙ clear_from-settled e n (suc i) r count s
