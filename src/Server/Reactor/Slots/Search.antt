-- ===== src/Server/Reactor/Slots/Search.antt =====
-- The search for a free place: `findConnectionsEmptyPlace` of include/rpc/server/sub_reactor.cpp.
use muse_rpc.Common.{
  ℕ, zero, suc, ◌+◌, ◌-◌, ◌%◌, ◌<◌, ◌≤◌, ◌≡◌, refl, sym, ap, ◌∙◌, leb, if◌then◌else◌, Bool, true,
  false, not, ◌||◌, List, [], ◌∷◌, Option, some, none, length, get_elem?, arith,
}
use native.Mathlib.Nat.{mod-lt, mod-eq_of_lt, add-mod_right}
use muse_rpc.Server.Reactor.{SubReactor, VirtualConnection, Environment}
use muse_rpc.Server.Reactor.Slots.{
  is_free, is_stale, free_at, look_for, clear_from, clear_timeout_connections,
  find_connections_empty_place,
}
use muse_rpc.Server.Reactor.Slots.Clearing.{settled, clear_from-ClearsFrom, clear_from-settled}

free_at_lem :
    (cs : List VirtualConnection) (i : ℕ)
    → free_at cs i ≡ true
    → (vc : VirtualConnection) × (get_elem? cs i ≡ some vc) × (vc.socket_fd ≡ none)
unfolding free_at is_free
free_at_lem [] zero h = ground arith
free_at_lem [] (suc i) h = ground arith
free_at_lem (vc ∷ cs) zero h =
    elim (vc.socket_fd)
        as (λ s.
          (elim s [ none ↦ true | some fd ↦ false ]) ≡ true
          → s ≡ vc.socket_fd
          → (v : VirtualConnection) × (some vc ≡ some v) × (v.socket_fd ≡ none)) [
            | none ↦ λ _ q. (vc, refl, sym q)
            | some fd ↦ λ a _. ground arith
          ]
      h refl
free_at_lem (vc ∷ cs) (suc i) h = free_at_lem cs i h

look_for-some :
    (cs : List VirtualConnection) (last places n i idx : ℕ)
    → look_for cs last places n i ≡ some idx
    → (0 < places)
    → (free_at cs idx ≡ true) × (idx < places)
unfolding look_for
look_for-some cs last places zero i idx h p = ground arith
look_for-some cs last places (suc n) i idx h p =
    let rec = look_for-some cs last places n (suc i) idx in
    let b = mod-lt (last + i) p in ground arith

look_for-none :
    (cs : List VirtualConnection) (last places n i j : ℕ)
    → look_for cs last places n i ≡ none
    → i ≤ j
    → j < i + n
    → free_at cs ((last + j) % places) ≡ false
unfolding look_for
look_for-none cs last places zero i j h a b = absurd (omega arith)
look_for-none cs last places (suc n) i j h a b =
    elim (leb (suc i) j) as (λ t. leb (suc i) j ≡ t → free_at cs ((last + j) % places) ≡ false) [
      | true ↦
          λ q. look_for-none cs last places n (suc i) j (ground arith) (ground arith) (omega arith)
      | false ↦ λ q. (let w : i ≡ j = ground arith in ground arith)
    ]
      refl

-- From `last`, the steps below `places` reach every place.
reached :
    (last places j : ℕ)
    → last < places
    → j < places
    → (i : ℕ) × (i < places) × ((last + i) % places ≡ j)
reached last places j hl hj =
    elim (leb last j)
        as (λ t. leb last j ≡ t → (i : ℕ) × (i < places) × ((last + i) % places ≡ j)) [
          | true ↦ λ q.
              (let w : last ≤ j = ground arith in
                (
                  j - last,
                  omega arith,
                  ap (λ x. x % places) {x = last + (j - last)} {y = j} (omega arith)
                      ∙ mod-eq_of_lt hj,
                ))
          | false ↦ λ q.
              (let w : j < last = ground arith in
                (
                  j + places - last,
                  omega arith,
                  ap (λ x. x % places) {x = last + (j + places - last)} {y = j + places}
                        (omega arith)
                      ∙ add-mod_right j places
                      ∙ mod-eq_of_lt hj,
                ))
        ]
      refl

-- The state of the reactor's table of places.
pub record PlacesFit (r : SubReactor) : Type 0 where
  pub as_many : length r.connections ≡ r.open_max_connection
  pub last_inside : r.last_empty_place < r.open_max_connection

-- What the search promises: a place that it gives out is free and within the table, and it gives none
-- only if none is free.
pub record Finds (now : ℕ) (r : SubReactor) (answer : SubReactor × Option ℕ) : Type 0 where
  pub still_fits : PlacesFit answer.0
  pub free_place :
      (idx : ℕ)
      → answer.1 ≡ some idx
      → (vc : VirtualConnection) × (get_elem? answer.0.connections idx ≡ some vc)
        × (vc.socket_fd ≡ none)
  pub no_place :
      (k : ℕ) → answer.1 ≡ none → k < r.open_max_connection → free_at answer.0.connections k ≡ false
  pub no_stale :
      (k : ℕ) (vc : VirtualConnection)
      → answer.1 ≡ none
      → r.open_max_connection ≤ r.active_connections_count
      → get_elem? answer.0.connections k ≡ some vc
      → k < r.open_max_connection
      → is_stale now vc ≡ false

-- The reactor after the clearing, if any.
swept : Environment → SubReactor → SubReactor
unfolding clear_timeout_connections
swept e r =
    if leb r.open_max_connection r.active_connections_count
    then (clear_timeout_connections e r).0
    else r

swept_fits :
    (e : Environment) (r : SubReactor)
    → PlacesFit r
    → PlacesFit (swept e r) × ((swept e r).open_max_connection ≡ r.open_max_connection)
unfolding swept
swept_fits e r p =
    let c = (clear_from-ClearsFrom e r.open_max_connection 0 (r, 0)).clears in
    elim (leb r.open_max_connection r.active_connections_count)
      as (λ t.
        (let r' = (if t then (clear_from e r.open_max_connection 0 (r, 0)).0 else r) in
          PlacesFit r' × (r'.open_max_connection ≡ r.open_max_connection))) [
            | true ↦ (
              record {
                as_many = c.same_length ∙ p.as_many ∙ sym c.same_places;
                last_inside = omega (arith, c.same_last, c.same_places, p.last_inside);
              },
              c.same_places,
            )
            | false ↦ (p, refl)
          ]

settled_busy :
    (now : ℕ) (cs : List VirtualConnection) (k : ℕ) (vc : VirtualConnection)
    → get_elem? cs k ≡ some vc
    → settled now cs k ≡ true
    → free_at cs k ≡ false
    → is_stale now vc ≡ false
unfolding settled free_at
settled_busy now [] k vc a s f = ground arith
settled_busy now (x ∷ cs) zero vc a s f =
    (let w : x ≡ vc = ground arith in
      ap (is_stale now) (sym w) ∙ busy (is_free x) (is_stale now x) s f)
  where
    busy : (a b : Bool) → (a || not b) ≡ true → a ≡ false → b ≡ false
    busy true b s f = ground arith
    busy false true s f = sym s
    busy false false s f = refl
settled_busy now (x ∷ cs) (suc k) vc a s f = settled_busy now cs k vc a s f

swept-settled :
    (e : Environment) (r : SubReactor)
    → r.open_max_connection ≤ r.active_connections_count
    → (k : ℕ) → k < r.open_max_connection
    → settled e.now (swept e r).connections k ≡ true
unfolding swept
swept-settled e r full k h = rw (the_test full) (
    (clear_from-ClearsFrom e r.open_max_connection 0 (r, 0)).all_settled k (omega arith)
      (omega arith))
  where
    the_test :
        r.open_max_connection ≤ r.active_connections_count
        → leb r.open_max_connection r.active_connections_count ≡ true
    the_test h = ground arith

search_at :
    (r0 : SubReactor)
    → PlacesFit r0
    → (now : ℕ) (r : SubReactor) → r0.open_max_connection ≡ r.open_max_connection
    → (found : Option ℕ)
    → look_for r0.connections r0.last_empty_place r0.open_max_connection r0.open_max_connection 0
      ≡ found
    → (r.open_max_connection ≤ r.active_connections_count
        → (k : ℕ) → k < r.open_max_connection
        → settled now r0.connections k ≡ true)
    → Finds now r (elim found [
      | none ↦ (r0, none)
      | some idx ↦ (record r0 { last_empty_place = idx }, some idx)
    ])
search_at r0 p now r m none q s = record {
  still_fits = p;
  free_place = λ idx h. ground arith;
  no_place = λ k _ h. none_free k (omega (arith, m));
  no_stale = λ k vc _ full at h.
      settled_busy now r0.connections k vc at (s full k h) (none_free k (omega (arith, m)));
}
  where
    none_free : (k : ℕ) → k < r0.open_max_connection → free_at r0.connections k ≡ false
    none_free k h =
        (let (i, hi, e) = reached r0.last_empty_place r0.open_max_connection k p.last_inside h in
          ap (free_at r0.connections) (sym e)
          ∙ look_for-none r0.connections r0.last_empty_place r0.open_max_connection
              r0.open_max_connection 0 i q (omega arith) (omega arith))
search_at r0 p now r m (some idx) q s =
    let (f, h) =
      look_for-some r0.connections r0.last_empty_place r0.open_max_connection r0.open_max_connection
        0 idx q (omega (arith, p.last_inside)) in
    record {
      still_fits = record { as_many = p.as_many; last_inside = h };
      free_place = λ j e.
          (let w : idx ≡ j = ground arith in
            free_at_lem r0.connections j (ap (free_at r0.connections) (sym w) ∙ f));
      no_place = λ k h. ground arith;
      no_stale = λ k vc h. ground arith;
    }

-- The search for a free place answers with a free place inside the table. It gives none only if no
-- place is free; and if it cleared the table before, only if no connection has timed out.
pub find_connections_empty_place_lem :
    (e : Environment) (r : SubReactor)
    → PlacesFit r
    → Finds e.now r (find_connections_empty_place e r)
unfolding find_connections_empty_place swept
find_connections_empty_place_lem e r p =
    let (fits, same) = swept_fits e r p in
    search_at (swept e r) fits e.now r same
      (look_for (swept e r).connections (swept e r).last_empty_place (swept e r).open_max_connection
        (swept e r).open_max_connection 0)
      refl (λ full k h. swept-settled e r full k h)

-- No place is free and no connection has timed out.
pub record Full (e : Environment) (r : SubReactor) : Type 0 where
  pub some_places : 0 < r.open_max_connection
  pub none_stale : (k : ℕ) → settled e.now r.connections k ≡ true
  pub none_free : (k : ℕ) → k < r.open_max_connection → free_at r.connections k ≡ false

look_for_taken :
    (cs : List VirtualConnection) (last places n i : ℕ)
    → 0 < places
    → ((k : ℕ) → k < places → free_at cs k ≡ false)
    → look_for cs last places n i ≡ none
unfolding look_for
look_for_taken cs last places zero i p f = refl
look_for_taken cs last places (suc n) i p f =
    rw (f ((last + i) % places) (mod-lt (last + i) p)) (look_for_taken cs last places n (suc i) p f)

pub Full-find :
    (e : Environment) (r : SubReactor) → Full e r → find_connections_empty_place e r ≡ (r, none)
unfolding find_connections_empty_place clear_timeout_connections
Full-find e r f = ground (
  arith,
  clear_from-settled e r.open_max_connection 0 r 0 f.none_stale,
  look_for_taken r.connections r.last_empty_place r.open_max_connection r.open_max_connection 0
      f.some_places f.none_free,
)
