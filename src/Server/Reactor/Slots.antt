-- ===== src/Server/Reactor/Slots.antt =====
-- The places of virtual connections: closing one, clearing those that timed out, and the search for a
-- free place (`closeSocket`, `clearTimeoutConnections` and `findConnectionsEmptyPlace` of
-- include/rpc/server/sub_reactor.cpp).
pub mod Clearing
pub mod Search
use muse_rpc.Common.{
  ℕ, zero, suc, ◌+◌, ◌-◌, ◌*◌, ◌%◌, ◌<◌, ◌≤◌, ◌≡◌, ◌≢◌, refl, sym, ap, ◌∙◌, ◌==◌, ltb, leb,
  if◌then◌else◌, Bool, true, false, not, ◌||◌, List, [], ◌∷◌, Option, some, none, length, get_elem?,
  set, get_elem?-lt, get_elem?-set_self, get_elem?-set_ne, length-set, arith, ◌⊎◌, inl, inr,
}
use muse_rpc.Server.Reactor.{
  SubReactor, VirtualConnection, Environment, Effect, close_socket, emit, set_connection,
  connection_time_out,
}

-- The system calls, and the removal of the peer from the table of connected clients, as one effect.
unfoldable pub close_connection : SubReactor → VirtualConnection → SubReactor
unfolding emit
close_connection r vc = emit r (close_socket vc.socket_fd vc.addr)

-- What a cleared place holds: the address and the time of its last use stay.
unfoldable pub cleared : VirtualConnection → VirtualConnection
cleared vc = record vc { socket_fd = none; messages = []; responses = [] }

unfoldable pub is_free : VirtualConnection → Bool
is_free vc = elim vc.socket_fd [ none ↦ true | some fd ↦ false ]

unfoldable pub is_stale : ℕ → VirtualConnection → Bool
is_stale now vc = ltb connection_time_out (now - vc.last_active)

module _ (e : Environment) where
  pub clear_one : SubReactor × ℕ → ℕ → SubReactor × ℕ
  unfolding is_free is_stale close_connection cleared set_connection
  clear_one (r, count) i = elim (get_elem? r.connections i) [
    | none ↦ (r, count)
    | some vc ↦
        if is_free vc
        then (r, count)
        else if is_stale e.now vc
        then (let r' = set_connection (close_connection r vc) i (cleared vc) in
            (record r' { active_connections_count = r'.active_connections_count - 1 }, count + 1))
        else (r, count)
  ]

  -- The rounds from place `i` on, `n` of them.
  pub clear_from : ℕ → ℕ → SubReactor × ℕ → SubReactor × ℕ
  unfolding clear_one
  clear_from zero i s = s
  clear_from (suc n) i s = clear_from n (suc i) (clear_one s i)

  -- The reactor, and how many connections it closed.
  unfoldable pub clear_timeout_connections : SubReactor → SubReactor × ℕ
  unfolding clear_from
  clear_timeout_connections r = clear_from r.open_max_connection 0 (r, 0)

unfoldable pub free_at : List VirtualConnection → ℕ → Bool
unfolding is_free
free_at cs i = elim (get_elem? cs i) [ none ↦ false | some vc ↦ is_free vc ]

-- The rounds from `i` on, `n` of them, of the search that starts at `last`.
unfoldable pub look_for : List VirtualConnection → ℕ → ℕ → ℕ → ℕ → Option ℕ
unfolding free_at
look_for cs last places zero i = none
look_for cs last places (suc n) i =
    let rest = look_for cs last places n (suc i) in
    if free_at cs ((last + i) % places) then some ((last + i) % places) else rest

unfoldable pub find_connections_empty_place : Environment → SubReactor → SubReactor × Option ℕ
unfolding clear_timeout_connections look_for
find_connections_empty_place e r0 =
    let r =
      (if leb r0.open_max_connection r0.active_connections_count
        then (clear_timeout_connections e r0).0
        else r0) in
    elim (look_for r.connections r.last_empty_place r.open_max_connection r.open_max_connection 0) [
      | none ↦ (r, none)
      | some idx ↦ (record r { last_empty_place = idx }, some idx)
    ]
