-- ===== src/Server/MainReactor/Places.antt =====
-- The places of the clients among the sub-reactors of include/rpc/server/reactor.cpp.
use native.Mathlib.Nat.{mod-lt}
use muse_rpc.Common.{
  Bool-cases, ℕ, ◌%◌, ◌<◌, ◌≡◌, inl, inr, ◌&&◌, if◌then◌else◌, refl, ◌∙◌, Bool, true, false, not,
  List, [], ◌∷◌, All, Option, some, none, arith,
}
use muse_rpc.Memory.{ByteSequence}
use muse_rpc.Protocol.{new_protocol, parse}
use muse_rpc.Server.MainReactor.{
  servlet_of, Peer, peer_less, same_peer, SocketConnection, find_peer, erase_peer, assign_peer,
  MainEffect, accept_connection, MainReactor, MainArrival, MainEvent, arrives, closes,
  build_connection, dispatch, receive, handle, handle_all, new_main_reactor,
}

same_peer-eq : (a b : Peer) → same_peer a b ≡ true → a ≡ b
unfolding same_peer peer_less
same_peer-eq a b h = ground arith

same_peer_refl : (a : Peer) → same_peer a a ≡ true
unfolding same_peer peer_less
same_peer_refl a = ground arith

find_peer-erase_peer_ne :
    (entries : List (Peer × SocketConnection)) (p q : Peer)
    → same_peer q p ≡ false
    → find_peer (erase_peer entries q) p ≡ find_peer entries p
unfolding find_peer erase_peer
find_peer-erase_peer_ne [] p q h = refl
find_peer-erase_peer_ne ((key, c) ∷ rest) p q h = ground (
  arith,
  find_peer-erase_peer_ne rest p q h,
  same_peer-eq key q,
  same_peer-eq key p,
  same_peer_refl p,
)

-- One peer is known, and the other is not.
apart :
    (entries : List (Peer × SocketConnection)) (q p : Peer) (c : SocketConnection)
    → find_peer entries q ≡ none
    → find_peer entries p ≡ some c
    → same_peer q p ≡ false
apart entries q p c h e = elim (Bool-cases (same_peer q p)) [
  | inl same ↦ absurd (ground (arith, rw (same_peer-eq q p same) at h))
  | inr other ↦ other
]

either :
    (P : MainReactor → Type 0) (b : Bool) {x y : MainReactor} → P x → P y → P (if b then x else y)
either P true h g = h
either P false h g = g

-- Its connection is not closed.
abbrev pub Spares : Peer → MainEvent → Type 0
Spares p (arrives a) = Unit {0}
Spares p (closes q) = same_peer q p ≡ false

module _ (host : ByteSequence) (sub_reactor_count : ℕ) (has_transmitter : Bool) where
  abbrev Has : Peer → SocketConnection → MainReactor → Type 0
  Has p c r = find_peer r.con_queue p ≡ some c

  build_connection-Has :
      (r : MainReactor) (a : MainArrival) (fd : Option ℕ) (p : Peer) (c : SocketConnection)
      → same_peer a.peer p ≡ false
      → Has p c r
      → Has p c (build_connection host sub_reactor_count has_transmitter r a fd)
  unfolding build_connection assign_peer find_peer
  build_connection-Has r a none p c h e = e
  build_connection-Has r a (some fd) p c h e =
      ground (arith, h, find_peer-erase_peer_ne r.con_queue p a.peer h)

  dispatch-Has :
      (r : MainReactor) (a : MainArrival) (found : Option SocketConnection) (p : Peer)
      (c : SocketConnection)
      → find_peer r.con_queue a.peer ≡ found
      → Has p c r
      → Has p c (dispatch host sub_reactor_count has_transmitter r a found)
  unfolding dispatch
  dispatch-Has r a none p c f e =
      build_connection-Has r a a.new_socket p c (apart r.con_queue a.peer p c f e) e
  dispatch-Has r a (some connection) p c f e = e

  handle-find_peer :
      (r : MainReactor) (event : MainEvent) (p : Peer) (c : SocketConnection)
      → Spares p event
      → find_peer r.con_queue p ≡ some c
      → find_peer (handle host sub_reactor_count has_transmitter r event).con_queue p ≡ some c
  unfolding handle receive dispatch build_connection assign_peer
  handle-find_peer r (arrives a) p c k e =
      either (Has p c) (not (parse host (new_protocol host) a.buffer a.received).1) e (
        either (Has p c)
          (has_transmitter
            && a.is_active (
                servlet_of host sub_reactor_count has_transmitter
                  (parse host (new_protocol host) a.buffer a.received).0.time_point a.peer))
          e (dispatch-Has r a (find_peer r.con_queue a.peer) p c refl e))
  handle-find_peer r (closes q) p c k e = find_peer-erase_peer_ne r.con_queue p q k ∙ e

  kept_place :
      (r : MainReactor) (events : List MainEvent) (p : Peer) (c : SocketConnection)
      → All (Spares p) events
      → find_peer r.con_queue p ≡ some c
      → find_peer (handle_all host sub_reactor_count has_transmitter r events).con_queue p ≡ some c
  unfolding handle_all
  kept_place r [] p c k e = e
  kept_place r (event ∷ events) p c (k, ks) e =
      kept_place (handle host sub_reactor_count has_transmitter r event) events p c ks
        (handle-find_peer r event p c k e)

  receive_known_peer :
      (r : MainReactor) (a : MainArrival) (c : SocketConnection)
      → (parse host (new_protocol host) a.buffer a.received).1 ≡ true
      → a.is_active (
          servlet_of host sub_reactor_count has_transmitter
            (parse host (new_protocol host) a.buffer a.received).0.time_point
            a.peer)
        ≡ false
      → find_peer r.con_queue a.peer ≡ some c
      → (receive host sub_reactor_count has_transmitter r a).main_effects
        ≡ accept_connection c.sub_reactor_index c.socket a.peer false ∷ r.main_effects
  unfolding receive dispatch
  receive_known_peer r a c well other e = rw (well, receive) (rw other (rw e (ground arith)))

  -- Let a client have a connection, and let any events pass of which none closes it. Then the next datagram of this
  -- client that has the form of the protocol, and is no answer to a request of the server's own, is handed on to the
  -- same socket of the same sub-reactor, as one of a known client.
  pub peer_stays :
      (r : MainReactor) (events : List MainEvent) (a : MainArrival) (c : SocketConnection)
      → find_peer r.con_queue a.peer ≡ some c
      → All (Spares a.peer) events
      → (parse host (new_protocol host) a.buffer a.received).1 ≡ true
      → a.is_active (
          servlet_of host sub_reactor_count has_transmitter
            (parse host (new_protocol host) a.buffer a.received).0.time_point
            a.peer)
        ≡ false
      → let r' = handle_all host sub_reactor_count has_transmitter r events in
        (receive host sub_reactor_count has_transmitter r' a).main_effects
        ≡ accept_connection c.sub_reactor_index c.socket a.peer false ∷ r'.main_effects
  peer_stays r events a c e k well other =
      receive_known_peer (handle_all host sub_reactor_count has_transmitter r events) a c well other
        (kept_place r events a.peer c k e)

  abbrev pub IsInRange : MainEffect → Type 0
  IsInRange (accept_connection index socket peer new_connection) = index < sub_reactor_count
  IsInRange effect = Unit {0}

  abbrev pub IsPlaced : MainReactor → Type 0
  IsPlaced r =
      All (λ entry. entry.1.sub_reactor_index < sub_reactor_count) r.con_queue
      × All IsInRange r.main_effects

  abbrev IsServed : Peer × SocketConnection → Type 0
  IsServed entry = entry.1.sub_reactor_index < sub_reactor_count

  both :
      (b : Bool) (x y : List (Peer × SocketConnection))
      → All IsServed x
      → All IsServed y
      → All IsServed (if b then x else y)
  both true x y h g = h
  both false x y h g = g

  erase_peer-IsServed :
      (entries : List (Peer × SocketConnection)) (q : Peer)
      → All IsServed entries
      → All IsServed (erase_peer entries q)
  unfolding erase_peer
  erase_peer-IsServed [] q h = tt
  erase_peer-IsServed ((key, c) ∷ rest) q (h, hs) =
      both (same_peer key q) _ _ (erase_peer-IsServed rest q hs) (h, erase_peer-IsServed rest q hs)

  find_peer-IsServed :
      (entries : List (Peer × SocketConnection)) (q : Peer) (c : SocketConnection)
      → All IsServed entries
      → find_peer entries q ≡ some c
      → c.sub_reactor_index < sub_reactor_count
  unfolding find_peer
  find_peer-IsServed [] q c h e = absurd (ground (arith, e))
  find_peer-IsServed ((key, d) ∷ rest) q c (h, hs) e =
      ground (arith, h, e, find_peer-IsServed rest q c hs)

  next_in_range : 0 < sub_reactor_count → (n : ℕ) → n % sub_reactor_count < sub_reactor_count
  next_in_range positive n = mod-lt n positive

  build_connection-IsPlaced :
      0 < sub_reactor_count
      → (r : MainReactor) (a : MainArrival) (fd : Option ℕ) → IsPlaced r
      → IsPlaced (build_connection host sub_reactor_count has_transmitter r a fd)
  unfolding build_connection assign_peer
  build_connection-IsPlaced positive r a none (h, g) = (h, g)
  build_connection-IsPlaced positive r a (some fd) (h, g) =
      let small = next_in_range positive r.counter in
      either IsPlaced (not a.is_connected) (h, g)
        (either IsPlaced (not a.is_accepted) (h, (tt, (small, g)))
          ((small, erase_peer-IsServed r.con_queue a.peer h), (small, g)))

  dispatch-IsPlaced :
      0 < sub_reactor_count
      → (r : MainReactor) (a : MainArrival) (found : Option SocketConnection)
      → find_peer r.con_queue a.peer ≡ found
      → IsPlaced r
      → IsPlaced (dispatch host sub_reactor_count has_transmitter r a found)
  unfolding dispatch build_connection assign_peer
  dispatch-IsPlaced positive r a none f (h, g) =
      build_connection-IsPlaced positive r a a.new_socket (h, g)
  dispatch-IsPlaced positive r a (some connection) f (h, g) =
      (h, (find_peer-IsServed r.con_queue a.peer connection h f, g))

  receive-IsPlaced :
      0 < sub_reactor_count
      → (r : MainReactor) (event : MainEvent) → IsPlaced r
      → IsPlaced (handle host sub_reactor_count has_transmitter r event)
  unfolding handle receive
  receive-IsPlaced positive r (arrives a) (h, g) =
      either IsPlaced (not (parse host (new_protocol host) a.buffer a.received).1) (h, (tt, g))
        (either IsPlaced
          (has_transmitter
            && a.is_active (
                servlet_of host sub_reactor_count has_transmitter
                  (parse host (new_protocol host) a.buffer a.received).0.time_point a.peer))
          (h, (tt, g)) (dispatch-IsPlaced positive r a (find_peer r.con_queue a.peer) refl (h, g)))
  receive-IsPlaced positive r (closes q) (h, g) = (erase_peer-IsServed r.con_queue q h, g)

  handle_all-IsPlaced :
      0 < sub_reactor_count
      → (r : MainReactor) (events : List MainEvent) → IsPlaced r
      → IsPlaced (handle_all host sub_reactor_count has_transmitter r events)
  unfolding handle_all
  handle_all-IsPlaced positive r [] h = h
  handle_all-IsPlaced positive r (event ∷ events) h =
      handle_all-IsPlaced positive (handle host sub_reactor_count has_transmitter r event) events
        (receive-IsPlaced positive r event h)

  -- If there is a sub-reactor, then whatever arrives, and whatever is closed, every datagram that the main reactor hands on
  -- goes to a sub-reactor that exists, and so does every connection that it remembers.
  pub hands_on_in_range :
      0 < sub_reactor_count
      → (events : List MainEvent)
      → IsPlaced (
          handle_all host sub_reactor_count has_transmitter
            (new_main_reactor host sub_reactor_count has_transmitter)
            events)
  hands_on_in_range positive events = handle_all-IsPlaced positive _ events (tt, tt)
