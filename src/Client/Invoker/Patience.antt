-- ===== src/Client/Invoker/Patience.antt =====
-- The second phase of `Invoker::request` of include/rpc/client/invoker.cpp, when no piece of the response comes.
use muse_rpc.Common.{
  ℕ, zero, suc, ◌-◌, ◌^◌, ◌<◌, ◌≡◌, refl, ◌==◌, Bool, false, if◌then◌else◌, List, [], ◌∷◌, some,
  none, arith,
}
use muse_rpc.Memory.{Memory, ByteSequence}
use muse_rpc.Protocol.Header.{response}
use muse_rpc.Protocol.{protocol_header_size}
use muse_rpc.Packets.{send_reset, send_request_heartbeat}
use muse_rpc.Packets.Parsed.{controls_read}
use muse_rpc.Client.ResponseData.{network_timeout, fail}
use muse_rpc.Client.Invoker.{
  Caller, Exchange, Event, Progress, returned, waiting, again, note_sent, answered, on_phase_two,
  phase_two, try_times,
}

-- Nothing within the timeout, and then the server's answer to the heartbeat: a reset. As often as `rounds` says.
abbrev pub resets : ByteSequence → Memory → ℕ → ℕ → List Event
resets server raw message_id zero = []
resets server raw message_id (suc rounds) =
    none
    ∷ some (send_reset server raw message_id response, 26)
    ∷ resets server raw message_id rounds

abbrev pub IsWaiting : Progress → Type 0
IsWaiting (waiting x) = Unit {0}
IsWaiting p = ⊥

abbrev pub IsTimeout : Progress → Type 0
IsTimeout (returned r x) = (r.is_success ≡ false) × (r.reason ≡ network_timeout)
IsTimeout p = ⊥

else_waits : (b : Bool) (p q : Progress) → b ≡ false → IsWaiting q → IsWaiting (if b then p else q)
else_waits b p q h k = rw h k

module _ (c : Caller) (server : ByteSequence) (raw : Memory) (fits : c.message_id < 2 ^ 64) where
  on_reset :
      (x : Exchange)
      → on_phase_two c x (send_reset server raw c.message_id response) 26
        ≡ again (record x { response_need_try = try_times })
  unfolding on_phase_two answered
  on_reset x =
      rw
        ((controls_read server raw c.message_id fits response 0 0 (omega arith) (omega arith)).0
          c.host)
        (ground arith)

  -- After a timeout: a try less, and a heartbeat sent.
  abbrev asked : Exchange → Exchange
  unfolding note_sent
  asked x =
      note_sent (record x { response_need_try = x.response_need_try - 1 })
        (send_request_heartbeat c.host c.raw c.message_id) protocol_header_size

  waits_on :
      (rounds : ℕ) (x : Exchange)
      → 1 < x.response_need_try
      → IsWaiting (phase_two c (resets server raw c.message_id rounds) x)
  unfolding phase_two note_sent
  waits_on zero x h = tt
  waits_on (suc rounds) x h =
      else_waits (x.response_need_try - 1 == 0) _ _ (ground arith)
        (rw (on_reset (asked x)) (waits_on rounds _ (omega arith)))

  gives_up :
      (later : List Event) (x : Exchange)
      → x.response_need_try ≡ try_times
      → IsTimeout (phase_two c (none ∷ none ∷ none ∷ later) x)
  unfolding phase_two note_sent fail
  gives_up later x h = rw h (refl, refl)

  -- Let nothing arrive: after three timeouts without a datagram the call returns with a network timeout.
  -- But let the server have lost the message, so that it answers each heartbeat with a reset: a reset says the request phase, and counts as a sign of life. The
  -- call is still waiting after any number of such rounds, and never returns.
  pub phase_two_patience :
      (rounds : ℕ) (later : List Event) (x : Exchange)
      → x.response_need_try ≡ try_times
      → IsTimeout (phase_two c (none ∷ none ∷ none ∷ later) x)
        × IsWaiting (phase_two c (resets server raw c.message_id rounds) x)
  phase_two_patience rounds later x h = (gives_up later x h, waits_on rounds x (omega arith))
