-- ===== src/Server/Reactor/Timers.antt =====
-- The timers of a reactor and what they call: `checkDeleteSocket`, `judgeDelete`,
-- `judgeResponseClearTimeout` and the end of `triggerTask` of include/rpc/server/sub_reactor.cpp.
use muse_rpc.Common.{
  ℕ, ◌+◌, ◌-◌, ◌≤◌, ◌<◌, ◌≡◌, ◌≢◌, refl, ltb, if◌then◌else◌, false, List, [], ◌∷◌, some, none,
  get_elem?, get_elem?-set_self, length, arith,
}
use muse_rpc.Memory.{Memory}
use muse_rpc.Protocol.{piece_count_of}
use muse_rpc.Timer.Tree.{set_timeout}
use muse_rpc.Server.Servlet.{Servlet, find, erase, find-erase_self, find-erase_ne}
use muse_rpc.Server.Request.{Request}
use muse_rpc.Server.Response.{Response, new_response}
use muse_rpc.Server.Reactor.{
  SubReactor, VirtualConnection, Environment, TimerEvent, check_delete_socket, judge_delete,
  judge_response, response_ready, set_timer, set_connection, has_message, find_response,
  put_response, erase_response, remove_message, send_response_data_to_client, connection_time_out,
  request_time_out, response_time_out,
}
use muse_rpc.Server.Reactor.Slots.{close_connection, cleared, is_free, is_stale}

module _ (e : Environment) where
  -- The connection's place is cleared, but not taken off the count of active connections.
  unfoldable pub on_check_delete_socket : SubReactor → ℕ → SubReactor
  unfolding is_free is_stale close_connection cleared set_connection set_timer
  on_check_delete_socket r slot = elim (get_elem? r.connections slot) [
    | none ↦ r
    | some vc ↦
        if is_free vc
        then r
        else if is_stale e.now vc
        then set_connection (close_connection r vc) slot (cleared vc)
        else set_timer e r connection_time_out (check_delete_socket slot)
  ]

  unfoldable pub on_judge_delete : SubReactor → Servlet → SubReactor
  unfolding set_timer
  on_judge_delete r servlet = elim (find r.messages servlet) [
    | none ↦ r
    | some req ↦
        if ltb request_time_out (e.now - req.active_dt)
        then (record r { messages = erase r.messages servlet })
        else set_timer e r request_time_out (judge_delete servlet)
  ]

  unfoldable pub on_judge_response : SubReactor → ℕ → ℕ → SubReactor
  unfolding is_free find_response remove_message erase_response set_connection set_timer
  on_judge_response r slot id = elim (get_elem? r.connections slot) [
    | none ↦ r
    | some vc ↦ if is_free vc then r else elim (find_response id vc.responses) [
      | none ↦ r
      | some res ↦
          if ltb response_time_out (e.now - res.last_active)
          then set_connection r slot (record vc {
            messages = remove_message id vc.messages;
            responses = erase_response id vc.responses;
          })
          else set_timer e r response_time_out (judge_response slot id)
    ]
  ]

  -- The callback of `triggerTask`. A response that is not there yet is kept and its first piece sent.
  -- The copy that is kept has neither `lastActive` nor, once the original is destroyed, its bytes.
  unfoldable pub on_response_ready : SubReactor → Memory → ℕ → Servlet → ℕ → SubReactor
  unfolding find_response put_response new_response set_connection send_response_data_to_client
      set_timer
  on_response_ready r content slot servlet count = elim (get_elem? r.connections slot) [
    | none ↦ r
    | some vc ↦
        let id = servlet.request_id in
        let fresh = new_response servlet (piece_count_of count) count e.now content in
        let kept = record fresh { content = e.freed } in
        let r' : SubReactor = (elim (find_response id vc.responses) [
          | some old ↦
              set_connection r slot (record vc { responses = put_response id kept vc.responses })
          | none ↦
              let sending = record vc { responses = put_response id fresh vc.responses } in
              let resting = record vc {
                responses =
                    put_response id (record kept { last_active = e.uninitialised }) vc.responses;
              } in
              set_connection (send_response_data_to_client e r sending id) slot resting
        ]) in
        set_timer e r' response_time_out (judge_response slot id)
  ]

  -- The end of `triggerTask`, with the bytes that the middleware and the route made.
  unfoldable pub finish_task : SubReactor → Memory → ℕ → Servlet → ℕ → SubReactor
  unfolding set_timer
  finish_task r content slot servlet count =
      set_timer e r 5 (response_ready content slot servlet count)

  unfoldable pub call_back : TimerEvent → SubReactor → SubReactor
  unfolding on_check_delete_socket on_judge_delete on_judge_response on_response_ready
  call_back (check_delete_socket slot) r = on_check_delete_socket r slot
  call_back (judge_delete servlet) r = on_judge_delete r servlet
  call_back (judge_response slot id) r = on_judge_response r slot id
  call_back (response_ready content slot servlet count) r =
      on_response_ready r content slot servlet count

find_response-erase_self :
    (id : ℕ) (rs : List (ℕ × Response)) → find_response id (erase_response id rs) ≡ none
unfolding find_response erase_response
find_response-erase_self id [] = refl
find_response-erase_self id ((k, w) ∷ rs) = ground (arith, find_response-erase_self id rs)

find_response-erase_ne :
    (id j : ℕ) (rs : List (ℕ × Response))
    → id ≢ j
    → find_response j (erase_response id rs) ≡ find_response j rs
unfolding find_response erase_response
find_response-erase_ne id j [] h = refl
find_response-erase_ne id j ((k, w) ∷ rs) h = ground (arith, find_response-erase_ne id j rs h)

has_message-remove_self : (id : ℕ) (ids : List ℕ) → has_message id (remove_message id ids) ≡ false
unfolding has_message remove_message
has_message-remove_self id [] = refl
has_message-remove_self id (k ∷ ids) = ground (arith, has_message-remove_self id ids)

has_message-remove_ne :
    (id j : ℕ) (ids : List ℕ) → id ≢ j → has_message j (remove_message id ids) ≡ has_message j ids
unfolding has_message remove_message
has_message-remove_ne id j [] h = refl
has_message-remove_ne id j (k ∷ ids) h = ground (arith, has_message-remove_ne id j ids h)

-- When the timer of a kept request fires, a request that heard nothing for longer than ten seconds is
-- dropped, no other is, and no timer is set for it again; any other request stays, and its timer is set
-- again for ten seconds from now.
pub judge_delete_lem :
    (e : Environment) (r : SubReactor) (servlet : Servlet) (req : Request)
    → find r.messages servlet ≡ some req
    → (let r' = on_judge_delete e r servlet in
        (req.active_dt + request_time_out < e.now
          → (find r'.messages servlet ≡ none)
            × ((other : Servlet) → servlet ≢ other → find r'.messages other ≡ find r.messages other)
            × (r'.tree_timer ≡ r.tree_timer))
        × (e.now ≤ req.active_dt + request_time_out
            → (r'.messages ≡ r.messages)
              × (r'.tree_timer
                  ≡ (set_timeout r.tree_timer e.now request_time_out (judge_delete servlet)).0)))
unfolding on_judge_delete set_timer
judge_delete_lem e r servlet req h = (
  (λ late. (
    ground (arith, h, find-erase_self r.messages servlet),
    (λ other n. ground (arith, h, find-erase_ne r.messages servlet other n)),
    ground (arith, h),
  )),
  (λ early. (ground (arith, h), ground (arith, h))),
)

-- The same of a response, fifteen seconds after the last word of its client: its data and its message
-- ID go together, and those of other messages stay.
pub judge_response_lem :
    (e : Environment) (r : SubReactor) (slot id fd : ℕ) (vc : VirtualConnection) (res : Response)
    → get_elem? r.connections slot ≡ some vc
    → slot < length r.connections
    → vc.socket_fd ≡ some fd
    → find_response id vc.responses ≡ some res
    → (let r' = on_judge_response e r slot id in
        (res.last_active + response_time_out < e.now
          → (vc' : VirtualConnection) × (get_elem? r'.connections slot ≡ some vc')
            × (find_response id vc'.responses ≡ none)
            × (has_message id vc'.messages ≡ false)
            × ((j : ℕ)
                → id ≢ j
                → (find_response j vc'.responses ≡ find_response j vc.responses)
                  × (has_message j vc'.messages ≡ has_message j vc.messages))
            × (r'.tree_timer ≡ r.tree_timer))
        × (e.now ≤ res.last_active + response_time_out
            → (r'.connections ≡ r.connections)
              × (r'.tree_timer
                  ≡ (set_timeout r.tree_timer e.now response_time_out (judge_response slot id)).0)))
unfolding on_judge_response set_timer is_free set_connection
judge_response_lem e r slot id fd vc res at inside live found = (
  (λ late. (
    record vc {
      messages = remove_message id vc.messages;
      responses = erase_response id vc.responses;
    },
    ground (
      arith,
      at,
      live,
      found,
      get_elem?-set_self r.connections slot
          (record vc {
            messages = remove_message id vc.messages;
            responses = erase_response id vc.responses;
          })
          inside,
    ),
    find_response-erase_self id vc.responses,
    has_message-remove_self id vc.messages,
    (λ j n. (find_response-erase_ne id j vc.responses n, has_message-remove_ne id j vc.messages n)),
    ground (arith, at, live, found),
  )),
  (λ early. (ground (arith, at, live, found), ground (arith, at, live, found))),
)
