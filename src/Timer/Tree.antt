-- ===== src/Timer/Tree.antt =====
-- include/timer/timer_tree.hpp and timer_tree.cpp. The clock is an argument of each call, in
-- milliseconds. A callback is a value of `A`; what calling it does is the argument `call`.
pub mod Order
pub mod Runs
mod Tests
use muse_rpc.Common.{
  ℕ, zero, suc, ◌+◌, ◌-◌, ◌%◌, ◌^◌, ◌==◌, ltb, leb, if◌then◌else◌, Bool, true, false, ◌&&◌, not,
  List, [], ◌∷◌, Option, some, none,
}

pub record TimeNode {ℓ} (A : Type ℓ) : Type ℓ where
  pub id : ℕ
  pub expire : ℕ
  pub call_back : A

-- `nodes` is the ordered set, in its order.
pub record TimerTree {ℓ} (A : Type ℓ) : Type ℓ where
  pub init_id : ℕ
  pub nodes : List (TimeNode A)

-- `operator <` on an expiry and an ID: the earlier first, and of two at once the one set first.
abbrev pub node_less : ℕ → ℕ → ℕ → ℕ → Bool
node_less expire id other_expire other_id =
    if ltb expire other_expire
    then true
    else if ltb other_expire expire
    then false
    else ltb id other_id

module _ {ℓ} {A : Type ℓ} where
  abbrev pub before : TimeNode A → TimeNode A → Bool
  before m n = node_less m.expire m.id n.expire n.id

  -- `std::set::insert`: an equivalent node stays as it is.
  unfoldable pub insert : TimeNode A → List (TimeNode A) → List (TimeNode A)
  insert n [] = n ∷ []
  insert n (m ∷ ms) =
      if before n m then n ∷ m ∷ ms else if before m n then m ∷ insert n ms else m ∷ ms

  -- `std::set::find`.
  unfoldable pub contains : ℕ → ℕ → List (TimeNode A) → Bool
  contains expire id [] = false
  contains expire id (m ∷ ms) =
      if not (node_less m.expire m.id expire id) && not (node_less expire id m.expire m.id)
      then true
      else contains expire id ms

  unfoldable pub erase : ℕ → ℕ → List (TimeNode A) → List (TimeNode A)
  erase expire id [] = []
  erase expire id (m ∷ ms) =
      if not (node_less m.expire m.id expire id) && not (node_less expire id m.expire m.id)
      then ms
      else m ∷ erase expire id ms

  -- The new tree and the ID, by which `clearTimeout` finds the node.
  unfoldable pub set_timeout : TimerTree A → ℕ → ℕ → A → TimerTree A × ℕ
  unfolding insert
  set_timeout t now milliseconds cb =
      let id = (t.init_id + 1) % 2 ^ 64 in
      (
        record t {
          init_id = id;
          nodes = insert (record { id = id; expire = now + milliseconds; call_back = cb }) t.nodes;
        },
        id,
      )

  unfoldable pub clear_timeout : TimerTree A → ℕ → ℕ → TimerTree A × Bool
  unfolding contains erase
  clear_timeout t expire id =
      if contains expire id t.nodes
      then (record t { nodes = erase expire id t.nodes }, true)
      else (t, false)

  -- How long to wait: `none` is -1, no timer at all.
  unfoldable pub check_timeout : TimerTree A → ℕ → Option ℕ
  check_timeout t now = elim t.nodes [
    | [] ↦ none
    | m ∷ ms ↦ some (if ltb now m.expire then m.expire - now else 0)
  ]

module _ {ℓ} {A : Type ℓ} where
  -- The timeouts that a callback sets, each as its expiry.
  pub set_timeouts : TimerTree A → List (ℕ × A) → TimerTree A
  unfolding set_timeout
  set_timeouts t [] = t
  set_timeouts t ((expire, cb) ∷ rest) = set_timeouts (set_timeout t expire 0 cb).0 rest

  -- The node behind the iterator that stands at `n`.
  first_after : TimeNode A → List (TimeNode A) → Option (TimeNode A)
  first_after n [] = none
  first_after n (m ∷ ms) = if before n m then some m else first_after n ms

  abbrev pub head_node : List (TimeNode A) → Option (TimeNode A)
  head_node [] = none
  head_node (m ∷ ms) = some m

-- Calling a callback changes the rest of the program, `S`, and may set timeouts: pairs of an expiry
-- and a callback.
module _ {ℓ κ} {A : Type ℓ} {S : Type κ} (call : A → S → S × List (ℕ × A)) where
  unfoldable pub run_task : TimerTree A → ℕ → S → (S × TimerTree A) × Bool
  unfolding set_timeouts erase
  run_task t now s = elim t.nodes [
    | [] ↦ ((s, t), false)
    | m ∷ ms ↦
        if leb m.expire now
        then (let (s', timeouts) = call m.call_back s in
            let t' = set_timeouts t timeouts in
            ((s', record t' { nodes = erase m.expire m.id t'.nodes }), true))
        else ((s, t), false)
  ]

  -- `none` as the result means that the fuel ran out.
  pub run_from : ℕ → ℕ → Option (TimeNode A) → S → TimerTree A → Option (S × TimerTree A)
  unfolding set_timeouts erase first_after
  run_from zero current start s t = none
  run_from (suc fuel) current none s t = some (s, t)
  run_from (suc fuel) current (some n) s t =
      let (s', timeouts) = call n.call_back s in
      let t' = set_timeouts t timeouts in
      let rest =
        run_from fuel current (first_after n t'.nodes) s'
          (record t' { nodes = erase n.expire n.id t'.nodes }) in
      if leb n.expire current then rest else some (s, t)

  unfoldable pub run_task_loop : ℕ → TimerTree A → ℕ → S → Option (S × TimerTree A)
  unfolding run_from
  run_task_loop fuel t current s = run_from fuel current (head_node t.nodes) s t
