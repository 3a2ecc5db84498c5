-- ===== src/Timer/Tree/Tests.antt =====
-- A timer tree at work, and the theorems at inputs that meet their hypotheses.
use muse_rpc.Common.{ℕ, ◌<◌, ◌≡◌, refl, List, [], ◌∷◌, ◌++◌, some, arith}
use muse_rpc.Timer.Tree.{TimerTree, set_timeout, set_timeouts, run_task_loop}
use muse_rpc.Timer.Tree.Order.{IsTree}
use muse_rpc.Timer.Tree.Runs.{fire, pending, run_task_loop_lem, SetsLater}

-- The callbacks are numbers; calling one writes it down, and 7 sets another timeout far ahead.
abbrev log : ℕ → List ℕ → List ℕ × List (ℕ × ℕ)
log cb s = (s ++ (cb ∷ []), (900, 8) ∷ [])

abbrev three : TimerTree ℕ
three = record {
  init_id = 3;
  nodes =
      record { id = 2; expire = 50; call_back = 5 }
      ∷ record { id = 1; expire = 60; call_back = 7 }
      ∷ record { id = 3; expire = 80; call_back = 6 }
      ∷ [];
}

three-IsTree : IsTree three
three-IsTree = record {
  ordered = ((refl, (refl, tt)), ((refl, tt), (tt, tt)));
  ids_given = omega arith;
}

log-SetsLater : (current : ℕ) → current < 900 → SetsLater log current
log-SetsLater current h cb s = (h, tt)

run_fires :
    run_task_loop log 9 three 60 []
    ≡ some (
      5 ∷ 7 ∷ [],
      set_timeouts
          (record { init_id = 3; nodes = record { id = 3; expire = 80; call_back = 6 } ∷ [] })
          ((900, 8) ∷ (900, 8) ∷ []),
    )
unfolding run_task_loop set_timeouts set_timeout
run_fires = refl

run_task_loop_lem_example :
    run_task_loop log 4 three 60 []
    ≡ some (
      (fire log 60 three.nodes []).0,
      set_timeouts (record three { nodes = pending 60 three.nodes }) (fire log 60 three.nodes []).1,
    )
run_task_loop_lem_example =
    run_task_loop_lem log 4 60 three [] (log-SetsLater 60 (omega arith)) three-IsTree.ordered
      (omega arith)
