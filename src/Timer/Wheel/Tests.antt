-- ===== src/Timer/Wheel/Tests.antt =====
-- The wheel at concrete inputs.
use muse_rpc.Common.{ℕ, ◌+◌, ◌*◌, ◌%◌, ◌≡◌, refl, [], ◌∷◌, some, arith}
use muse_rpc.Timer.Wheel.{Wheel, one, three, place, set_timeout, clear_timeout, new_task, add_task}
use muse_rpc.Timer.Wheel.Loop.{hand, turn}
use muse_rpc.Timer.Wheel.Late.{level_three_late, Holds}
use muse_rpc.Timer.Wheel.Turn.{turns, Calls, timeout_fires}

abbrev empty : Wheel ℕ
empty = record {
  tick = 1000;
  start_data_time = 0;
  buckets = λ _ _. record { init_id = 0; tasks = [] };
}

abbrev clock : ℕ → ℕ
clock k = 5000 + 5 * k

timeout_fires_example :
    (w' : Wheel ℕ) × (set_timeout empty 5000 12 7 ≡ some w')
    × Calls 7 (turn (turns 2 clock (λ k _. clock k) w') (clock 2) (λ _. clock 2)).1
timeout_fires_example =
    timeout_fires empty 5000 12 7 clock (λ k _. clock k) (omega arith) (omega arith) (omega arith)

-- One cancelled task and one that is not, both due at once.
abbrev busy : Wheel ℕ
unfolding add_task new_task
busy =
    add_task (add_task empty one (1000 % 256) (clear_timeout (new_task 3 5000))) one (1000 % 256)
      (new_task 4 5000)

busy-turn : (turn busy 5000 clock).1 ≡ 4 ∷ []
unfolding turn add_task new_task clear_timeout
busy-turn = refl

abbrev started : Wheel ℕ
started = record empty { tick = 0 }

-- 100 seconds: 20000 ticks. Only round 229375, after 19 minutes, hands the task down.
level_three_late_example :
    (w' : Wheel ℕ) × (set_timeout started 5000 100000 7 ≡ some w')
    × Holds 7
        (5000 + 100000)
        ((turns 20001 clock (λ k _. clock k) w').buckets three (place 0 20000).1).tasks
level_three_late_example =
    level_three_late started 5000 100000 7 clock (λ k _. clock k) 20001 refl (omega arith)
      (omega arith) (omega arith) (omega arith)

level_three_late_run : hand three 229376 ≡ (place 0 20000).1
unfolding place
level_three_late_run = refl
