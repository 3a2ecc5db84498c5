-- ===== src/Timer/Wheel/Loop.antt =====
-- One round of the thread in timer_wheel.cpp: the four hand-downs from level to level, the first
-- level's tasks, and the clock hand. `now` is the time at the start of the round, and `read` the
-- clock each time a repeating task is set again.
use muse_rpc.Common.{
  ℕ, ◌+◌, ◌-◌, ◌*◌, ◌/◌, ◌%◌, ◌^◌, ◌==◌, ltb, leb, if◌then◌else◌, List, [], ◌∷◌, ◌++◌,
}
use muse_rpc.Timer.Wheel.{
  Wheel, Task, Level, one, two, three, four, five, tick_gap, level_one_size, level_size, check_one,
  check_two, and_one, and_two, and_three, and_four, and_five, put_bucket, set_timer_wheel_task,
}

-- `(x & mask) >> shift`, the place of a clock hand.
abbrev pub hand : Level → ℕ → ℕ
hand one t = and_one t
hand two t = and_two t / 2 ^ 8
hand three t = and_three t / 2 ^ 14
hand four t = and_four t / 2 ^ 20
hand five t = and_five t / 2 ^ 26

-- Milliseconds until the task expires; a task that is late has 0.
abbrev pub left : ℕ → ℕ → ℕ
left expire now = expire - now

-- The bucket one level down for a task that expires at `expire`.
abbrev pub bucket_four : ℕ → ℕ → ℕ → ℕ
bucket_four t now expire =
    (hand four (t + 1) + and_four (left expire now / tick_gap) / 2 ^ 20) % level_size

abbrev pub bucket_three : ℕ → ℕ → ℕ → ℕ
bucket_three t now expire =
    (hand three (t + 1) + and_three (left expire now / tick_gap) / 2 ^ 14) % level_size

abbrev pub bucket_two : ℕ → ℕ → ℕ → ℕ
bucket_two t now expire =
    let gaps = left expire now / tick_gap in
    let capped = if leb check_two gaps then check_two else gaps in
    (hand two (t + 1) + and_two capped / 2 ^ 8) % level_size

abbrev pub bucket_one : ℕ → ℕ → ℕ → ℕ
bucket_one t now expire =
    let gaps = left expire now / tick_gap in
    let capped = if leb check_one gaps then check_one else gaps in
    (hand one t + capped) % level_one_size

module _ {ℓ} {A : Type ℓ} where
  -- `push_back` without a new ID, as the hand-downs do it.
  unfoldable pub push_task : Wheel A → Level → ℕ → Task A → Wheel A
  unfolding put_bucket
  push_task w level i task =
      let b = w.buckets level i in
      put_bucket w level i (record b { tasks = b.tasks ++ (task ∷ []) })

  -- The tasks of one bucket go to `level`; those that are cancelled are dropped.
  unfoldable pub move_tasks : Level → (ℕ → ℕ) → List (Task A) → Wheel A → Wheel A
  unfolding push_task
  move_tasks level place [] w = w
  move_tasks level place (task ∷ tasks) w =
      move_tasks level place tasks
        (if task.is_cancel then w else push_task w level (place task.expire) task)

  -- Only a hand that moves at the next tick hands its next bucket down.
  unfoldable pub hand_down : Level → Level → (ℕ → ℕ) → Wheel A → Wheel A
  unfolding move_tasks put_bucket
  hand_down from to place w =
      let next = hand from (w.tick + 1) in
      if (hand from w.tick + 1) % level_size == next
      then (let b = w.buckets from next in
          put_bucket (move_tasks to place b.tasks w) from next (record b { tasks = [] }))
      else w

  -- What becomes of a repeating task that has run: it is set again, for the next multiple of its
  -- interval, but at least two ticks ahead.
  unfoldable pub set_again : Wheel A → Task A → ℕ → Wheel A
  unfolding set_timer_wheel_task
  set_again w task clock =
      let times = task.times + 1 in
      let next_tick = task.add_date_time + (times + 1) * task.delay_interval in
      let delay = next_tick - clock in
      set_timer_wheel_task w (if ltb delay (tick_gap * 2) then tick_gap * 2 else delay)
        (record task { times = times; expire = next_tick })

  -- The wheel and the callbacks that were called, in their order. A callback that the thread pool
  -- does not take is called at once, so each is called either way.
  unfoldable pub run_tasks : (ℕ → ℕ) → ℕ → List (Task A) → Wheel A → Wheel A × List A
  unfolding set_again
  run_tasks read i [] w = (w, [])
  run_tasks read i (task ∷ tasks) w =
      let (w', fired) = run_tasks read (if task.is_cancel then i else i + 1) tasks (
        if task.is_cancel then w else if task.is_duplicate then set_again w task (read i) else w) in
      (w', if task.is_cancel then fired else task.call_back ∷ fired)

  unfoldable pub cascade : Wheel A → ℕ → Wheel A
  unfolding hand_down
  cascade w now =
      let w4 = hand_down five four (bucket_four w.tick now) w in
      let w3 = hand_down four three (bucket_three w.tick now) w4 in
      let w2 = hand_down three two (bucket_two w.tick now) w3 in
      hand_down two one (bucket_one w.tick now) w2

  unfoldable pub turn : Wheel A → ℕ → (ℕ → ℕ) → Wheel A × List A
  unfolding cascade run_tasks put_bucket
  turn w now read =
      let w1 = cascade w now in
      let i = hand one w.tick in
      let b = w1.buckets one i in
      let (w2, fired) = run_tasks read 0 b.tasks w1 in
      let b' = w2.buckets one i in
      (
        record (put_bucket w2 one i (record b' { tasks = [] })) { tick = (w.tick + 1) % 2 ^ 32 },
        fired,
      )
