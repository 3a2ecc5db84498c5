-- ===== src/Timer/Wheel.antt =====
-- include/timer/timer_wheel.hpp and timer_wheel.cpp. A time is a number of milliseconds since the
-- epoch, and the clock is an argument wherever the code reads it. A bucket is the list of its tasks.
pub mod Loop
pub mod Place
pub mod Keeps
pub mod Turn
pub mod Late
mod Tests
use muse_rpc.Common.{
  ℕ, zero, suc, ◌+◌, ◌-◌, ◌*◌, ◌/◌, ◌%◌, ◌^◌, ◌==◌, ltb, leb, if◌then◌else◌, Bool, true, false,
  ◌&&◌, ◌||◌, Option, some, none, List, [], ◌∷◌, ◌++◌, bit_and,
}

-- Milliseconds per tick.
abbrev pub tick_gap : ℕ
tick_gap = 5

abbrev pub level_one_size : ℕ
level_one_size = 256

-- The size of the levels two to five.
abbrev pub level_size : ℕ
level_size = 64

abbrev pub check_one : ℕ
check_one = 0b00000000000000000000000011111111

abbrev pub check_two : ℕ
check_two = 0b00000000000000000011111100000000

abbrev pub check_three : ℕ
check_three = 0b00000000000011111100000000000000

abbrev pub check_four : ℕ
check_four = 0b00000011111100000000000000000000

abbrev pub check_five : ℕ
check_five = 0b11111100000000000000000000000000

-- `x & checkOne` to `x & checkFive`: the bits 0-7, 8-13, 14-19, 20-25 and 26-31 of `x`.
abbrev pub and_one : ℕ → ℕ
and_one x = x % 2 ^ 8

abbrev pub and_two : ℕ → ℕ
and_two x = x / 2 ^ 8 % 2 ^ 6 * 2 ^ 8

abbrev pub and_three : ℕ → ℕ
and_three x = x / 2 ^ 14 % 2 ^ 6 * 2 ^ 14

abbrev pub and_four : ℕ → ℕ
and_four x = x / 2 ^ 20 % 2 ^ 6 * 2 ^ 20

abbrev pub and_five : ℕ → ℕ
and_five x = x / 2 ^ 26 % 2 ^ 6 * 2 ^ 26

pub record Task {ℓ} (A : Type ℓ) : Type ℓ where
  pub id : ℕ
  pub call_back : A
  pub expire : ℕ
  pub add_date_time : ℕ
  pub is_cancel : Bool
  pub is_duplicate : Bool
  pub times : ℕ
  pub delay_interval : ℕ

pub record Bucket {ℓ} (A : Type ℓ) : Type ℓ where
  pub init_id : ℕ
  pub tasks : List (Task A)

pub data Level : Type 0 where
  one two three four five : Level

-- The five arrays of buckets.
pub record Wheel {ℓ} (A : Type ℓ) : Type ℓ where
  pub tick : ℕ
  pub start_data_time : ℕ
  pub buckets : Level → ℕ → Bucket A

abbrev pub same_level : Level → Level → Bool
same_level one one = true
same_level two two = true
same_level three three = true
same_level four four = true
same_level five five = true
same_level one _ = false
same_level two _ = false
same_level three _ = false
same_level four _ = false
same_level five _ = false

-- The level and the bucket of a delay of `gaps` ticks, set at tick `tick_place`. The levels three
-- to five use the mask of level two, as the code does.
unfoldable pub place : ℕ → ℕ → Level × ℕ
place tick_place gaps =
    if leb gaps check_one
    then (one, (and_one tick_place + and_one gaps) % 2 ^ 8)
    else if leb gaps check_two
    then (two, and_two (tick_place + gaps) / 2 ^ 8)
    else if leb gaps check_three
    then (three, and_two (tick_place + gaps) / 2 ^ 8)
    else if leb gaps check_four
    then (four, and_two (tick_place + gaps) / 2 ^ 20)
    else (five, and_two (tick_place + gaps) / 2 ^ 26)

-- The tests on which `setTimeout` and `setInterval` throw. A negative delay counts as 0 here.
unfoldable pub timeout_refused : ℕ → Bool
timeout_refused delay = leb 21474836480 delay || leb delay 0

unfoldable pub interval_refused : ℕ → Bool
unfolding timeout_refused
interval_refused delay = timeout_refused delay || leb delay 10

module _ {ℓ} {A : Type ℓ} where
  -- `genTaskID` and `push_back` under the bucket's lock.
  unfoldable pub put_bucket : Wheel A → Level → ℕ → Bucket A → Wheel A
  put_bucket w level i b = record w {
    buckets = λ l j. if same_level l level && j == i then b else w.buckets l j;
  }

  -- The task gets the bucket's next ID and joins its end.
  unfoldable pub add_task : Wheel A → Level → ℕ → Task A → Wheel A
  unfolding put_bucket
  add_task w level i task =
      let b = w.buckets level i in
      let id = (b.init_id + 1) % 2 ^ 64 in
      put_bucket w level i
        (record { init_id = id; tasks = b.tasks ++ (record task { id = id } ∷ []) })

  unfoldable pub set_timer_wheel_task : Wheel A → ℕ → Task A → Wheel A
  unfolding add_task place
  set_timer_wheel_task w delay task =
      let (level, i) = place w.tick (delay / tick_gap) in add_task w level i task

  unfoldable pub new_task : A → ℕ → Task A
  new_task cb expire = record {
    id = 0;
    call_back = cb;
    expire = expire;
    add_date_time = 0;
    is_cancel = false;
    is_duplicate = false;
    times = 0;
    delay_interval = 0;
  }

  -- `none` is the exception.
  unfoldable pub set_timeout : Wheel A → ℕ → ℕ → A → Option (Wheel A)
  unfolding timeout_refused new_task set_timer_wheel_task
  set_timeout w now delay cb =
      if timeout_refused delay
      then none
      else some (set_timer_wheel_task w delay (new_task cb (now + delay)))

  unfoldable pub set_interval : Wheel A → ℕ → ℕ → A → Option (Wheel A)
  unfolding interval_refused new_task set_timer_wheel_task
  set_interval w now delay cb =
      if interval_refused delay
      then none
      else some (
          set_timer_wheel_task w delay (record (new_task cb (now + delay)) {
            is_duplicate = true;
            delay_interval = delay;
            add_date_time = now;
          }))

  unfoldable pub clear_timeout : Task A → Task A
  clear_timeout task = record task { is_cancel = true }

  unfoldable pub clear_interval : Task A → Task A
  clear_interval task = record task { is_cancel = true; is_duplicate = false }
