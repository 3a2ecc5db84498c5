-- ===== src/Timer/Wheel/Place.antt =====
-- Where timer_wheel.cpp puts a task, and when a clock hand gets there.
use muse_rpc.Common.{
  ℕ, ◌+◌, ◌-◌, ◌*◌, ◌/◌, ◌%◌, ◌^◌, ◌<◌, ◌≤◌, ◌≡◌, ◌≢◌, leb, if◌then◌else◌, arith, ◌⊎◌,
}
use muse_rpc.Timer.Wheel.{
  Level, one, two, three, four, five, place, check_one, check_two, check_three, tick_gap,
}
use muse_rpc.Timer.Wheel.Loop.{hand, bucket_one, left}

abbrev pub size_of : Level → ℕ
size_of one = 256
size_of two = 64
size_of _ = 64

-- A task always lands inside the array of its level, and the delay decides the level.
pub place_bounds :
    (t gaps : ℕ)
    → ((place t gaps).1 < size_of (place t gaps).0)
      × (gaps ≤ check_one → place t gaps ≡ (one, (t + gaps) % 256))
      × (check_one < gaps → gaps ≤ check_two → place t gaps ≡ (two, (t + gaps) / 256 % 64))
unfolding place
place_bounds t gaps = (ground arith, (λ h. ground arith), (λ h k. ground arith))

-- The only round in which the second level hands down a task that it took at tick `t` for tick
-- `t + gaps` is the last one before the block of 256 ticks that holds tick `t + gaps`: not earlier,
-- and not in any round from `t` up to it.
pub level_two_handed_down :
    (t gaps round : ℕ)
    → check_one < gaps
    → gaps ≤ check_two
    → t ≤ round
    → round < t + gaps
    → (hand two round + 1) % 64 ≡ hand two (round + 1)
    → (hand two (round + 1) ≡ (place t gaps).1 → round + 1 ≡ (t + gaps) / 256 * 256)
      × (round + 1 ≡ (t + gaps) / 256 * 256 → hand two (round + 1) ≡ (place t gaps).1)
unfolding place
level_two_handed_down t gaps round lo hi from to moves = ((λ e. ground arith), (λ e. ground arith))

-- On a clock that keeps time the hand-down to the first level is exact, but for a task due at the
-- last tick of a block, which comes one tick early.
pub handed_down_accurately :
    (due round now expire : ℕ)
    → round + 1 ≡ due / 256 * 256
    → left expire now / tick_gap ≡ due - round
    → bucket_one round now expire ≡ (if leb 255 (due % 256) then 254 else due % 256)
handed_down_accurately due round now expire e clock = ground arith

-- The third level is filled by the second level's mask: the hand does not come to the bucket of such a delay up to
-- the tick at which the task is due.
pub three_missed :
    (gaps round : ℕ)
    → check_two < gaps
    → gaps ≤ check_three
    → (gaps + 1) / 2 ^ 14 < gaps / 2 ^ 8 % 2 ^ 6
    → round ≤ gaps
    → (place 0 gaps ≡ (three, gaps / 2 ^ 8 % 2 ^ 6))
      × (hand three (round + 1) ≢ gaps / 2 ^ 8 % 2 ^ 6)
unfolding place
three_missed gaps round lo hi wrong upto = (ground arith, (λ e. ground arith))

-- The fourth and the fifth level use one bucket each, whatever the delay.
pub upper_levels_one_bucket :
    (t gaps : ℕ) → check_three < gaps → ((place t gaps ≡ (four, 0)) ⊎ (place t gaps ≡ (five, 0)))
unfolding place
upper_levels_one_bucket t gaps h = ground arith
