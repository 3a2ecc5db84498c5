-- ===== src/Timer/Wheel/Late.antt =====
-- Tasks of the third level of timer_wheel.cpp that are not handed down in time.
use muse_rpc.Common.{
  ℕ, zero, suc, ◌+◌, ◌/◌, ◌%◌, ◌^◌, ◌<◌, ◌≤◌, ◌≡◌, refl, ap, ◌∙◌, List, [], ◌∷◌, ◌++◌, some, arith,
}
use mathlib.Core.List.{append_assoc}
use muse_rpc.Timer.Wheel.{
  Wheel, Task, three, place, tick_gap, put_bucket, add_task, set_timer_wheel_task, set_timeout,
  timeout_refused, new_task, check_two, check_three,
}
use muse_rpc.Timer.Wheel.Keeps.{Keeps, Keeps-refl, Keeps-trans, turn-Keeps}
use muse_rpc.Timer.Wheel.Place.{three_missed}
use muse_rpc.Timer.Wheel.Turn.{turns, tick-turns, tick-set}

module _ {ℓ} {A : Type ℓ} where
  turns-Keeps-three :
      (k gaps : ℕ) (clock : ℕ → ℕ) (read : ℕ → ℕ → ℕ) (w : Wheel A)
      → w.tick ≡ 0
      → check_two < gaps
      → gaps ≤ check_three
      → (gaps + 1) / 2 ^ 14 < gaps / 2 ^ 8 % 2 ^ 6
      → k ≤ gaps + 1
      → Keeps three (gaps / 2 ^ 8 % 2 ^ 6) w (turns k clock read w)
  unfolding turns
  turns-Keeps-three zero gaps clock read w z lo hi wrong h =
      Keeps-refl three (gaps / 2 ^ 8 % 2 ^ 6) w
  turns-Keeps-three (suc k) gaps clock read w z lo hi wrong h =
      let now : (turns k clock read w).tick ≡ k =
        tick-turns k clock read w (omega (arith, z, hi)) ∙ omega (arith, z) in
      let missed = (three_missed gaps k lo hi wrong (omega arith)).1 in
      Keeps-trans three (turns-Keeps-three k gaps clock read w z lo hi wrong (omega arith)) (
        turn-Keeps three (turns k clock read w) (clock k) (read k) (gaps / 2 ^ 8 % 2 ^ 6)
          (λ from upper. rw now (ground (arith, upper, missed))) refl)

  -- The task that a timeout adds, with the ID that it gets in its bucket.
  abbrev added : Wheel A → ℕ → ℕ → ℕ → A → Task A
  added w now delay i cb = record (new_task cb (now + delay)) {
    id = ((w.buckets three i).init_id + 1) % 2 ^ 64;
  }

  placed_three :
      (w : Wheel A) (now delay i : ℕ) (cb : A)
      → place w.tick (delay / tick_gap) ≡ (three, i)
      → ((set_timer_wheel_task w delay (new_task cb (now + delay))).buckets three i).tasks
        ≡ (w.buckets three i).tasks ++ (added w now delay i cb ∷ [])
  unfolding set_timer_wheel_task add_task put_bucket new_task
  placed_three w now delay i cb e = rw (add_task, e) (ground arith)

  abbrev pub Holds : A → ℕ → List (Task A) → Type ℓ
  Holds cb expire tasks =
      (before after : List (Task A)) × (task : Task A) × (tasks ≡ before ++ task ∷ after)
      × (task.call_back ≡ cb)
      × (task.expire ≡ expire)

  held :
      {cb : A} {expire : ℕ} (before after : List (Task A)) (task : Task A) (tasks : List (Task A))
      → task.call_back ≡ cb
      → task.expire ≡ expire
      → tasks ≡ (before ++ (task ∷ [])) ++ after
      → Holds cb expire tasks
  held before after task tasks c x e =
      (before, after, task, e ∙ append_assoc before (task ∷ []) after, c, x)

  -- Let the wheel stand at tick 0, and take a timeout for the third level whose delay of `gaps` ticks has a larger
  -- number in its bits 8 to 13 than `(gaps + 1) / 2 ^ 14`. It is taken, and after any number of rounds up to and with the
  -- one of its due tick, its task is still in the third level, where it was put: no round has handed it down. This
  -- holds whatever else the wheel holds, however the clock runs and whatever repeating tasks set meanwhile.
  pub level_three_late :
      (w : Wheel A) (now delay : ℕ) (cb : A) (clock : ℕ → ℕ) (read : ℕ → ℕ → ℕ) (rounds : ℕ)
      → w.tick ≡ 0
      → check_two < delay / tick_gap
      → delay / tick_gap ≤ check_three
      → (delay / tick_gap + 1) / 2 ^ 14 < delay / tick_gap / 2 ^ 8 % 2 ^ 6
      → rounds ≤ delay / tick_gap + 1
      → (w' : Wheel A) × (set_timeout w now delay cb ≡ some w')
        × Holds cb
            (now + delay)
            ((turns rounds clock read w').buckets three (place 0 (delay / tick_gap)).1).tasks
  unfolding set_timeout timeout_refused
  level_three_late w now delay cb clock read rounds z lo hi wrong h =
      let gaps = delay / tick_gap in
      let i = gaps / 2 ^ 8 % 2 ^ 6 in
      let w' = set_timer_wheel_task w delay (new_task cb (now + delay)) in
      let here : place 0 gaps ≡ (three, i) = (three_missed gaps 0 lo hi wrong (omega arith)).0 in
      let k =
        turns-Keeps-three rounds gaps clock read w'
          (tick-set w delay (new_task cb (now + delay)) ∙ z) lo hi wrong h in
      let start = placed_three w now delay i cb (ap (λ t. place t gaps) z ∙ here) in
      (
        w',
        ground arith,
        rw here (
            held (w.buckets three i).tasks k.joined (added w now delay i cb) _ refl refl
              (k.kept ∙ ap (λ l. l ++ k.joined) start)),
      )
