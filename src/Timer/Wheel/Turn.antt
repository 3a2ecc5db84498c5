-- ===== src/Timer/Wheel/Turn.antt =====
-- What a round of the wheel calls, and that a task of the first level is called in its round.
use muse_rpc.Common.{
  ℕ, zero, suc, ◌+◌, ◌/◌, ◌%◌, ◌^◌, ◌<◌, ◌≤◌, ◌≡◌, refl, ap, ◌∙◌, if◌then◌else◌, false, List, [],
  ◌∷◌, ◌++◌, some, arith,
}
use muse_rpc.Timer.Wheel.{
  Wheel, Task, one, tick_gap, put_bucket, add_task, set_timer_wheel_task, set_timeout, new_task,
  check_one,
}
use muse_rpc.Timer.Wheel.Loop.{hand, set_again, run_tasks, cascade, turn}
use mathlib.Core.List.{append_assoc}
use muse_rpc.Timer.Wheel.Keeps.{Keeps, Keeps-refl, Keeps-trans, cascade-Keeps, turn-Keeps}
use muse_rpc.Timer.Wheel.Place.{place_bounds}

module _ {ℓ} {A : Type ℓ} where
  -- The callbacks of the tasks that nobody has cancelled.
  abbrev pub live : List (Task A) → List A
  live [] = []
  live (task ∷ tasks) = if task.is_cancel then live tasks else task.call_back ∷ live tasks

  run_tasks-live :
      (read : ℕ → ℕ) (i : ℕ) (tasks : List (Task A)) (w : Wheel A)
      → (run_tasks read i tasks w).1 ≡ live tasks
  unfolding run_tasks
  run_tasks-live read i [] w = refl
  run_tasks-live read i (task ∷ tasks) w = ground (
    arith,
    run_tasks-live read (if task.is_cancel then i else i + 1) tasks
        (if task.is_cancel then w else if task.is_duplicate then set_again w task (read i) else w),
  )

  -- A round calls exactly the tasks in the first level's current bucket that are not cancelled, once
  -- each and in their order, those just handed down included.
  pub turn-live :
      (w : Wheel A) (now : ℕ) (read : ℕ → ℕ)
      → (turn w now read).1 ≡ live ((cascade w now).buckets one (hand one w.tick)).tasks
  unfolding turn
  turn-live w now read =
      run_tasks-live read 0 ((cascade w now).buckets one (hand one w.tick)).tasks (cascade w now)

  tick-turn :
      (w : Wheel A) (now : ℕ) (read : ℕ → ℕ) → (turn w now read).0.tick ≡ (w.tick + 1) % 2 ^ 32
  unfolding turn
  tick-turn w now read = refl

  -- The wheel after so many rounds; `clock k` and `read k` are the clock of round `k`.
  unfoldable pub turns : ℕ → (ℕ → ℕ) → (ℕ → ℕ → ℕ) → Wheel A → Wheel A
  turns zero clock read w = w
  turns (suc k) clock read w = (turn (turns k clock read w) (clock k) (read k)).0

  pub tick-turns :
      (k : ℕ) (clock : ℕ → ℕ) (read : ℕ → ℕ → ℕ) (w : Wheel A)
      → w.tick + k < 2 ^ 32
      → (turns k clock read w).tick ≡ w.tick + k
  unfolding turns
  tick-turns zero clock read w h = omega arith
  tick-turns (suc k) clock read w h = omega (
    arith,
    tick-turns k clock read w (omega arith),
    tick-turn (turns k clock read w) (clock k) (read k),
  )

  turns-Keeps :
      (k due : ℕ) (clock : ℕ → ℕ) (read : ℕ → ℕ → ℕ) (w : Wheel A)
      → w.tick + k ≤ due
      → due < 2 ^ 32
      → due < w.tick + 256
      → Keeps one (due % 256) w (turns k clock read w)
  unfolding turns
  turns-Keeps zero due clock read w h u l = Keeps-refl one (due % 256) w
  turns-Keeps (suc k) due clock read w h u l =
      Keeps-trans one (turns-Keeps k due clock read w (omega arith) u l) (
        turn-Keeps one (turns k clock read w) (clock k) (read k) (due % 256)
          (λ from upper. ground (arith, upper))
          (ground (arith, tick-turns k clock read w (omega arith))))

  live-append : (xs ys : List (Task A)) → live (xs ++ ys) ≡ live xs ++ live ys
  live-append [] ys = refl
  live-append (x ∷ xs) ys = ground (arith, live-append xs ys)

  -- The first level's bucket in which a short timeout waits.
  waiting :
      (w : Wheel A) (now delay : ℕ) (cb : A)
      → delay / tick_gap ≤ check_one
      → ((set_timer_wheel_task w delay (new_task cb (now + delay))).buckets one
          ((w.tick + delay / tick_gap) % 256)).tasks
        ≡ (w.buckets one ((w.tick + delay / tick_gap) % 256)).tasks
          ++ (record (new_task cb (now + delay)) {
            id = ((w.buckets one ((w.tick + delay / tick_gap) % 256)).init_id + 1) % 2 ^ 64;
          }
              ∷ [])
  unfolding set_timer_wheel_task add_task put_bucket new_task
  waiting w now delay cb h =
      rw (add_task, (place_bounds w.tick (delay / tick_gap)).1 h) (ground arith)

  pub tick-set :
      (w : Wheel A) (delay : ℕ) (task : Task A) → (set_timer_wheel_task w delay task).tick ≡ w.tick
  unfolding set_timer_wheel_task add_task put_bucket
  tick-set w delay task = refl

  abbrev pub Calls : A → List A → Type ℓ
  Calls cb fired = (before after : List A) × (fired ≡ before ++ cb ∷ after)

  -- A round calls a task that waits, not cancelled, in the current bucket.
  turn-Calls :
      (w u : Wheel A) (now : ℕ) (read : ℕ → ℕ) (task : Task A) (old : List (Task A))
      → task.is_cancel ≡ false
      → (w.buckets one (hand one u.tick)).tasks ≡ old ++ (task ∷ [])
      → Keeps one (hand one u.tick) w u
      → Calls task.call_back (turn u now read).1
  turn-Calls w u now read task old alive e k =
      let c = cascade-Keeps one u now (hand one u.tick) (λ from upper. ground (arith, upper)) in
      let all : ((cascade u now).buckets one (hand one u.tick)).tasks
          ≡ ((old ++ (task ∷ [])) ++ k.joined) ++ c.joined =
        c.kept ∙ ap (λ l. l ++ c.joined) (k.kept ∙ ap (λ l. l ++ k.joined) e) in
      (
        live old,
        live k.joined ++ live c.joined,
        rw
            (
              turn-live u now read,
              all,
              live-append ((old ++ (task ∷ [])) ++ k.joined) c.joined,
              live-append (old ++ (task ∷ [])) k.joined,
              live-append old (task ∷ []),
              alive,
            )
            (simp append_assoc),
      )

  -- A timeout of at most 255 ticks is taken, and the round that starts so many ticks later calls it,
  -- whatever else the wheel holds, however the clock runs and whatever else is set meanwhile by
  -- repeating tasks. The tick counter must not pass 2 ^ 32 on the way.
  pub timeout_fires :
      (w : Wheel A) (now delay : ℕ) (cb : A) (clock : ℕ → ℕ) (read : ℕ → ℕ → ℕ)
      → 0 < delay
      → delay / tick_gap ≤ check_one
      → w.tick + delay / tick_gap < 2 ^ 32
      → (w' : Wheel A) × (set_timeout w now delay cb ≡ some w')
        × Calls cb
            (turn
              (turns (delay / tick_gap) clock read w')
              (clock (delay / tick_gap))
              (read (delay / tick_gap))).1
  unfolding set_timeout
  timeout_fires w now delay cb clock read pos short room =
      let task = new_task cb (now + delay) in
      let w' = set_timer_wheel_task w delay task in
      let gaps = delay / tick_gap in
      let u = turns gaps clock read w' in
      let t : w'.tick ≡ w.tick = tick-set w delay task in
      let here : hand one u.tick ≡ (w.tick + gaps) % 256 =
        omega (arith, tick-turns gaps clock read w' (omega (arith, t))) in
      (
        w',
        ground arith,
        turn-Calls w' u (clock gaps) (read gaps)
            (record task { id = ((w.buckets one ((w.tick + gaps) % 256)).init_id + 1) % 2 ^ 64 })
            (w.buckets one ((w.tick + gaps) % 256)).tasks refl
            (rw here (waiting w now delay cb short))
            (rw here (
              turns-Keeps gaps (w.tick + gaps) clock read w' (omega (arith, t)) room
                (omega (arith, t)))),
      )
