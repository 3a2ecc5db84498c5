-- ===== src/Timer/Wheel/Keeps.antt =====
-- Which tasks a round of timer_wheel.cpp leaves where they are.
use muse_rpc.Common.{
  ℕ, ◌+◌, ◌-◌, ◌*◌, ◌/◌, ◌%◌, ◌^◌, ◌≡◌, refl, sym, ap, ◌∙◌, ltb, ◌==◌, if◌then◌else◌, Bool, true,
  false, ◌&&◌, List, [], ◌∷◌, ◌++◌, arith, inl, inr, Bool-cases,
}
use muse_rpc.Timer.Wheel.{
  Wheel, Task, Bucket, Level, one, two, three, four, five, same_level, place, tick_gap, put_bucket,
  add_task, set_timer_wheel_task,
}
use muse_rpc.Timer.Wheel.Loop.{
  hand, bucket_one, bucket_two, bucket_three, bucket_four, push_task, move_tasks, hand_down,
  set_again, run_tasks, cascade, turn,
}
use mathlib.Core.List.{append-nil, append_assoc}

same_level-eq : (a b : Level) → same_level a b ≡ true → a ≡ b
same_level-eq a b h = ground arith

-- At a tick, the hands of the upper levels do not come to a bucket.
abbrev pub IsAway : Level → ℕ → ℕ → Type 0
IsAway l j tick =
    (from : Level)
    → same_level one from ≡ false
    → same_level l from && j == hand from (tick + 1) ≡ false

module _ {ℓ} {A : Type ℓ} (l : Level) where
  -- From `w` to `w'` a bucket keeps its tasks, and others may join behind them.
  pub record Keeps (j : ℕ) (w w' : Wheel A) : Type ℓ where
    pub joined : List (Task A)
    pub kept : (w'.buckets l j).tasks ≡ (w.buckets l j).tasks ++ joined

  pub Keeps-refl : (j : ℕ) (w : Wheel A) → Keeps j w w
  Keeps-refl j w = record { joined = []; kept = sym (append-nil (w.buckets l j).tasks) }

  pub Keeps-trans : {j : ℕ} {u v w : Wheel A} → Keeps j u v → Keeps j v w → Keeps j u w
  Keeps-trans {j} {u} p q = record {
    joined = p.joined ++ q.joined;
    kept = rw (q.kept, p.kept) (append_assoc (u.buckets l j).tasks p.joined q.joined);
  }

  Keeps-if :
      {j : ℕ} {u v w : Wheel A} (b : Bool)
      → Keeps j u v
      → Keeps j u w
      → Keeps j u (if b then v else w)
  Keeps-if true p q = p
  Keeps-if false p q = q

  put_bucket-Keeps :
      (w : Wheel A) (level : Level) (i j : ℕ) (b : Bucket A)
      → (same_level l level && j == i ≡ true
          → (zs : List (Task A)) × (b.tasks ≡ (w.buckets l j).tasks ++ zs))
      → Keeps j w (put_bucket w level i b)
  unfolding put_bucket
  put_bucket-Keeps w level i j b h = elim (Bool-cases (same_level l level && j == i)) [
    | inl e ↦ record { joined = (h e).0; kept = rw (e, put_bucket) (h e).1 }
    | inr e ↦ record {
      joined = [];
      kept = rw (e, put_bucket) (sym (append-nil (w.buckets l j).tasks));
    }
  ]

  same_bucket :
      (w : Wheel A) (level : Level) (i j : ℕ)
      → same_level l level && j == i ≡ true
      → w.buckets level i ≡ w.buckets l j
  same_bucket w level i j e =
      let same : l ≡ level = same_level-eq l level (ground arith) in
      let here : j ≡ i = ground arith in rw (same, here) refl

  -- What is put behind the tasks of a bucket keeps them in front.
  behind-Keeps :
      (w : Wheel A) (level : Level) (i j : ℕ) (id : ℕ) (task : Task A)
      → Keeps j w (
          put_bucket w level i
            (record { init_id = id; tasks = (w.buckets level i).tasks ++ (task ∷ []) }))
  behind-Keeps w level i j id task =
      put_bucket-Keeps w level i j
        (record { init_id = id; tasks = (w.buckets level i).tasks ++ (task ∷ []) })
        (λ e.
          (task ∷ [], ap (λ (b : Bucket A). b.tasks ++ (task ∷ [])) (same_bucket w level i j e)))

  push_task-Keeps :
      (w : Wheel A) (level : Level) (i j : ℕ) (task : Task A) → Keeps j w (push_task w level i task)
  unfolding push_task
  push_task-Keeps w level i j task = behind-Keeps w level i j (w.buckets level i).init_id task

  add_task-Keeps :
      (w : Wheel A) (level : Level) (i j : ℕ) (task : Task A) → Keeps j w (add_task w level i task)
  unfolding add_task
  add_task-Keeps w level i j task =
      let id = ((w.buckets level i).init_id + 1) % 2 ^ 64 in
      behind-Keeps w level i j id (record task { id = id })

  set_timer_wheel_task-Keeps :
      (w : Wheel A) (delay j : ℕ) (task : Task A) → Keeps j w (set_timer_wheel_task w delay task)
  unfolding set_timer_wheel_task
  set_timer_wheel_task-Keeps w delay j task =
      add_task-Keeps w (place w.tick (delay / tick_gap)).0 (place w.tick (delay / tick_gap)).1 j
        task

  set_again-Keeps : (w : Wheel A) (task : Task A) (clock j : ℕ) → Keeps j w (set_again w task clock)
  unfolding set_again
  set_again-Keeps w task clock j =
      let times = task.times + 1 in
      let next_tick = task.add_date_time + (times + 1) * task.delay_interval in
      let delay = next_tick - clock in
      set_timer_wheel_task-Keeps w (if ltb delay (tick_gap * 2) then tick_gap * 2 else delay) j
        (record task { times = times; expire = next_tick })

  move_tasks-Keeps :
      (level : Level) (spot : ℕ → ℕ) (j : ℕ) (tasks : List (Task A)) (w : Wheel A)
      → Keeps j w (move_tasks level spot tasks w)
  unfolding move_tasks
  move_tasks-Keeps level spot j [] w = Keeps-refl j w
  move_tasks-Keeps level spot j (task ∷ tasks) w =
      Keeps-trans
        (Keeps-if task.is_cancel (Keeps-refl j w)
          (push_task-Keeps w level (spot task.expire) j task))
        (move_tasks-Keeps level spot j tasks
          (if task.is_cancel then w else push_task w level (spot task.expire) task))

  hand_down-Keeps :
      (from to : Level) (spot : ℕ → ℕ) (j : ℕ) (w : Wheel A)
      → same_level l from && j == hand from (w.tick + 1) ≡ false
      → Keeps j w (hand_down from to spot w)
  unfolding hand_down
  hand_down-Keeps from to spot j w away =
      let next = hand from (w.tick + 1) in
      let moved = move_tasks to spot (w.buckets from next).tasks w in
      Keeps-if ((hand from w.tick + 1) % 64 == next)
        (Keeps-trans (move_tasks-Keeps to spot j (w.buckets from next).tasks w) (
          put_bucket-Keeps moved from next j (record (w.buckets from next) { tasks = [] })
            (λ x. absurd (ground arith))))
        (Keeps-refl j w)

  tick-move_tasks :
      (level : Level) (spot : ℕ → ℕ) (tasks : List (Task A)) (w : Wheel A)
      → (move_tasks level spot tasks w).tick ≡ w.tick
  unfolding move_tasks push_task put_bucket
  tick-move_tasks level spot [] w = refl
  tick-move_tasks level spot (task ∷ tasks) w =
      tick-move_tasks level spot tasks
        (if task.is_cancel then w else push_task w level (spot task.expire) task)
      ∙ ground arith

  tick-hand_down :
      (from to : Level) (spot : ℕ → ℕ) (w : Wheel A) → (hand_down from to spot w).tick ≡ w.tick
  unfolding hand_down put_bucket
  tick-hand_down from to spot w =
      ground (arith, tick-move_tasks to spot (w.buckets from (hand from (w.tick + 1))).tasks w)

  pub cascade-Keeps : (w : Wheel A) (now j : ℕ) → IsAway l j w.tick → Keeps j w (cascade w now)
  unfolding cascade
  cascade-Keeps w now j away =
      let w4 = hand_down five four (bucket_four w.tick now) w in
      let w3 = hand_down four three (bucket_three w.tick now) w4 in
      let w2 = hand_down three two (bucket_two w.tick now) w3 in
      let t4 : w4.tick ≡ w.tick = tick-hand_down five four (bucket_four w.tick now) w in
      let t3 : w3.tick ≡ w.tick = tick-hand_down four three (bucket_three w.tick now) w4 ∙ t4 in
      let t2 : w2.tick ≡ w.tick = tick-hand_down three two (bucket_two w.tick now) w3 ∙ t3 in
      Keeps-trans (hand_down-Keeps five four (bucket_four w.tick now) j w (away five refl)) (
        Keeps-trans
          (hand_down-Keeps four three (bucket_three w.tick now) j w4
            (ap (λ t. same_level l four && j == hand four (t + 1)) t4 ∙ away four refl))
          (Keeps-trans
            (hand_down-Keeps three two (bucket_two w.tick now) j w3
              (ap (λ t. same_level l three && j == hand three (t + 1)) t3 ∙ away three refl))
            (hand_down-Keeps two one (bucket_one w.tick now) j w2
              (ap (λ t. same_level l two && j == hand two (t + 1)) t2 ∙ away two refl))))

  run_tasks-Keeps :
      (read : ℕ → ℕ) (i j : ℕ) (tasks : List (Task A)) (w : Wheel A)
      → Keeps j w (run_tasks read i tasks w).0
  unfolding run_tasks
  run_tasks-Keeps read i j [] w = Keeps-refl j w
  run_tasks-Keeps read i j (task ∷ tasks) w =
      Keeps-trans
        (Keeps-if task.is_cancel (Keeps-refl j w)
          (Keeps-if task.is_duplicate (set_again-Keeps w task (read i) j) (Keeps-refl j w)))
        (run_tasks-Keeps read (if task.is_cancel then i else i + 1) j tasks (
          if task.is_cancel then w else if task.is_duplicate then set_again w task (read i) else w))

  -- A round keeps the tasks of every bucket to which no hand comes.
  pub turn-Keeps :
      (w : Wheel A) (now : ℕ) (read : ℕ → ℕ) (j : ℕ)
      → IsAway l j w.tick
      → same_level l one && j == hand one w.tick ≡ false
      → Keeps j w (turn w now read).0
  unfolding turn
  turn-Keeps w now read j away not_here =
      let c = cascade w now in
      let i = hand one w.tick in
      let r = (run_tasks read 0 (c.buckets one i).tasks c).0 in
      let k = Keeps-trans (cascade-Keeps w now j away) (
        Keeps-trans (run_tasks-Keeps read 0 j (c.buckets one i).tasks c) (
          put_bucket-Keeps r one i j (record (r.buckets one i) { tasks = [] })
            (λ e. absurd (ground arith)))) in
      record { joined = k.joined; kept = k.kept }
