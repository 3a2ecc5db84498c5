-- ===== src/ThreadPool/Closing.antt =====
-- How `close` of include/thread_pool/pool.cpp comes to its end, once it waits for the workers.
use muse_rpc.Common.{
  Bool-cases, equal_cases, ℕ, zero, suc, ◌+◌, ◌<◌, ◌≡◌, ◌≢◌, ◌⊎◌, inl, inr, refl, ◌∙◌, true, false,
  Option, some, none, arith,
}
use muse_rpc.ThreadPool.Invariant.{IsOrderly, Reachable-IsOrderly, in_lock}
use muse_rpc.ThreadPool.State.{
  Config, ThreadPool, wait_all_task_finish, Pc, absent, outside, testing, unready, asleep, woken,
  ready, chosen, running, returned, broken, joining_workers, terminated, has_ended,
}
use muse_rpc.ThreadPool.{
  all_ended, advance, close_step, worker, closes, Reachable, goes_on, QuietSteps, stays, continues,
}

-- How many steps a worker is from its end, at most, when the pool has stopped.
abbrev rank : Pc → ℕ
rank chosen = 6
rank (running task) = 5
rank outside = 4
rank woken = 4
rank testing = 3
rank ready = 2
rank p = 0

abbrev total : (ℕ → Pc) → ℕ → ℕ
total pc zero = 0
total pc (suc n) = rank (pc n) + total pc n

total_same : (f g : ℕ → Pc) (n : ℕ) → ((k : ℕ) → k < n → g k ≡ f k) → total g n ≡ total f n
total_same f g zero h = refl
total_same f g (suc n) h =
    ground (arith, h n (omega arith), total_same f g n (λ k l. h k (omega arith)))

total_less :
    (f g : ℕ → Pc) (n j : ℕ)
    → j < n
    → rank (g j) < rank (f j)
    → ((k : ℕ) → k ≢ j → g k ≡ f k)
    → total g n < total f n
total_less f g zero j h l e = absurd (omega arith)
total_less f g (suc n) j h l e = elim (equal_cases n j) [
  | inl q ↦ ground (arith, l, q, total_same f g n (λ k r. e k (λ w. omega (arith, q, w))))
  | inr q ↦ ground (arith, e n q, total_less f g n j (omega arith) l e)
]

module _ (c : Config) where
  -- The steps that lead to the end are those of the worker that has the lock, or of any that has not ended.
  module _ (s : ThreadPool) (o : IsOrderly c s) (stopping : c.close_strategy ≢ wait_all_task_finish)
      (joining : s.closer ≡ joining_workers) where
    advance-rank :
        (i : ℕ) (p : Pc)
        → s.pc i ≡ p
        → has_ended p ≡ false
        → (in_lock p ≡ true) ⊎ (s.holder ≡ none)
        → rank ((advance c s i p).pc i) < rank p
    unfolding advance
    advance-rank i absent e h l = ground (arith, o.fits i)
    advance-rank i outside e h l = ground (arith, o.fits i)
    advance-rank i testing e h l = ground (arith, o.fits i)
    advance-rank i unready e h l = ground (arith, o.fits i)
    advance-rank i asleep e h l = ground (arith, o.fits i)
    advance-rank i woken e h l = ground (arith, o.fits i)
    advance-rank i ready e h l = ground (arith, o.fits i)
    advance-rank i chosen e h l = ground (arith, o.fits i)
    advance-rank i (running task) e h l = ground (arith, o.fits i)
    advance-rank i returned e h l = ground (arith, o.fits i)
    advance-rank i broken e h l = ground (arith, o.fits i)

    advance-pc_other : (i : ℕ) (p : Pc) (k : ℕ) → k ≢ i → (advance c s i p).pc k ≡ s.pc k
    unfolding advance
    advance-pc_other i absent k h = ground arith
    advance-pc_other i outside k h = ground arith
    advance-pc_other i testing k h = ground arith
    advance-pc_other i unready k h = ground arith
    advance-pc_other i asleep k h = ground arith
    advance-pc_other i woken k h = ground arith
    advance-pc_other i ready k h = ground arith
    advance-pc_other i chosen k h = ground arith
    advance-pc_other i (running task) k h = ground arith
    advance-pc_other i returned k h = ground arith
    advance-pc_other i broken k h = ground arith

    advance-closer : (i : ℕ) (p : Pc) → (advance c s i p).closer ≡ s.closer
    unfolding advance
    advance-closer i absent = ground arith
    advance-closer i outside = ground arith
    advance-closer i testing = ground arith
    advance-closer i unready = ground arith
    advance-closer i asleep = ground arith
    advance-closer i woken = ground arith
    advance-closer i ready = ground arith
    advance-closer i chosen = ground arith
    advance-closer i (running task) = ground arith
    advance-closer i returned = ground arith
    advance-closer i broken = ground arith

    chosen_worker :
        (h : Option ℕ)
        → s.holder ≡ h
        → (i : ℕ) → i < c.max_thread_count
        → has_ended (s.pc i) ≡ false
        → (j : ℕ) × (j < c.max_thread_count)
          × (has_ended (s.pc j) ≡ false)
          × ((in_lock (s.pc j) ≡ true) ⊎ (s.holder ≡ none))
    chosen_worker none e i l h = (i, l, h, inr e)
    chosen_worker (some j) e i l h = (
      j,
      ground (arith, o.fits j, o.phased j),
      ground (arith, o.fits j),
      inl (ground (arith, o.fits j)),
    )

  find_worker :
      (pc : ℕ → Pc) (n : ℕ)
      → all_ended c pc n ≡ false
      → (i : ℕ) × (i < n) × (has_ended (pc i) ≡ false)
  find_worker pc zero e = absurd (ground (arith, e))
  find_worker pc (suc n) e = elim (Bool-cases (has_ended (pc n))) [
    | inl h ↦ let r = find_worker pc n (ground (arith, e, h)) in (r.0, omega (arith, r.1), r.2)
    | inr h ↦ (n, omega arith, h)
  ]

  closes-terminated :
      (s : ThreadPool)
      → s.closer ≡ joining_workers
      → all_ended c s.pc c.max_thread_count ≡ true
      → (close_step c s s.closer).closer ≡ terminated
  unfolding close_step
  closes-terminated s e h = rw e (rw h)

  finish_within :
      (fuel : ℕ) (s : ThreadPool)
      → Reachable c s
      → c.close_strategy ≢ wait_all_task_finish
      → s.closer ≡ joining_workers
      → total s.pc c.max_thread_count < fuel
      → (s' : ThreadPool) × QuietSteps c s s' × (s'.closer ≡ terminated)
  finish_within zero s r w e h = absurd (omega arith)
  finish_within (suc fuel) s r w e h = elim (Bool-cases (all_ended c s.pc c.max_thread_count)) [
    | inl done ↦ (close_step c s s.closer, continues closes refl stays, closes-terminated s e done)
    | inr more ↦
        let o = Reachable-IsOrderly c s r in
        let i = find_worker s.pc c.max_thread_count more in
        let j = chosen_worker s o w e s.holder refl i.0 i.1 i.2 in
        let less =
          total_less s.pc (advance c s j.0 (s.pc j.0)).pc c.max_thread_count j.0 j.1
            (advance-rank s o w e j.0 (s.pc j.0) refl j.2 j.3)
            (advance-pc_other s o w e j.0 (s.pc j.0)) in
        let rest =
          finish_within fuel (advance c s j.0 (s.pc j.0)) (goes_on r (worker j.0 j.1)) w
            (advance-closer s o w e j.0 (s.pc j.0) ∙ e) (omega arith) in
        (rest.0, continues (worker j.0 j.1) refl rest.1, rest.2)
  ]

  -- With a strategy that does not wait for the tasks, a pool that closes and has come to the join of its workers can
  -- always come to the end of `close`: from every such state that it can reach there are steps, none of them a
  -- wake-up for no reason, to a state where `close` returns.
  pub close_finishes :
      (s : ThreadPool)
      → Reachable c s
      → c.close_strategy ≢ wait_all_task_finish
      → s.closer ≡ joining_workers
      → (s' : ThreadPool) × QuietSteps c s s' × (s'.closer ≡ terminated)
  close_finishes s r w e = finish_within (suc (total s.pc c.max_thread_count)) s r w e (omega arith)
