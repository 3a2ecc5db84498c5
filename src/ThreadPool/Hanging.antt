-- ===== src/ThreadPool/Hanging.antt =====
-- The wake-up that `close` of include/thread_pool/pool.cpp loses when it waits for the tasks.
use mathlib.Core.Path.{subst}
use muse_rpc.Common.{equal_cases, ℕ, zero, suc, ◌<◌, ◌≡◌, inl, inr, refl, sym, true, false, arith}
use muse_rpc.ThreadPool.Invariant.{Reachable-IsOrderly}
use muse_rpc.ThreadPool.State.{
  Config, ThreadPool, wait_all_task_finish, Pc, absent, outside, testing, unready, asleep, woken,
  ready, chosen, running, returned, broken, ManagerPc, waiting, deciding, killing, joining,
  finished, CloserPc, stopping, notifying, joining_workers,
}
use muse_rpc.ThreadPool.{
  all_ended, advance, close_step, admit, manage, Step, worker, spurious, admits, commits,
  commits_all, manages, closes, Reachable, QuietSteps, stays, continues, is_spurious,
}

module _ (c : Config) where
  -- A worker sleeps, the pool waits for its end, and nobody is left to wake it.
  abbrev pub IsHung : ThreadPool → ℕ → Type 0
  IsHung s i =
      (s.pc i ≡ asleep)
      × ((s.closer ≡ joining_workers)
          × ((s.admitted ≡ 0) × ((s.stop_commit_state ≡ true) × (s.manager ≡ finished))))

  asleep-all_ended : (pc : ℕ → Pc) (n i : ℕ) → i < n → pc i ≡ asleep → all_ended c pc n ≡ false
  asleep-all_ended pc zero i h e = absurd (omega arith)
  asleep-all_ended pc (suc n) i h e = elim (equal_cases n i) [
    | inl q ↦ ground (arith, q)
    | inr q ↦ ground (arith, asleep-all_ended pc n i (omega arith) e)
  ]

  module _ (s : ThreadPool) (i : ℕ) (hung : IsHung s i) where
    advance-IsHung : (j : ℕ) (p : Pc) → s.pc j ≡ p → IsHung (advance c s j p) i
    unfolding advance
    advance-IsHung j absent e = ground arith
    advance-IsHung j outside e = ground arith
    advance-IsHung j testing e = ground arith
    advance-IsHung j unready e = ground arith
    advance-IsHung j asleep e = ground arith
    advance-IsHung j woken e = ground arith
    advance-IsHung j ready e = ground arith
    advance-IsHung j chosen e = ground arith
    advance-IsHung j (running task) e = ground arith
    advance-IsHung j returned e = ground arith
    advance-IsHung j broken e = ground arith

    close_step-IsHung : i < c.max_thread_count → IsHung (close_step c s s.closer) i
    unfolding close_step
    close_step-IsHung h =
        rw (hung.1.0) (ground (arith, asleep-all_ended s.pc c.max_thread_count i h hung.0))

    admit-IsHung : IsHung (admit c s).0 i
    unfolding admit
    admit-IsHung = ground arith

    manage-IsHung : (v : ℕ) (m : ManagerPc) → s.manager ≡ m → IsHung (manage c s v m) i
    unfolding manage
    manage-IsHung v finished e = hung
    manage-IsHung v waiting e = absurd (ground arith)
    manage-IsHung v deciding e = absurd (ground arith)
    manage-IsHung v (killing j) e = absurd (ground arith)
    manage-IsHung v (joining j) e = absurd (ground arith)

  Step-IsHung :
      {s s' : ThreadPool} {i : ℕ}
      → i < c.max_thread_count
      → IsHung s i
      → (t : Step c s s') → is_spurious c t ≡ false
      → IsHung s' i
  Step-IsHung {s} {i = i} h hung (worker j l) q = advance-IsHung s i hung j (s.pc j) refl
  Step-IsHung {s} {i = i} h hung (spurious j l) q = absurd (ground (arith, q))
  Step-IsHung {s} {i = i} h hung admits q = admit-IsHung s i hung
  Step-IsHung {s} {i = i} h hung (commits task j l e g) q = absurd (ground (arith, l))
  Step-IsHung {s} {i = i} h hung (commits_all tasks l e) q = absurd (ground (arith, l))
  Step-IsHung {s} {i = i} h hung (manages v) q = manage-IsHung s i hung v s.manager refl
  Step-IsHung {s} {i = i} h hung closes q = close_step-IsHung s i hung h

  QuietSteps-IsHung :
      {s s' : ThreadPool} (i : ℕ)
      → i < c.max_thread_count
      → IsHung s i
      → QuietSteps c s s'
      → IsHung s' i
  QuietSteps-IsHung i h hung stays = hung
  QuietSteps-IsHung i h hung (continues t q r) = QuietSteps-IsHung i h (Step-IsHung h hung t q) r

  closes_at :
      {s' : ThreadPool} (s : ThreadPool) (p : CloserPc)
      → s.closer ≡ p
      → QuietSteps c (close_step c s p) s'
      → QuietSteps c s s'
  closes_at {s'} s p e r =
      continues closes refl (subst (λ q. QuietSteps c (close_step c s q) s') (sym e) r)

  works_at :
      {s' : ThreadPool} (s : ThreadPool) (i : ℕ) (p : Pc)
      → i < c.max_thread_count
      → s.pc i ≡ p
      → QuietSteps c (advance c s i p) s'
      → QuietSteps c s s'
  works_at {s'} s i p h e r =
      continues (worker i h) refl (subst (λ q. QuietSteps c (advance c s i q) s') (sym e) r)

  -- `close` from its store of the state, with a worker that has tested the queue and has not gone to sleep yet.
  module _ (s : ThreadPool) (i : ℕ) (waits : c.close_strategy ≡ wait_all_task_finish)
      (e : s.closer ≡ stopping) (before : s.pc i ≡ unready) where
    abbrev stopped : ThreadPool
    stopped = close_step c s stopping

    abbrev notified_all : ThreadPool
    notified_all = close_step c stopped notifying

    abbrev asleep_after : ThreadPool
    asleep_after = advance c notified_all i unready

    stopped-closer : stopped.closer ≡ notifying
    unfolding close_step
    stopped-closer = rw waits

    notified_all-unready : notified_all.pc i ≡ unready
    unfolding close_step
    notified_all-unready = rw before

    asleep_after-IsHung :
        s.admitted ≡ 0 → s.stop_commit_state ≡ true → s.manager ≡ finished → IsHung asleep_after i
    unfolding close_step advance
    asleep_after-IsHung a b m = ground arith

    reaches : i < c.max_thread_count → QuietSteps c s asleep_after
    reaches h = closes_at s stopping e (
        closes_at stopped notifying stopped-closer
          (works_at notified_all i unready h notified_all-unready stays))

  -- A pool that waits for its tasks, whose `close` is about to store that it has stopped, where a worker has tested
  -- the queue and has not gone to sleep yet, and where no admitted caller is left, can come to a state from which
  -- `close` never returns: without a wake-up for no reason, every later state has `close` still waiting for its
  -- workers, and that worker still asleep.
  pub close_hangs :
      (s : ThreadPool) (i : ℕ)
      → Reachable c s
      → c.close_strategy ≡ wait_all_task_finish
      → s.closer ≡ stopping
      → s.admitted ≡ 0
      → i < c.max_thread_count
      → s.pc i ≡ unready
      → (s' : ThreadPool) × QuietSteps c s s'
        × ((s'' : ThreadPool)
            → QuietSteps c s' s''
            → (s''.closer ≡ joining_workers) × (s''.pc i ≡ asleep))
  close_hangs s i r w e a h u =
      let o = Reachable-IsOrderly c s r in
      let hung =
        asleep_after-IsHung s i w e u a (ground (arith, o.phased i)) (ground (arith, o.phased i)) in
      (
        asleep_after s i w e u,
        reaches s i w e u h,
        λ s'' q. let last = QuietSteps-IsHung i h hung q in (last.1.0, last.0),
      )
