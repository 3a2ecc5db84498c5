-- ===== src/ThreadPool/Tests.antt =====
-- A pool of two workers at work, its end, and the theorems at inputs that meet their hypotheses.
use muse_rpc.Common.{
  ℕ, ◌≤◌, ◌≡◌, ◌≢◌, inl, inr, refl, true, false, [], ◌∷◌, ◌++◌, some, none, length, arith,
}
use muse_rpc.ThreadPool.Invariant.{in_lock}
use muse_rpc.ThreadPool.Account.{tasks_kept}
use muse_rpc.ThreadPool.Safety.{lock_kept}
use muse_rpc.ThreadPool.Closing.{close_finishes}
use muse_rpc.ThreadPool.Hanging.{close_hangs}
use muse_rpc.ThreadPool.Commit.{enqueue_in_turn, enqueue_all-enqueue_in_turn}
use muse_rpc.ThreadPool.State.{
  Config, ThreadPool, wait_all_task_finish, return_task_and_close, asleep, unready, chosen, broken,
  stopping, joining_workers, terminated,
}
use muse_rpc.ThreadPool.{
  advance, new_config, new_pool, admit, commit, close_step, enqueue_all, worker, admits, commits,
  closes, Reachable, starts, goes_on, QuietSteps,
}

abbrev two_workers : Config
two_workers = record {
  cores = 2;
  max_thread_count = 2;
  is_flexible = false;
  queue_max_size = 2;
  close_strategy = return_task_and_close;
}

abbrev one_worker : Config
one_worker = record {
  cores = 1;
  max_thread_count = 1;
  is_flexible = false;
  queue_max_size = 2;
  close_strategy = wait_all_task_finish;
}

abbrev works : Config → ℕ → ThreadPool → ThreadPool
works c i s = advance c s i (s.pc i)

abbrev closing : Config → ThreadPool → ThreadPool
closing c s = close_step c s s.closer

-- Worker 0 sleeps when task 7 arrives.
abbrev sleeping : ThreadPool
sleeping = works two_workers 0 (works two_workers 0 (works two_workers 0 (new_pool two_workers)))

sleeping-Reachable : Reachable two_workers sleeping
sleeping-Reachable =
    goes_on
      (goes_on (goes_on (starts (omega arith)) (worker 0 (omega arith))) (worker 0 (omega arith)))
      (worker 0 (omega arith))

abbrev woken_up : ThreadPool
woken_up =
    commit two_workers (admit two_workers (commit two_workers (admit two_workers sleeping).0 7 0)).0
      8 0

abbrev at_work : ThreadPool
at_work =
    works two_workers 0 (works two_workers 0 (works two_workers 0 (works two_workers 0 woken_up)))

at_work_begun : at_work.begun ≡ 7 ∷ []
unfolding advance new_pool admit commit
at_work_begun = refl

at_work_waits : at_work.queue_task ≡ 8 ∷ []
unfolding advance new_pool admit commit
at_work_waits = refl

at_work-Reachable : Reachable two_workers at_work
unfolding advance new_pool admit commit
at_work-Reachable =
    let admitted = goes_on sleeping-Reachable admits in
    let committed = goes_on admitted (commits 7 0 (omega arith) refl (inl refl)) in
    let again =
      goes_on (goes_on committed admits)
        (commits 8 0 (omega arith) refl (inr (λ k. ground arith))) in
    goes_on
      (goes_on (goes_on (goes_on again (worker 0 (omega arith))) (worker 0 (omega arith)))
        (worker 0 (omega arith)))
      (worker 0 (omega arith))

-- The pool is closed while worker 0 runs task 7; task 8 is returned.
abbrev joined : ThreadPool
joined =
    closing two_workers (
      closing two_workers (closing two_workers (closing two_workers (closing two_workers at_work))))

joined-Reachable : Reachable two_workers joined
joined-Reachable =
    goes_on (goes_on (goes_on (goes_on (goes_on at_work-Reachable closes) closes) closes) closes)
      closes

joined-closer : joined.closer ≡ joining_workers
unfolding advance new_pool admit commit close_step
joined-closer = refl

joined_drained : joined.drained ≡ 8 ∷ []
unfolding advance new_pool admit commit close_step
joined_drained = refl

-- `close` has found the queue empty, and is about to store that the pool has stopped; then the worker tests.
abbrev stopping_pool : ThreadPool
stopping_pool = closing one_worker (closing one_worker (closing one_worker (new_pool one_worker)))

abbrev before_sleep : ThreadPool
before_sleep = works one_worker 0 (works one_worker 0 stopping_pool)

before_sleep-Reachable : Reachable one_worker before_sleep
before_sleep-Reachable =
    goes_on
      (goes_on (goes_on (goes_on (goes_on (starts (omega arith)) closes) closes) closes)
        (worker 0 (omega arith)))
      (worker 0 (omega arith))

before_sleep-closer : before_sleep.closer ≡ stopping
unfolding advance new_pool close_step
before_sleep-closer = refl

before_sleep-unready : before_sleep.pc 0 ≡ unready
unfolding advance new_pool close_step
before_sleep-unready = refl

before_sleep_admitted : before_sleep.admitted ≡ 0
unfolding advance new_pool close_step
before_sleep_admitted = refl

tasks_kept_example :
    (at_work.accepted ≡ at_work.begun ++ (at_work.drained ++ at_work.queue_task))
    × (length at_work.queue_task ≤ 2)
tasks_kept_example = tasks_kept two_workers at_work at_work-Reachable

lock_kept_example :
    (in_lock (at_work.pc 0) ≡ true → in_lock (at_work.pc 1) ≡ true → ◌≡◌ {A = ℕ} 0 1)
    × ((at_work.pc 0 ≡ chosen → at_work.queue_task ≢ []) × (at_work.pc 0 ≢ broken))
lock_kept_example = lock_kept two_workers at_work at_work-Reachable 0 1

close_finishes_example :
    (s' : ThreadPool) × QuietSteps two_workers joined s' × (s'.closer ≡ terminated)
close_finishes_example =
    close_finishes two_workers joined joined-Reachable (ground arith) joined-closer

close_hangs_example :
    (s' : ThreadPool) × QuietSteps one_worker before_sleep s'
    × ((s'' : ThreadPool)
        → QuietSteps one_worker s' s''
        → (s''.closer ≡ joining_workers) × (s''.pc 0 ≡ asleep))
close_hangs_example =
    close_hangs one_worker before_sleep 0 before_sleep-Reachable refl before_sleep-closer
      before_sleep_admitted (omega arith) before_sleep-unready

no_task : length sleeping.queue_task ≡ 0
unfolding advance new_pool
no_task = refl

enqueue_all-enqueue_in_turn_example :
    enqueue_all two_workers sleeping (1 ∷ 2 ∷ 3 ∷ [])
    ≡ enqueue_in_turn two_workers sleeping (1 ∷ 2 ∷ 3 ∷ [])
enqueue_all-enqueue_in_turn_example =
    enqueue_all-enqueue_in_turn two_workers sleeping (1 ∷ 2 ∷ 3 ∷ []) (omega (arith, no_task))
      (omega (arith, no_task))

new_config_tests :
    (new_config 3 2 5 true return_task_and_close ≡ none)
    × (new_config 1 1 2 false wait_all_task_finish ≡ some one_worker)
unfolding new_config
new_config_tests = (refl, refl)
