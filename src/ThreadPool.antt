-- ===== src/ThreadPool.antt =====
-- The thread pool of include/thread_pool/pool.cpp. Its threads run in any order, a shared access at a time: a
-- worker, the manager and the thread that closes the pool each have a place in their code.
pub mod State
pub mod Commit
pub mod Invariant
pub mod Account
pub mod Safety
pub mod Closing
pub mod Hanging
mod Tests
use muse_rpc.Common.{
  ℕ, zero, suc, ◌+◌, ◌-◌, ◌%◌, ◌^◌, ◌<◌, ◌≤◌, ◌≡◌, ◌≢◌, ◌⊎◌, ◌==◌, ltb, leb, if◌then◌else◌, Bool,
  true, false, not, ◌&&◌, ◌||◌, List, [], ◌∷◌, ◌++◌, Option, some, none, length,
}
use muse_rpc.ThreadPool.State.{
  ThreadPoolCloseStrategy, RefuseReason, CommitResult, Pc, ManagerPc, CloserPc, Config, ThreadPool,
  update, notified, is_empty, is_free, has_ended, notify_all, go, leave, lock, discard_all_tasks,
  wait_all_task_finish, return_task_and_close, no_refuse, cannot_execute_again,
  thread_pool_has_stopped_running, task_queue_fulled, memory_not_enough, absent, outside, testing,
  unready, asleep, woken, ready, chosen, running, returned, broken, waiting, deciding, killing,
  joining, finished, not_closing, polling, joining_manager, stopping, draining, notifying,
  joining_workers, terminated,
}

-- The constructor's test, and the number of cores that it sets after it.
unfoldable pub new_config :
    (core_threads_count max_thread_count queue_max_size : ℕ) (is_flexible : Bool)
    → ThreadPoolCloseStrategy
    → Option Config
new_config core_threads_count max_thread_count queue_max_size is_flexible pool_close_strategy =
    if ltb max_thread_count core_threads_count
    then none
    else some (record {
      cores = (if leb core_threads_count 0 then 4 else core_threads_count);
      max_thread_count = max_thread_count;
      is_flexible = is_flexible;
      queue_max_size = queue_max_size;
      close_strategy = pool_close_strategy;
    })

-- The first of some places that passes a test.
unfoldable pub find_place : (ℕ → Bool) → (first count : ℕ) → Option ℕ
find_place passes first zero = none
find_place passes first (suc count) =
    let rest = find_place passes (suc first) count in if passes first then some first else rest

module _ (c : Config) where
  -- A worker beyond the cores has a flag that ends it.
  abbrev pub is_ended : ThreadPool → ℕ → Bool
  is_ended s i = leb c.cores i && not (s.is_running i)

  -- The test of `wait`.
  abbrev pub is_awaited : ThreadPool → ℕ → Bool
  is_awaited s i = not (is_empty s.queue_task) || (not s.run_state || is_ended s i)

  -- The next step of a worker at a place. The run of a task ends when it will, and leaves the pool as it is.
  unfoldable pub advance : ThreadPool → ℕ → Pc → ThreadPool
  advance s i absent = s
  advance s i outside = lock s i
  advance s i testing = go s i (if is_awaited s i then ready else unready)
  advance s i unready = leave s i asleep
  advance s i asleep = s
  advance s i woken = lock s i
  advance s i ready =
      if not s.run_state
      then leave s i returned
      else if is_ended s i
      then leave s i returned
      else go s i chosen
  advance s i chosen = elim s.queue_task [
    | [] ↦ go s i broken
    | task ∷ rest ↦ record s {
      queue_task = rest;
      pc = update s.pc i (running task);
      holder = none;
      begun = s.begun ++ (task ∷ []);
    }
  ]
  advance s i (running task) = go s i outside
  advance s i returned = s
  advance s i broken = s

  -- `init`: the cores are started.
  unfoldable pub new_pool : ThreadPool
  new_pool = record {
    queue_task = [];
    run_state = true;
    stop_commit_state = false;
    is_running = λ i. ltb i c.cores;
    pc = λ i. if ltb i c.cores then outside else absent;
    holder = none;
    manager = (if c.is_flexible && ltb c.cores c.max_thread_count then waiting else finished);
    dynamic_worker_count = 0;
    closer = not_closing;
    admitted = 0;
    accepted = [];
    begun = [];
    drained = [];
  }

  -- The part of `commit_executor` under the lock, up to `notify_one`.
  unfoldable pub enqueue : ThreadPool → ℕ → ThreadPool × CommitResult
  enqueue s task =
      if ltb (length s.queue_task) c.queue_max_size
      then (
        record s { queue_task = s.queue_task ++ (task ∷ []); accepted = s.accepted ++ (task ∷ []) },
        record { is_success = true; reason = no_refuse },
      )
      else (s, record { is_success = false; reason = task_queue_fulled })

  -- The part of `commit_executors` under the lock, up to `notify_all`: `left_slot` tasks are taken.
  unfoldable pub enqueue_each : ℕ → ThreadPool → List ℕ → ThreadPool × List CommitResult
  enqueue_each left_slot s [] = (s, [])
  enqueue_each zero s (task ∷ tasks) =
      let (s', results) = enqueue_each zero s tasks in
      (s', record { is_success = false; reason = task_queue_fulled } ∷ results)
  enqueue_each (suc left_slot) s (task ∷ tasks) =
      let (s', results) =
        enqueue_each left_slot
          (record s {
            queue_task = s.queue_task ++ (task ∷ []);
            accepted = s.accepted ++ (task ∷ []);
          })
          tasks in
      (s', record { is_success = true; reason = no_refuse } ∷ results)

  -- `int leftSlot = QueueMaxSize - queueTask.size()`: the low 32 bits of the difference, which are a number below 0
  -- from 2 ^ 31 on, and leave no slot then.
  unfoldable pub left_slots : ThreadPool → ℕ
  left_slots s =
      let bits = (c.queue_max_size + 2 ^ 64 - length s.queue_task) % 2 ^ 32 in
      if ltb bits (2 ^ 31) then bits else 0

  unfoldable pub enqueue_all : ThreadPool → List ℕ → ThreadPool × List CommitResult
  unfolding enqueue_each left_slots
  enqueue_all s tasks = enqueue_each (left_slots s) s tasks

  -- The rest of `commit_executor`, of a caller that was admitted: `notify_one` wakes worker `i`.
  unfoldable pub commit : ThreadPool → ℕ → ℕ → ThreadPool
  unfolding enqueue
  commit s task i =
      let (s', result) = enqueue s task in
      record s' {
        pc = (if result.is_success then update s'.pc i (notified (s'.pc i)) else s'.pc);
        admitted = s'.admitted - 1;
      }

  -- The rest of `commit_executors`.
  unfoldable pub commit_all : ThreadPool → List ℕ → ThreadPool
  unfolding enqueue_all
  commit_all s tasks =
      let (s', results) = enqueue_all s tasks in
      record s' { pc = λ i. notified (s'.pc i); admitted = s'.admitted - 1 }

  -- A caller of `commit_executor` before the lock.
  unfoldable pub admit : ThreadPool → ThreadPool × CommitResult
  admit s =
      if s.stop_commit_state
      then (s, record { is_success = false; reason = thread_pool_has_stopped_running })
      else (
        record s { admitted = s.admitted + 1 },
        record { is_success = true; reason = no_refuse },
      )

  -- `addDynamicThread`: the first place without a thread gets one.
  unfoldable pub add_dynamic_thread : ThreadPool → Option ℕ → ThreadPool
  add_dynamic_thread s none = s
  add_dynamic_thread s (some i) = record s {
    is_running = update s.is_running i true;
    pc = update s.pc i outside;
    dynamic_worker_count = s.dynamic_worker_count + 1;
  }

  -- `killDynamicThread` up to the clearing of the flag of the first thread.
  unfoldable pub kill_dynamic_thread : ThreadPool → Option ℕ → ThreadPool
  kill_dynamic_thread s none = s
  kill_dynamic_thread s (some i) = record s {
    is_running = update s.is_running i false;
    manager = killing i;
  }

  -- What the manager does for a number of vacant threads.
  unfoldable pub adjust : ThreadPool → (vacant : ℕ) → ThreadPool
  unfolding add_dynamic_thread kill_dynamic_thread find_place
  adjust s vacant =
      if ltb 2 vacant
      then (if ltb 0 s.dynamic_worker_count
          then kill_dynamic_thread s
              (find_place s.is_running c.cores (c.max_thread_count - c.cores))
          else s)
      else if leb vacant 1
      then (if ltb s.dynamic_worker_count (c.max_thread_count - c.cores)
          then add_dynamic_thread s
              (find_place (λ i. not (s.is_running i)) c.cores (c.max_thread_count - c.cores))
          else s)
      else s

  -- The next step of the manager, for any value of the counter of vacant threads.
  unfoldable pub manage : ThreadPool → (vacant : ℕ) → ManagerPc → ThreadPool
  unfolding adjust
  manage s vacant waiting = record s {
    manager = (if s.stop_commit_state then finished else deciding);
  }
  manage s vacant deciding = adjust (record s { manager = waiting }) vacant
  manage s vacant (killing j) = record (notify_all s) { manager = joining j }
  manage s vacant (joining j) =
      if has_ended (s.pc j)
      then record s {
        pc = update s.pc j absent;
        dynamic_worker_count = s.dynamic_worker_count - 1;
        manager = waiting;
      }
      else s
  manage s vacant finished = s

  -- Every worker has ended.
  abbrev pub all_ended : (ℕ → Pc) → ℕ → Bool
  all_ended pc zero = true
  all_ended pc (suc n) = has_ended (pc n) && all_ended pc n

  -- The next step of `close`.
  unfoldable pub close_step : ThreadPool → CloserPc → ThreadPool
  close_step s not_closing = record s {
    stop_commit_state = true;
    closer = (elim c.close_strategy [ wait_all_task_finish ↦ polling | _ ↦ joining_manager ]);
  }
  close_step s polling =
      if is_free s.holder && is_empty s.queue_task then record s { closer = joining_manager } else s
  close_step s joining_manager = elim s.manager [
    | finished ↦ record s { closer = stopping }
    | _ ↦ s
  ]
  close_step s stopping = record s {
    run_state = false;
    closer = (elim c.close_strategy [ wait_all_task_finish ↦ notifying | _ ↦ draining ]);
  }
  close_step s draining =
      if is_free s.holder
      then record s { drained = s.drained ++ s.queue_task; queue_task = []; closer = notifying }
      else s
  close_step s notifying = record (notify_all s) { closer = joining_workers }
  close_step s joining_workers =
      if all_ended s.pc c.max_thread_count then record s { closer = terminated } else s
  close_step s terminated = s

  -- A step of one of the threads.
  pub data Step (s : ThreadPool) : ThreadPool → Type 0 where
    worker : (i : ℕ) → i < c.max_thread_count → Step s (advance s i (s.pc i))
    spurious : (i : ℕ) → s.pc i ≡ asleep → Step s (go s i woken)
    admits : Step s (admit s).0
    commits :
        (task i : ℕ)
        → 0 < s.admitted
        → s.holder ≡ none
        → (s.pc i ≡ asleep) ⊎ ((k : ℕ) → s.pc k ≢ asleep)
        → Step s (commit s task i)
    commits_all : (tasks : List ℕ) → 0 < s.admitted → s.holder ≡ none → Step s (commit_all s tasks)
    manages : (vacant : ℕ) → Step s (manage s vacant s.manager)
    closes : Step s (close_step s s.closer)

  -- The states that the pool passes through, once it is started.
  pub data Reachable : ThreadPool → Type 0 where
    starts : c.cores ≤ c.max_thread_count → Reachable new_pool
    goes_on : {s s' : ThreadPool} → Reachable s → Step s s' → Reachable s'

  -- A thread in `wait` may wake for no reason.
  abbrev pub is_spurious : {s s' : ThreadPool} → Step s s' → Bool
  is_spurious (spurious i h) = true
  is_spurious t = false

  -- Steps one after the other, none of them a wake-up for no reason.
  pub data QuietSteps : ThreadPool → ThreadPool → Type 0 where
    stays : {s : ThreadPool} → QuietSteps s s
    continues :
        {s s' s'' : ThreadPool}
        → (t : Step s s') → is_spurious t ≡ false
        → QuietSteps s' s''
        → QuietSteps s s''
