-- ===== src/ThreadPool/State.antt =====
-- The state of the pool of include/thread_pool/pool.cpp, its threads' places in their code included, and what
-- one of them does to its own place and to the lock.
use muse_rpc.Common.{ℕ, ◌==◌, if◌then◌else◌, Bool, true, false, List, [], ◌∷◌, Option, some, none}

pub data ThreadPoolCloseStrategy : Type 0 where
  discard_all_tasks : ThreadPoolCloseStrategy
  wait_all_task_finish : ThreadPoolCloseStrategy
  return_task_and_close : ThreadPoolCloseStrategy

pub data RefuseReason : Type 0 where
  no_refuse : RefuseReason
  cannot_execute_again : RefuseReason
  thread_pool_has_stopped_running : RefuseReason
  task_queue_fulled : RefuseReason
  memory_not_enough : RefuseReason

pub record CommitResult : Type 0 where
  pub is_success : Bool
  pub reason : RefuseReason

-- Where a worker stands in `coreRun` or `dynamicRun`.
pub data Pc : Type 0 where
  absent : Pc  -- no thread
  outside : Pc  -- at the head of the loop
  testing : Pc  -- with the lock, before the test of `wait`
  unready : Pc  -- with the lock, after a test that failed
  asleep : Pc  -- in `wait`, without the lock
  woken : Pc  -- notified
  ready : Pc  -- with the lock, after `wait`
  chosen : Pc  -- with the lock, before `front` and `pop`
  running : (task : ℕ) → Pc
  returned : Pc
  broken : Pc  -- after `front` of an empty queue

-- Where the manager stands in `managerThreadTask`.
pub data ManagerPc : Type 0 where
  waiting : ManagerPc
  deciding : ManagerPc
  killing : (i : ℕ) → ManagerPc  -- the flag is cleared, before `notify_all`
  joining : (i : ℕ) → ManagerPc
  finished : ManagerPc

-- Where the thread that closes the pool stands in `close`.
pub data CloserPc : Type 0 where
  not_closing : CloserPc
  polling : CloserPc
  joining_manager : CloserPc
  stopping : CloserPc
  draining : CloserPc
  notifying : CloserPc
  joining_workers : CloserPc
  terminated : CloserPc

pub record Config : Type 0 where
  pub cores : ℕ
  pub max_thread_count : ℕ
  pub is_flexible : Bool
  pub queue_max_size : ℕ
  pub close_strategy : ThreadPoolCloseStrategy

-- Tasks are numbers. `holder` is the worker that has the lock of the queue; every other thread holds it
-- for one step only. `admitted` callers of `commit_executor` have passed the test of `stop_commit_state`. The last
-- three fields are a record of the past: the tasks accepted, begun, and taken out by `close`, each in order.
pub record ThreadPool : Type 0 where
  pub queue_task : List ℕ
  pub run_state : Bool
  pub stop_commit_state : Bool
  pub is_running : ℕ → Bool
  pub pc : ℕ → Pc
  pub holder : Option ℕ
  pub manager : ManagerPc
  pub dynamic_worker_count : ℕ
  pub closer : CloserPc
  pub admitted : ℕ
  pub accepted : List ℕ
  pub begun : List ℕ
  pub drained : List ℕ

abbrev pub update {ℓ} : {A : Type ℓ} → (ℕ → A) → ℕ → A → ℕ → A
update f i a j = if j == i then a else f j

abbrev pub notified : Pc → Pc
notified asleep = woken
notified p = p

abbrev pub is_empty : List ℕ → Bool
is_empty [] = true
is_empty (x ∷ xs) = false

abbrev pub is_free : Option ℕ → Bool
is_free none = true
is_free (some i) = false

abbrev pub has_ended : Pc → Bool
has_ended absent = true
has_ended returned = true
has_ended p = false

abbrev pub notify_all : ThreadPool → ThreadPool
notify_all s = record s { pc = λ i. notified (s.pc i) }

-- The thread goes on from its place to another one.
abbrev pub go : ThreadPool → ℕ → Pc → ThreadPool
go s i p = record s { pc = update s.pc i p }

-- The same, giving the lock back.
abbrev pub leave : ThreadPool → ℕ → Pc → ThreadPool
leave s i p = record s { pc = update s.pc i p; holder = none }

-- The lock, if nobody has it; the thread waits otherwise.
abbrev pub lock : ThreadPool → ℕ → ThreadPool
lock s i = record s {
  pc = (if is_free s.holder then update s.pc i testing else s.pc);
  holder = (if is_free s.holder then some i else s.holder);
}
