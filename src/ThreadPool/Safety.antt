-- ===== src/ThreadPool/Safety.antt =====
-- What no interleaving of the threads of include/thread_pool/pool.cpp brings about.
use muse_rpc.Common.{ℕ, ◌≡◌, ◌≢◌, true, [], arith}
use muse_rpc.ThreadPool.Invariant.{Reachable-IsOrderly, in_lock}
use muse_rpc.ThreadPool.State.{Config, ThreadPool, chosen, broken}
use muse_rpc.ThreadPool.{Reachable}

module _ (c : Config) where
  -- In every state that the pool reaches, at most one worker is in a place where it has the lock of the queue, a
  -- worker about to call `front` finds a task there, and none has called it on an empty queue.
  pub lock_kept :
      (s : ThreadPool)
      → Reachable c s
      → (i j : ℕ)
      → (in_lock (s.pc i) ≡ true → in_lock (s.pc j) ≡ true → i ≡ j)
        × ((s.pc i ≡ chosen → s.queue_task ≢ []) × (s.pc i ≢ broken))
  lock_kept s r i j = let o = Reachable-IsOrderly c s r in ground (arith, o.fits i, o.fits j)
