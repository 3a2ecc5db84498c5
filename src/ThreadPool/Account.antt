-- ===== src/ThreadPool/Account.antt =====
-- What becomes of the tasks given to the pool of include/thread_pool/pool.cpp.
use mathlib.Core.List.{append_assoc, append-nil}
use muse_rpc.Common.{
  ℕ, ◌-◌, ◌≤◌, ◌≡◌, ◌≢◌, refl, sym, ap, ◌∙◌, ltb, leb, if◌then◌else◌, Bool, true, false, not, ◌&&◌,
  List, [], ◌∷◌, ◌++◌, Option, some, none, length, length-append, arith,
}
use muse_rpc.ThreadPool.Commit.{taken, length-taken, commit_all_lem}
use muse_rpc.ThreadPool.Invariant.{IsOrderly, Reachable-IsOrderly}
use muse_rpc.ThreadPool.State.{
  Config, ThreadPool, Pc, absent, outside, testing, unready, asleep, woken, ready, chosen, running,
  returned, broken, ManagerPc, waiting, deciding, killing, joining, finished, CloserPc, not_closing,
  polling, joining_manager, stopping, draining, notifying, joining_workers, terminated, update,
  is_empty, is_free, has_ended, go, leave,
}
use muse_rpc.ThreadPool.{
  is_ended, all_ended, advance, new_pool, admit, enqueue, commit, commit_all, adjust,
  add_dynamic_thread, kill_dynamic_thread, manage, close_step, Step, worker, spurious, admits,
  commits, commits_all, manages, closes, Reachable, starts, goes_on,
}

-- The tasks accepted are those begun, those taken out at the end and those that wait, in this order.
abbrev pub IsWhole : ThreadPool → Type 0
IsWhole s = s.accepted ≡ s.begun ++ (s.drained ++ s.queue_task)

-- Nothing was taken out while the pool runs, or while a worker is about to take a task.
abbrev pub IsKept : ThreadPool → ℕ → Type 0
IsKept s i = (s.run_state ≡ true → s.drained ≡ []) × (s.pc i ≡ chosen → s.drained ≡ [])

begin_assoc :
    (begun rest : List ℕ) (task : ℕ) → begun ++ (task ∷ rest) ≡ (begun ++ (task ∷ [])) ++ rest
begin_assoc begun rest task = sym (append_assoc begun (task ∷ []) rest)

drain_assoc :
    (begun drained queue : List ℕ)
    → begun ++ (drained ++ queue) ≡ begun ++ ((drained ++ queue) ++ [])
drain_assoc begun drained queue =
    ap {B = List ℕ} (λ r. begun ++ r) (sym (append-nil (drained ++ queue)))

commit_assoc :
    (begun drained queue tasks : List ℕ)
    → (begun ++ (drained ++ queue)) ++ tasks ≡ begun ++ (drained ++ (queue ++ tasks))
commit_assoc begun drained queue tasks =
    append_assoc begun (drained ++ queue) tasks
    ∙ ap {B = List ℕ} (λ r. begun ++ r) (append_assoc drained queue tasks)

module _ (c : Config) where
  pub record IsAccounted (s : ThreadPool) : Type 0 where
    pub whole : IsWhole s
    pub kept : (i : ℕ) → IsKept s i
    pub bounded : length s.queue_task ≤ c.queue_max_size

  new_pool-IsAccounted : IsAccounted (new_pool c)
  unfolding new_pool
  new_pool-IsAccounted = record { whole = refl; kept = λ k. ground arith; bounded = ground arith }

  either :
      (b : Bool) {x y : ThreadPool}
      → (b ≡ true → IsAccounted x)
      → (b ≡ false → IsAccounted y)
      → IsAccounted (if b then x else y)
  either true h g = h refl
  either false h g = g refl

  module _ (s : ThreadPool) (inv : IsAccounted s) where
    open inv use {whole, kept, bounded}

    take_task-IsAccounted :
        (i : ℕ) (queue : List ℕ)
        → s.queue_task ≡ queue
        → s.pc i ≡ chosen
        → IsAccounted (elim queue [
          | [] ↦ go s i broken
          | task ∷ rest ↦ record s {
            queue_task = rest;
            pc = update s.pc i (running task);
            holder = none;
            begun = s.begun ++ (task ∷ []);
          }
        ])
    take_task-IsAccounted i [] q e = record {
      whole = whole;
      kept = λ k. ground (arith, kept k, kept i);
      bounded = bounded;
    }
    take_task-IsAccounted i (task ∷ rest) q e = record {
      whole = whole ∙ (rw ((kept i).1 e, q) (begin_assoc s.begun rest task));
      kept = λ k. ground (arith, kept k, kept i);
      bounded = ground (arith, bounded, q);
    }

    leaves : (i : ℕ) (p : Pc) → p ≢ chosen → IsAccounted (leave s i p)
    leaves i p h = record {
      whole = whole;
      kept = λ k. ground (arith, kept k, kept i);
      bounded = bounded;
    }

    advance-IsAccounted : (i : ℕ) (p : Pc) → s.pc i ≡ p → IsAccounted (advance c s i p)
    unfolding advance
    advance-IsAccounted i absent e = record {
      whole = whole;
      kept = λ k. ground (arith, kept k, kept i);
      bounded = bounded;
    }
    advance-IsAccounted i outside e = record {
      whole = whole;
      kept = λ k. ground (arith, kept k, kept i);
      bounded = bounded;
    }
    advance-IsAccounted i testing e = record {
      whole = whole;
      kept = λ k. ground (arith, kept k, kept i);
      bounded = bounded;
    }
    advance-IsAccounted i unready e = record {
      whole = whole;
      kept = λ k. ground (arith, kept k, kept i);
      bounded = bounded;
    }
    advance-IsAccounted i asleep e = record {
      whole = whole;
      kept = λ k. ground (arith, kept k, kept i);
      bounded = bounded;
    }
    advance-IsAccounted i woken e = record {
      whole = whole;
      kept = λ k. ground (arith, kept k, kept i);
      bounded = bounded;
    }
    advance-IsAccounted i ready e =
        either (not s.run_state) (λ r. leaves i returned (λ h. absurd (ground (arith, h))))
          (λ r.
            either (is_ended c s i) (λ d. leaves i returned (λ h. absurd (ground (arith, h))))
              (λ d. record {
                whole = whole;
                kept = λ k. ground (arith, kept k, kept i);
                bounded = bounded;
              }))
    advance-IsAccounted i (running task) e = record {
      whole = whole;
      kept = λ k. ground (arith, kept k, kept i);
      bounded = bounded;
    }
    advance-IsAccounted i returned e = record {
      whole = whole;
      kept = λ k. ground (arith, kept k, kept i);
      bounded = bounded;
    }
    advance-IsAccounted i broken e = record {
      whole = whole;
      kept = λ k. ground (arith, kept k, kept i);
      bounded = bounded;
    }
    advance-IsAccounted i chosen e = take_task-IsAccounted i s.queue_task refl e

    close_step-IsAccounted :
        IsOrderly c s → (p : CloserPc) → s.closer ≡ p → IsAccounted (close_step c s p)
    unfolding close_step
    close_step-IsAccounted o not_closing e = record {
      whole = whole;
      kept = λ k. ground (arith, kept k);
      bounded = bounded;
    }
    close_step-IsAccounted o polling e =
        either (is_free s.holder && is_empty s.queue_task)
          (λ h. record { whole = whole; kept = λ k. ground (arith, kept k); bounded = bounded })
          (λ h. inv)
    close_step-IsAccounted o joining_manager e = record {
      whole = ground (arith, whole);
      kept = λ k. ground (arith, kept k);
      bounded = ground (arith, bounded);
    }
    close_step-IsAccounted o stopping e = record {
      whole = whole;
      kept = λ k. ground (arith, kept k);
      bounded = bounded;
    }
    close_step-IsAccounted o draining e =
        either (is_free s.holder)
          (λ h. record {
            whole = whole ∙ drain_assoc s.begun s.drained s.queue_task;
            kept = λ k. ground (arith, kept k, o.fits k);
            bounded = ground arith;
          })
          (λ h. inv)
    close_step-IsAccounted o notifying e = record {
      whole = whole;
      kept = λ k. ground (arith, kept k);
      bounded = bounded;
    }
    close_step-IsAccounted o joining_workers e =
        either (all_ended c s.pc c.max_thread_count)
          (λ h. record { whole = whole; kept = λ k. ground (arith, kept k); bounded = bounded })
          (λ h. inv)
    close_step-IsAccounted o terminated e = inv

    spurious-IsAccounted : (i : ℕ) → IsAccounted (go s i woken)
    spurious-IsAccounted i = record {
      whole = whole;
      kept = λ k. ground (arith, kept k);
      bounded = bounded;
    }

    admit-IsAccounted : IsAccounted (admit c s).0
    unfolding admit
    admit-IsAccounted = record {
      whole = ground (arith, whole);
      kept = λ k. ground (arith, kept k);
      bounded = ground (arith, bounded);
    }

    commit-IsAccounted : (task i : ℕ) → IsAccounted (commit c s task i)
    unfolding commit enqueue
    commit-IsAccounted task i = record {
      whole = ground (arith, whole, commit_assoc s.begun s.drained s.queue_task (task ∷ []));
      kept = λ k. ground (arith, kept k);
      bounded = ground (arith, bounded, length-append s.queue_task (task ∷ []));
    }

    commit_all-IsAccounted : (tasks : List ℕ) → IsAccounted (commit_all c s tasks)
    commit_all-IsAccounted tasks = rw (commit_all_lem c s tasks) (record {
      whole = ground (arith, whole, commit_assoc s.begun s.drained s.queue_task (taken c s tasks));
      kept = λ k. ground (arith, kept k);
      bounded =
          omega
            (arith, length-append s.queue_task (taken c s tasks), length-taken c s tasks bounded);
    })

    add-IsAccounted :
        (r : Option ℕ) → IsAccounted (add_dynamic_thread c (record s { manager = waiting }) r)
    unfolding add_dynamic_thread
    add-IsAccounted none = record {
      whole = whole;
      kept = λ k. ground (arith, kept k);
      bounded = bounded;
    }
    add-IsAccounted (some j) = record {
      whole = whole;
      kept = λ k. ground (arith, kept k);
      bounded = bounded;
    }

    kill-IsAccounted :
        (r : Option ℕ) → IsAccounted (kill_dynamic_thread c (record s { manager = waiting }) r)
    unfolding kill_dynamic_thread
    kill-IsAccounted none = record {
      whole = whole;
      kept = λ k. ground (arith, kept k);
      bounded = bounded;
    }
    kill-IsAccounted (some j) = record {
      whole = whole;
      kept = λ k. ground (arith, kept k);
      bounded = bounded;
    }

    idle-IsAccounted : IsAccounted (record s { manager = waiting })
    idle-IsAccounted = record {
      whole = whole;
      kept = λ k. ground (arith, kept k);
      bounded = bounded;
    }

    manage-IsAccounted : (v : ℕ) (m : ManagerPc) → IsAccounted (manage c s v m)
    unfolding manage adjust
    manage-IsAccounted v waiting = record {
      whole = whole;
      kept = λ k. ground (arith, kept k);
      bounded = bounded;
    }
    manage-IsAccounted v deciding =
        either (ltb 2 v)
          (λ h.
            either (ltb 0 s.dynamic_worker_count) (λ g. kill-IsAccounted _) (λ g. idle-IsAccounted))
          (λ h.
            either (leb v 1)
              (λ g.
                either (ltb s.dynamic_worker_count (c.max_thread_count - c.cores))
                  (λ f. add-IsAccounted _) (λ f. idle-IsAccounted))
              (λ g. idle-IsAccounted))
    manage-IsAccounted v (killing j) = record {
      whole = whole;
      kept = λ k. ground (arith, kept k);
      bounded = bounded;
    }
    manage-IsAccounted v (joining j) =
        either (has_ended (s.pc j))
          (λ h. record { whole = whole; kept = λ k. ground (arith, kept k); bounded = bounded })
          (λ h. inv)
    manage-IsAccounted v finished = inv

  Step-IsAccounted :
      {s s' : ThreadPool} → IsOrderly c s → IsAccounted s → Step c s s' → IsAccounted s'
  Step-IsAccounted {s} o inv (worker i h) = advance-IsAccounted s inv i (s.pc i) refl
  Step-IsAccounted {s} o inv (spurious i h) = spurious-IsAccounted s inv i
  Step-IsAccounted {s} o inv admits = admit-IsAccounted s inv
  Step-IsAccounted {s} o inv (commits task i h e g) = commit-IsAccounted s inv task i
  Step-IsAccounted {s} o inv (commits_all tasks h e) = commit_all-IsAccounted s inv tasks
  Step-IsAccounted {s} o inv (manages v) = manage-IsAccounted s inv v s.manager
  Step-IsAccounted {s} o inv closes = close_step-IsAccounted s inv o s.closer refl

  Reachable-IsAccounted : (s : ThreadPool) → Reachable c s → IsAccounted s
  Reachable-IsAccounted s (starts h) = new_pool-IsAccounted
  Reachable-IsAccounted s (goes_on r t) =
      Step-IsAccounted (Reachable-IsOrderly c _ r) (Reachable-IsAccounted _ r) t

  -- In every state that the pool reaches, the tasks that were accepted are those that were begun, then those that
  -- `close` has taken out, then those in the queue, each once and in the order in which they were accepted; and the
  -- queue has no more tasks than its bound. This holds for any interleaving of the workers, the manager, the callers
  -- that commit and the thread that closes the pool.
  pub tasks_kept :
      (s : ThreadPool)
      → Reachable c s
      → (s.accepted ≡ s.begun ++ (s.drained ++ s.queue_task))
        × (length s.queue_task ≤ c.queue_max_size)
  tasks_kept s r = ((Reachable-IsAccounted s r).whole, (Reachable-IsAccounted s r).bounded)
