-- ===== src/ThreadPool/Invariant.antt =====
-- What holds of the pool of include/thread_pool/pool.cpp in every state.
use muse_rpc.Common.{
  ℕ, zero, suc, ◌+◌, ◌-◌, ◌<◌, ◌≤◌, ◌≡◌, ◌≢◌, ◌⊎◌, refl, ◌==◌, ltb, leb, if◌then◌else◌, Bool, true,
  false, not, List, [], ◌∷◌, ◌++◌, Option, some, none, arith,
}
use muse_rpc.ThreadPool.Commit.{taken, commit_all_lem}
use muse_rpc.ThreadPool.State.{
  Config, ThreadPool, ThreadPoolCloseStrategy, wait_all_task_finish, Pc, absent, outside, testing,
  unready, asleep, woken, ready, chosen, running, returned, broken, ManagerPc, waiting, deciding,
  killing, joining, finished, CloserPc, not_closing, polling, joining_manager, stopping, draining,
  notifying, joining_workers, terminated, is_empty, has_ended, go,
}
use muse_rpc.ThreadPool.{
  is_awaited, advance, new_pool, admit, commit, commit_all, adjust, add_dynamic_thread,
  kill_dynamic_thread, manage, close_step, find_place, Step, worker, spurious, admits, commits,
  commits_all, manages, closes, Reachable, starts, goes_on,
}

abbrev pub in_lock : Pc → Bool
in_lock testing = true
in_lock unready = true
in_lock ready = true
in_lock chosen = true
in_lock p = false

abbrev pub holds : Option ℕ → ℕ → Bool
holds none i = false
holds (some j) i = j == i

-- The manager has cleared the flag of this worker and waits for its end.
abbrev minds : ManagerPc → ℕ → Bool
minds (killing j) i = j == i
minds (joining j) i = j == i
minds m i = false

abbrev pub past_join : CloserPc → Bool
past_join stopping = true
past_join draining = true
past_join notifying = true
past_join joining_workers = true
past_join terminated = true
past_join p = false

abbrev pub past_stop : CloserPc → Bool
past_stop draining = true
past_stop notifying = true
past_stop joining_workers = true
past_stop terminated = true
past_stop p = false

abbrev pub past_drain : ThreadPoolCloseStrategy → CloserPc → Bool
past_drain wait_all_task_finish p = false
past_drain x notifying = true
past_drain x joining_workers = true
past_drain x terminated = true
past_drain x p = false

abbrev pub past_notify : ThreadPoolCloseStrategy → CloserPc → Bool
past_notify wait_all_task_finish p = false
past_notify x joining_workers = true
past_notify x terminated = true
past_notify x p = false

-- A worker has the lock in the places where its code does; `wait` has returned for a reason; the queue is not empty
-- where `front` is called; and the phases of closing.
abbrev pub IsFit : Config → ThreadPool → ℕ → Type 0
IsFit c s i =
    (in_lock (s.pc i) ≡ holds s.holder i)
    × ((s.pc i ≡ ready → is_awaited c s i ≡ true)
        × ((s.pc i ≡ chosen → is_empty s.queue_task ≡ false)
            × ((s.pc i ≢ broken)
                × ((past_stop s.closer ≡ true → s.run_state ≡ false)
                    × ((c.cores ≤ i
                          → s.is_running i ≡ false
                          → (has_ended (s.pc i) ≡ true) ⊎ (minds s.manager i ≡ true))
                        × ((past_drain c.close_strategy s.closer ≡ true → s.pc i ≢ unready)
                            × (past_notify c.close_strategy s.closer ≡ true → s.pc i ≢ asleep)))))))

-- Nobody works beyond the last place; and what `close` has put an end to before it goes on.
abbrev pub IsPhased : Config → ThreadPool → ℕ → Type 0
IsPhased c s i =
    (c.max_thread_count ≤ i → s.pc i ≡ absent)
    × ((s.closer ≢ not_closing → s.stop_commit_state ≡ true)
        × (past_join s.closer ≡ true → s.manager ≡ finished))

find_place-passes :
    (passes : ℕ → Bool) (first count j : ℕ)
    → find_place passes first count ≡ some j
    → first ≤ j × (j < first + count × passes j ≡ true)
unfolding find_place
find_place-passes passes first zero j e = absurd (ground (arith, e))
find_place-passes passes first (suc count) j e =
    ground (arith, find_place-passes passes (suc first) count j)

is_empty-append : (xs ys : List ℕ) → is_empty xs ≡ false → is_empty (xs ++ ys) ≡ false
is_empty-append [] ys e = absurd (ground (arith, e))
is_empty-append (x ∷ xs) ys e = refl

module _ (c : Config) where
  pub record IsOrderly (s : ThreadPool) : Type 0 where
    pub fits : (i : ℕ) → IsFit c s i
    pub phased : (i : ℕ) → IsPhased c s i

  new_pool-IsOrderly : c.cores ≤ c.max_thread_count → IsOrderly (new_pool c)
  unfolding new_pool
  new_pool-IsOrderly h = record { fits = λ k. ground arith; phased = λ k. ground arith }

  either :
      (b : Bool) {x y : ThreadPool} → IsOrderly x → IsOrderly y → IsOrderly (if b then x else y)
  either true h g = h
  either false h g = g

  module _ (s : ThreadPool) (inv : IsOrderly s) where
    open inv use {fits, phased}

    advance-IsOrderly : (i : ℕ) (p : Pc) → s.pc i ≡ p → IsOrderly (advance c s i p)
    unfolding advance
    advance-IsOrderly i absent e = inv
    advance-IsOrderly i outside e = record {
      fits = λ k. ground (arith, fits k, fits i);
      phased = λ k. ground (arith, phased k, phased i);
    }
    advance-IsOrderly i testing e = record {
      fits = λ k. ground (arith, fits k, fits i);
      phased = λ k. ground (arith, phased k, phased i);
    }
    advance-IsOrderly i unready e = record {
      fits = λ k. ground (arith, fits k, fits i);
      phased = λ k. ground (arith, phased k, phased i);
    }
    advance-IsOrderly i asleep e = inv
    advance-IsOrderly i woken e = record {
      fits = λ k. ground (arith, fits k, fits i);
      phased = λ k. ground (arith, phased k, phased i);
    }
    advance-IsOrderly i ready e = record {
      fits = λ k. ground (arith, fits k, fits i);
      phased = λ k. ground (arith, phased k, phased i);
    }
    advance-IsOrderly i chosen e = record {
      fits = λ k. ground (arith, fits k, fits i);
      phased = λ k. ground (arith, phased k, phased i);
    }
    advance-IsOrderly i (running task) e = record {
      fits = λ k. ground (arith, fits k, fits i);
      phased = λ k. ground (arith, phased k, phased i);
    }
    advance-IsOrderly i returned e = inv
    advance-IsOrderly i broken e = inv

    close_step-IsOrderly : (p : CloserPc) → s.closer ≡ p → IsOrderly (close_step c s p)
    unfolding close_step
    close_step-IsOrderly not_closing e = record {
      fits = λ k. ground (arith, fits k);
      phased = λ k. ground (arith, phased k);
    }
    close_step-IsOrderly polling e = record {
      fits = λ k. ground (arith, fits k);
      phased = λ k. ground (arith, phased k);
    }
    close_step-IsOrderly joining_manager e = record {
      fits = λ k. ground (arith, fits k);
      phased = λ k. ground (arith, phased k);
    }
    close_step-IsOrderly stopping e = record {
      fits = λ k. ground (arith, fits k);
      phased = λ k. ground (arith, phased k);
    }
    close_step-IsOrderly draining e = record {
      fits = λ k. ground (arith, fits k);
      phased = λ k. ground (arith, phased k);
    }
    close_step-IsOrderly notifying e = record {
      fits = λ k. ground (arith, fits k);
      phased = λ k. ground (arith, phased k);
    }
    close_step-IsOrderly joining_workers e = record {
      fits = λ k. ground (arith, fits k);
      phased = λ k. ground (arith, phased k);
    }
    close_step-IsOrderly terminated e = record {
      fits = λ k. ground (arith, fits k);
      phased = λ k. ground (arith, phased k);
    }

    add-IsOrderly :
        (r : Option ℕ)
        → s.manager ≡ deciding
        → ((j : ℕ) → r ≡ some j → (c.cores ≤ j × j < c.max_thread_count) × s.is_running j ≡ false)
        → IsOrderly (add_dynamic_thread c (record s { manager = waiting }) r)
    unfolding add_dynamic_thread
    add-IsOrderly none e h = record {
      fits = λ k. ground (arith, fits k);
      phased = λ k. ground (arith, phased k);
    }
    add-IsOrderly (some j) e h = record {
      fits = λ k. ground (arith, fits k, fits j, h j refl);
      phased = λ k. ground (arith, phased k, phased j, h j refl);
    }

    kill-IsOrderly :
        (r : Option ℕ)
        → s.manager ≡ deciding
        → IsOrderly (kill_dynamic_thread c (record s { manager = waiting }) r)
    unfolding kill_dynamic_thread
    kill-IsOrderly none e = record {
      fits = λ k. ground (arith, fits k);
      phased = λ k. ground (arith, phased k);
    }
    kill-IsOrderly (some j) e = record {
      fits = λ k. ground (arith, fits k);
      phased = λ k. ground (arith, phased k);
    }

    idle-IsOrderly : s.manager ≡ deciding → IsOrderly (record s { manager = waiting })
    idle-IsOrderly e = record {
      fits = λ k. ground (arith, fits k);
      phased = λ k. ground (arith, phased k);
    }

    manage-IsOrderly : (v : ℕ) (m : ManagerPc) → s.manager ≡ m → IsOrderly (manage c s v m)
    unfolding manage adjust
    manage-IsOrderly v waiting e = record {
      fits = λ k. ground (arith, fits k);
      phased = λ k. ground (arith, phased k);
    }
    manage-IsOrderly v deciding e =
        either (ltb 2 v)
          (either (ltb 0 s.dynamic_worker_count) (kill-IsOrderly _ e) (idle-IsOrderly e))
          (either (leb v 1)
            (either (ltb s.dynamic_worker_count (c.max_thread_count - c.cores))
              (add-IsOrderly _ e (λ j h. ground (
                arith,
                find_place-passes (λ i. not (s.is_running i)) c.cores (c.max_thread_count - c.cores)
                    j h,
              )))
              (idle-IsOrderly e))
            (idle-IsOrderly e))
    manage-IsOrderly v (killing j) e = record {
      fits = λ k. ground (arith, fits k);
      phased = λ k. ground (arith, phased k);
    }
    manage-IsOrderly v (joining j) e = record {
      fits = λ k. ground (arith, fits k);
      phased = λ k. ground (arith, phased k);
    }
    manage-IsOrderly v finished e = inv

    spurious-IsOrderly : (i : ℕ) → s.pc i ≡ asleep → IsOrderly (go s i woken)
    spurious-IsOrderly i e = record {
      fits = λ k. ground (arith, fits k, fits i);
      phased = λ k. ground (arith, phased k, phased i);
    }

    admit-IsOrderly : IsOrderly (admit c s).0
    unfolding admit
    admit-IsOrderly = record {
      fits = λ k. ground (arith, fits k);
      phased = λ k. ground (arith, phased k);
    }

    commit-IsOrderly : (task i : ℕ) → s.holder ≡ none → IsOrderly (commit c s task i)
    unfolding commit
    commit-IsOrderly task i e = record {
      fits = λ k. ground (arith, fits k, fits i);
      phased = λ k. ground (arith, phased k, phased i);
    }

    commit_all-IsOrderly : (tasks : List ℕ) → s.holder ≡ none → IsOrderly (commit_all c s tasks)
    commit_all-IsOrderly tasks e = rw (commit_all_lem c s tasks) (record {
      fits = λ k. ground (arith, fits k, is_empty-append s.queue_task (taken c s tasks));
      phased = λ k. ground (arith, phased k, is_empty-append s.queue_task (taken c s tasks));
    })

  Step-IsOrderly : {s s' : ThreadPool} → IsOrderly s → Step c s s' → IsOrderly s'
  Step-IsOrderly {s} inv (worker i h) = advance-IsOrderly s inv i (s.pc i) refl
  Step-IsOrderly {s} inv (spurious i h) = spurious-IsOrderly s inv i h
  Step-IsOrderly {s} inv admits = admit-IsOrderly s inv
  Step-IsOrderly {s} inv (commits task i h e g) = commit-IsOrderly s inv task i e
  Step-IsOrderly {s} inv (commits_all tasks h e) = commit_all-IsOrderly s inv tasks e
  Step-IsOrderly {s} inv (manages v) = manage-IsOrderly s inv v s.manager refl
  Step-IsOrderly {s} inv closes = close_step-IsOrderly s inv s.closer refl

  pub Reachable-IsOrderly : (s : ThreadPool) → Reachable c s → IsOrderly s
  Reachable-IsOrderly s (starts h) = new_pool-IsOrderly h
  Reachable-IsOrderly s (goes_on r t) = Step-IsOrderly (Reachable-IsOrderly _ r) t
