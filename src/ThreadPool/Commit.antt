-- ===== src/ThreadPool/Commit.antt =====
-- What `commit_executors` of include/thread_pool/pool.cpp takes of many tasks, and `commit_executor` of each of them.
use mathlib.Core.List.{append_assoc, append-nil}
use muse_rpc.Common.{
  ℕ, zero, suc, ◌-◌, ◌≤◌, ◌≡◌, refl, sym, ap, ◌∙◌, List, [], ◌∷◌, ◌++◌, length, length-append, ltb,
  true, false, arith, ◌+◌, ◌<◌, ◌^◌,
}
use muse_rpc.ThreadPool.State.{
  Config, ThreadPool, CommitResult, task_queue_fulled, no_refuse, notified,
}
use muse_rpc.ThreadPool.{enqueue, enqueue_each, enqueue_all, commit_all, left_slots}

abbrev pub take : ℕ → List ℕ → List ℕ
take zero xs = []
take (suc n) [] = []
take (suc n) (x ∷ xs) = x ∷ take n xs

-- The pool with more tasks at the end of its queue.
abbrev pub with_tasks : ThreadPool → List ℕ → ThreadPool
with_tasks s tasks = record s { queue_task = s.queue_task ++ tasks; accepted = s.accepted ++ tasks }

take_zero : (n : ℕ) → take n [] ≡ []
take_zero zero = refl
take_zero (suc n) = refl

length-take : (n : ℕ) (xs : List ℕ) → length (take n xs) ≤ n
length-take zero xs = omega arith
length-take (suc n) [] = omega arith
length-take (suc n) (x ∷ xs) = omega (arith, length-take n xs)

with_tasks-nil : (s : ThreadPool) → with_tasks s [] ≡ s
with_tasks-nil s =
    λ i. record s { queue_task = append-nil s.queue_task i; accepted = append-nil s.accepted i }

with_tasks-with_tasks :
    (s : ThreadPool) (xs ys : List ℕ) → with_tasks (with_tasks s xs) ys ≡ with_tasks s (xs ++ ys)
with_tasks-with_tasks s xs ys = λ i. record s {
  queue_task = append_assoc s.queue_task xs ys i;
  accepted = append_assoc s.accepted xs ys i;
}

module _ (c : Config) where
  pub enqueue_each_lem :
      (left_slot : ℕ) (s : ThreadPool) (tasks : List ℕ)
      → (enqueue_each c left_slot s tasks).0 ≡ with_tasks s (take left_slot tasks)
  unfolding enqueue_each
  enqueue_each_lem left_slot s [] = sym (ap (with_tasks s) (take_zero left_slot) ∙ with_tasks-nil s)
  enqueue_each_lem zero s (task ∷ tasks) = enqueue_each_lem zero s tasks
  enqueue_each_lem (suc left_slot) s (task ∷ tasks) =
      enqueue_each_lem left_slot (with_tasks s (task ∷ [])) tasks
      ∙ with_tasks-with_tasks s (task ∷ []) (take left_slot tasks)

  -- The tasks of the list that find a place in the queue.
  abbrev pub taken : ThreadPool → List ℕ → List ℕ
  taken s tasks = take (left_slots c s) tasks

  left_slots_lem :
      (s : ThreadPool)
      → length s.queue_task ≤ c.queue_max_size
      → c.queue_max_size < length s.queue_task + 2 ^ 31
      → left_slots c s ≡ c.queue_max_size - length s.queue_task
  unfolding left_slots
  left_slots_lem s h l = ground arith

  left_slots-le :
      (s : ThreadPool)
      → length s.queue_task ≤ c.queue_max_size
      → left_slots c s ≤ c.queue_max_size - length s.queue_task
  unfolding left_slots
  left_slots-le s h = ground arith

  -- What is taken leaves the queue within its bound.
  pub length-taken :
      (s : ThreadPool) (tasks : List ℕ)
      → length s.queue_task ≤ c.queue_max_size
      → length s.queue_task + length (taken s tasks) ≤ c.queue_max_size
  length-taken s tasks h = omega (arith, left_slots-le s h, length-take (left_slots c s) tasks)

  pub commit_all_lem :
      (s : ThreadPool) (tasks : List ℕ)
      → commit_all c s tasks ≡ record (with_tasks s (taken s tasks)) {
        pc = λ i. notified (s.pc i);
        admitted = s.admitted - 1;
      }
  unfolding commit_all enqueue_all
  commit_all_lem s tasks =
      ap {A = ThreadPool} {B = ThreadPool}
        (λ s'. record s' { pc = λ i. notified (s'.pc i); admitted = s'.admitted - 1 })
        (enqueue_each_lem (left_slots c s) s tasks)

  enqueue_refused :
      (s : ThreadPool) (task : ℕ)
      → ltb (length s.queue_task) c.queue_max_size ≡ false
      → enqueue c s task ≡ (s, record { is_success = false; reason = task_queue_fulled })
  unfolding enqueue
  enqueue_refused s task e = rw e

  enqueue_taken :
      (s : ThreadPool) (task : ℕ)
      → ltb (length s.queue_task) c.queue_max_size ≡ true
      → enqueue c s task
        ≡ (with_tasks s (task ∷ []), record { is_success = true; reason = no_refuse })
  unfolding enqueue
  enqueue_taken s task e = rw e

  -- Committing one after the other.
  abbrev pub enqueue_in_turn : ThreadPool → List ℕ → ThreadPool × List CommitResult
  enqueue_in_turn s [] = (s, [])
  enqueue_in_turn s (task ∷ tasks) =
      let (s', result) = enqueue c s task in
      let (s'', results) = enqueue_in_turn s' tasks in (s'', result ∷ results)

  enqueue_each-enqueue_in_turn :
      (left_slot : ℕ) (s : ThreadPool) (tasks : List ℕ)
      → left_slot ≡ c.queue_max_size - length s.queue_task
      → enqueue_each c left_slot s tasks ≡ enqueue_in_turn s tasks
  unfolding enqueue_each
  enqueue_each-enqueue_in_turn left_slot s [] e = refl
  enqueue_each-enqueue_in_turn zero s (task ∷ tasks) e =
      rw (enqueue_refused s task (ground arith)) (
        ap {B = ThreadPool × List CommitResult}
          (λ r. (r.0, record { is_success = false; reason = task_queue_fulled } ∷ r.1))
          (enqueue_each-enqueue_in_turn zero s tasks e))
  enqueue_each-enqueue_in_turn (suc left_slot) s (task ∷ tasks) e =
      rw (enqueue_taken s task (ground arith)) (
        ap {B = ThreadPool × List CommitResult}
          (λ r. (r.0, record { is_success = true; reason = no_refuse } ∷ r.1))
          (enqueue_each-enqueue_in_turn left_slot (with_tasks s (task ∷ [])) tasks
            (omega (arith, length-append s.queue_task (task ∷ [])))))

  -- With a queue that keeps to its bound, and fewer than 2 ^ 31 places left in it, committing many tasks at once
  -- accepts and refuses the same ones, in the same order, as committing each of them in turn with nothing in between,
  -- and returns the same results.
  pub enqueue_all-enqueue_in_turn :
      (s : ThreadPool) (tasks : List ℕ)
      → length s.queue_task ≤ c.queue_max_size
      → c.queue_max_size < length s.queue_task + 2 ^ 31
      → enqueue_all c s tasks ≡ enqueue_in_turn s tasks
  unfolding enqueue_all
  enqueue_all-enqueue_in_turn s tasks h l =
      enqueue_each-enqueue_in_turn (left_slots c s) s tasks (left_slots_lem s h l)
