-- ===== src/Timer/Tree/Runs.antt =====
-- The run loops of timer_tree.cpp: which timers a run fires, in which order, and what is left.
use muse_rpc.Common.{
  ℕ, zero, suc, ◌+◌, ◌%◌, ◌^◌, ◌<◌, ◌≤◌, ◌≡◌, refl, ◌∙◌, true, false, List, [], ◌∷◌, ◌++◌, Option,
  some, All, arith, leb, if◌then◌else◌, inl, inr, Bool-cases, length,
}
use muse_rpc.Timer.Tree.{
  TimeNode, TimerTree, before, insert, erase, set_timeout, set_timeouts, first_after, run_from,
  run_task_loop, run_task, head_node,
}
use muse_rpc.Timer.Tree.Order.{IsOrdered, insert-IsOrdered}

pub pending {ℓ} : {A : Type ℓ} → ℕ → List (TimeNode A) → List (TimeNode A)
pending current [] = []
pending current (n ∷ ns) = if leb n.expire current then pending current ns else n ∷ ns

module _ {ℓ κ} {A : Type ℓ} {S : Type κ} (call : A → S → S × List (ℕ × A)) where
  -- What the callbacks of the expired nodes do, one after the other: the program, and the timeouts
  -- that they set.
  pub fire : ℕ → List (TimeNode A) → S → S × List (ℕ × A)
  fire current [] s = (s, [])
  fire current (n ∷ ns) s =
      let (s', timeouts) = call n.call_back s in
      let (s'', later) = fire current ns s' in
      if leb n.expire current then (s'', timeouts ++ later) else (s, [])

  -- No callback sets a timeout that is already due.
  abbrev pub SetsLater : ℕ → Type (ℓ ⊔ κ)
  SetsLater current = (cb : A) (s : S) → All (λ t. current < t.0) (call cb s).1

module _ {ℓ} {A : Type ℓ} where
  due_count : ℕ → List (TimeNode A) → ℕ
  due_count current [] = 0
  due_count current (n ∷ ns) = if leb n.expire current then suc (due_count current ns) else 0

  due_count-le : (current : ℕ) (ns : List (TimeNode A)) → due_count current ns ≤ length ns
  unfolding due_count
  due_count-le current [] = omega arith
  due_count-le current (n ∷ ns) = ground (arith, due_count-le current ns)

  due_count-insert :
      (current : ℕ) (k : TimeNode A) (ns : List (TimeNode A))
      → current < k.expire
      → due_count current (insert k ns) ≡ due_count current ns
  unfolding due_count insert
  due_count-insert current k [] h = ground arith
  due_count-insert current k (n ∷ ns) h = ground (arith, due_count-insert current k ns)

  pending-insert :
      (current : ℕ) (k : TimeNode A) (ns : List (TimeNode A))
      → current < k.expire
      → pending current (insert k ns) ≡ insert k (pending current ns)
  unfolding pending insert
  pending-insert current k [] h = ground arith
  pending-insert current k (n ∷ ns) h = ground (arith, pending-insert current k ns)

  insert_front :
      (k n : TimeNode A) (ns : List (TimeNode A))
      → n.expire < k.expire
      → insert k (n ∷ ns) ≡ n ∷ insert k ns
  unfolding insert
  insert_front k n ns h = ground arith

  first_after-head :
      (n : TimeNode A) (ns : List (TimeNode A))
      → All (λ m. before n m ≡ true) ns
      → first_after n (n ∷ ns) ≡ head_node ns
  unfolding first_after
  first_after-head n [] a = ground arith
  first_after-head n (m ∷ ms) (b, a) = ground arith

  erase_front : (n : TimeNode A) (ns : List (TimeNode A)) → erase n.expire n.id (n ∷ ns) ≡ ns
  unfolding erase
  erase_front n ns = ground arith

module _ {ℓ κ} {A : Type ℓ} {S : Type κ} (call : A → S → S × List (ℕ × A)) where
  fire-insert :
      (current : ℕ) (k : TimeNode A) (ns : List (TimeNode A)) (s : S)
      → current < k.expire
      → fire call current (insert k ns) s ≡ fire call current ns s
  unfolding fire insert
  fire-insert current k [] s h = ground arith
  fire-insert current k (n ∷ ns) s h =
      ground (arith, fire-insert current k ns (call n.call_back s).0)

module _ {ℓ} {A : Type ℓ} where
  -- A node that is due stays in front of whatever is set for later.
  set_timeouts_front :
      (current init : ℕ) (n : TimeNode A) (ns : List (TimeNode A)) (timeouts : List (ℕ × A))
      → n.expire ≤ current
      → All (λ t. current < t.0) timeouts
      → set_timeouts (record { init_id = init; nodes = n ∷ ns }) timeouts ≡ record {
        init_id = (set_timeouts (record { init_id = init; nodes = ns }) timeouts).init_id;
        nodes = n ∷ (set_timeouts (record { init_id = init; nodes = ns }) timeouts).nodes;
      }
  unfolding set_timeouts set_timeout
  set_timeouts_front current init n ns [] h a = refl
  set_timeouts_front current init n ns ((e, cb) ∷ rest) h (b, a) =
      rw
        (insert_front (record { id = (init + 1) % 2 ^ 64; expire = e + 0; call_back = cb }) n ns
          (omega arith))
        (set_timeouts_front current ((init + 1) % 2 ^ 64) n
          (insert (record { id = (init + 1) % 2 ^ 64; expire = e + 0; call_back = cb }) ns) rest h
          a)

  set_timeouts-IsOrdered :
      (t : TimerTree A) (timeouts : List (ℕ × A))
      → IsOrdered t.nodes
      → IsOrdered (set_timeouts t timeouts).nodes
  unfolding set_timeouts set_timeout
  set_timeouts-IsOrdered t [] o = o
  set_timeouts-IsOrdered t ((e, cb) ∷ rest) o =
      set_timeouts-IsOrdered (set_timeout t e 0 cb).0 rest (insert-IsOrdered _ t.nodes o)

  set_timeouts-append :
      (t : TimerTree A) (xs ys : List (ℕ × A))
      → set_timeouts t (xs ++ ys) ≡ set_timeouts (set_timeouts t xs) ys
  unfolding set_timeouts
  set_timeouts-append t [] ys = refl
  set_timeouts-append t ((e, cb) ∷ xs) ys = set_timeouts-append (set_timeout t e 0 cb).0 xs ys

  due_count-set_timeouts :
      (current : ℕ) (t : TimerTree A) (timeouts : List (ℕ × A))
      → All (λ x. current < x.0) timeouts
      → due_count current (set_timeouts t timeouts).nodes ≡ due_count current t.nodes
  unfolding set_timeouts set_timeout
  due_count-set_timeouts current t [] a = refl
  due_count-set_timeouts current t ((e, cb) ∷ rest) (b, a) =
      due_count-set_timeouts current (set_timeout t e 0 cb).0 rest a
      ∙ due_count-insert current _ t.nodes (omega arith)

  pending-set_timeouts :
      (current init : ℕ) (ns : List (TimeNode A)) (timeouts : List (ℕ × A))
      → All (λ x. current < x.0) timeouts
      → record {
        init_id = (set_timeouts (record { init_id = init; nodes = ns }) timeouts).init_id;
        nodes =
            pending current (set_timeouts (record { init_id = init; nodes = ns }) timeouts).nodes;
      }
        ≡ set_timeouts (record { init_id = init; nodes = pending current ns }) timeouts
  unfolding set_timeouts set_timeout
  pending-set_timeouts current init ns [] a = refl
  pending-set_timeouts current init ns ((e, cb) ∷ rest) (b, a) =
      rw
        (← pending-insert current
          (record { id = (init + 1) % 2 ^ 64; expire = e + 0; call_back = cb }) ns (omega arith))
        (pending-set_timeouts current ((init + 1) % 2 ^ 64)
          (insert (record { id = (init + 1) % 2 ^ 64; expire = e + 0; call_back = cb }) ns) rest a)

module _ {ℓ κ} {A : Type ℓ} {S : Type κ} (call : A → S → S × List (ℕ × A)) where
  fire-set_timeouts :
      (current : ℕ) (t : TimerTree A) (timeouts : List (ℕ × A)) (s : S)
      → All (λ x. current < x.0) timeouts
      → fire call current (set_timeouts t timeouts).nodes s ≡ fire call current t.nodes s
  unfolding set_timeouts set_timeout
  fire-set_timeouts current t [] s a = refl
  fire-set_timeouts current t ((e, cb) ∷ rest) s (b, a) =
      fire-set_timeouts current (set_timeout t e 0 cb).0 rest s a
      ∙ fire-insert call current _ t.nodes s (omega arith)

  -- Firing the first node leaves the tree of the other nodes with the new timeouts set.
  after_first :
      (current init : ℕ) (n : TimeNode A) (ns : List (TimeNode A)) (timeouts : List (ℕ × A))
      → n.expire ≤ current
      → All (λ t. current < t.0) timeouts
      → IsOrdered (n ∷ ns)
      → let t = set_timeouts (record { init_id = init; nodes = n ∷ ns }) timeouts in
        let rest = set_timeouts (record { init_id = init; nodes = ns }) timeouts in
        (first_after n t.nodes ≡ head_node rest.nodes)
        × (record t { nodes = erase n.expire n.id t.nodes } ≡ rest)
        × IsOrdered rest.nodes
  after_first current init n ns timeouts h a o =
      let front = set_timeouts_front current init n ns timeouts h a in
      let rest = set_timeouts (record { init_id = init; nodes = ns }) timeouts in
      let sorted : IsOrdered (n ∷ rest.nodes) =
        rw front at
          (set_timeouts-IsOrdered (record { init_id = init; nodes = n ∷ ns }) timeouts o) in
      (
        rw front (first_after-head n rest.nodes sorted.0),
        rw (front, erase_front n rest.nodes) refl,
        sorted.1,
      )

  -- Firing and keeping do not see the timeouts that are set for later.
  settle :
      (current init : ℕ) (ns : List (TimeNode A)) (timeouts : List (ℕ × A)) (s : S)
      → All (λ t. current < t.0) timeouts
      → let rest = set_timeouts (record { init_id = init; nodes = ns }) timeouts in
        ◌≡◌ {A = Option (S × TimerTree A)}
          (some (
            (fire call current rest.nodes s).0,
            set_timeouts
                (record { init_id = rest.init_id; nodes = pending current rest.nodes })
                (fire call current rest.nodes s).1,
          ))
          (some (
            (fire call current ns s).0,
            set_timeouts
                (record { init_id = init; nodes = pending current ns })
                (timeouts ++ (fire call current ns s).1),
          ))
  settle current init ns timeouts s a =
      rw
        (
          fire-set_timeouts current (record { init_id = init; nodes = ns }) timeouts s a,
          pending-set_timeouts current init ns timeouts a,
          set_timeouts-append (record { init_id = init; nodes = pending current ns }) timeouts
              (fire call current ns s).1,
        )
        refl

  run_from-fire :
      (fuel current init : ℕ) (ns : List (TimeNode A)) (s : S)
      → SetsLater call current
      → IsOrdered ns
      → due_count current ns < fuel
      → run_from call fuel current (head_node ns) s (record { init_id = init; nodes = ns })
        ≡ some (
          (fire call current ns s).0,
          set_timeouts
              (record { init_id = init; nodes = pending current ns })
              (fire call current ns s).1,
        )
  unfolding run_from fire pending due_count set_timeouts
  run_from-fire zero current init ns s later o h = absurd (omega arith)
  run_from-fire (suc fuel) current init [] s later o h = refl
  run_from-fire (suc fuel) current init (n ∷ ns) s later o h =
      elim (Bool-cases (leb n.expire current)) [
        | inl due ↦
            let s' = (call n.call_back s).0 in
            let timeouts = (call n.call_back s).1 in
            let rest = set_timeouts (record { init_id = init; nodes = ns }) timeouts in
            let (first, gone, sorted) =
              after_first current init n ns timeouts (ground arith) (later n.call_back s) o in
            let same =
              due_count-set_timeouts current (record { init_id = init; nodes = ns }) timeouts
                (later n.call_back s) in
            let again =
              run_from-fire fuel current rest.init_id rest.nodes s' later sorted
                (ground (arith, same)) in
            rw (due, first, gone) (again ∙ settle current init ns timeouts s' (later n.call_back s))
        | inr wait ↦ rw wait refl
      ]

  -- Where no callback sets a timeout that is already due, one more round of fuel than there are
  -- timers is enough, and a run fires exactly the timers that have expired, the earliest first; the
  -- others are kept, and the timeouts set on the way are set in their order.
  pub run_task_loop_lem :
      (fuel current : ℕ) (t : TimerTree A) (s : S)
      → SetsLater call current
      → IsOrdered t.nodes
      → length t.nodes < fuel
      → run_task_loop call fuel t current s
        ≡ some (
          (fire call current t.nodes s).0,
          set_timeouts
              (record t { nodes = pending current t.nodes })
              (fire call current t.nodes s).1,
        )
  unfolding run_task_loop
  run_task_loop_lem fuel current t s later o h =
      run_from-fire fuel current t.init_id t.nodes s later o
        (omega (arith, due_count-le current t.nodes))

  -- One step of the main loop: it fires the earliest timer if that has expired, and otherwise does
  -- nothing. It reports which.
  pub run_task_lem :
      (now init : ℕ) (n : TimeNode A) (ns : List (TimeNode A)) (s : S)
      → IsOrdered (n ∷ ns)
      → SetsLater call now
      → (n.expire ≤ now
          → run_task call (record { init_id = init; nodes = n ∷ ns }) now s ≡ (
            (
              (call n.call_back s).0,
              set_timeouts (record { init_id = init; nodes = ns }) (call n.call_back s).1,
            ),
            true,
          ))
        × (now < n.expire
            → run_task call (record { init_id = init; nodes = n ∷ ns }) now s
              ≡ ((s, record { init_id = init; nodes = n ∷ ns }), false))
  unfolding run_task
  run_task_lem now init n ns s o later = (
    (λ h.
        let (first, gone, sorted) =
          after_first now init n ns (call n.call_back s).1 h (later n.call_back s) o in
        let due : leb n.expire now ≡ true = ground arith in rw (due, gone) refl),
    (λ h. ground arith),
  )
