-- ===== src/Timer/Tree/Order.antt =====
-- The timer tree stays ordered and its IDs fresh; setting and clearing a timeout undo one another.
use muse_rpc.Common.{
  ℕ, ◌+◌, ◌%◌, ◌^◌, ◌<◌, ◌≤◌, ◌≡◌, ◌≢◌, refl, true, false, List, [], ◌∷◌, some, none, All, arith,
  ◌↔◌, ◌⊎◌, inl, inr, Bool-cases,
}
use mathlib.Core.List.{Perm}
use mathlib.Core.List.Perm
use muse_rpc.Timer.Tree.{
  TimeNode, TimerTree, before, insert, contains, erase, set_timeout, clear_timeout, check_timeout,
}

module _ {ℓ} {A : Type ℓ} where
  abbrev pub IsOrdered : List (TimeNode A) → Type 0
  IsOrdered [] = Unit {0}
  IsOrdered (n ∷ ns) = All (λ m. before n m ≡ true) ns × IsOrdered ns

  abbrev pub IdsUpTo : ℕ → List (TimeNode A) → Type 0
  IdsUpTo k = All (λ n. n.id ≤ k)

  -- Ordered, with no ID beyond the last one given out.
  pub record IsTree (t : TimerTree A) : Type 0 where
    pub ordered : IsOrdered t.nodes
    pub ids_given : IdsUpTo t.init_id t.nodes

module _ {ℓ} {A : Type ℓ} where
  All-before-insert :
      (k n : TimeNode A) (ns : List (TimeNode A))
      → before k n ≡ true
      → All (λ m. before k m ≡ true) ns
      → All (λ m. before k m ≡ true) (insert n ns)
  unfolding insert
  All-before-insert k n [] h a = (h, tt)
  All-before-insert k n (m ∷ ms) h (b, a) = ground (arith, All-before-insert k n ms h a)

  All-before_trans :
      (k n : TimeNode A) (ns : List (TimeNode A))
      → before k n ≡ true
      → All (λ m. before n m ≡ true) ns
      → All (λ m. before k m ≡ true) ns
  All-before_trans k n [] h a = tt
  All-before_trans k n (m ∷ ms) h (b, a) = (ground arith, All-before_trans k n ms h a)

  pub insert-IsOrdered :
      (n : TimeNode A) (ns : List (TimeNode A)) → IsOrdered ns → IsOrdered (insert n ns)
  unfolding insert
  insert-IsOrdered n [] o = (tt, tt)
  insert-IsOrdered n (m ∷ ms) (a, o) =
      ground (arith, insert-IsOrdered n ms o, All-before-insert m n ms, All-before_trans n m ms)

  All-erase :
      (P : TimeNode A → Type 0) (e i : ℕ) (ns : List (TimeNode A)) → All P ns → All P (erase e i ns)
  unfolding erase
  All-erase P e i [] a = tt
  All-erase P e i (m ∷ ms) (p, a) = ground (arith, All-erase P e i ms a)

  pub erase-IsOrdered : (e i : ℕ) (ns : List (TimeNode A)) → IsOrdered ns → IsOrdered (erase e i ns)
  unfolding erase
  erase-IsOrdered e i [] o = tt
  erase-IsOrdered e i (m ∷ ms) (a, o) =
      ground (arith, erase-IsOrdered e i ms o, All-erase (λ n. before m n ≡ true) e i ms a)

  IdsUpTo-insert :
      (k : ℕ) (n : TimeNode A) (ns : List (TimeNode A))
      → n.id ≤ k
      → IdsUpTo k ns
      → IdsUpTo k (insert n ns)
  unfolding insert
  IdsUpTo-insert k n [] h a = (h, tt)
  IdsUpTo-insert k n (m ∷ ms) h (b, a) = ground (arith, IdsUpTo-insert k n ms h a)

  IdsUpTo-mono : (k l : ℕ) (ns : List (TimeNode A)) → k ≤ l → IdsUpTo k ns → IdsUpTo l ns
  IdsUpTo-mono k l [] h a = tt
  IdsUpTo-mono k l (m ∷ ms) h (b, a) = (omega arith, IdsUpTo-mono k l ms h a)

  -- A node with a new ID is really inserted.
  insert-perm :
      (k : ℕ) (n : TimeNode A) (ns : List (TimeNode A))
      → k < n.id
      → IdsUpTo k ns
      → Perm (insert n ns) (n ∷ ns)
  unfolding insert
  insert-perm k n [] h a = Perm.refl (n ∷ [])
  insert-perm k n (m ∷ ms) h (b, a) =
      let rest = Perm.trans (Perm.cons m (insert-perm k n ms h a)) (Perm.swap n m ms) in
      ground (arith, rest, Perm.refl (n ∷ m ∷ ms))

  erase-insert :
      (k : ℕ) (n : TimeNode A) (ns : List (TimeNode A))
      → k < n.id
      → IdsUpTo k ns
      → erase n.expire n.id (insert n ns) ≡ ns
  unfolding insert erase
  erase-insert k n [] h a = ground arith
  erase-insert k n (m ∷ ms) h (b, a) = ground (arith, erase-insert k n ms h a)

  contains-insert :
      (k : ℕ) (n : TimeNode A) (ns : List (TimeNode A))
      → k < n.id
      → IdsUpTo k ns
      → contains n.expire n.id (insert n ns) ≡ true
  unfolding insert contains
  contains-insert k n [] h a = ground arith
  contains-insert k n (m ∷ ms) h (b, a) = ground (arith, contains-insert k n ms h a)

  set_timeout-IsTree :
      (t : TimerTree A) (now milliseconds : ℕ) (cb : A)
      → t.init_id + 1 < 2 ^ 64
      → IsTree t
      → IsTree (set_timeout t now milliseconds cb).0
  unfolding set_timeout
  set_timeout-IsTree t now milliseconds cb h v = record {
    ordered = insert-IsOrdered _ t.nodes v.ordered;
    ids_given =
        IdsUpTo-insert _ _ t.nodes (omega arith)
          (IdsUpTo-mono t.init_id _ t.nodes (omega arith) v.ids_given);
  }

  -- A new timeout joins the set, in its place and under an ID that no node has; the others stay.
  -- Clearing it at once gives the old set back.
  pub set_timeout_lem :
      (t : TimerTree A) (now milliseconds : ℕ) (cb : A)
      → t.init_id + 1 < 2 ^ 64
      → IsTree t
      → IsTree (set_timeout t now milliseconds cb).0
        × (Perm (set_timeout t now milliseconds cb).0.nodes (
            record {
              id = (set_timeout t now milliseconds cb).1;
              expire = now + milliseconds;
              call_back = cb;
            }
            ∷ t.nodes))
        × (clear_timeout
              (set_timeout t now milliseconds cb).0
              (now + milliseconds)
              (set_timeout t now milliseconds cb).1
            ≡ (record t { init_id = (set_timeout t now milliseconds cb).1 }, true))
  unfolding set_timeout clear_timeout
  set_timeout_lem t now milliseconds cb h v = (
    set_timeout-IsTree t now milliseconds cb h v,
    insert-perm t.init_id node t.nodes (omega arith) v.ids_given,
    rw
        (
          contains-insert t.init_id node t.nodes (omega arith) v.ids_given,
          erase-insert t.init_id node t.nodes (omega arith) v.ids_given,
        )
        refl,
  )
    where
      node : TimeNode A
      node = record { id = (t.init_id + 1) % 2 ^ 64; expire = now + milliseconds; call_back = cb }

  not_behind :
      (e i : ℕ) (m : TimeNode A) (ns : List (TimeNode A))
      → All (λ n. before m n ≡ true) ns
      → m.expire ≡ e
      → m.id ≡ i
      → contains e i ns ≡ false
  unfolding contains
  not_behind e i m [] a p q = refl
  not_behind e i m (n ∷ ns) (b, a) p q = ground (arith, not_behind e i m ns a p q)

  contains-erase :
      (e i : ℕ) (ns : List (TimeNode A)) → IsOrdered ns → contains e i (erase e i ns) ≡ false
  unfolding contains erase
  contains-erase e i [] o = refl
  contains-erase e i (m ∷ ms) (a, o) =
      ground (arith, contains-erase e i ms o, not_behind e i m ms a)

  contains-erase_ne :
      (e i e' i' : ℕ) (ns : List (TimeNode A))
      → (e ≢ e') ⊎ (i ≢ i')
      → contains e' i' (erase e i ns) ≡ contains e' i' ns
  unfolding contains erase
  contains-erase_ne e i e' i' [] h = refl
  contains-erase_ne e i e' i' (m ∷ ms) h = ground (arith, contains-erase_ne e i e' i' ms h)

  -- Clearing a timeout keeps the set in order, reports whether the node was there, and takes away
  -- that node and no other.
  pub clear_timeout_lem :
      (t : TimerTree A) (expire id : ℕ)
      → IsTree t
      → IsTree (clear_timeout t expire id).0
        × ((clear_timeout t expire id).1 ≡ contains expire id t.nodes)
        × (contains expire id (clear_timeout t expire id).0.nodes ≡ false)
        × ((e i : ℕ)
            → (expire ≢ e) ⊎ (id ≢ i)
            → contains e i (clear_timeout t expire id).0.nodes ≡ contains e i t.nodes)
  unfolding clear_timeout
  clear_timeout_lem t expire id v = elim (Bool-cases (contains expire id t.nodes)) [
    | inl here ↦
        rw (here, clear_timeout)
          (
            record {
              ordered = erase-IsOrdered expire id t.nodes v.ordered;
              ids_given = All-erase _ expire id t.nodes v.ids_given;
            },
            refl,
            contains-erase expire id t.nodes v.ordered,
            (λ e i h. contains-erase_ne expire id e i t.nodes h),
          )
    | inr gone ↦ rw (gone, clear_timeout) (v, refl, gone, (λ e i h. refl))
  ]

  All-behind :
      (now : ℕ) (m : TimeNode A) (ns : List (TimeNode A))
      → All (λ n. before m n ≡ true) ns
      → now ≤ m.expire
      → All (λ n. now ≤ n.expire) ns
  All-behind now m [] a h = tt
  All-behind now m (n ∷ ns) (b, a) h = (ground arith, All-behind now m ns a h)

  -- The waiting time is -1 exactly when there are no nodes. No node expires before a
  -- positive wait is over, and a wait of 0 is given only if some node has.
  pub check_timeout_lem :
      (t : TimerTree A) (now : ℕ)
      → IsTree t
      → ((check_timeout t now ≡ none) ↔ (t.nodes ≡ []))
        × ((wait : ℕ)
            → check_timeout t now ≡ some wait
            → 0 < wait
            → All (λ n. now + wait ≤ n.expire) t.nodes)
        × (check_timeout t now ≡ some 0 → ¬ All (λ n. now < n.expire) t.nodes)
  unfolding check_timeout
  check_timeout_lem t now v = go t.nodes v.ordered refl
    where
      go :
          (ns : List (TimeNode A))
          → IsOrdered ns
          → t.nodes ≡ ns
          → ((check_timeout t now ≡ none) ↔ (t.nodes ≡ []))
            × ((wait : ℕ)
                → check_timeout t now ≡ some wait
                → 0 < wait
                → All (λ n. now + wait ≤ n.expire) t.nodes)
            × (check_timeout t now ≡ some 0 → ¬ All (λ n. now < n.expire) t.nodes)
      go [] o e = rw (e, check_timeout) (((λ _. refl), (λ _. refl)), (λ w h p. tt), (λ h a. cc))
      go (m ∷ ms) o e =
          rw (e, check_timeout)
            (
              ((λ h. cc), (λ h. cc)),
              (λ w h p. (ground arith, All-behind (now + w) m ms o.0 (ground arith))),
              (λ h a. ground arith),
            )
