-- ===== src/Concurrency/Grants/Order.antt =====
-- Which requests the allocator grants, and in which order (selectConcurrencyGrants of
-- packages/agent/src/concurrency-policy.ts).
use mathlib.Core.List.{map-append, Perm}
use mathlib.Core.List.Perm
use runcell.Prelude.{
  ◌+◌, ◌-◌, ◌≡◌, refl, sym, ap, subst, ◌∙◌, String, true, Option, List, [], ◌∷◌, ◌++◌, map,
  append_assoc, append-nil, inl, inr, Bool-cases, lookup, insert, lookup-insert, arith, eq_iff,
  eq_refl, str_eq, if◌then◌else◌, or_else, filter, length, length-append, is_some, All, All-append,
}
use runcell.Concurrency.Policy.{ResolvedLimits}
use runcell.Concurrency.Grants.{
  Waiter, Counts, Queues, Allocation, Best, active_of, total_of, grant, start, final, group,
  enqueue, sort_by_seq,
}
use runcell.Concurrency.Grants.Round.{IsCandidate}
use runcell.Concurrency.Grants.Capacity.{active_of-insert}
use runcell.Concurrency.Grants.Waiting.{
  pending, configured, pending-insert, group-perm, IsOldestFirst, sort_by_seq-IsOldestFirst,
  sort_by_seq-perm,
}
use runcell.Concurrency.Grants.Loop.{allocate_inv, start-IsMap}

-- The waiters of one workload, in their order.
abbrev pub of_workload : String → List Waiter → List Waiter
of_workload w = filter (λ x. str_eq x.workload w)

abbrev pub queue_of : String → Queues → List Waiter
queue_of w qs = or_else (lookup w qs) []

abbrev pub IsConfigured : ResolvedLimits → String → Type 0
IsConfigured limits w = is_some (lookup w limits.workloads) ≡ true

of_workload-append :
    (w : String) (xs ys : List Waiter)
    → of_workload w (xs ++ ys) ≡ of_workload w xs ++ of_workload w ys
of_workload-append w [] ys = refl
of_workload-append w (x ∷ xs) ys = ground (arith, of_workload-append w xs ys)

queue_of-insert :
    (k w : String) (q : List Waiter) (qs : Queues)
    → queue_of w (insert k q qs) ≡ (if str_eq k w then q else queue_of w qs)
queue_of-insert k w q qs = ground (arith, lookup-insert k w q qs)

enqueue-queue_of :
    (limits : ResolvedLimits) (qs : Queues) (x : Waiter) (w : String)
    → IsConfigured limits w
    → queue_of w (enqueue limits qs x) ≡ queue_of w qs ++ of_workload w (x ∷ [])
unfolding enqueue
enqueue-queue_of limits qs x w c = elim (Bool-cases (str_eq x.workload w)) [
  | inl mine ↦
      let e = (eq_iff x.workload w).0 mine in
      ground (
        arith,
        e,
        eq_refl w,
        queue_of-insert x.workload w (or_else (lookup x.workload qs) [] ++ x ∷ []) qs,
      )
  | inr other ↦ ground (
    arith,
    append-nil (queue_of w qs),
    queue_of-insert x.workload w (or_else (lookup x.workload qs) [] ++ x ∷ []) qs,
  )
]

-- The queue of a configured workload is its waiters, oldest first.
pub group-queue_of :
    (limits : ResolvedLimits) (qs : Queues) (ws : List Waiter) (w : String)
    → IsConfigured limits w
    → queue_of w (group limits qs ws) ≡ queue_of w qs ++ of_workload w ws
unfolding group
group-queue_of limits qs [] w c = sym (append-nil _)
group-queue_of limits qs (x ∷ ws) w c =
    group-queue_of limits (enqueue limits qs x) ws w c
    ∙ rw
        (
          enqueue-queue_of limits qs x w c,
          append_assoc (queue_of w qs) (of_workload w (x ∷ [])) (of_workload w ws),
        )
        (ap (◌++◌ (queue_of w qs)) (sym (of_workload-append w (x ∷ []) ws)))

-- What the loop has granted so far, against the waiters in order of age and the counts at the start.
pub record Account (limits : ResolvedLimits) (sorted : List Waiter) (active : Counts)
    (s : Allocation) : Type 0 where
  pub granted : List Waiter
  pub ids : s.grants ≡ map (λ g. g.id) granted
  pub parts :
      (w : String)
      → IsConfigured limits w
      → of_workload w granted ++ queue_of w s.queues ≡ of_workload w sorted
  pub counted :
      (w : String) → active_of w s.active ≡ active_of w active + length (of_workload w granted)
  pub summed : s.total ≡ total_of active + length granted
  pub waiting : Perm (granted ++ pending s.queues) (configured limits sorted)
  pub known : All (λ g. IsConfigured limits g.workload) granted

abbrev IsMine : String → Waiter → Type 0
IsMine w x = str_eq x.workload w ≡ true

All-of_workload : (w : String) (xs : List Waiter) → All (IsMine w) (of_workload w xs)
All-of_workload w [] = tt
All-of_workload w (x ∷ xs) = elim (Bool-cases (str_eq x.workload w)) [
  | inl mine ↦ rw mine (mine, All-of_workload w xs)
  | inr other ↦ rw other (All-of_workload w xs)
]

All-append_mid :
    (w : String) (xs ys : List Waiter) (x : Waiter) → All (IsMine w) (xs ++ x ∷ ys) → IsMine w x
All-append_mid w [] ys x h = h.0
All-append_mid w (y ∷ xs) ys x h = All-append_mid w xs ys x h.1

module _ (limits : ResolvedLimits) (sorted : List Waiter) (active : Counts) (s : Allocation)
    (b : Best) (c : IsCandidate limits s s.queues b) (a : Account limits sorted active s) where
  b-IsConfigured : IsConfigured limits b.workload
  b-IsConfigured = rw c.allowed.configured

  b_parts : of_workload b.workload a.granted ++ b.head ∷ b.rest ≡ of_workload b.workload sorted
  b_parts =
      ap (λ (o : Option (List Waiter)). of_workload b.workload a.granted ++ or_else o [])
        (sym c.queued)
      ∙ a.parts b.workload b-IsConfigured

  head_workload : b.head.workload ≡ b.workload
  head_workload = (eq_iff _ _).0 (
      All-append_mid b.workload (of_workload b.workload a.granted) b.rest b.head
        (subst (All (IsMine b.workload)) (sym b_parts) (All-of_workload b.workload sorted)))

  -- The candidate goes to the end of what its own workload has been granted, and to no other's.
  with_head :
      (w : String)
      → of_workload w (a.granted ++ b.head ∷ [])
        ≡ of_workload w a.granted ++ (if str_eq b.workload w then b.head ∷ [] else [])
  with_head w =
      of_workload-append w a.granted (b.head ∷ [])
      ∙ ap (λ (x : String). of_workload w a.granted ++ (if str_eq x w then b.head ∷ [] else []))
          head_workload

  grant-parts_self :
      of_workload b.workload (a.granted ++ b.head ∷ []) ++ queue_of b.workload (grant s b).queues
      ≡ of_workload b.workload sorted
  unfolding grant
  grant-parts_self =
      rw
        (
          with_head b.workload,
          queue_of-insert b.workload b.workload b.rest s.queues,
          eq_refl b.workload,
        )
        (append_assoc (of_workload b.workload a.granted) (b.head ∷ []) b.rest ∙ b_parts)

  grant-parts :
      (w : String)
      → IsConfigured limits w
      → of_workload w (a.granted ++ b.head ∷ []) ++ queue_of w (grant s b).queues
        ≡ of_workload w sorted
  unfolding grant
  grant-parts w known = elim (Bool-cases (str_eq b.workload w)) [
    | inl mine ↦
        subst
          (λ (x : String).
            of_workload x (a.granted ++ b.head ∷ [])
              ++ queue_of x (insert b.workload b.rest s.queues)
            ≡ of_workload x sorted)
          ((eq_iff b.workload w).0 mine) grant-parts_self
    | inr other ↦
        rw (with_head w, queue_of-insert b.workload w b.rest s.queues, other, append-nil)
          (a.parts w known)
  ]

  grant-counted :
      (w : String)
      → active_of w (grant s b).active
        ≡ active_of w active + length (of_workload w (a.granted ++ b.head ∷ []))
  unfolding grant
  grant-counted w =
      let before = a.counted w in
      let more =
        length-append (of_workload w a.granted) (if str_eq b.workload w then b.head ∷ [] else []) in
      rw (with_head w, active_of-insert b.workload w (active_of b.workload s.active + 1) s.active)
        (ground (arith, before, more, eq_iff b.workload w))

  grant-waiting :
      Perm ((a.granted ++ b.head ∷ []) ++ pending (grant s b).queues) (configured limits sorted)
  unfolding grant
  grant-waiting = rw append_assoc (
      Perm.trans
        (Perm.append_left a.granted (
          pending-insert b.workload (b.head ∷ b.rest) b.rest (b.head ∷ []) [] s.queues (rw c.queued)
            (Perm.refl _)))
        a.waiting)

  grant-Account : Account limits sorted active (grant s b)
  unfolding grant
  grant-Account = record {
    granted = a.granted ++ b.head ∷ [];
    ids =
        ap (λ (g : List String). g ++ b.head.id ∷ []) a.ids
        ∙ sym (map-append (λ (g : Waiter). g.id) a.granted (b.head ∷ []));
    parts = grant-parts;
    counted = λ w. grant-counted w;
    summed = omega (arith, a.summed, length-append a.granted (b.head ∷ []));
    waiting = grant-waiting;
    known = All-append _ a.granted (b.head ∷ []) a.known (rw head_workload b-IsConfigured, tt);
  }

module _ (limits : ResolvedLimits) (active : Counts) (waiters : List Waiter) where
  start-Account : Account limits (sort_by_seq waiters) active (start limits active waiters)
  unfolding start lookup
  start-Account = record {
    granted = [];
    ids = refl;
    parts = λ w c. group-queue_of limits [] (sort_by_seq waiters) w c;
    counted = λ w. omega arith;
    summed = omega arith;
    waiting =
        rw (← append-nil (configured limits (sort_by_seq waiters)))
          (group-perm limits [] (sort_by_seq waiters));
    known = tt;
  }

  pub final-Account_sorted :
      Account limits (sort_by_seq waiters) active (final limits active waiters)
  unfolding final
  final-Account_sorted =
      allocate_inv limits (Account limits (sort_by_seq waiters) active)
        (λ s b a m c. grant-Account limits (sort_by_seq waiters) active s b c a)
        (limits.max_concurrent - total_of active) (start limits active waiters)
        (start-IsMap limits active waiters) start-Account

  -- In an order of the waiters by age, oldest first: the requests that are granted are waiting requests
  -- of configured workloads. Of each such workload they are its oldest, granted in the order of their
  -- age: those granted followed by those left in the queue are all its waiters in that order. No waiter
  -- is granted twice: the granted and the queued are together the waiters of configured workloads, each
  -- once. The active count of each workload and the total grow by exactly the number of its grants.
  pub final-Account :
      (sorted : List Waiter) × IsOldestFirst sorted
      × Perm sorted waiters
      × Account limits sorted active (final limits active waiters)
  final-Account = (
    sort_by_seq waiters,
    sort_by_seq-IsOldestFirst waiters,
    sort_by_seq-perm waiters,
    final-Account_sorted,
  )
