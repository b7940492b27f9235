-- ===== src/Concurrency/Grants/Loop.antt =====
-- The loop of the allocator: a rule for its invariants, and what holds when it has ended
-- (selectConcurrencyGrants of packages/agent/src/concurrency-policy.ts).
use runcell.Prelude.{
  ℕ, zero, suc, ◌+◌, ◌-◌, ◌≤◌, ◌<◌, ◌≡◌, refl, String, true, false, none, some, List, [], ◌∷◌, inl,
  inr, Bool-cases, Option-cases, lookup, AllEntries, IsMap, insert-IsMap, AllEntries-lookup, arith,
  ltb, is_some, or_else,
}
use runcell.Concurrency.Policy.{ResolvedWorkload, ResolvedLimits}
use runcell.Concurrency.Policy.Valid.{IsValid}
use runcell.Concurrency.Grants.{
  Waiter, Counts, Queues, Allocation, Best, active_of, total_of, consider, grant, allocate, start,
  final, group, enqueue, sort_by_seq,
}
use runcell.Concurrency.Grants.Round.{IsCandidate, IsStuck, consider-none, consider-IsCandidate}
use runcell.Concurrency.Grants.Capacity.{IsWithin, unmet-split, grant-IsWithin}

grant-IsMap : (s : Allocation) (b : Best) → IsMap s.queues → IsMap (grant s b).queues
unfolding grant
grant-IsMap s b m = insert-IsMap b.workload b.rest s.queues m

grant-total : (s : Allocation) (b : Best) → (grant s b).total ≡ s.total + 1
unfolding grant
grant-total s b = refl

module _ (limits : ResolvedLimits) where
  full_IsStuck :
      (s : Allocation) (qs : Queues)
      → limits.max_concurrent ≤ s.total
      → AllEntries (IsStuck limits s) qs
  full_IsStuck s [] h = tt
  full_IsStuck s ((w, []) ∷ qs) h = (tt, full_IsStuck s qs h)
  full_IsStuck s ((w, head ∷ rest) ∷ qs) h =
      (λ settings c. absurd (omega (arith, c.fits)), full_IsStuck s qs h)

  -- The three ways that a round goes.
  allocate-full :
      (fuel : ℕ) (s : Allocation)
      → ltb s.total limits.max_concurrent ≡ false
      → allocate (suc fuel) limits s ≡ s
  unfolding allocate
  allocate-full fuel s e = rw (e, allocate)

  allocate-idle :
      (fuel : ℕ) (s : Allocation)
      → ltb s.total limits.max_concurrent ≡ true
      → consider limits s none s.queues ≡ none
      → allocate (suc fuel) limits s ≡ s
  unfolding allocate
  allocate-idle fuel s e f = rw (e, f, allocate)

  allocate-grant :
      (fuel : ℕ) (s : Allocation) (b : Best)
      → ltb s.total limits.max_concurrent ≡ true
      → consider limits s none s.queues ≡ some b
      → allocate (suc fuel) limits s ≡ allocate fuel limits (grant s b)
  unfolding allocate
  allocate-grant fuel s b e f = rw (e, f, allocate)

  -- A property that every grant to a candidate keeps holds when the loop ends.
  pub allocate_inv {ℓ} :
      (P : Allocation → Type ℓ)
      → ((s : Allocation) (b : Best)
          → P s
          → IsMap s.queues
          → IsCandidate limits s s.queues b
          → P (grant s b))
      → (fuel : ℕ) (s : Allocation) → IsMap s.queues
      → P s
      → P (allocate fuel limits s)
  unfolding allocate
  allocate_inv P keep zero s m p = p
  allocate_inv P keep (suc fuel) s m p = elim (Bool-cases (ltb s.total limits.max_concurrent)) [
    | inr full ↦ rw (allocate-full fuel s full) p
    | inl free ↦ elim (Option-cases (consider limits s none s.queues)) [
      | inl idle ↦ rw (allocate-idle fuel s free idle) p
      | inr (b, picked) ↦
          let c = (consider-IsCandidate limits s s.queues b m picked).0 in
          rw (allocate-grant fuel s b free picked)
            (allocate_inv P keep fuel (grant s b) (grant-IsMap s b m) (keep s b p m c))
    ]
  ]

  -- With as much fuel as there is free capacity, the loop ends with nothing left to grant.
  pub allocate-IsStuck :
      (fuel : ℕ) (s : Allocation)
      → IsMap s.queues
      → limits.max_concurrent ≤ s.total + fuel
      → AllEntries (IsStuck limits (allocate fuel limits s)) (allocate fuel limits s).queues
  unfolding allocate
  allocate-IsStuck zero s m h = full_IsStuck s s.queues (omega arith)
  allocate-IsStuck (suc fuel) s m h = elim (Bool-cases (ltb s.total limits.max_concurrent)) [
    | inr full ↦ rw (allocate-full fuel s full) (full_IsStuck s s.queues (ground arith))
    | inl free ↦ elim (Option-cases (consider limits s none s.queues)) [
      | inl idle ↦ rw (allocate-idle fuel s free idle) (consider-none limits s none s.queues idle)
      | inr (b, picked) ↦
          rw (allocate-grant fuel s b free picked)
            (allocate-IsStuck fuel (grant s b) (grant-IsMap s b m) (omega (arith, grant-total s b)))
    ]
  ]

enqueue-IsMap :
    (limits : ResolvedLimits) (qs : Queues) (w : Waiter) → IsMap qs → IsMap (enqueue limits qs w)
unfolding enqueue
enqueue-IsMap limits qs w m = elim (Bool-cases (is_some (lookup w.workload limits.workloads))) [
  | inl known ↦ rw known (insert-IsMap w.workload _ qs m)
  | inr other ↦ rw other m
]

pub group-IsMap :
    (limits : ResolvedLimits) (qs : Queues) (ws : List Waiter)
    → IsMap qs
    → IsMap (group limits qs ws)
unfolding group
group-IsMap limits qs [] m = m
group-IsMap limits qs (w ∷ ws) m =
    group-IsMap limits (enqueue limits qs w) ws (enqueue-IsMap limits qs w m)

module _ (limits : ResolvedLimits) (active : Counts) (waiters : List Waiter) where
  pub start-IsMap : IsMap (start limits active waiters).queues
  unfolding start
  start-IsMap = group-IsMap limits [] (sort_by_seq waiters) tt

  -- If before an allocation every workload is within its ceiling and the unmet reservations fit
  -- beside what is active, then so they do after it: no grant exceeds the limiter's ceiling or a
  -- workload's, and none takes a slot that another workload has reserved.
  pub final-IsWithin :
      IsValid limits
      → IsWithin limits active (total_of active)
      → IsWithin limits (final limits active waiters).active (final limits active waiters).total
  unfolding final
  final-IsWithin v h =
      allocate_inv limits (λ s. IsWithin limits s.active s.total)
        (λ s b p m c. grant-IsWithin limits s b c.settings v.distinct c.allowed p)
        (limits.max_concurrent - total_of active) (start limits active waiters) start-IsMap
        (start_IsWithin h)
    where
      start_IsWithin :
          IsWithin limits active (total_of active)
          → IsWithin limits (start limits active waiters).active (start limits active waiters).total
      start_IsWithin h = h

  -- The allocator leaves no capacity unused: when it ends, every workload whose queue still holds a
  -- request is not configured, at its ceiling, or kept back by the others' reservations.
  pub final-IsStuck :
      AllEntries (IsStuck limits (final limits active waiters)) (final limits active waiters).queues
  unfolding final
  final-IsStuck =
      allocate-IsStuck limits (limits.max_concurrent - total_of active)
        (start limits active waiters) start-IsMap (omega arith)

  reserved_queue :
      (w : String) (settings : ResolvedWorkload) (queue : List Waiter)
      → IsValid limits
      → IsWithin limits active (total_of active)
      → lookup w limits.workloads ≡ some settings
      → active_of w (final limits active waiters).active < settings.reserved
      → lookup w (final limits active waiters).queues ≡ some queue
      → queue ≡ []
  reserved_queue w settings [] v h found under queued = refl
  reserved_queue w settings (head ∷ rest) v h found under queued =
      let within = final-IsWithin v h in
      let ceiling = AllEntries-lookup _ w limits.workloads settings v.ceilings found in
      let split =
        unmet-split limits.workloads (final limits active waiters).active w settings v.distinct
          found in
      let stuck = AllEntries-lookup _ w _ (head ∷ rest) final-IsStuck queued in
      absurd (
        stuck settings (record {
          configured = found;
          below = omega (arith, under, ceiling.2);
          fits = omega (arith, within.room, split, under);
        }))

  -- A reservation is honoured: between allocations that stay within the limits, a workload whose
  -- reservation is not used up has no request left waiting.
  pub final-reserved :
      (w : String) (settings : ResolvedWorkload)
      → IsValid limits
      → IsWithin limits active (total_of active)
      → lookup w limits.workloads ≡ some settings
      → active_of w (final limits active waiters).active < settings.reserved
      → or_else (lookup w (final limits active waiters).queues) [] ≡ []
  final-reserved w settings v h found under =
      elim (Option-cases (lookup w (final limits active waiters).queues)) [
        | inl gone ↦ rw gone refl
        | inr (queue, queued) ↦ rw queued (reserved_queue w settings queue v h found under queued)
      ]
