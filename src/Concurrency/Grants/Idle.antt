-- ===== src/Concurrency/Grants/Idle.antt =====
-- The waiters that the allocator leaves (selectConcurrencyGrants of
-- packages/agent/src/concurrency-policy.ts).
use runcell.Prelude.{
  ◌-◌, ◌≡◌, refl, sym, subst, String, List, [], ◌∷◌, lookup, AllEntries, AllEntries-insert,
  AllEntries-lookup, or_else, is_some, All, All-append, All-map, Bool-cases, Option-cases, inl, inr,
}
use runcell.Concurrency.Policy.{ResolvedWorkload, ResolvedLimits}
use runcell.Concurrency.Grants.{
  Waiter, Counts, Queues, Allocation, Best, total_of, enqueue, group, sort_by_seq, grant, start,
  final,
}
use runcell.Concurrency.Grants.Round.{CanGrant, IsCandidate, IsStuck}
use runcell.Concurrency.Grants.Waiting.{pending}
use runcell.Concurrency.Grants.Loop.{allocate_inv, start-IsMap, final-IsStuck}

-- Every waiter stands in the queue of its own workload.
abbrev IsKeyed : Queues → Type 0
IsKeyed qs = AllEntries (λ k q. All (λ x. x.workload ≡ k) q) qs

queue-All :
    (k : String) (qs : Queues) → IsKeyed qs → All (λ x. x.workload ≡ k) (or_else (lookup k qs) [])
queue-All k qs h = elim (Option-cases (lookup k qs)) [
  | inl gone ↦ rw gone tt
  | inr (q, found) ↦
      rw found (AllEntries-lookup (λ k q. All (λ x. x.workload ≡ k) q) k qs q h found)
]

enqueue-IsKeyed :
    (limits : ResolvedLimits) (qs : Queues) (x : Waiter)
    → IsKeyed qs
    → IsKeyed (enqueue limits qs x)
unfolding enqueue
enqueue-IsKeyed limits qs x h = elim (Bool-cases (is_some (lookup x.workload limits.workloads))) [
  | inl known ↦ rw known (
      AllEntries-insert (λ k q. All (λ x. x.workload ≡ k) q) x.workload _ qs
        (All-append (λ y. y.workload ≡ x.workload) (or_else (lookup x.workload qs) []) (x ∷ [])
          (queue-All x.workload qs h) (refl, tt))
        h)
  | inr other ↦ rw other h
]

group-IsKeyed :
    (limits : ResolvedLimits) (qs : Queues) (ws : List Waiter)
    → IsKeyed qs
    → IsKeyed (group limits qs ws)
unfolding group
group-IsKeyed limits qs [] h = h
group-IsKeyed limits qs (w ∷ ws) h =
    group-IsKeyed limits (enqueue limits qs w) ws (enqueue-IsKeyed limits qs w h)

grant-IsKeyed :
    (limits : ResolvedLimits) (s : Allocation) (b : Best)
    → IsKeyed s.queues
    → IsCandidate limits s s.queues b
    → IsKeyed (grant s b).queues
unfolding grant
grant-IsKeyed limits s b h c =
    let q =
      AllEntries-lookup (λ k q. All (λ x. x.workload ≡ k) q) b.workload s.queues (b.head ∷ b.rest) h
        c.queued in
    AllEntries-insert (λ k q. All (λ x. x.workload ≡ k) q) b.workload b.rest s.queues q.1 h

-- A waiter whose workload cannot take one more slot.
abbrev pub IsIdle : ResolvedLimits → Allocation → Waiter → Type 0
IsIdle limits s x = (settings : ResolvedWorkload) → ¬ CanGrant limits s x.workload settings

pending-IsIdle :
    (limits : ResolvedLimits) (s : Allocation) (qs : Queues)
    → IsKeyed qs
    → AllEntries (IsStuck limits s) qs
    → All (IsIdle limits s) (pending qs)
pending-IsIdle limits s [] k h = tt
pending-IsIdle limits s ((w, []) ∷ qs) k h = pending-IsIdle limits s qs k.1 h.1
pending-IsIdle limits s ((w, head ∷ rest) ∷ qs) k h =
    All-append (IsIdle limits s) (head ∷ rest) (pending qs)
      (All-map
        (λ x same settings.
          subst (λ (u : String). ¬ CanGrant limits s u settings) (sym same) (h.0 settings))
        (head ∷ rest) k.0)
      (pending-IsIdle limits s qs k.1 h.1)

module _ (limits : ResolvedLimits) (active : Counts) (waiters : List Waiter) where
  final-IsKeyed : IsKeyed (final limits active waiters).queues
  unfolding final
  final-IsKeyed =
      allocate_inv limits (λ s. IsKeyed s.queues) (λ s b k m c. grant-IsKeyed limits s b k c)
        (limits.max_concurrent - total_of active) (start limits active waiters)
        (start-IsMap limits active waiters) (group-IsKeyed limits [] (sort_by_seq waiters) tt)

  -- Every waiter left in a queue is idle in the final allocation.
  pub final-IsIdle :
      All
        (IsIdle limits (final limits active waiters))
        (pending (final limits active waiters).queues)
  final-IsIdle =
      pending-IsIdle limits (final limits active waiters) (final limits active waiters).queues
        final-IsKeyed (final-IsStuck limits active waiters)
