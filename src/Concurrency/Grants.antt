-- ===== src/Concurrency/Grants.antt =====
-- selectConcurrencyGrants of packages/agent/src/concurrency-policy.ts: which waiting requests to
-- grant now. The `while` loop runs on fuel, the free capacity at its start, which each grant lowers
-- by one.
pub mod Round
pub mod Capacity
pub mod Loop
pub mod Waiting
pub mod Order
pub mod Idle
use runcell.Prelude.{
  ℕ, zero, suc, ◌+◌, ◌-◌, ◌≤◌, ℤ, String, Bool, true, false, Option, none, some, List, [], ◌∷◌,
  ◌++◌, ltb, leb, ◌||◌, ◌&&◌, ◌==◌, not, ltb_ℤ, eqb_ℤ, if◌then◌else◌, str_eq, lookup, insert,
  or_else, is_some, filter, map,
}
use runcell.Concurrency.Policy.{ResolvedWorkload, ResolvedLimits}

-- `ConcurrencyWaiter`.
pub record Waiter : Type 0 where
  pub id : String
  pub workload : String
  pub seq : ℕ

abbrev pub Counts : Type 0
Counts = List (String × ℕ)

abbrev pub Queues : Type 0
Queues = List (String × List Waiter)

-- `active.get(workload) ?? 0`.
abbrev pub active_of : String → Counts → ℕ
active_of workload active = or_else (lookup workload active) 0

-- The sum of the counts of a map.
unfoldable pub total_of : Counts → ℕ
total_of [] = 0
total_of ((k, n) ∷ m) = n + total_of m

-- `[...waiters].sort((a, b) => a.seq - b.seq)`, which is stable.
unfoldable pub insert_by_seq : Waiter → List Waiter → List Waiter
insert_by_seq w [] = w ∷ []
insert_by_seq w (x ∷ xs) = if leb w.seq x.seq then w ∷ x ∷ xs else x ∷ insert_by_seq w xs

unfoldable pub sort_by_seq : List Waiter → List Waiter
unfolding insert_by_seq
sort_by_seq [] = []
sort_by_seq (w ∷ ws) = insert_by_seq w (sort_by_seq ws)

-- The loop that puts each waiter of a configured workload at the end of its workload's queue.
unfoldable pub enqueue : ResolvedLimits → Queues → Waiter → Queues
enqueue limits queues w =
    if is_some (lookup w.workload limits.workloads)
    then insert w.workload (or_else (lookup w.workload queues) [] ++ w ∷ []) queues
    else queues

unfoldable pub group : ResolvedLimits → Queues → List Waiter → Queues
unfolding enqueue
group limits queues [] = queues
group limits queues (w ∷ ws) = group limits (enqueue limits queues w) ws

-- `unmetReservations(except)`. `-` stops at 0, as the source's `Math.max(0, …)` does.
unfoldable pub unmet_of : List (String × ResolvedWorkload) → Counts → String → ℕ
unmet_of [] active except = 0
unmet_of ((name, settings) ∷ m) active except =
    (if str_eq name except then 0 else settings.reserved - active_of name active)
    + unmet_of m active except

-- The variables of the loop.
pub record Allocation : Type 0 where
  pub active : Counts
  pub total : ℕ
  pub queues : Queues
  pub grants : List String

-- The candidate that a round has found so far.
pub record Best : Type 0 where
  pub workload : String
  pub head : Waiter
  pub priority : ℤ
  pub rest : List Waiter

-- The two tests by which a round skips a workload: its own ceiling, and the reservations.
unfoldable pub is_blocked : ResolvedLimits → Allocation → String → ResolvedWorkload → Bool
is_blocked limits s workload settings =
    leb settings.max_concurrent (active_of workload s.active)
    || ltb limits.max_concurrent (s.total + 1 + unmet_of limits.workloads s.active workload)

-- Whether a candidate replaces the best so far.
unfoldable pub is_better : Option Best → Best → Bool
is_better none c = true
is_better (some best) c =
    ltb_ℤ best.priority c.priority
    || (eqb_ℤ c.priority best.priority && ltb c.head.seq best.head.seq)

-- One pass of the `for` loop over the queues, for a workload whose settings are found.
unfoldable pub consider_with :
    ResolvedLimits
    → Allocation
    → Option Best
    → String
    → List Waiter
    → Option ResolvedWorkload
    → Option Best
unfolding is_blocked is_better
consider_with limits s best workload [] settings = best
consider_with limits s best workload (head ∷ rest) none = best
consider_with limits s best workload (head ∷ rest) (some settings) =
    if is_blocked limits s workload settings
    then best
    else let candidate : Best = record {
      workload = workload;
      head = head;
      priority = settings.priority;
      rest = rest;
    } in
      if is_better best candidate then some candidate else best

unfoldable pub consider : ResolvedLimits → Allocation → Option Best → Queues → Option Best
unfolding consider_with
consider limits s best [] = best
consider limits s best ((workload, queue) ∷ qs) =
    consider limits s
      (consider_with limits s best workload queue (lookup workload limits.workloads)) qs

-- The rest of the round: shift the queue, count the grant, record it.
unfoldable pub grant : Allocation → Best → Allocation
grant s best = record {
  active = insert best.workload (active_of best.workload s.active + 1) s.active;
  total = s.total + 1;
  queues = insert best.workload best.rest s.queues;
  grants = s.grants ++ best.head.id ∷ [];
}

unfoldable pub allocate : ℕ → ResolvedLimits → Allocation → Allocation
unfolding consider grant
allocate zero limits s = s
allocate (suc fuel) limits s = elim (ltb s.total limits.max_concurrent) [
  | false ↦ s
  | true ↦ elim (consider limits s none s.queues) [
    | none ↦ s
    | some best ↦ allocate fuel limits (grant s best)
  ]
]

unfoldable pub start : ResolvedLimits → Counts → List Waiter → Allocation
unfolding total_of sort_by_seq group
start limits active waiters = record {
  active = active;
  total = total_of active;
  queues = group limits [] (sort_by_seq waiters);
  grants = [];
}

unfoldable pub final : ResolvedLimits → Counts → List Waiter → Allocation
unfolding allocate start
final limits active waiters =
    allocate (limits.max_concurrent - total_of active) limits (start limits active waiters)

-- `selectConcurrencyGrants`.
unfoldable pub select_grants : ResolvedLimits → Counts → List Waiter → List String
select_grants limits active waiters = (final limits active waiters).grants
