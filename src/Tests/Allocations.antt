-- ===== src/Tests/Allocations.antt =====
-- Tests of the allocator.
use runcell.Prelude.{
  ◌≡◌, ◌<◌, refl, none, some, List, [], ◌∷◌, lookup, insert, or_else, pos, All, AllEntries, arith,
}
use runcell.Concurrency.Policy.{ResolvedWorkload, ResolvedLimits}
use runcell.Concurrency.Policy.Valid.{IsValid}
use runcell.Concurrency.Grants.{
  Waiter, Counts, Allocation, Best, active_of, total_of, insert_by_seq, sort_by_seq, enqueue, group,
  unmet_of, is_blocked, is_better, consider_with, consider, grant, allocate, start, final,
  select_grants,
}
use runcell.Concurrency.Grants.Round.{IsCandidate, IsStuck, PrecedesQueue, consider-IsCandidate}
use runcell.Concurrency.Grants.Capacity.{IsWithin}
use runcell.Concurrency.Grants.Loop.{final-IsWithin, final-IsStuck, final-reserved}
use runcell.Concurrency.Grants.Waiting.{pending}
use runcell.Concurrency.Grants.Order.{Account, final-Account}
use runcell.Concurrency.Grants.Waiting.{IsOldestFirst}
use mathlib.Core.List.{Perm}
use runcell.Concurrency.Grants.Idle.{IsIdle, final-IsIdle}
use runcell.Concurrency.Limiter.Safety.{create-IsValid}
use runcell.Tests.{raw, limits, options, apart}
use runcell.Tests.Policies.{create_raw}

abbrev held : Counts
held = ("bg", 1) ∷ []

abbrev first : Waiter
first = record { id = "f1"; workload = "fg"; seq = 2 }

abbrev second : Waiter
second = record { id = "f2"; workload = "fg"; seq = 3 }

abbrev early : Waiter
early = record { id = "b1"; workload = "bg"; seq = 1 }

abbrev waiting : List Waiter
waiting = second ∷ early ∷ first ∷ []

-- The reserved slot goes to the oldest request of its workload.
grants_waiting : select_grants limits held waiting ≡ "f1" ∷ []
unfolding total_of insert_by_seq sort_by_seq enqueue group unmet_of is_blocked is_better
    consider_with consider grant allocate start final select_grants lookup insert
grants_waiting = refl

valid : IsValid limits
valid = create-IsValid raw options create_raw

held-IsWithin : IsWithin limits held (total_of held)
unfolding lookup total_of
held-IsWithin = record { ceilings = (omega arith, (omega arith, tt)); room = omega arith }

final-IsWithin_example :
    IsWithin limits (final limits held waiting).active (final limits held waiting).total
final-IsWithin_example = final-IsWithin limits held waiting valid held-IsWithin

final-IsStuck_example :
    AllEntries (IsStuck limits (final limits held waiting)) (final limits held waiting).queues
final-IsStuck_example = final-IsStuck limits held waiting

final-IsIdle_example :
    All (IsIdle limits (final limits held waiting)) (pending (final limits held waiting).queues)
final-IsIdle_example = final-IsIdle limits held waiting

final-Account_example :
    (sorted : List Waiter) × IsOldestFirst sorted
    × Perm sorted waiting
    × Account limits sorted held (final limits held waiting)
final-Account_example = final-Account limits held waiting

abbrev state : Allocation
state = record {
  active = held;
  total = 1;
  queues = ("bg", early ∷ []) ∷ ("fg", first ∷ second ∷ []) ∷ [];
  grants = [];
}

abbrev picked : Best
picked = record { workload = "fg"; head = first; priority = pos 0; rest = second ∷ [] }

picked_lem : consider limits state none state.queues ≡ some picked
unfolding consider consider_with is_blocked is_better unmet_of lookup
picked_lem = refl

consider-IsCandidate_example :
    IsCandidate limits state state.queues picked
    × AllEntries (PrecedesQueue limits state picked) state.queues
consider-IsCandidate_example =
    consider-IsCandidate limits state state.queues picked ((apart "fg" "bg" refl, tt), (tt, tt))
      picked_lem

abbrev reserved : ResolvedWorkload
reserved = record { max_concurrent = 2; reserved = 2; priority = pos 0; max_wait_ms = none }

-- Two slots reserved for the only workload.
abbrev reserved_limits : ResolvedLimits
reserved_limits = record {
  max_concurrent = 2;
  max_queued = none;
  default_workload = some "fg";
  workloads = ("fg", reserved) ∷ [];
}

reserved_valid : IsValid reserved_limits
reserved_valid = record {
  positive = omega arith;
  ceilings = ((omega arith, omega arith, omega arith), tt);
  reserved_fits = omega arith;
  distinct = (tt, tt);
}

reserved-IsWithin : IsWithin reserved_limits [] (total_of [])
unfolding lookup total_of
reserved-IsWithin = record { ceilings = (omega arith, tt); room = omega arith }

under_reserved : (final reserved_limits [] (first ∷ [])).active ≡ ("fg", 1) ∷ []
unfolding total_of insert_by_seq sort_by_seq enqueue group unmet_of is_blocked is_better
    consider_with consider grant allocate start final lookup insert
under_reserved = refl

under : active_of "fg" (final reserved_limits [] (first ∷ [])).active < 2
unfolding lookup
under = rw under_reserved (omega arith)

reserved_found : lookup "fg" reserved_limits.workloads ≡ some reserved
unfolding lookup
reserved_found = refl

final-reserved_example :
    or_else (lookup "fg" (final reserved_limits [] (first ∷ [])).queues) [] ≡ []
final-reserved_example =
    final-reserved reserved_limits [] (first ∷ []) "fg" reserved reserved_valid reserved-IsWithin
      reserved_found under
