-- ===== src/Tests/Limiters.antt =====
-- Tests of the in-process limiter.
use runcell.Prelude.{
  ℕ, ◌+◌, ◌≡◌, ◌≤◌, refl, String, none, some, List, [], ◌∷◌, lookup, insert, delete, All, length,
  values, true, false, arith,
}
use runcell.Concurrency.Policy.{resolve_workload}
use runcell.Concurrency.Grants.{
  total_of, insert_by_seq, sort_by_seq, enqueue, group, unmet_of, is_blocked, is_better,
  consider_with, consider, grant, allocate, start, final, select_grants,
}
use runcell.Concurrency.Limiter.{
  Limiter, Slot, empty, waiters_of, purge_expired, to_lease, earliest, arm_expiry_timer,
  count_slots, give, give_all, schedule,
}
use runcell.Concurrency.Limiter.Operations.{
  settle_in, join, wait_for, acquire, handle, run, events, Call, acquires, releases,
}
use runcell.Concurrency.Limiter.Slots.{Fits}
use runcell.Concurrency.Limiter.Schedule.{IsServed}
use runcell.Concurrency.Limiter.Invariant.{IsByAge}
use runcell.Concurrency.Limiter.Safety.{run-Fits, run-IsByAge}
use runcell.Concurrency.Limiter.Served.{run-IsServed}
use runcell.Concurrency.Limiter.Queue.{length-run}
use runcell.Concurrency.Limiter.Holding.{IsHeld, handle-IsHeld}
use runcell.Concurrency.Limiter.Answers.{requests, length-events}
use runcell.Concurrency.Limiter.Timer.{IsArmed, IsTimed, ends, run-IsArmed}
use runcell.Concurrency.Limiter.Stats.{is_inherited, stats}
use runcell.Concurrency.Limiter.Stats.Reported.{IsPlain, Reports, stats-Reports}
use runcell.Concurrency.Limiter.Stats.Inherited.{stats_inherited}
use runcell.Tests.{raw, limits, options, ids, ids-IsUnique}
use runcell.Tests.Policies.{create_raw}

abbrev asks : String → Call
asks w = acquires (record { workload = some w; timeout_ms = none; aborted = none })

-- Two requests get slots, a third waits, a fourth finds the queue full, and a release serves the
-- third.
abbrev history : List (ℕ × Call)
history =
    (0, asks "fg") ∷ (1, asks "bg") ∷ (2, asks "fg") ∷ (3, asks "fg") ∷ (4, releases (ids 1)) ∷ []

abbrev once : List (ℕ × Call)
once = (0, asks "fg") ∷ []

run-Fits_example : Fits limits (run ids options empty history).slots
run-Fits_example = run-Fits ids ids-IsUnique raw options create_raw history

run-IsByAge_example : IsByAge (waiters_of (run ids options empty history).waiters)
run-IsByAge_example = run-IsByAge ids ids-IsUnique raw options create_raw history

run-IsServed_example :
    IsServed limits
      (run ids options empty history).slots
      (waiters_of (run ids options empty history).waiters)
run-IsServed_example = run-IsServed ids ids-IsUnique raw options create_raw history

length-run_example : length (run ids options empty history).waiters ≤ 1
length-run_example = length-run ids ids-IsUnique raw options create_raw 1 refl history

length-events_example :
    length (events ids options empty history) + length (run ids options empty history).waiters
    ≡ requests history
length-events_example = length-events ids ids-IsUnique raw options create_raw history

history-IsTimed : IsTimed 0 history
history-IsTimed = (omega arith, (omega arith, (omega arith, (omega arith, (omega arith, tt)))))

run-IsArmed_example : IsArmed (ends 0 history) (run ids options empty history)
run-IsArmed_example = run-IsArmed ids options history history-IsTimed

abbrev slot : Slot
slot = record { id = "u"; workload = "fg"; expires_at = 100 }

once-slots : lookup (ids 1) (run ids options empty once).slots ≡ some slot
unfolding ids run handle acquire wait_for join schedule give_all give to_lease arm_expiry_timer
    earliest count_slots purge_expired settle_in resolve_workload total_of insert_by_seq sort_by_seq
    enqueue group unmet_of is_blocked is_better consider_with consider grant allocate start final
    select_grants lookup insert delete
once-slots = refl

once-IsHeld : IsHeld 50 (ids 1) "fg" (run ids options empty once).slots
once-IsHeld = (slot, once-slots, refl, omega arith)

handle-IsHeld_example :
    IsHeld 50 (ids 1) "fg" (handle ids options (run ids options empty once) (50, asks "bg")).0.slots
handle-IsHeld_example =
    handle-IsHeld ids ids-IsUnique raw options create_raw once 50 (ids 1) "fg" (asks "bg")
      (λ e. cc e) once-IsHeld

-- One slot of `fg`, and one of `bg` that has expired.
abbrev held : Limiter
held = record empty {
  slots = ("u", slot) ∷ ("uu", record { id = "uu"; workload = "bg"; expires_at = 20 }) ∷ [];
}

held-IsPlain : All IsPlain (values held.slots)
unfolding is_inherited
held-IsPlain = (refl, (refl, tt))

bg-plain : is_inherited "bg" ≡ false
unfolding is_inherited
bg-plain = refl

stats-Reports_example : Reports options 50 held "bg" (stats options 50 held).0
stats-Reports_example = stats-Reports options 50 held "bg" bg-plain held-IsPlain tt

taken : is_inherited "constructor" ≡ true
unfolding is_inherited
taken = refl

stats_inherited_example : lookup "constructor" (stats options 50 held).0.workloads ≡ none
stats_inherited_example = stats_inherited options 50 held "constructor" taken
