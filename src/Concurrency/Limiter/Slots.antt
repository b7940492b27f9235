-- ===== src/Concurrency/Limiter/Slots.antt =====
-- The slots of the in-process limiter against its limits
-- (packages/agent/src/concurrency-limiter.ts).
pub mod Back
use mathlib.Core.Path.{fun_ext}
use runcell.Prelude.{
  ℕ, suc, ◌+◌, ◌-◌, ◌≤◌, ◌<◌, ◌≡◌, refl, sym, ap, subst, ◌∙◌, String, Bool, true, false, Option,
  none, some, List, [], ◌∷◌, ◌++◌, append_assoc, if◌then◌else◌, str_eq, eq_iff, eq_refl, lookup,
  insert, delete, or_else, length, length-append, count_if, count_if-append, AllEntries, IsMap,
  Lacks, Bool-cases, inl, inr, arith, leb,
}
use runcell.Concurrency.Policy.{ResolvedWorkload, ResolvedLimits}
use runcell.Concurrency.Policy.Valid.{Entries, IsValid, IsValidWorkload, reservations}
use runcell.Concurrency.Grants.{Counts, active_of, total_of}
use runcell.Concurrency.Grants.Capacity.{IsWithin, unmet, active_of-insert}
use runcell.Concurrency.Limiter.{Slot, count_slots, purge_expired}

abbrev pub Slots : Type 0
Slots = List (String × Slot)

-- How many slots a workload holds.
abbrev pub held : Slots → String → ℕ
held m w = count_if (λ e. str_eq e.1.workload w) m

-- The reservations that are not met, by a count of each workload's slots.
abbrev pub unmet_by : Entries → (String → ℕ) → ℕ
unmet_by [] f = 0
unmet_by ((k, w) ∷ m) f = (w.reserved - f k) + unmet_by m f

-- No workload holds more slots than its ceiling, and the unmet reservations fit beside all slots.
pub record Fits (limits : ResolvedLimits) (m : Slots) : Type 0 where
  pub ceilings : AllEntries (λ k w. held m k ≤ w.max_concurrent) limits.workloads
  pub room : length m + unmet_by limits.workloads (held m) ≤ limits.max_concurrent

total_of-insert :
    (k : String) (m : Counts) → total_of (insert k (active_of k m + 1) m) ≡ total_of m + 1
unfolding total_of insert lookup
total_of-insert k [] = omega arith
total_of-insert k ((j, n) ∷ m) = ground (arith, total_of-insert k m)

pub count_slots-total_of :
    (m : Slots) (active : Counts) → total_of (count_slots m active) ≡ total_of active + length m
unfolding count_slots
count_slots-total_of [] active = omega arith
count_slots-total_of ((k, s) ∷ m) active =
    count_slots-total_of m (insert s.workload (active_of s.workload active + 1) active)
    ∙ omega (arith, total_of-insert s.workload active)

count_slots-active_of :
    (m : Slots) (active : Counts) (w : String)
    → active_of w (count_slots m active) ≡ active_of w active + held m w
unfolding count_slots
count_slots-active_of [] active w = omega arith
count_slots-active_of ((k, s) ∷ m) active w =
    count_slots-active_of m (insert s.workload (active_of s.workload active + 1) active) w
    ∙ ground (
      arith,
      active_of-insert s.workload w (active_of s.workload active + 1) active,
      eq_iff s.workload w,
    )

unmet_by-active_of :
    (m : Entries) (active : Counts) → unmet_by m (λ k. active_of k active) ≡ unmet m active
unmet_by-active_of [] active = refl
unmet_by-active_of ((k, w) ∷ m) active =
    ap (λ (n : ℕ). (w.reserved - active_of k active) + n) (unmet_by-active_of m active)

-- The counts that the allocator is given are those of the slots.
pub counts_of : (m : Slots) → (λ w. active_of w (count_slots m [])) ≡ held m
unfolding lookup
counts_of m = fun_ext λ w. count_slots-active_of m [] w ∙ omega arith

-- Any counts that agree with the slots make the allocator's condition that of the slots.
pub IsWithin-Fits :
    (limits : ResolvedLimits) (m : Slots) (active : Counts)
    → (λ w. active_of w active) ≡ held m
    → IsWithin limits active (length m)
    → Fits limits m
IsWithin-Fits limits m active e v = record {
  ceilings =
      subst
        (λ (f : String → ℕ).
          AllEntries (λ k (w : ResolvedWorkload). f k ≤ w.max_concurrent) limits.workloads)
        e v.ceilings;
  room =
      subst (λ (f : String → ℕ). length m + unmet_by limits.workloads f ≤ limits.max_concurrent) e
        (rw (unmet_by-active_of limits.workloads active) v.room);
}

pub Fits-IsWithin :
    (limits : ResolvedLimits) (m : Slots) (active : Counts)
    → (λ w. active_of w active) ≡ held m
    → Fits limits m
    → IsWithin limits active (length m)
Fits-IsWithin limits m active e v = record {
  ceilings =
      subst
        (λ (f : String → ℕ).
          AllEntries (λ k (w : ResolvedWorkload). f k ≤ w.max_concurrent) limits.workloads)
        (sym e) v.ceilings;
  room = rw (← unmet_by-active_of limits.workloads active) (
      subst (λ (f : String → ℕ). length m + unmet_by limits.workloads f ≤ limits.max_concurrent)
        (sym e) v.room);
}
