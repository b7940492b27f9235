-- ===== src/Concurrency/Grants/Capacity.antt =====
-- Ceilings and reservations in the allocator (selectConcurrencyGrants of
-- packages/agent/src/concurrency-policy.ts).
use mathlib.Core.Option.{some-injective}
use runcell.Prelude.{
  ℕ, ◌+◌, ◌-◌, ◌≤◌, ◌<◌, ◌≡◌, refl, sym, subst, ◌∙◌, String, some, [], ◌∷◌, inl, inr, Bool-cases,
  lookup, insert, lookup-insert, AllEntries, Lacks, lookup-Lacks, IsMap, arith, eq_iff, eq_refl,
  str_eq, if◌then◌else◌,
}
use runcell.Concurrency.Policy.{ResolvedWorkload, ResolvedLimits}
use runcell.Concurrency.Policy.Valid.{Entries}
use runcell.Concurrency.Grants.{Counts, Allocation, Best, active_of, unmet_of, grant}
use runcell.Concurrency.Grants.Round.{CanGrant}

-- The reservations that are not met, over all workloads.
abbrev pub unmet : Entries → Counts → ℕ
unmet [] active = 0
unmet ((k, w) ∷ m) active = (w.reserved - active_of k active) + unmet m active

-- What holds of the active counts between any two allocations: every workload is within its
-- ceiling, and the unmet reservations fit beside what is active.
pub record IsWithin (limits : ResolvedLimits) (active : Counts) (total : ℕ) : Type 0 where
  pub ceilings : AllEntries (λ k w. active_of k active ≤ w.max_concurrent) limits.workloads
  pub room : total + unmet limits.workloads active ≤ limits.max_concurrent

pub active_of-insert :
    (k j : String) (n : ℕ) (m : Counts)
    → active_of j (insert k n m) ≡ (if str_eq k j then n else active_of j m)
active_of-insert k j n m = ground (arith, lookup-insert k j n m)

unmet_of-Lacks :
    (m : Entries) (active : Counts) (k : String) → Lacks k m → unmet_of m active k ≡ unmet m active
unfolding unmet_of
unmet_of-Lacks [] active k h = refl
unmet_of-Lacks ((j, w) ∷ m) active k h = ground (arith, eq_iff j k, unmet_of-Lacks m active k h.1)

-- A workload's own unmet reservation and the others' make up the whole.
pub unmet-split :
    (m : Entries) (active : Counts) (k : String) (w : ResolvedWorkload)
    → IsMap m
    → lookup k m ≡ some w
    → unmet m active ≡ (w.reserved - active_of k active) + unmet_of m active k
unfolding unmet_of lookup
unmet-split [] active k w d e = cc
unmet-split ((j, v) ∷ m) active k w d e = elim (Bool-cases (str_eq j k)) [
  | inl same ↦
      let eq = (eq_iff j k).0 same in
      let rest = unmet_of-Lacks m active k (subst (λ (x : String). Lacks x m) eq d.0) in
      ground (arith, eq, rest)
  | inr other ↦ ground (arith, unmet-split m active k w d.1)
]

-- A grant to a workload leaves the others' unmet reservations as they were.
unmet_of-insert :
    (m : Entries) (active : Counts) (k : String) (n : ℕ)
    → unmet_of m (insert k n active) k ≡ unmet_of m active k
unfolding unmet_of
unmet_of-insert [] active k n = refl
unmet_of-insert ((j, w) ∷ m) active k n =
    ground
      (arith, unmet_of-insert m active k n, active_of-insert k j n active, eq_iff j k, eq_iff k j)

unmet-insert :
    (m : Entries) (active : Counts) (k : String) (n : ℕ)
    → Lacks k m
    → unmet m (insert k n active) ≡ unmet m active
unmet-insert m active k n h =
    sym (unmet_of-Lacks m (insert k n active) k h)
    ∙ unmet_of-insert m active k n
    ∙ unmet_of-Lacks m active k h

-- A grant lowers the unmet reservations by one if the workload's own is not met yet.
pub unmet-grant :
    (m : Entries) (active : Counts) (k : String) (w : ResolvedWorkload)
    → IsMap m
    → lookup k m ≡ some w
    → unmet m (insert k (active_of k active + 1) active)
      ≡ (w.reserved - (active_of k active + 1)) + unmet_of m active k
unmet-grant m active k w d e =
    unmet-split m (insert k (active_of k active + 1) active) k w d e
    ∙ ground (
      arith,
      unmet_of-insert m active k (active_of k active + 1),
      active_of-insert k k (active_of k active + 1) active,
      eq_refl k,
    )

ceilings-grant :
    (m : Entries) (active : Counts) (k : String)
    → AllEntries (λ j v. active_of j active ≤ v.max_concurrent) m
    → ((v : ResolvedWorkload) → lookup k m ≡ some v → active_of k active < v.max_concurrent)
    → IsMap m
    → AllEntries
        (λ j v. active_of j (insert k (active_of k active + 1) active) ≤ v.max_concurrent)
        m
unfolding lookup
ceilings-grant [] active k c below d = tt
ceilings-grant ((j, v) ∷ m) active k c below d = (
  ground (
    arith,
    active_of-insert k j (active_of k active + 1) active,
    below v,
    eq_iff k j,
    eq_iff j k,
  ),
  ceilings-grant m active k c.1
      (λ u e. below u (ground (arith, eq_iff j k, lookup-Lacks j m d.0, e))) d.1,
)

pub grant-IsWithin :
    (limits : ResolvedLimits) (s : Allocation) (b : Best) (w : ResolvedWorkload)
    → IsMap limits.workloads
    → CanGrant limits s b.workload w
    → IsWithin limits s.active s.total
    → IsWithin limits (grant s b).active (grant s b).total
unfolding grant
grant-IsWithin limits s b w d c v = record {
  ceilings =
      ceilings-grant limits.workloads s.active b.workload v.ceilings
        (λ u e.
          subst (λ (x : ResolvedWorkload). active_of b.workload s.active < x.max_concurrent)
            (some-injective _ _ (sym c.configured ∙ e)) c.below)
        d;
  room = omega (
    arith,
    v.room,
    c.fits,
    unmet-split limits.workloads s.active b.workload w d c.configured,
    unmet-grant limits.workloads s.active b.workload w d c.configured,
  );
}
