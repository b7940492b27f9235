-- ===== src/Concurrency/Limiter/Schedule.antt =====
-- `schedule` of the in-process limiter (packages/agent/src/concurrency-limiter.ts).
use mathlib.Core.List.{Perm}
use mathlib.Core.List.Perm
use mathlib.Core.Path.{fun_ext}
use mathlib.Core.HLevel.{Π_prop, ¬_prop}
use runcell.Prelude.{
  ℕ, ◌+◌, ◌-◌, ◌≤◌, ◌<◌, ◌≡◌, refl, sym, ap, subst, ◌∙◌, String, some, List, [], ◌∷◌, ◌++◌, map,
  if◌then◌else◌, str_eq, lookup, delete, Option-cases, length, IsMap, Lacks, All, All-map, All-perm,
  All-append_right, inl, inr, arith,
}
use runcell.Concurrency.Policy.{ResolvedWorkload, ResolvedLimits}
use runcell.Concurrency.Policy.Valid.{IsValid, Entries}
use runcell.Concurrency.Grants.{
  Waiter, Counts, active_of, total_of, unmet_of, Allocation, sort_by_seq, select_grants, final,
}
use runcell.Concurrency.Grants.Round.{CanGrant}
use runcell.Concurrency.Grants.Capacity.{IsWithin}
use runcell.Concurrency.Grants.Loop.{final-IsWithin}
use runcell.Concurrency.Grants.Waiting.{pending, configured, sort_by_seq-perm}
use runcell.Concurrency.Grants.Order.{IsConfigured, Account, final-Account_sorted}
use runcell.Concurrency.Grants.Idle.{final-IsIdle}
use runcell.Concurrency.Limiter.{
  Options, Limiter, waiters_of, purge_expired, count_slots, give, give_all, arm_expiry_timer,
  schedule,
}
use runcell.Concurrency.Limiter.Slots.{
  Slots, held, Fits, counts_of, IsWithin-Fits, Fits-IsWithin, count_slots-total_of,
}
use runcell.Concurrency.Limiter.Slots.Back.{purge_expired-Fits}
use runcell.Concurrency.Limiter.Give.{Waiters, IsKeyed}
use runcell.Concurrency.Limiter.Rounds.{IsFresh, IsUnique, Given, Ready, give_all-Given}

-- The others' unmet reservations, by a count of each workload's slots.
abbrev pub unmet_except : Entries → (String → ℕ) → String → ℕ
unmet_except [] f except = 0
unmet_except ((k, w) ∷ m) f except =
    (if str_eq k except then 0 else w.reserved - f k) + unmet_except m f except

unmet_of-unmet_except :
    (m : Entries) (active : Counts) (except : String)
    → unmet_of m active except ≡ unmet_except m (λ k. active_of k active) except
unfolding unmet_of
unmet_of-unmet_except [] active except = refl
unmet_of-unmet_except ((k, w) ∷ m) active except =
    ap (λ (n : ℕ). (if str_eq k except then 0 else w.reserved - active_of k active) + n)
      (unmet_of-unmet_except m active except)

-- A request of the workload could have a slot beside the slots that are held.
pub record CanServe (limits : ResolvedLimits) (m : Slots) (w : String) (settings : ResolvedWorkload)
    : Type 0 where
  pub configured : lookup w limits.workloads ≡ some settings
  pub below : held m w < settings.max_concurrent
  pub fits : length m + 1 + unmet_except limits.workloads (held m) w ≤ limits.max_concurrent

-- No waiter could have a slot.
abbrev pub IsServed : ResolvedLimits → Slots → List Waiter → Type 0
IsServed limits m ws =
    All (λ x. (settings : ResolvedWorkload) → ¬ CanServe limits m x.workload settings) ws

CanServe-CanGrant :
    (limits : ResolvedLimits) (m : Slots) (s : Allocation) (w : String)
    (settings : ResolvedWorkload)
    → (λ k. active_of k s.active) ≡ held m
    → s.total ≡ length m
    → CanServe limits m w settings
    → CanGrant limits s w settings
CanServe-CanGrant limits m s w settings e t c = record {
  configured = c.configured;
  below = subst (λ (f : String → ℕ). f w < settings.max_concurrent) (sym e) c.below;
  fits =
      rw (t, unmet_of-unmet_except limits.workloads s.active w)
        (subst
          (λ (f : String → ℕ).
            length m + 1 + unmet_except limits.workloads f w ≤ limits.max_concurrent)
          (sym e) c.fits);
}

-- What `schedule` needs of the state.
pub record Base (uuid : ℕ → String) (o : Options) (st : Limiter) : Type 0 where
  pub fits : Fits o.limits st.slots
  pub keyed : IsKeyed st.waiters
  pub distinct : IsMap st.waiters
  pub known : All (λ w. IsConfigured o.limits w.workload) (waiters_of st.waiters)
  pub fresh : IsFresh uuid st

configured-All :
    (limits : ResolvedLimits) (ws : List Waiter)
    → All (λ w. IsConfigured limits w.workload) ws
    → configured limits ws ≡ ws
configured-All limits [] h = refl
configured-All limits (w ∷ ws) h = rw (h.0, configured-All limits ws h.1)

purge_expired-Lacks : (now : ℕ) (k : String) (m : Slots) → Lacks k m → Lacks k (purge_expired now m)
unfolding purge_expired
purge_expired-Lacks now k [] h = tt
purge_expired-Lacks now k ((j, s) ∷ m) h = ground (arith, purge_expired-Lacks now k m h.1)

empty_total : total_of [] ≡ 0
unfolding total_of
empty_total = refl

module _ (uuid : ℕ → String) (unique : IsUnique uuid) (o : Options) (v : IsValid o.limits) (now : ℕ)
    (st : Limiter) (b : Base uuid o st) where
  abbrev live : Slots
  live = purge_expired now st.slots

  abbrev active : Counts
  active = count_slots live []

  abbrev fin : Allocation
  fin = final o.limits active (waiters_of st.waiters)

  acc : Account o.limits (sort_by_seq (waiters_of st.waiters)) active fin
  acc = final-Account_sorted o.limits active (waiters_of st.waiters)

  sorted_known : All (λ w. IsConfigured o.limits w.workload) (sort_by_seq (waiters_of st.waiters))
  sorted_known =
      All-perm (λ w. IsConfigured o.limits w.workload) (λ w. hlevel) _ _
        (Perm.symm (sort_by_seq-perm (waiters_of st.waiters))) b.known

  ready : Ready uuid (acc.granted ++ pending fin.queues) (record st { slots = live })
  ready = record {
    there =
        Perm.trans
          (subst (Perm (acc.granted ++ pending fin.queues))
            (configured-All o.limits (sort_by_seq (waiters_of st.waiters)) sorted_known)
            acc.waiting)
          (sort_by_seq-perm (waiters_of st.waiters));
    keyed = b.keyed;
    distinct = b.distinct;
    fresh = λ i h. purge_expired-Lacks now (uuid i) st.slots (b.fresh i h);
  }

  abbrev after_rounds : Limiter
  after_rounds = (give_all uuid o now (record st { slots = live }) (map (λ g. g.id) acc.granted)).0

  given : Given uuid acc.granted (pending fin.queues) (record st { slots = live }) after_rounds
  given =
      give_all-Given uuid unique o now acc.granted (pending fin.queues) (record st { slots = live })
        ready

  same_counts : (λ w. active_of w fin.active) ≡ held after_rounds.slots
  same_counts = fun_ext λ w.
      acc.counted w ∙ omega (arith, given.count w, ap (λ (f : String → ℕ). f w) (counts_of live))

  same_total : fin.total ≡ length after_rounds.slots
  same_total = acc.summed ∙ omega (arith, given.size, count_slots-total_of live [], empty_total)

  rounds-Fits : Fits o.limits after_rounds.slots
  rounds-Fits = IsWithin-Fits o.limits after_rounds.slots fin.active same_counts (
      subst (IsWithin o.limits fin.active) same_total
        (final-IsWithin o.limits active (waiters_of st.waiters) v within))
    where
      within : IsWithin o.limits active (total_of active)
      within =
          subst (IsWithin o.limits active)
            (sym (count_slots-total_of live [] ∙ omega (arith, empty_total)))
            (Fits-IsWithin o.limits live active (counts_of live)
              (purge_expired-Fits o.limits v.distinct now st.slots b.fits))

  rounds-IsServed : IsServed o.limits after_rounds.slots (waiters_of after_rounds.waiters)
  rounds-IsServed =
      All-perm
        (λ x.
          (settings : ResolvedWorkload)
          → ¬ CanServe o.limits after_rounds.slots x.workload settings)
        (λ x. Π_prop λ s. ¬_prop) (pending fin.queues) (waiters_of after_rounds.waiters) given.left
        (All-map
          (λ x idle settings c. idle settings (
            CanServe-CanGrant o.limits after_rounds.slots fin x.workload settings same_counts
              same_total c))
          (pending fin.queues) (final-IsIdle o.limits active (waiters_of st.waiters)))

  rounds_known : All (λ w. IsConfigured o.limits w.workload) (waiters_of after_rounds.waiters)
  rounds_known =
      All-perm (λ w. IsConfigured o.limits w.workload) (λ w. hlevel) (pending fin.queues)
        (waiters_of after_rounds.waiters) given.left
        (All-append_right (λ w. IsConfigured o.limits w.workload) acc.granted (pending fin.queues)
          (All-perm (λ w. IsConfigured o.limits w.workload) (λ w. hlevel) _ _
            (Perm.symm ready.there) b.known))

  ids_lem : select_grants o.limits active (waiters_of st.waiters) ≡ map (λ g. g.id) acc.granted
  unfolding select_grants
  ids_lem = acc.ids

  schedule_lem : (schedule uuid o now st).0 ≡ arm_expiry_timer now after_rounds
  unfolding schedule
  schedule_lem =
      ap
        (λ (ids : List String).
          arm_expiry_timer now (give_all uuid o now (record st { slots = live }) ids).0)
        ids_lem

  -- After `schedule` every ceiling and reservation is kept, the waiters stay well-formed, and no waiter could have a slot.
  pub schedule-Base :
      Base uuid o (schedule uuid o now st).0
      × IsServed o.limits
          (schedule uuid o now st).0.slots
          (waiters_of (schedule uuid o now st).0.waiters)
      × ((schedule uuid o now st).0.seq ≡ st.seq)
      × (st.drawn ≤ (schedule uuid o now st).0.drawn)
  unfolding arm_expiry_timer
  schedule-Base =
      subst
        (λ (x : Limiter).
          Base uuid o x
          × IsServed o.limits x.slots (waiters_of x.waiters)
          × (x.seq ≡ st.seq)
          × (st.drawn ≤ x.drawn))
        (sym schedule_lem)
        (
          record {
            fits = rounds-Fits;
            keyed = given.keyed;
            distinct = given.distinct;
            known = rounds_known;
            fresh = given.fresh;
          },
          rounds-IsServed,
          given.seq,
          given.later,
        )

-- Whatever holds of the waiters and of any waiters less one, `schedule` keeps.
module _ (uuid : ℕ → String) (o : Options) (now : ℕ) (P : Waiters → Type 0)
    (less : (k : String) (m : Waiters) → P m → P (delete k m)) where
  give_keeps : (st : Limiter) (id : String) → P st.waiters → P (give uuid o now st id).0.waiters
  unfolding give
  give_keeps st id p = elim (Option-cases (lookup id st.waiters)) [
    | inl gone ↦ rw (gone, give) p
    | inr (e, found) ↦ rw (found, give) (less id st.waiters p)
  ]

  give_all_keeps :
      (st : Limiter) (ids : List String) → P st.waiters → P (give_all uuid o now st ids).0.waiters
  unfolding give_all
  give_all_keeps st [] p = p
  give_all_keeps st (id ∷ ids) p = give_all_keeps (give uuid o now st id).0 ids (give_keeps st id p)

  pub schedule_keeps : (st : Limiter) → P st.waiters → P (schedule uuid o now st).0.waiters
  unfolding schedule arm_expiry_timer
  schedule_keeps st p = give_all_keeps (record st { slots = purge_expired now st.slots }) _ p
