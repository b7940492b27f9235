-- ===== src/Concurrency/Limiter/Safety.antt =====
-- The in-process limiter on histories of calls, signals and timers
-- (packages/agent/src/concurrency-limiter.ts).
use runcell.Prelude.{
  ℕ, ◌≤◌, ◌<◌, ◌≡◌, subst, none, some, pos, String, List, [], ◌∷◌, ok, >>=-eq-ok, ok_injective,
  AllEntries, arith,
}
use runcell.Js.{Value, get, string, number, is_safe}
use runcell.Concurrency.Policy.{
  ConfigError, nullish, fail_with, name_not_string, ttl_not_positive, resolve_limits, as_record,
}
use runcell.Concurrency.Policy.Valid.{Entries, IsValid, reservations, resolve_limits-IsValid}
use runcell.Concurrency.Limiter.{Options, create, empty, name_of, ttl_of, waiters_of}
use runcell.Concurrency.Limiter.Operations.{Call, run}
use runcell.Concurrency.Limiter.Slots.{held, unmet_by, Fits}
use runcell.Concurrency.Limiter.Rounds.{IsUnique}
use runcell.Concurrency.Limiter.Invariant.{Inv, IsByAge}
use runcell.Concurrency.Limiter.Preserve.{run-Inv}

ttl_of-pos : (v : Value) (e : ConfigError) (n : ℕ) → ttl_of v e ≡ ok n → 0 < n
unfolding ttl_of is_safe
ttl_of-pos v e n h = ground arith

pub create-ttl : (options : Value) (o : Options) → create options ≡ ok o → 0 < o.lease_ttl_ms
unfolding create
create-ttl options o e =
    let (limits, _, e₁) = >>=-eq-ok (resolve_limits options) _ e in
    let (fs, _, e₂) = >>=-eq-ok (as_record options _) _ e₁ in
    let (name, _, e₃) =
      >>=-eq-ok
        (name_of (nullish (get fs "name") (string "default")) (fail_with name_not_string none)) _
        e₂ in
    let ttl_error : ConfigError = record {
      message = ttl_not_positive;
      workload = none;
      limiter = some name;
    } in
    let (ttl, positive, e₄) =
      >>=-eq-ok (ttl_of (nullish (get fs "leaseTtlMs") (number (pos 30000))) ttl_error) _ e₃ in
    subst (λ (x : Options). 0 < x.lease_ttl_ms) (ok_injective _ o e₄)
      (ttl_of-pos (nullish (get fs "leaseTtlMs") (number (pos 30000))) ttl_error ttl positive)

pub create-IsValid : (options : Value) (o : Options) → create options ≡ ok o → IsValid o.limits
unfolding create
create-IsValid options o e =
    let (limits, valid, e₁) = >>=-eq-ok (resolve_limits options) _ e in
    let (fs, _, e₂) = >>=-eq-ok (as_record options _) _ e₁ in
    let (name, _, e₃) =
      >>=-eq-ok
        (name_of (nullish (get fs "name") (string "default")) (fail_with name_not_string none)) _
        e₂ in
    let (ttl, _, e₄) =
      >>=-eq-ok (ttl_of (nullish (get fs "leaseTtlMs") (number (pos 30000))) _) _ e₃ in
    subst (λ (x : Options). IsValid x.limits) (ok_injective _ o e₄)
      (resolve_limits-IsValid options limits valid)

no_ceiling : (m : Entries) → AllEntries (λ k w. held [] k ≤ w.max_concurrent) m
no_ceiling [] = tt
no_ceiling ((k, w) ∷ m) = (omega arith, no_ceiling m)

unmet_by_none : (m : Entries) → unmet_by m (held []) ≡ reservations m
unmet_by_none [] = omega arith
unmet_by_none ((k, w) ∷ m) = omega (arith, unmet_by_none m)

pub empty-Inv : (uuid : ℕ → String) (o : Options) → IsValid o.limits → Inv uuid o empty
empty-Inv uuid o v = record {
  base = record {
    fits = record {
      ceilings = no_ceiling o.limits.workloads;
      room = omega (arith, unmet_by_none o.limits.workloads, v.reserved_fits);
    };
    keyed = tt;
    distinct = tt;
    known = tt;
    fresh = λ i h. tt;
  };
  unseen = λ i h. tt;
  ages = tt;
  young = tt;
}

module _ (uuid : ℕ → String) (unique : IsUnique uuid) (options : Value) (o : Options)
    (made : create options ≡ ok o) (cs : List (ℕ × Call)) where
  pub history-Inv : Inv uuid o (run uuid o empty cs)
  history-Inv =
      run-Inv uuid unique o (create-IsValid options o made) empty cs
        (empty-Inv uuid o (create-IsValid options o made))

  -- Where `randomUUID` never repeats an id: after any history of calls, signals and timers on a
  -- limiter whose settings pass validation, no workload holds more slots than its ceiling, and all
  -- slots together leave room, below the limiter's ceiling, for every reservation not yet met.
  pub run-Fits : Fits o.limits (run uuid o empty cs).slots
  run-Fits = history-Inv.base.fits

  -- Under the same conditions the waiters are kept in the order of their arrival, strictly.
  pub run-IsByAge : IsByAge (waiters_of (run uuid o empty cs).waiters)
  run-IsByAge = history-Inv.ages
