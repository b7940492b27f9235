-- ===== src/Concurrency/Permit.antt =====
-- packages/agent/src/concurrency-controller.ts: a permit, the slot of one provider request, from the
-- grant of its lease to its release (createPermit). Its timers and the answers of the limiter arrive
-- one at a time, each at a time of the monotonic clock, in units in which all times are whole.
pub mod Once
pub mod Renewal
pub mod Timely
use runcell.Prelude.{
  ℕ, ◌+◌, ◌-◌, ◌/◌, String, Bool, true, false, Option, none, some, List, [], ◌∷◌, ◌++◌, ltb, leb,
  min, not, ◌&&◌, if◌then◌else◌, str_eq, or_else, is_some,
}

-- `ConcurrencyLease`, as the permit reads it.
pub record Grant : Type 0 where
  pub id : String
  pub ttl_ms : ℕ
  pub renew_after_ms : Option ℕ

-- What a call of the limiter's `renew` settles to: nothing, a lease, a value that is none, or a
-- rejection.
pub data Answer : Type 0 where
  gone malformed rejected : Answer
  renewed : Grant → Answer

-- `ConcurrencyReleaseOutcome`.
pub data Outcome : Type 0 where
  completed failed cancelled lease_lost : Outcome

-- The classes of the error that stops a run.
pub data Failure : Type 0 where
  timeout queue_full config limiter lost : Failure

-- What the permit does to the limiter, and the events that it emits.
pub data Effect : Type 0 where
  calls_renew calls_release : String → Effect
  emits_renewal_failed emits_release_failed : String → Effect
  emits_lease_lost : String → ℕ → Effect
  emits_released : String → ℕ → Outcome → Effect

-- The variables of the closure: the renewal in flight by the time at which it was sent, and the
-- release by its outcome, whether its call has settled, and whether the request was aborted.
pub record Permit : Type 0 where
  pub acquired_at : ℕ
  pub current : Grant
  pub local_expiry : ℕ
  pub renew_timer : Option ℕ
  pub renewing : Option ℕ
  pub releasing : Option Outcome
  pub settled : Bool
  pub revoked : Bool
  pub listed : Bool
  pub failure : Option Failure

pub data Input : Type 0 where
  timer_fires : Input
  answers : Answer → Input
  renewal_times_out : Input
  request_ends : Outcome → Input
  release_settles : Bool → Input

abbrev pub retry_max_ms : ℕ
retry_max_ms = 1000

-- `isValidLease` of a lease.
abbrev pub is_valid_lease : Grant → Bool
is_valid_lease lease = not (str_eq lease.id "") && ltb 0 lease.ttl_ms

-- `renewAfterMs ?? ttlMs / 2`; a timer counts whole units.
abbrev pub renewal_delay : Grant → ℕ
renewal_delay lease = or_else lease.renew_after_ms (lease.ttl_ms / 2)

-- `createPermit`.
abbrev pub create_permit : ℕ → Option Failure → Grant → Permit
create_permit now failure granted = record {
  acquired_at = now;
  current = granted;
  local_expiry = now + granted.ttl_ms;
  renew_timer = some (now + renewal_delay granted);
  renewing = none;
  releasing = none;
  settled = false;
  revoked = false;
  listed = true;
  failure = failure;
}

-- `release`.
unfoldable pub release_with : Outcome → Permit → Permit × List Effect
release_with outcome p = if is_some p.releasing then (p, []) else (
  record p { renew_timer = none; listed = false; releasing = some outcome },
  calls_release p.current.id ∷ [],
)

-- `failure ??= error`.
abbrev pub fail : Failure → Option Failure → Option Failure
fail f none = some f
fail f (some g) = some g

-- `lose`.
unfoldable pub lose : ℕ → Permit → Permit × List Effect
unfolding release_with
lose now p =
    if is_some p.releasing
    then (p, [])
    else let (p', es) =
        release_with lease_lost (record p { failure = fail lost p.failure; revoked = true }) in
      (p', emits_lease_lost p.current.id (now - p.acquired_at) ∷ es)

-- The `catch` of `renew`.
unfoldable pub retry : ℕ → Permit → Permit × List Effect
unfolding lose
retry now p =
    if is_some p.releasing
    then (p, [])
    else let report = emits_renewal_failed p.current.id in
      if leb p.local_expiry now then (let (p', es) = lose now p in (p', report ∷ es)) else (
        record p { renew_timer = some (now + min retry_max_ms ((p.local_expiry - now) / 2)) },
        report ∷ [],
      )

-- `renew`, up to its call of the limiter.
unfoldable pub start_renewal : ℕ → Permit → Permit × List Effect
unfolding lose
start_renewal now p =
    if is_some p.releasing
    then (p, [])
    else if leb p.local_expiry now
    then lose now p
    else (record p { renewing = some now }, calls_renew p.current.id ∷ [])

-- `renew` after a lease was returned for a call sent at `sent`.
unfoldable pub accept : ℕ → ℕ → Grant → Permit → Permit × List Effect
unfolding retry
accept now sent next p =
    if is_valid_lease next && str_eq next.id p.current.id
    then (
      record p {
        current = next;
        local_expiry = sent + next.ttl_ms;
        renew_timer = some (now + renewal_delay next);
      },
      [],
    )
    else retry now p

-- `renew` after the call has settled.
unfoldable pub finish_renewal : ℕ → ℕ → Answer → Permit → Permit × List Effect
unfolding lose accept retry
finish_renewal now sent gone p = lose now p
finish_renewal now sent (renewed next) p =
    if is_some p.releasing then (p, []) else accept now sent next p
finish_renewal now sent malformed p = retry now p
finish_renewal now sent rejected p = retry now p

abbrev pub outcome_events : ℕ → Bool → Outcome → Permit → List Effect
outcome_events now true outcome p = emits_released p.current.id (now - p.acquired_at) outcome ∷ []
outcome_events now false outcome p =
    emits_release_failed p.current.id
    ∷ emits_released p.current.id (now - p.acquired_at) outcome
    ∷ []

-- One input: what it finds nobody waiting for is dropped.
unfoldable pub step : Permit → ℕ × Input → Permit × List Effect
unfolding start_renewal finish_renewal retry release_with
step p (now, timer_fires) = elim p.renew_timer [
  | none ↦ (p, [])
  | some due ↦ start_renewal now (record p { renew_timer = none })
]
step p (now, answers answer) = elim p.renewing [
  | none ↦ (p, [])
  | some sent ↦ finish_renewal now sent answer (record p { renewing = none })
]
step p (now, renewal_times_out) = elim p.renewing [
  | none ↦ (p, [])
  | some sent ↦ retry now (record p { renewing = none })
]
step p (now, request_ends outcome) = release_with outcome p
step p (now, release_settles well) = elim p.releasing [
  | none ↦ (p, [])
  | some outcome ↦
      if p.settled
      then (p, [])
      else (record p { settled = true }, outcome_events now well outcome p)
]

unfoldable pub steps : Permit → List (ℕ × Input) → Permit × List Effect
unfolding step
steps p [] = (p, [])
steps p (i ∷ is) = let (p', es) = step p i in let (p'', fs) = steps p' is in (p'', es ++ fs)
