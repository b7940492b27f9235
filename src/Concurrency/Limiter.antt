-- ===== src/Concurrency/Limiter.antt =====
-- packages/agent/src/concurrency-limiter.ts: the in-process limiter. Its operations run to their end
-- on the event loop, so each is one function from a state to a state and what it settles. A call
-- reads the clock once, at its start. `randomUUID` is the parameter `uuid`, the ids in the order in
-- which they are drawn. Promises are identified by the id of their waiter.
pub mod Stats
pub mod Slots
pub mod Give
pub mod Rounds
pub mod Schedule
pub mod Invariant
pub mod Preserve
pub mod Operations
pub mod Safety
pub mod Served
pub mod Queue
pub mod Timer
pub mod Holding
pub mod Answers
use runcell.Prelude.{
  ℕ, suc, ◌+◌, ◌-◌, ◌≤◌, String, Bool, true, false, Option, none, some, List, [], ◌∷◌, ◌++◌, ltb,
  leb, not, min, max, if◌then◌else◌, str_eq, lookup, insert, delete, values, or_else, is_some,
  length, Result, ok, err, ◌>>=◌, ◌>>◌, throw_if, pos, ◌&&◌, ℤ, map,
}
use runcell.Js.{Value, undefined, null, number, string, object, Fields, get, is_safe}
use runcell.Concurrency.Policy.{
  ResolvedWorkload, ResolvedLimits, ConfigError, Message, fail_with, nullish, resolve_limits,
  resolve_workload, name_not_string, ttl_not_positive, as_record, options_not_object,
}
use runcell.Concurrency.Grants.{Waiter, Counts, active_of, select_grants}

-- What `createConcurrencyLimiter` fixes.
pub record Options : Type 0 where
  pub limits : ResolvedLimits
  pub name : String
  pub lease_ttl_ms : ℕ

pub record Slot : Type 0 where
  pub id : String
  pub workload : String
  pub expires_at : ℕ

-- A waiter, with the time at which it was enqueued and that at which its own timer fires, once that
-- is set.
pub record Entry : Type 0 where
  pub waiter : Waiter
  pub enqueued_at : ℕ
  pub wait_until : Option ℕ

pub record Limiter : Type 0 where
  pub slots : List (String × Slot)
  pub waiters : List (String × Entry)
  pub expiry_timer : Option ℕ
  pub seq : ℕ
  pub drawn : ℕ

-- `ConcurrencyLease`.
pub record Lease : Type 0 where
  pub id : String
  pub workload : String
  pub ttl_ms : ℕ

pub data Rejection : Type 0 where
  config : ConfigError → Rejection
  aborted : Value → Rejection
  queue_full : ℕ → String → Rejection
  timed_out : ℕ → String → Rejection

pub data Settlement : Type 0 where
  granted : Lease → Settlement
  rejected : Rejection → Settlement

-- `refused` is the rejection of an `acquire` that never became a waiter.
pub data Event : Type 0 where
  refused : Rejection → Event
  settled : String → Settlement → Event

-- `ConcurrencyRequest`, with the reason of a signal that is aborted already.
pub record Request : Type 0 where
  pub workload : Option String
  pub timeout_ms : Option ℕ
  pub aborted : Option Value

abbrev pub empty : Limiter
empty = record { slots = []; waiters = []; expiry_timer = none; seq = 0; drawn = 0 }

abbrev pub name_of : Value → ConfigError → Result ConfigError String
name_of (string s) e = if str_eq s "" then err e else ok s
name_of value e = err e

unfoldable pub ttl_of : Value → ConfigError → Result ConfigError ℕ
ttl_of (number (pos n)) e = if is_safe (pos n) && ltb 0 n then ok n else err e
ttl_of value e = err e

-- The settings of `createConcurrencyLimiter`; the limiter starts `empty`.
unfoldable pub create : Value → Result ConfigError Options
unfolding ttl_of
create options = do
  limits ← resolve_limits options
  fs ← as_record options (fail_with options_not_object none)
  name ← name_of (nullish (get fs "name") (string "default")) (fail_with name_not_string none)
  ttl ←
      ttl_of (nullish (get fs "leaseTtlMs") (number (pos 30000)))
        (record { message = ttl_not_positive; workload = none; limiter = some name })
  ok (record { limits = limits; name = name; lease_ttl_ms = ttl })

-- `purgeExpired`. A slot is stored under its own id, so the entry visited is the one deleted.
unfoldable pub purge_expired : ℕ → List (String × Slot) → List (String × Slot)
purge_expired now [] = []
purge_expired now ((k, slot) ∷ m) =
    if leb slot.expires_at now then purge_expired now m else (k, slot) ∷ purge_expired now m

-- `toLease`. `-` stops at 0, below the source's lower bound of 1.
unfoldable pub to_lease : ℕ → Slot → Lease
to_lease now slot = record {
  id = slot.id;
  workload = slot.workload;
  ttl_ms = max 1 (slot.expires_at - now);
}

-- The earliest expiry.
unfoldable pub earliest : List (String × Slot) → Option ℕ
earliest [] = none
earliest ((k, slot) ∷ m) = elim (earliest m) [
  | none ↦ some slot.expires_at
  | some t ↦ some (min slot.expires_at t)
]

abbrev pub is_empty {ℓ} : {A : Type ℓ} → List A → Bool
is_empty [] = true
is_empty (x ∷ xs) = false

-- `armExpiryTimer`: the time at which the timer fires.
unfoldable pub arm_expiry_timer : ℕ → Limiter → Limiter
unfolding earliest
arm_expiry_timer now st = record st {
  expiry_timer =
      if is_empty st.waiters
      then none
      else elim (earliest st.slots) [ none ↦ none | some next ↦ some (max now next) ];
}

-- The active counts that `schedule` hands to the allocator.
unfoldable pub count_slots : List (String × Slot) → Counts → Counts
count_slots [] active = active
count_slots ((k, slot) ∷ m) active =
    count_slots m (insert slot.workload (active_of slot.workload active + 1) active)

abbrev pub waiters_of : List (String × Entry) → List Waiter
waiters_of m = map (λ e. e.waiter) (values m)

module _ (uuid : ℕ → String) where
  -- One round of the loop of `schedule` over the granted ids.
  unfoldable pub give : Options → ℕ → Limiter → String → Limiter × List Event
  unfolding to_lease
  give o now st id = elim (lookup id st.waiters) [
    | none ↦ (st, [])
    | some e ↦
        let slot : Slot = record {
          id = uuid st.drawn;
          workload = e.waiter.workload;
          expires_at = now + o.lease_ttl_ms;
        } in
        (
          record st {
            slots = insert slot.id slot st.slots;
            waiters = delete id st.waiters;
            drawn = suc st.drawn;
          },
          settled id (granted (to_lease now slot)) ∷ [],
        )
  ]

  unfoldable pub give_all : Options → ℕ → Limiter → List String → Limiter × List Event
  give_all o now st [] = (st, [])
  give_all o now st (id ∷ ids) =
      let (st', es) = give o now st id in
      let (st'', fs) = give_all o now st' ids in (st'', es ++ fs)

  unfoldable pub schedule : Options → ℕ → Limiter → Limiter × List Event
  schedule o now st =
      let live = purge_expired now st.slots in
      let ids = select_grants o.limits (count_slots live []) (waiters_of st.waiters) in
      let (st', es) = give_all o now (record st { slots = live }) ids in
      (arm_expiry_timer now st', es)
