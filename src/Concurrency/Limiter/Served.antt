-- ===== src/Concurrency/Limiter/Served.antt =====
-- The waiters that the in-process limiter leaves (packages/agent/src/concurrency-limiter.ts).
use mathlib.Core.Path.{fun_ext}
use runcell.Prelude.{
  ℕ, ◌+◌, ◌≤◌, ◌<◌, ◌≡◌, refl, subst, String, Option, none, some, List, [], ◌∷◌, lookup, insert,
  delete, length, is_some, All-map, Bool-cases, Option-cases, inl, inr, leb, Result, ok, err,
}
use runcell.Js.{Value}
use runcell.Concurrency.Policy.{ResolvedWorkload, ResolvedLimits, ConfigError, resolve_workload}
use runcell.Concurrency.Policy.Valid.{IsValid}
use runcell.Concurrency.Limiter.{
  Options, Slot, Limiter, Request, Rejection, empty, create, waiters_of, arm_expiry_timer, schedule,
}
use runcell.Concurrency.Limiter.Operations.{
  over, min_defined, settle_in, drop_waiter, on_abort, on_wait_timeout, wait_for, acquire, resolved,
  on_expiry_timer, renew, release, Call, acquires, aborts, times_out, expires, renews, releases,
  handle, run,
}
use runcell.Concurrency.Limiter.Slots.{Slots, held}
use runcell.Concurrency.Limiter.Slots.Back.{held-insert, length-insert}
use runcell.Concurrency.Limiter.Rounds.{IsUnique}
use runcell.Concurrency.Limiter.Schedule.{CanServe, IsServed, unmet_except, schedule-Base}
use runcell.Concurrency.Limiter.Invariant.{Inv, All-delete}
use runcell.Concurrency.Limiter.Preserve.{
  waiters_of-insert, timer-Inv, join-Inv, released-Inv, resolve_workload-IsConfigured, handle-Inv,
}
use runcell.Concurrency.Limiter.Safety.{create-IsValid, empty-Inv}

renewed-CanServe :
    (limits : ResolvedLimits) (id : String) (s t : Slot) (m : Slots) (w : String)
    (settings : ResolvedWorkload)
    → lookup id m ≡ some s
    → t.workload ≡ s.workload
    → CanServe limits (insert id t m) w settings
    → CanServe limits m w settings
renewed-CanServe limits id s t m w settings found same c =
    let counts =
      fun_ext {f = held (insert id t m)} {g = held m} (λ k. held-insert id s t m k found same) in
    record {
      configured = c.configured;
      below = subst (λ (h : String → ℕ). h w < settings.max_concurrent) counts c.below;
      fits = rw (← length-insert id s t m found) (
          subst
            (λ (h : String → ℕ).
              length (insert id t m) + 1 + unmet_except limits.workloads h w
              ≤ limits.max_concurrent)
            counts c.fits);
    }

module _ (uuid : ℕ → String) (unique : IsUnique uuid) (o : Options) (valid : IsValid o.limits) where
  abbrev AllServed : Limiter → Type 0
  AllServed st = IsServed o.limits st.slots (waiters_of st.waiters)

  scheduled : (now : ℕ) (st : Limiter) → Inv uuid o st → AllServed (schedule uuid o now st).0
  scheduled now st v = (schedule-Base uuid unique o valid now st v.base).1

  armed : (now : ℕ) (st : Limiter) → AllServed st → AllServed (arm_expiry_timer now st)
  unfolding arm_expiry_timer
  armed now st h = h

  left :
      (id : String) (st : Limiter)
      → AllServed st
      → AllServed (record st { waiters = delete id st.waiters })
  left id st h =
      All-delete
        (λ x. (settings : ResolvedWorkload) → ¬ CanServe o.limits st.slots x.workload settings) id
        st.waiters h

  dropped :
      (now : ℕ) (id : String) (why : Rejection) (st : Limiter)
      → AllServed st
      → AllServed (drop_waiter now id why st).0
  unfolding drop_waiter
  dropped now id why st h = armed now _ (left id st h)

  settled_in :
      (now : ℕ) (request : Request) (w : String) (settings : ResolvedWorkload) (id : String)
      (st : Limiter)
      → AllServed st
      → AllServed (settle_in o now request w settings id st).0
  unfolding settle_in
  settled_in now request w settings id st h = elim (Option-cases (lookup id st.waiters)) [
    | inl gone ↦ rw (gone, settle_in) h
    | inr (e, found) ↦ elim (Bool-cases (over o.limits.max_queued (length st.waiters))) [
      | inl full ↦ rw (found, full, settle_in) (armed now _ (left id st h))
      | inr room ↦ elim (Option-cases (min_defined request.timeout_ms settings.max_wait_ms)) [
        | inl forever ↦ rw (found, room, forever, settle_in) h
        | inr (wait, limited) ↦
            rw
              (
                found,
                room,
                limited,
                settle_in,
                waiters_of-insert id e
                    (record e { enqueued_at = now; wait_until = some (now + wait) }) st.waiters
                    found refl,
              )
              h
      ]
    ]
  ]

  acquired :
      (now : ℕ) (request : Request) (st : Limiter)
      → Inv uuid o st
      → AllServed st
      → AllServed (acquire uuid o now request st).0
  unfolding acquire wait_for
  acquired now request st v h = go (resolve_workload o.limits request.workload) refl request.aborted
    where
      go :
          (r : Result ConfigError (String × ResolvedWorkload))
          → resolve_workload o.limits request.workload ≡ r
          → (a : Option Value)
          → AllServed (resolved uuid o now (record request { aborted = a }) st r).0
      go (err e) k a = h
      go (ok (w, settings)) k (some reason) = h
      go (ok (w, settings)) k none = settled_in now _ w settings (uuid st.drawn) _ (
          scheduled now _ (
            join-Inv uuid unique o valid now w st
              (resolve_workload-IsConfigured o.limits request.workload (w, settings) k) v))

  aborted_lem :
      (now : ℕ) (id : String) (reason : Value) (st : Limiter)
      → AllServed st
      → AllServed (on_abort now id reason st).0
  unfolding on_abort
  aborted_lem now id reason st h = elim (Bool-cases (is_some (lookup id st.waiters))) [
    | inl there ↦ rw there (dropped now id (Rejection.aborted reason) st h)
    | inr gone ↦ rw gone h
  ]

  waited :
      (now : ℕ) (id : String) (st : Limiter)
      → AllServed st
      → AllServed (on_wait_timeout now id st).0
  unfolding on_wait_timeout
  waited now id st h = elim (Option-cases (lookup id st.waiters)) [
    | inl gone ↦ rw (gone, on_wait_timeout) h
    | inr (e, found) ↦ rw (found, on_wait_timeout) (dropped now id _ st h)
  ]

  renewed :
      (now : ℕ) (id : String) (st : Limiter)
      → Inv uuid o st
      → AllServed st
      → AllServed (renew uuid o now id st).1
  unfolding renew
  renewed now id st v h = elim (Option-cases (lookup id st.slots)) [
    | inl gone ↦ rw (gone, renew) (scheduled now st v)
    | inr (slot, found) ↦ elim (Bool-cases (leb slot.expires_at now)) [
      | inl old ↦ rw (found, old, renew) (scheduled now st v)
      | inr live ↦
          rw (found, live, renew)
            (armed now _ (
              All-map
                (λ x no settings c.
                  no settings
                    (renewed-CanServe o.limits id slot _ st.slots x.workload settings found refl c))
                (waiters_of st.waiters) h))
    ]
  ]

  handled :
      (st : Limiter) (c : ℕ × Call)
      → Inv uuid o st
      → AllServed st
      → AllServed (handle uuid o st c).0
  unfolding handle on_expiry_timer release
  handled st (now, acquires request) v h = acquired now request st v h
  handled st (now, aborts id reason) v h = aborted_lem now id reason st h
  handled st (now, times_out id) v h = waited now id st h
  handled st (now, expires) v h = scheduled now _ (timer-Inv uuid o st v)
  handled st (now, renews id) v h = renewed now id st v h
  handled st (now, releases id) v h = scheduled now _ (released-Inv uuid unique o valid id st v)

  runs :
      (st : Limiter) (cs : List (ℕ × Call))
      → Inv uuid o st
      → AllServed st
      → AllServed (run uuid o st cs)
  unfolding run
  runs st [] v h = h
  runs st (c ∷ cs) v h =
      runs (handle uuid o st c).0 cs (handle-Inv uuid unique o valid st c v) (handled st c v h)

-- Where `randomUUID` never repeats an id: after any history of calls, signals and timers on a
-- limiter whose settings pass validation, no waiter is left whose workload is below its ceiling and
-- whose slot would fit beside the slots held and the other workloads' unmet reservations.
pub run-IsServed :
    (uuid : ℕ → String)
    → IsUnique uuid
    → (options : Value) (o : Options) → create options ≡ ok o
    → (cs : List (ℕ × Call))
    → IsServed o.limits (run uuid o empty cs).slots (waiters_of (run uuid o empty cs).waiters)
run-IsServed uuid unique options o made cs =
    let valid = create-IsValid options o made in
    runs uuid unique o valid empty cs (empty-Inv uuid o valid) tt
