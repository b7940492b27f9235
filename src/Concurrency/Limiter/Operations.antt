-- ===== src/Concurrency/Limiter/Operations.antt =====
-- The operations of the in-process limiter, its timer callbacks, and histories of them
-- (packages/agent/src/concurrency-limiter.ts).
use runcell.Prelude.{
  ℕ, suc, ◌+◌, ◌-◌, String, Bool, false, Option, none, some, List, [], ◌∷◌, ◌++◌, ltb, leb, min,
  if◌then◌else◌, lookup, insert, delete, or_else, is_some, length, Result, ok, err,
}
use runcell.Js.{Value}
use runcell.Concurrency.Policy.{ResolvedWorkload, ConfigError, resolve_workload}
use runcell.Concurrency.Limiter.{
  Options, Slot, Limiter, Lease, Rejection, config, aborted, queue_full, timed_out, Event, rejected,
  refused, settled, Request, to_lease, arm_expiry_timer, schedule,
}

-- `limits.maxQueued !== undefined && waiters.size > limits.maxQueued`.
abbrev pub over : Option ℕ → ℕ → Bool
over none n = false
over (some most) n = ltb most n

pub data Call : Type 0 where
  acquires : Request → Call
  aborts : String → Value → Call
  times_out : String → Call
  expires : Call
  renews releases : String → Call

-- `configError`.
abbrev pub config_error : Options → ConfigError → ConfigError
config_error o e = record { message = e.message; workload = e.workload; limiter = some o.name }

-- `minDefined`.
abbrev pub min_defined : Option ℕ → Option ℕ → Option ℕ
min_defined none b = b
min_defined (some a) none = some a
min_defined (some a) (some b) = some (min a b)

-- What `acquire` does once its waiter was not granted at once: the bound on the queue, and the
-- waiter's own timer.
unfoldable pub settle_in :
    Options → ℕ → Request → String → ResolvedWorkload → String → Limiter → Limiter × List Event
settle_in o now request workload settings id st = elim (lookup id st.waiters) [
  | none ↦ (st, [])
  | some e ↦
      if over o.limits.max_queued (length st.waiters)
      then (
        arm_expiry_timer now (record st { waiters = delete id st.waiters }),
        settled id (rejected (queue_full (or_else o.limits.max_queued 0) workload)) ∷ [],
      )
      else elim (min_defined request.timeout_ms settings.max_wait_ms) [
        | none ↦ (st, [])
        | some wait ↦ (
          record st {
            waiters =
                insert id (record e { enqueued_at = now; wait_until = some (now + wait) })
                  st.waiters;
          },
          [],
        )
      ]
]

-- The end of a wait by its signal or its timer: `waiters.delete`, `settle`, `armExpiryTimer`.
unfoldable pub drop_waiter : ℕ → String → Rejection → Limiter → Limiter × List Event
drop_waiter now id why st = (
  arm_expiry_timer now (record st { waiters = delete id st.waiters }),
  settled id (rejected why) ∷ [],
)

-- `onAbort`.
unfoldable pub on_abort : ℕ → String → Value → Limiter → Limiter × List Event
on_abort now id reason st =
    if is_some (lookup id st.waiters) then drop_waiter now id (aborted reason) st else (st, [])

-- The callback of a waiter's own timer.
unfoldable pub on_wait_timeout : ℕ → String → Limiter → Limiter × List Event
on_wait_timeout now id st = elim (lookup id st.waiters) [
  | none ↦ (st, [])
  | some e ↦ drop_waiter now id (timed_out (now - e.enqueued_at) e.waiter.workload) st
]

module _ (uuid : ℕ → String) where
  -- The new waiter, before it is scheduled.
  unfoldable pub join : ℕ → String → Limiter → Limiter
  join now workload st = record st {
    waiters =
        insert (uuid st.drawn)
          (record {
            waiter = record { id = uuid st.drawn; workload = workload; seq = st.seq + 1 };
            enqueued_at = now;
            wait_until = none;
          })
          st.waiters;
    seq = st.seq + 1;
    drawn = suc st.drawn;
  }

  -- `acquire` for a request whose workload is resolved and whose signal has not fired.
  unfoldable pub wait_for :
      Options → ℕ → Request → String → ResolvedWorkload → Limiter → Limiter × List Event
  wait_for o now request workload settings st =
      let (st', es) = schedule uuid o now (join now workload st) in
      let (st'', fs) = settle_in o now request workload settings (uuid st.drawn) st' in
      (st'', es ++ fs)

  abbrev pub unless_aborted :
      Options
      → ℕ
      → Request
      → Limiter
      → String
      → ResolvedWorkload
      → Option Value
      → Limiter × List Event
  unless_aborted o now request st workload settings none =
      wait_for o now request workload settings st
  unless_aborted o now request st workload settings (some reason) =
      (st, refused (aborted reason) ∷ [])

  abbrev pub resolved :
      Options
      → ℕ
      → Request
      → Limiter
      → Result ConfigError (String × ResolvedWorkload)
      → Limiter × List Event
  resolved o now request st (err e) = (st, refused (config (config_error o e)) ∷ [])
  resolved o now request st (ok (workload, settings)) =
      unless_aborted o now request st workload settings request.aborted

  unfoldable pub acquire : Options → ℕ → Request → Limiter → Limiter × List Event
  acquire o now request st = resolved o now request st (resolve_workload o.limits request.workload)

  -- The callback of the expiry timer.
  unfoldable pub on_expiry_timer : Options → ℕ → Limiter → Limiter × List Event
  on_expiry_timer o now st = schedule uuid o now (record st { expiry_timer = none })

  -- `renew`: the extended lease, or none when the slot is gone.
  unfoldable pub renew : Options → ℕ → String → Limiter → Option Lease × Limiter × List Event
  renew o now id st = elim (lookup id st.slots) [
    | none ↦ let (st', es) = schedule uuid o now st in (none, st', es)
    | some slot ↦
        if leb slot.expires_at now
        then (let (st', es) = schedule uuid o now st in (none, st', es))
        else let slot' : Slot = record slot { expires_at = now + o.lease_ttl_ms } in
          (
            some (to_lease now slot'),
            arm_expiry_timer now (record st { slots = insert id slot' st.slots }),
            [],
          )
  ]

  unfoldable pub release : Options → ℕ → String → Limiter → Limiter × List Event
  release o now id st = schedule uuid o now (record st { slots = delete id st.slots })

  -- One run of the event loop: a call of an agent, or a signal or timer that fires.
  unfoldable pub handle : Options → Limiter → ℕ × Call → Limiter × List Event
  handle o st (now, acquires request) = acquire o now request st
  handle o st (now, aborts id reason) = on_abort now id reason st
  handle o st (now, times_out id) = on_wait_timeout now id st
  handle o st (now, expires) = on_expiry_timer o now st
  handle o st (now, renews id) = let (lease, st', es) = renew o now id st in (st', es)
  handle o st (now, releases id) = release o now id st

  unfoldable pub run : Options → Limiter → List (ℕ × Call) → Limiter
  run o st [] = st
  run o st (c ∷ cs) = run o (handle o st c).0 cs

  -- What a history settles and refuses, in order.
  unfoldable pub events : Options → Limiter → List (ℕ × Call) → List Event
  events o st [] = []
  events o st (c ∷ cs) = (handle o st c).1 ++ events o (handle o st c).0 cs
