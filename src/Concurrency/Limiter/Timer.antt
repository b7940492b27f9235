-- ===== src/Concurrency/Limiter/Timer.antt =====
-- The expiry timer of the in-process limiter (armExpiryTimer of
-- packages/agent/src/concurrency-limiter.ts).
use runcell.Prelude.{
  ℕ, suc, ◌≤◌, ◌<◌, min, max, ◌≡◌, ap, refl, ◌⊎◌, All, All-map, Memᴰ, map, str_eq, leb→le, subst,
  if◌then◌else◌, String, Option, none, some, List, [], ◌∷◌, lookup, insert, length, is_some,
  Bool-cases, Option-cases, inl, inr, arith, leb, Result, ok, err,
}
use runcell.Js.{Value}
use runcell.Concurrency.Policy.{ResolvedWorkload, ConfigError, resolve_workload}
use runcell.Concurrency.Limiter.{
  Options, Slot, Entry, Limiter, earliest, Request, Rejection, empty, is_empty, arm_expiry_timer,
  schedule,
}
use runcell.Concurrency.Limiter.Operations.{
  over, min_defined, settle_in, drop_waiter, on_abort, on_wait_timeout, wait_for, acquire, resolved,
  on_expiry_timer, renew, release, Call, acquires, aborts, times_out, expires, renews, releases,
  handle, run, join,
}
use runcell.Concurrency.Limiter.Give.{Waiters}

abbrev Slots : Type 0
Slots = List (String × Slot)

-- The time at which the first of some slots expires.
abbrev pub IsEarliest : ℕ → Slots → Type 0
IsEarliest t slots = Memᴰ t (map (λ e. e.1.expires_at) slots) × All (λ e. t ≤ e.1.expires_at) slots

-- What the timer may be for a number of waiters and for some slots, at a given time: off where there
-- are no waiters or no slots, and else due when the first slot expires, or at a time that has passed
-- if it was set later than that.
abbrev pub IsDue : ℕ → ℕ → Slots → Option ℕ → Type 0
IsDue now waiting slots none = (waiting ≡ 0) ⊎ (length slots ≡ 0)
IsDue now waiting slots (some due) =
    (0 < waiting) × ((t : ℕ) × IsEarliest t slots × (t ≤ due) × (due ≤ max t now))

abbrev pub IsArmed : ℕ → Limiter → Type 0
IsArmed now st = IsDue now (length st.waiters) st.slots st.expiry_timer

abbrev Found : Slots → Option ℕ → Type 0
Found slots none = length slots ≡ 0
Found slots (some t) = IsEarliest t slots

IsEarliest-cons :
    (t : ℕ) (k : String) (slot : Slot) (slots : Slots)
    → IsEarliest t slots
    → IsEarliest (min slot.expires_at t) ((k, slot) ∷ slots)
IsEarliest-cons t k slot slots (at_t, below) = elim (Bool-cases (leb slot.expires_at t)) [
  | inl first ↦
      let sooner = leb→le slot.expires_at t first in
      let least : slot.expires_at ≡ min slot.expires_at t = omega (arith, sooner) in
      subst (λ (x : ℕ). IsEarliest x ((k, slot) ∷ slots)) least
        (
          Memᴰ.head refl,
          (
            omega arith,
            All-map (λ e (h : t ≤ e.1.expires_at). omega (arith, sooner, h)) slots below,
          ),
        )
  | inr last ↦
      let least : t ≡ min slot.expires_at t = ground (arith, last) in
      subst (λ (x : ℕ). IsEarliest x ((k, slot) ∷ slots)) least
        (Memᴰ.tail at_t, (ground (arith, last), below))
]

earliest-Found : (slots : Slots) → Found slots (earliest slots)
unfolding earliest
earliest-Found [] = refl
earliest-Found ((k, slot) ∷ slots) = go (earliest slots) (earliest-Found slots)
  where
    go :
        (r : Option ℕ)
        → Found slots r
        → Found
            ((k, slot) ∷ slots)
            (elim r [ none ↦ some slot.expires_at | some t ↦ some (min slot.expires_at t) ])
    go none alone = (Memᴰ.head refl, (omega arith, only slots alone))
      where
        only :
            (slots : Slots) → length slots ≡ 0 → All (λ e. slot.expires_at ≤ e.1.expires_at) slots
        only [] h = tt
        only (e ∷ es) h = absurd (omega (arith, h))
    go (some t) h = IsEarliest-cons t k slot slots h

IsDue-waits :
    (now after waiting : ℕ) (slots : Slots) (timer : Option ℕ)
    → now ≤ after
    → IsDue now waiting slots timer
    → IsDue after waiting slots timer
IsDue-waits now after waiting slots none later h = h
IsDue-waits now after waiting slots (some due) later (some_wait, (t, first, early, late)) =
    (some_wait, (t, first, early, omega (arith, late, later)))

length-insert :
    (id : String) (e e' : Entry) (m : Waiters)
    → lookup id m ≡ some e
    → length (insert id e' m) ≡ length m
unfolding lookup insert
length-insert id e e' [] found = cc
length-insert id e e' ((k, u) ∷ m) found = elim (Bool-cases (str_eq k id)) [
  | inl same ↦ rw same refl
  | inr other ↦ rw other (ap suc (length-insert id e e' m (ground (arith, found, other))))
]

module _ (uuid : ℕ → String) (o : Options) where
  armed : (now : ℕ) (st : Limiter) → IsArmed now (arm_expiry_timer now st)
  unfolding arm_expiry_timer
  armed now st = go st.waiters (earliest st.slots) (earliest-Found st.slots)
    where
      go :
          (waiters : Waiters) (r : Option ℕ)
          → Found st.slots r
          → IsDue now (length waiters) st.slots (
              if is_empty waiters
              then none
              else elim r [ none ↦ none | some next ↦ some (max now next) ])
      go [] r h = inl refl
      go (w ∷ ws) none h = inr h
      go (w ∷ ws) (some t) h = (omega arith, (t, h, omega arith, omega arith))

  scheduled : (now : ℕ) (st : Limiter) → IsArmed now (schedule uuid o now st).0
  unfolding schedule
  scheduled now st = armed now _

  dropped :
      (now : ℕ) (id : String) (why : Rejection) (st : Limiter)
      → IsArmed now (drop_waiter now id why st).0
  unfolding drop_waiter
  dropped now id why st = armed now _

  rewritten :
      (now : ℕ) (id : String) (e e' : Entry) (st : Limiter)
      → lookup id st.waiters ≡ some e
      → IsArmed now st
      → IsArmed now (record st { waiters = insert id e' st.waiters })
  rewritten now id e e' st found h = rw (length-insert id e e' st.waiters found) h

  settled_in :
      (now : ℕ) (request : Request) (w : String) (settings : ResolvedWorkload) (id : String)
      (st : Limiter)
      → IsArmed now st
      → IsArmed now (settle_in o now request w settings id st).0
  unfolding settle_in
  settled_in now request w settings id st h = elim (Option-cases (lookup id st.waiters)) [
    | inl gone ↦ rw (gone, settle_in) h
    | inr (e, found) ↦ elim (Bool-cases (over o.limits.max_queued (length st.waiters))) [
      | inl full ↦ rw (found, full, settle_in) (armed now _)
      | inr room ↦ elim (Option-cases (min_defined request.timeout_ms settings.max_wait_ms)) [
        | inl forever ↦ rw (found, room, forever, settle_in) h
        | inr (wait, timed) ↦ rw (found, room, timed, settle_in) (rewritten now id e _ st found h)
      ]
    ]
  ]

  acquired :
      (now : ℕ) (request : Request) (st : Limiter)
      → IsArmed now st
      → IsArmed now (acquire uuid o now request st).0
  unfolding acquire wait_for
  acquired now request st h = go (resolve_workload o.limits request.workload) request.aborted
    where
      go :
          (r : Result ConfigError (String × ResolvedWorkload)) (a : Option Value)
          → IsArmed now (resolved uuid o now (record request { aborted = a }) st r).0
      go (err e) a = h
      go (ok (w, settings)) (some reason) = h
      go (ok (w, settings)) none =
          settled_in now _ w settings _ _ (scheduled now (join uuid now w st))

  renewed : (now : ℕ) (id : String) (st : Limiter) → IsArmed now (renew uuid o now id st).1
  unfolding renew
  renewed now id st = elim (Option-cases (lookup id st.slots)) [
    | inl gone ↦ rw (gone, renew) (scheduled now st)
    | inr (slot, found) ↦ elim (Bool-cases (leb slot.expires_at now)) [
      | inl old ↦ rw (found, old, renew) (scheduled now st)
      | inr live ↦ rw (found, live, renew) (armed now _)
    ]
  ]

  handled :
      (now : ℕ) (c : Call) (st : Limiter)
      → IsArmed now st
      → IsArmed now (handle uuid o st (now, c)).0
  unfolding handle on_expiry_timer release on_abort on_wait_timeout
  handled now (acquires request) st h = acquired now request st h
  handled now (aborts id reason) st h = elim (Bool-cases (is_some (lookup id st.waiters))) [
    | inl there ↦ rw there (dropped now id (Rejection.aborted reason) st)
    | inr gone ↦ rw gone h
  ]
  handled now (times_out id) st h = elim (Option-cases (lookup id st.waiters)) [
    | inl gone ↦ rw (gone, on_wait_timeout) h
    | inr (e, found) ↦ rw (found, on_wait_timeout) (dropped now id _ st)
  ]
  handled now expires st h = scheduled now _
  handled now (renews id) st h = renewed now id st
  handled now (releases id) st h = scheduled now _

-- The times of a history never run backwards, from a first one on.
abbrev pub IsTimed : ℕ → List (ℕ × Call) → Type 0
IsTimed now [] = Unit
IsTimed now ((later, c) ∷ cs) = (now ≤ later) × IsTimed later cs

-- The time of the last call.
abbrev pub ends : ℕ → List (ℕ × Call) → ℕ
ends now [] = now
ends now ((later, c) ∷ cs) = ends later cs

runs :
    (uuid : ℕ → String) (o : Options) (now : ℕ) (cs : List (ℕ × Call)) (st : Limiter)
    → IsTimed now cs
    → IsArmed now st
    → IsArmed (ends now cs) (run uuid o st cs)
unfolding run
runs uuid o now [] st timed h = h
runs uuid o now ((later, c) ∷ cs) st (before, timed) h =
    runs uuid o later cs (handle uuid o st (later, c)).0 timed (
      handled uuid o later c st
        (IsDue-waits now later (length st.waiters) st.slots st.expiry_timer before h))

-- After any history of calls, signals and timers whose times never run backwards, the expiry timer is
-- off where there are no waiters or no slots, and else due when the first of the slots expires, or at a
-- time that has passed if it was set later than that.
pub run-IsArmed :
    (uuid : ℕ → String) (o : Options) (cs : List (ℕ × Call))
    → IsTimed 0 cs
    → IsArmed (ends 0 cs) (run uuid o empty cs)
run-IsArmed uuid o cs timed = runs uuid o 0 cs empty timed (inl refl)
