-- ===== src/Concurrency/Permit/Timely.antt =====
-- The times of a permit's renewals (createPermit of packages/agent/src/concurrency-controller.ts).
use runcell.Prelude.{
  ℕ, ◌+◌, ◌/◌, ◌≤◌, ◌≡◌, refl, Bool, true, false, Option, none, some, List, [], ◌∷◌, leb, ◌&&◌,
  if◌then◌else◌, str_eq, is_some, Bool-cases, Option-cases, inl, inr, arith,
}
use runcell.Concurrency.Permit.{
  Grant, Answer, Outcome, Failure, Permit, Input, timer_fires, answers, renewal_times_out,
  request_ends, release_settles, is_valid_lease, renewal_delay, create_permit, release_with, lose,
  retry, start_renewal, accept, finish_renewal, step, steps, gone, malformed, rejected, renewed,
}
use runcell.Concurrency.Permit.Once.{is_sound, step-Kept}

-- A lease with the given time to live and no renewal delay of its own.
abbrev pub IsPlain : ℕ → Grant → Type 0
IsPlain ttl g = (g.ttl_ms ≡ ttl) × (g.renew_after_ms ≡ none)

abbrev pub IsPlainAnswer : ℕ → Answer → Type 0
IsPlainAnswer ttl gone = Unit
IsPlainAnswer ttl malformed = Unit
IsPlainAnswer ttl rejected = Unit
IsPlainAnswer ttl (renewed g) = IsPlain ttl g

-- A timer does not fire before it is due, and a renewal is not answered before it was sent, nor
-- after the lease has expired, when its own timer has ended it.
abbrev pub IsPrompt : ℕ → Permit → ℕ × Input → Type 0
IsPrompt ttl p (now, timer_fires) = (due : ℕ) → p.renew_timer ≡ some due → due ≤ now
IsPrompt ttl p (now, answers answer) =
    IsPlainAnswer ttl answer
    × ((sent : ℕ) → p.renewing ≡ some sent → (sent ≤ now) × (now ≤ p.local_expiry))
IsPrompt ttl p (now, renewal_times_out) = (sent : ℕ) → p.renewing ≡ some sent → sent ≤ now
IsPrompt ttl p (now, request_ends outcome) = Unit
IsPrompt ttl p (now, release_settles well) = Unit

abbrev pub ArePrompt : ℕ → Permit → List (ℕ × Input) → Type 0
ArePrompt ttl p [] = Unit
ArePrompt ttl p (i ∷ is) = IsPrompt ttl p i × ArePrompt ttl (step p i).0 is

-- The timer is due before the lease expires, and no renewal is sent later than that.
pub record Timely (ttl : ℕ) (p : Permit) : Type 0 where
  pub due_first :
      (due : ℕ)
      → p.renew_timer ≡ some due
      → (due ≤ p.local_expiry) × (p.local_expiry + ttl / 2 ≤ due + ttl)
  pub sent_first :
      (sent : ℕ)
      → p.renewing ≡ some sent
      → (sent ≤ p.local_expiry) × (p.local_expiry + ttl / 2 ≤ sent + ttl)

module _ (ttl : ℕ) where
  release_with-Timely :
      (outcome : Outcome) (p : Permit) → Timely ttl p → Timely ttl (release_with outcome p).0
  unfolding release_with
  release_with-Timely outcome p t = elim (Bool-cases (is_some p.releasing)) [
    | inl done ↦ rw done t
    | inr held ↦ rw held (record { due_first = λ due e. cc e; sent_first = t.sent_first })
  ]

  lose-Timely : (now : ℕ) (p : Permit) → Timely ttl p → Timely ttl (lose now p).0
  unfolding lose
  lose-Timely now p t = elim (Bool-cases (is_some p.releasing)) [
    | inl done ↦ rw done t
    | inr held ↦ rw held (record { due_first = λ due e. cc e; sent_first = t.sent_first })
  ]

  -- A permit whose renewal has just ended.
  abbrev Ended : ℕ → Permit → Type 0
  Ended now p =
      (p.renewing ≡ none) × (p.renew_timer ≡ none) × (p.local_expiry + ttl / 2 ≤ now + ttl)

  Ended-Timely : (now : ℕ) (p : Permit) → Ended now p → Timely ttl p
  Ended-Timely now p e = record {
    due_first = λ due h. cc (h, e.1);
    sent_first = λ sent h. cc (h, e.0);
  }

  retry-Timely : (now : ℕ) (p : Permit) → Ended now p → Timely ttl (retry now p).0
  unfolding retry
  retry-Timely now p e = elim (Bool-cases (is_some p.releasing)) [
    | inl done ↦ rw done (Ended-Timely now p e)
    | inr held ↦ elim (Bool-cases (leb p.local_expiry now)) [
      | inl late ↦
          rw (held, late) (record { due_first = λ due h. cc h; sent_first = λ sent h. cc (h, e.0) })
      | inr left ↦
          rw (held, left)
            (record {
              due_first = λ due h. ground (arith, h, left, e);
              sent_first = λ sent h. cc (h, e.0);
            })
    ]
  ]

  accept-Timely :
      (now sent : ℕ) (next : Grant) (p : Permit)
      → IsPlain ttl next
      → sent ≤ now
      → now ≤ p.local_expiry
      → p.local_expiry + ttl / 2 ≤ sent + ttl
      → Ended now p
      → Timely ttl (accept now sent next p).0
  unfolding accept
  accept-Timely now sent next p plain after before near e =
      elim (Bool-cases (is_valid_lease next && str_eq next.id p.current.id)) [
        | inl good ↦ rw good (record { due_first = due; sent_first = λ s h. cc (h, e.0) })
        | inr bad ↦ rw bad (retry-Timely now p e)
      ]
    where
      due :
          (d : ℕ)
          → some (now + renewal_delay next) ≡ some d
          → (d ≤ sent + next.ttl_ms) × (sent + next.ttl_ms + ttl / 2 ≤ d + ttl)
      due d h = ground (arith, h, plain.0, plain.1, after, before, near)

  finish_renewal-Timely :
      (now sent : ℕ) (answer : Answer) (p : Permit)
      → IsPlainAnswer ttl answer
      → sent ≤ now
      → now ≤ p.local_expiry
      → p.local_expiry + ttl / 2 ≤ sent + ttl
      → Ended now p
      → Timely ttl (finish_renewal now sent answer p).0
  unfolding finish_renewal
  finish_renewal-Timely now sent gone p plain after before near e =
      lose-Timely now p (Ended-Timely now p e)
  finish_renewal-Timely now sent malformed p plain after before near e = retry-Timely now p e
  finish_renewal-Timely now sent rejected p plain after before near e = retry-Timely now p e
  finish_renewal-Timely now sent (renewed next) p plain after before near e =
      either (is_some p.releasing)
    where
      either : (b : Bool) → Timely ttl (if b then (p, []) else accept now sent next p).0
      either true = Ended-Timely now p e
      either false = accept-Timely now sent next p plain after before near e

  start_renewal-Timely :
      (now due : ℕ) (p : Permit)
      → due ≤ now
      → p.renew_timer ≡ some due
      → Timely ttl p
      → Timely ttl (start_renewal now (record p { renew_timer = none })).0
  unfolding start_renewal
  start_renewal-Timely now due p late set t = elim (Bool-cases (is_some p.releasing)) [
    | inl done ↦ rw done (record { due_first = λ d h. cc h; sent_first = t.sent_first })
    | inr held ↦ elim (Bool-cases (leb p.local_expiry now)) [
      | inl over ↦ rw (held, over) (record { due_first = λ d h. cc h; sent_first = t.sent_first })
      | inr left ↦
          rw (held, left)
            (record {
              due_first = λ d h. cc h;
              sent_first = λ s h. ground (arith, h, left, late, t.due_first due set);
            })
    ]
  ]

  no_timer :
      (p : Permit) (sent : ℕ) → is_sound p ≡ true → p.renewing ≡ some sent → p.renew_timer ≡ none
  no_timer p sent s set = ground (arith, s, set)

  step-Timely :
      (p : Permit) (i : ℕ × Input)
      → is_sound p ≡ true
      → IsPrompt ttl p i
      → Timely ttl p
      → Timely ttl (step p i).0
  unfolding step
  step-Timely p (now, timer_fires) s prompt t = elim (Option-cases p.renew_timer) [
    | inl off ↦ rw (off, step) t
    | inr (due, set) ↦ rw (set, step) (start_renewal-Timely now due p (prompt due set) set t)
  ]
  step-Timely p (now, answers answer) s prompt t = elim (Option-cases p.renewing) [
    | inl off ↦ rw (off, step) t
    | inr (sent, set) ↦
        let (after, before) = prompt.1 sent set in
        let (_, near) = t.sent_first sent set in
        rw (set, step)
          (finish_renewal-Timely now sent answer (record p { renewing = none }) prompt.0 after
            before near (refl, no_timer p sent s set, omega (arith, after, near)))
  ]
  step-Timely p (now, renewal_times_out) s prompt t = elim (Option-cases p.renewing) [
    | inl off ↦ rw (off, step) t
    | inr (sent, set) ↦
        let (_, near) = t.sent_first sent set in
        let after = prompt sent set in
        rw (set, step)
          (retry-Timely now (record p { renewing = none })
            (refl, no_timer p sent s set, omega (arith, after, near)))
  ]
  step-Timely p (now, request_ends outcome) s prompt t = release_with-Timely outcome p t
  step-Timely p (now, release_settles well) s prompt t = elim (Option-cases p.releasing) [
    | inl held ↦ rw (held, step) t
    | inr (outcome, done) ↦ elim (Bool-cases p.settled) [
      | inl twice ↦
          rw (done, twice, step) (record { due_first = t.due_first; sent_first = t.sent_first })
      | inr first ↦
          rw (done, first, step) (record { due_first = t.due_first; sent_first = t.sent_first })
    ]
  ]

  runs :
      (p : Permit) (is : List (ℕ × Input))
      → is_sound p ≡ true
      → ArePrompt ttl p is
      → Timely ttl p
      → Timely ttl (steps p is).0
  unfolding steps
  runs p [] s prompt t = t
  runs p (i ∷ is) s prompt t =
      runs (step p i).0 is (step-Kept p i s).0 prompt.1 (step-Timely p i s prompt.0 t)

-- For a permit whose leases all have the same time to live and name no renewal delay, where timers
-- do not fire early and no answer of a renewal is read after the lease has expired: the renewal
-- timer is always due no later than the expiry of the lease that is held, and no renewal is in
-- flight that was sent later than that.
pub steps-Timely :
    (ttl now : ℕ) (failure : Option Failure) (granted : Grant) (is : List (ℕ × Input))
    → IsPlain ttl granted
    → ArePrompt ttl (create_permit now failure granted) is
    → Timely ttl (steps (create_permit now failure granted) is).0
steps-Timely ttl now failure granted is plain prompt =
    runs ttl (create_permit now failure granted) is refl prompt (record {
      due_first = λ due h. ground (arith, h, plain.0, plain.1);
      sent_first = λ sent h. cc h;
    })
