-- ===== src/Concurrency/Permit/Renewal.antt =====
-- The renewals of a permit (createPermit of packages/agent/src/concurrency-controller.ts).
use runcell.Prelude.{
  ℕ, ◌≡◌, refl, Bool, true, false, Option, none, List, [], ◌∷◌, is_some, Bool-cases, Option-cases,
  inl, inr, count_if, count_if-append, arith,
}
use runcell.Concurrency.Permit.{
  Grant, Answer, Outcome, Failure, Effect, calls_renew, calls_release, emits_renewal_failed,
  emits_release_failed, emits_lease_lost, emits_released, Permit, Input, timer_fires, answers,
  renewal_times_out, request_ends, release_settles, create_permit, release_with, lose, retry,
  finish_renewal, step, steps, outcome_events, gone, malformed, rejected, renewed,
}
use runcell.Concurrency.Permit.Once.{is_sound, steps-is_sound}

abbrev pub is_renew : Effect → Bool
is_renew (calls_renew id) = true
is_renew (calls_release id) = false
is_renew (emits_renewal_failed id) = false
is_renew (emits_release_failed id) = false
is_renew (emits_lease_lost id held) = false
is_renew (emits_released id held outcome) = false

-- The permit is released, with no timer, and does not renew.
abbrev Quiet : Permit × List Effect → Type 0
Quiet r = (is_some r.0.releasing ≡ true) × (r.0.renew_timer ≡ none) × (count_if is_renew r.1 ≡ 0)

abbrev IsDone : Permit → Type 0
IsDone p = (is_some p.releasing ≡ true) × (p.renew_timer ≡ none)

finish_renewal-Quiet :
    (now sent : ℕ) (answer : Answer) (p : Permit)
    → IsDone p
    → Quiet (finish_renewal now sent answer p)
unfolding finish_renewal lose retry
finish_renewal-Quiet now sent gone p d = ground (arith, d)
finish_renewal-Quiet now sent malformed p d = ground (arith, d)
finish_renewal-Quiet now sent rejected p d = ground (arith, d)
finish_renewal-Quiet now sent (renewed next) p d = ground (arith, d)

retry-Quiet : (now : ℕ) (p : Permit) → IsDone p → Quiet (retry now p)
unfolding retry
retry-Quiet now p d = ground (arith, d)

release_with-Quiet :
    (outcome : Outcome) (p : Permit) → is_sound p ≡ true → Quiet (release_with outcome p)
unfolding release_with
release_with-Quiet outcome p s = ground (arith, s)

release_again-Quiet : (outcome : Outcome) (p : Permit) → IsDone p → Quiet (release_with outcome p)
unfolding release_with
release_again-Quiet outcome p d = ground (arith, d)

no_renewals :
    (now : ℕ) (well : Bool) (outcome : Outcome) (p : Permit)
    → count_if is_renew (outcome_events now well outcome p) ≡ 0
no_renewals now true outcome p = refl
no_renewals now false outcome p = refl

step-Quiet : (p : Permit) (i : ℕ × Input) → IsDone p → Quiet (step p i)
unfolding step
step-Quiet p (now, timer_fires) d = rw (d.1, step) (d.0, d.1, refl)
step-Quiet p (now, answers answer) d = elim (Option-cases p.renewing) [
  | inl off ↦ rw (off, step) (d.0, d.1, refl)
  | inr (sent, set) ↦
      rw (set, step) (finish_renewal-Quiet now sent answer (record p { renewing = none }) d)
]
step-Quiet p (now, renewal_times_out) d = elim (Option-cases p.renewing) [
  | inl off ↦ rw (off, step) (d.0, d.1, refl)
  | inr (sent, set) ↦ rw (set, step) (retry-Quiet now (record p { renewing = none }) d)
]
step-Quiet p (now, request_ends outcome) d = release_again-Quiet outcome p d
step-Quiet p (now, release_settles well) d = elim (Option-cases p.releasing) [
  | inl held ↦ rw (held, step) (ground (arith, held, d.0), d.1, refl)
  | inr (outcome, done) ↦ elim (Bool-cases p.settled) [
    | inl twice ↦ rw (done, twice, step) (ground (arith, done), d.1, refl)
    | inr first ↦ rw (done, first, step) (ground (arith, done), d.1, no_renewals now well outcome _)
  ]
]

steps-Quiet : (p : Permit) (is : List (ℕ × Input)) → IsDone p → count_if is_renew (steps p is).1 ≡ 0
unfolding steps
steps-Quiet p [] d = refl
steps-Quiet p (i ∷ is) d =
    let (done, off, none_here) = step-Quiet p i d in
    omega (
      arith,
      none_here,
      steps-Quiet (step p i).0 is (done, off),
      count_if-append is_renew (step p i).1 (steps (step p i).0 is).1,
    )

-- Once a permit has been released, whatever went before and whatever follows, it does not call the
-- limiter's renew again.
pub steps-renewals :
    (now : ℕ) (failure : Option Failure) (granted : Grant) (is : List (ℕ × Input))
    (outcome : Outcome) (js : List (ℕ × Input))
    → count_if is_renew
        (steps (release_with outcome (steps (create_permit now failure granted) is).0).0 js).1
      ≡ 0
steps-renewals now failure granted is outcome js =
    let p = (steps (create_permit now failure granted) is).0 in
    let (done, off, _) = release_with-Quiet outcome p (steps-is_sound now failure granted is) in
    steps-Quiet (release_with outcome p).0 js (done, off)
