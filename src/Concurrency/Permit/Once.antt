-- ===== src/Concurrency/Permit/Once.antt =====
-- The release of a permit, and its timer and renewal until then
-- (createPermit of packages/agent/src/concurrency-controller.ts).
use runcell.Prelude.{
  ℕ, ◌+◌, ◌≡◌, refl, sym, ap, subst, Bool, true, false, Option, none, some, List, [], ◌∷◌, not,
  ◌&&◌, if◌then◌else◌, str_eq, is_some, Bool-cases, Option-cases, inl, inr, ◌⊎◌, count_if,
  count_if-append, arith,
}
use runcell.Concurrency.Permit.{
  Grant, Answer, Outcome, Failure, Effect, calls_renew, calls_release, emits_renewal_failed,
  emits_release_failed, emits_lease_lost, emits_released, Permit, Input, timer_fires, answers,
  renewal_times_out, request_ends, release_settles, is_valid_lease, renewal_delay, create_permit,
  release_with, lose, retry, start_renewal, accept, finish_renewal, step, steps, outcome_events,
  gone, malformed, rejected, renewed,
}

abbrev pub is_release : Effect → Bool
is_release (calls_release id) = true
is_release (calls_renew id) = false
is_release (emits_renewal_failed id) = false
is_release (emits_release_failed id) = false
is_release (emits_lease_lost id held) = false
is_release (emits_released id held outcome) = false

-- A released permit has no timer and is not among the permits of its run; any other is among them,
-- its request is not aborted, and either its timer is set or a renewal is in flight.
abbrev pub is_sound : Permit → Bool
is_sound p =
    if is_some p.releasing
    then not (is_some p.renew_timer) && not p.listed
    else p.listed
      && not p.revoked
      && (if is_some p.renew_timer then not (is_some p.renewing) else is_some p.renewing)

abbrev pub bit : Bool → ℕ
bit b = if b then 1 else 0

abbrev pub releases : List Effect → ℕ
releases es = count_if is_release es

-- What each operation keeps, besides the release that it may make.
abbrev pub Kept : Permit → Permit × List Effect → Type 0
Kept p r =
    (is_sound r.0 ≡ true) × (releases r.1 + bit (is_some p.releasing) ≡ bit (is_some r.0.releasing))

release_with-Kept :
    (outcome : Outcome) (p : Permit)
    → (is_some p.releasing ≡ true → is_sound p ≡ true)
    → Kept p (release_with outcome p)
unfolding release_with
release_with-Kept outcome p h = ground arith

lose-Kept :
    (now : ℕ) (p : Permit) → (is_some p.releasing ≡ true → is_sound p ≡ true) → Kept p (lose now p)
unfolding lose release_with
lose-Kept now p h = ground arith

-- A permit between its renewals: it would be watched if its timer were set.
abbrev Idle : Permit → Type 0
Idle p =
    ((is_some p.releasing ≡ true) × (is_sound p ≡ true))
    ⊎ ((p.releasing ≡ none)
        × (p.listed ≡ true)
        × (p.revoked ≡ false)
        × (p.renewing ≡ none)
        × (p.renew_timer ≡ none))

Idle-lose : (now : ℕ) (p : Permit) → Idle p → Kept p (lose now p)
Idle-lose now p (inl h) = lose-Kept now p (λ r. h.1)
Idle-lose now p (inr h) = lose-Kept now p (λ r. ground (arith, r, h.0))

retry-Kept : (now : ℕ) (p : Permit) → Idle p → Kept p (retry now p)
unfolding retry lose release_with
retry-Kept now p (inl h) = ground (arith, h)
retry-Kept now p (inr h) = ground (arith, h)

accept-Kept :
    (now sent : ℕ) (next : Grant) (p : Permit)
    → (is_some p.releasing ≡ false)
    → Idle p
    → Kept p (accept now sent next p)
unfolding accept
accept-Kept now sent next p held i =
    elim (Bool-cases (is_valid_lease next && str_eq next.id p.current.id)) [
      | inl good ↦ rw (good, accept) (kept i)
      | inr bad ↦ rw (bad, accept) (retry-Kept now p i)
    ]
  where
    taken : Permit
    taken = record p {
      current = next;
      local_expiry = sent + next.ttl_ms;
      renew_timer = some (now + renewal_delay next);
    }

    kept : Idle p → Kept p (taken, [])
    kept (inl h) = ground (arith, h, held)
    kept (inr h) = ground (arith, h)

finish_renewal_held :
    (now sent : ℕ) (next : Grant) (p : Permit)
    → is_some p.releasing ≡ false
    → finish_renewal now sent (renewed next) p ≡ accept now sent next p
unfolding finish_renewal
finish_renewal_held now sent next p held =
    ap (λ (b : Bool). if b then (p, []) else accept now sent next p) held

finish_renewal-Kept :
    (now sent : ℕ) (answer : Answer) (p : Permit)
    → Idle p
    → Kept p (finish_renewal now sent answer p)
unfolding finish_renewal
finish_renewal-Kept now sent gone p i = Idle-lose now p i
finish_renewal-Kept now sent malformed p i = retry-Kept now p i
finish_renewal-Kept now sent rejected p i = retry-Kept now p i
finish_renewal-Kept now sent (renewed next) p i = elim (Bool-cases (is_some p.releasing)) [
  | inl done ↦ rw (done, finish_renewal) (ground (arith, done, i))
  | inr held ↦
      subst (Kept p) (sym (finish_renewal_held now sent next p held))
        (accept-Kept now sent next p held i)
]

start_renewal-Kept : (now : ℕ) (p : Permit) → Idle p → Kept p (start_renewal now p)
unfolding start_renewal lose release_with
start_renewal-Kept now p (inl h) = ground (arith, h)
start_renewal-Kept now p (inr h) = ground (arith, h)

fired-Idle :
    (p : Permit) (due : ℕ)
    → is_sound p ≡ true
    → p.renew_timer ≡ some due
    → Idle (record p { renew_timer = none })
fired-Idle p due s set = elim (Option-cases p.releasing) [
  | inl held ↦ inr (
    held,
    ground (arith, s, held, set),
    ground (arith, s, held, set),
    ground (arith, s, held, set),
    refl,
  )
  | inr (outcome, done) ↦ absurd (ground (arith, s, done, set))
]

answered-Idle :
    (p : Permit) (sent : ℕ)
    → is_sound p ≡ true
    → p.renewing ≡ some sent
    → Idle (record p { renewing = none })
answered-Idle p sent s set = elim (Option-cases p.releasing) [
  | inl held ↦ inr (
    held,
    ground (arith, s, held, set),
    ground (arith, s, held, set),
    refl,
    ground (arith, s, held, set),
  )
  | inr (outcome, done) ↦ inl (ground (arith, done), ground (arith, s, done))
]

no_releases :
    (now : ℕ) (well : Bool) (outcome : Outcome) (p : Permit)
    → releases (outcome_events now well outcome p) ≡ 0
no_releases now true outcome p = refl
no_releases now false outcome p = refl

pub step-Kept : (p : Permit) (i : ℕ × Input) → is_sound p ≡ true → Kept p (step p i)
unfolding step
step-Kept p (now, timer_fires) s = elim (Option-cases p.renew_timer) [
  | inl off ↦ rw (off, step) (s, omega arith)
  | inr (due, set) ↦
      rw (set, step)
        (start_renewal-Kept now (record p { renew_timer = none }) (fired-Idle p due s set))
]
step-Kept p (now, answers answer) s = elim (Option-cases p.renewing) [
  | inl off ↦ rw (off, step) (s, omega arith)
  | inr (sent, set) ↦
      rw (set, step)
        (finish_renewal-Kept now sent answer (record p { renewing = none })
          (answered-Idle p sent s set))
]
step-Kept p (now, renewal_times_out) s = elim (Option-cases p.renewing) [
  | inl off ↦ rw (off, step) (s, omega arith)
  | inr (sent, set) ↦
      rw (set, step) (retry-Kept now (record p { renewing = none }) (answered-Idle p sent s set))
]
step-Kept p (now, request_ends outcome) s = release_with-Kept outcome p (λ r. s)
step-Kept p (now, release_settles well) s = elim (Option-cases p.releasing) [
  | inl held ↦ rw (held, step) (s, ground arith)
  | inr (outcome, done) ↦ elim (Bool-cases p.settled) [
    | inl twice ↦ rw (done, twice, step) (s, ground (arith, done))
    | inr first ↦
        rw (done, first, step)
          (ground (arith, s, done), ground (arith, done, no_releases now well outcome p))
  ]
]

steps-Kept : (p : Permit) (is : List (ℕ × Input)) → is_sound p ≡ true → Kept p (steps p is)
unfolding steps
steps-Kept p [] s = (s, omega arith)
steps-Kept p (i ∷ is) s =
    let here = step-Kept p i s in
    let rest = steps-Kept (step p i).0 is here.0 in
    (
      rest.0,
      omega (
        arith,
        here.1,
        rest.1,
        count_if-append is_release (step p i).1 (steps (step p i).0 is).1,
      ),
    )

-- After any timers, answers and releases, a permit that is not released is among the permits of its
-- run, its request is not aborted, and either its renewal timer is set or one renewal is in flight,
-- and not both; and a released one has no timer and has left the permits of its run.
pub steps-is_sound :
    (now : ℕ) (failure : Option Failure) (granted : Grant) (is : List (ℕ × Input))
    → is_sound (steps (create_permit now failure granted) is).0 ≡ true
steps-is_sound now failure granted is = (steps-Kept (create_permit now failure granted) is refl).0

-- Whatever happens, the permit calls the limiter's release once if it is released, and never if not.
pub steps-releases :
    (now : ℕ) (failure : Option Failure) (granted : Grant) (is : List (ℕ × Input))
    → count_if is_release (steps (create_permit now failure granted) is).1
      ≡ (if is_some (steps (create_permit now failure granted) is).0.releasing then 1 else 0)
steps-releases now failure granted is =
    omega (arith, (steps-Kept (create_permit now failure granted) is refl).1)
