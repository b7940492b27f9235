-- ===== src/Tests/Permits.antt =====
-- Tests of a permit.
use runcell.Prelude.{
  ℕ, ◌≡◌, refl, true, none, List, [], ◌∷◌, if◌then◌else◌, is_some, count_if, arith,
}
use runcell.Concurrency.Permit.{
  Grant, Input, timer_fires, answers, request_ends, gone, renewed, completed, cancelled,
  create_permit, release_with, lose, retry, start_renewal, accept, finish_renewal, step, steps,
}
use runcell.Concurrency.Permit.Once.{is_sound, is_release, steps-is_sound, steps-releases}
use runcell.Concurrency.Permit.Renewal.{is_renew, steps-renewals}
use runcell.Concurrency.Permit.Timely.{ArePrompt, Timely, steps-Timely}

abbrev lease : Grant
lease = record { id = "u"; ttl_ms = 100; renew_after_ms = none }

-- The lease is renewed once and is lost at the second attempt; the request's end comes after that.
abbrev inputs : List (ℕ × Input)
inputs =
    (50, timer_fires)
    ∷ (60, answers (renewed lease))
    ∷ (110, timer_fires)
    ∷ (120, answers gone)
    ∷ (130, request_ends completed)
    ∷ []

steps-is_sound_example : is_sound (steps (create_permit 0 none lease) inputs).0 ≡ true
steps-is_sound_example = steps-is_sound 0 none lease inputs

steps-releases_example :
    count_if is_release (steps (create_permit 0 none lease) inputs).1
    ≡ (if is_some (steps (create_permit 0 none lease) inputs).0.releasing then 1 else 0)
steps-releases_example = steps-releases 0 none lease inputs

steps-renewals_example :
    count_if is_renew
      (steps (release_with cancelled (steps (create_permit 0 none lease) inputs).0).0 inputs).1
    ≡ 0
steps-renewals_example = steps-renewals 0 none lease inputs cancelled inputs

inputs-ArePrompt : ArePrompt 100 (create_permit 0 none lease) inputs
unfolding step start_renewal finish_renewal accept lose retry release_with
inputs-ArePrompt = (
  λ due h. ground (arith, h),
  (
    ((refl, refl), λ sent h. ground (arith, h)),
    (λ due h. ground (arith, h), ((tt, λ sent h. ground (arith, h)), (tt, tt))),
  ),
)

steps-Timely_example : Timely 100 (steps (create_permit 0 none lease) inputs).0
steps-Timely_example = steps-Timely 100 0 none lease inputs (refl, refl) inputs-ArePrompt
