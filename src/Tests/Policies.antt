-- ===== src/Tests/Policies.antt =====
-- Tests of the settings and their validation.
use runcell.Prelude.{◌≡◌, refl, none, ok, lookup, insert, arith}
use runcell.Js.{is_safe}
use runcell.Concurrency.Policy.{
  ResolvedWorkload, positive_int, non_negative_int, resolve_entry, assign, resolve_entries,
  resolve_default, resolve_limits, resolve_workload,
}
use runcell.Concurrency.Policy.Valid.{IsValid, resolve_limits-IsValid}
use runcell.Concurrency.Policy.Accepts.{IsAccepted, encode, resolve_limits-encode}
use runcell.Concurrency.Policy.Default.{resolve_workload-default}
use runcell.Concurrency.Limiter.{create, ttl_of}
use runcell.Tests.{raw, limits, options, apart}

pub resolve_limits_raw : resolve_limits raw ≡ ok limits
unfolding resolve_limits resolve_entries resolve_entry assign resolve_default positive_int
    non_negative_int is_safe lookup insert
resolve_limits_raw = refl

pub create_raw : create raw ≡ ok options
unfolding create ttl_of resolve_limits resolve_entries resolve_entry assign resolve_default
    positive_int non_negative_int is_safe lookup insert
create_raw = refl

resolve_limits-IsValid_example : IsValid limits
resolve_limits-IsValid_example = resolve_limits-IsValid raw limits resolve_limits_raw

resolve_workload-default_example :
    (w : ResolvedWorkload) × (resolve_workload limits none ≡ ok ("fg", w))
resolve_workload-default_example =
    resolve_workload-default raw limits "fg" resolve_limits_raw refl (apart "fg" "__proto__" refl)

accepted : IsAccepted limits "fg"
unfolding lookup is_safe
accepted = record {
  safe = omega arith;
  positive = omega arith;
  queue = omega arith;
  workloads = (
    (
      (apart "fg" "" refl, apart "fg" "__proto__" refl),
      (omega arith, omega arith, omega arith),
      refl,
      tt,
    ),
    (
      (
        (apart "bg" "" refl, apart "bg" "__proto__" refl),
        (omega arith, omega arith, omega arith),
        refl,
        tt,
      ),
      tt,
    ),
  );
  reserved_fits = omega arith;
  distinct = ((apart "bg" "fg" refl, tt), (tt, tt));
  default = refl;
  configured = refl;
}

resolve_limits-encode_example : resolve_limits (encode limits) ≡ ok limits
resolve_limits-encode_example = resolve_limits-encode limits "fg" accepted
