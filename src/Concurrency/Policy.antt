-- ===== src/Concurrency/Policy.antt =====
-- packages/agent/src/concurrency-policy.ts: limiter settings, their validation, and the errors
-- that it throws.
pub mod Valid
pub mod Accepts
pub mod Default
use runcell.Prelude.{
  ℕ, ◌+◌, ℤ, pos, negsuc, String, Option, none, some, List, [], ◌∷◌, map, ltb, ◌==◌, ◌&&◌,
  if◌then◌else◌, str_eq, Result, ok, err, ◌>>=◌, ◌>>◌, throw_if, lookup, insert, is_some, length,
}
use runcell.Js.{Value, undefined, null, number, string, object}
use runcell.Js.{Fields, entries, get, is_safe}

pub record ResolvedWorkload : Type 0 where
  pub max_concurrent : ℕ
  pub reserved : ℕ
  pub priority : ℤ
  pub max_wait_ms : Option ℕ

pub record ResolvedLimits : Type 0 where
  pub max_concurrent : ℕ
  pub max_queued : Option ℕ
  pub default_workload : Option String
  pub workloads : List (String × ResolvedWorkload)

abbrev pub default_name : String
default_name = "default"

-- The setting that a message of `positiveInt` or `nonNegativeInt` names.
pub data Setting : Type 0 where
  max_concurrent max_queued max_concurrent_of reserved_of max_wait_ms_of : Setting

-- The message templates, with the values that they quote.
pub data Message : Type 0 where
  options_not_object workloads_not_object no_workloads empty_name workload_not_object : Message
  not_positive not_non_negative : Setting → Value → Message
  max_exceeds reserved_exceeds : ℕ → ℕ → Message
  priority_not_integer : Value → Message
  reservations_exceed : ℕ → ℕ → Message
  default_not_configured : Value → Message
  no_default : List String → Message
  unknown_workload : String → Message
  name_not_string ttl_not_positive : Message

-- `ConcurrencyConfigError`: the message, and the workload and limiter that it carries.
pub record ConfigError : Type 0 where
  pub message : Message
  pub workload : Option String
  pub limiter : Option String

-- What `fail` throws.
abbrev pub fail_with : Message → Option String → ConfigError
fail_with m w = record { message = m; workload = w; limiter = none }

unfoldable pub positive_int : Value → Setting → Option String → Result ConfigError ℕ
unfolding is_safe
positive_int (number (pos n)) label w =
    if is_safe (pos n) && ltb 0 n
    then ok n
    else err (fail_with (not_positive label (number (pos n))) w)
positive_int value label w = err (fail_with (not_positive label value) w)

unfoldable pub non_negative_int : Value → Setting → Option String → Result ConfigError ℕ
unfolding is_safe
non_negative_int (number (pos n)) label w =
    if is_safe (pos n) then ok n else err (fail_with (not_non_negative label (number (pos n))) w)
non_negative_int value label w = err (fail_with (not_non_negative label value) w)

-- `raw[key] === undefined ? fallback : check(raw[key])`.
abbrev pub unless_undefined {ℓ} : {A : Type ℓ} → Value → A → (Value → A) → A
unless_undefined undefined fallback check = fallback
unless_undefined value fallback check = check value

-- `raw[key] ?? fallback`.
abbrev pub nullish : Value → Value → Value
nullish undefined fallback = fallback
nullish null fallback = fallback
nullish value fallback = value

abbrev pub safe_integer : Value → ConfigError → Result ConfigError ℤ
safe_integer (number z) e = if is_safe z then ok z else err e
safe_integer value e = err e

-- `isRecord`, with the object's fields.
abbrev pub as_record : Value → ConfigError → Result ConfigError Fields
as_record (object fs) e = ok fs
as_record value e = err e

-- The body of the loop over the workloads, up to the object that it stores.
unfoldable pub resolve_entry : ℕ → String → Value → Result ConfigError ResolvedWorkload
resolve_entry limit name raw = do
  throw_if (str_eq name "") (fail_with empty_name none)
  fs ← as_record raw (fail_with workload_not_object (some name))
  w_max ←
      unless_undefined (get fs "maxConcurrent") (ok limit)
        λ v. positive_int v max_concurrent_of (some name)
  throw_if (ltb limit w_max) (fail_with (max_exceeds w_max limit) (some name))
  held ← unless_undefined (get fs "reserved") (ok 0) λ v. non_negative_int v reserved_of (some name)
  throw_if (ltb w_max held) (fail_with (reserved_exceeds held w_max) (some name))
  rank ←
      safe_integer (nullish (get fs "priority") (number (pos 0))) (
        fail_with (priority_not_integer (nullish (get fs "priority") (number (pos 0)))) (some name))
  wait ←
      unless_undefined (get fs "maxWaitMs") (ok none)
        λ v. do n ← positive_int v max_wait_ms_of (some name); ok (some n)
  ok (record { max_concurrent = w_max; reserved = held; priority = rank; max_wait_ms = wait })

-- `workloads[name] = …` on a fresh object: the key `__proto__` sets the prototype and makes no
-- field.
unfoldable pub assign {ℓ} : {V : Type ℓ} → String → V → List (String × V) → List (String × V)
assign name v m = if str_eq name "__proto__" then m else insert name v m

-- The loop over the workloads, with what it has built and the reservations so far.
unfoldable pub resolve_entries :
    ℕ
    → List (String × Value)
    → List (String × ResolvedWorkload)
    → ℕ
    → Result ConfigError (List (String × ResolvedWorkload) × ℕ)
resolve_entries limit [] done total = ok (done, total)
resolve_entries limit ((name, raw) ∷ rest) done total = do
  w ← resolve_entry limit name raw
  resolve_entries limit rest (assign name w done) (total + w.reserved)

-- The workloads to resolve: one `default` workload where the option is left out.
abbrev pub raw_entries : Value → Result ConfigError (List (String × Value))
raw_entries undefined = ok ((default_name, object Fields.end) ∷ [])
raw_entries (object fs) = ok (entries fs)
raw_entries value = err (fail_with workloads_not_object none)

abbrev pub only_entry : List (String × Value) → Option String
only_entry ((name, raw) ∷ []) = some name
only_entry es = none

abbrev pub checked_default :
    Value → List (String × ResolvedWorkload) → Result ConfigError (Option String)
checked_default (string name) ws =
    if is_some (lookup name ws)
    then ok (some name)
    else err (fail_with (default_not_configured (string name)) none)
checked_default value ws = err (fail_with (default_not_configured value) none)

unfoldable pub resolve_default :
    Value
    → List (String × ResolvedWorkload)
    → List (String × Value)
    → Result ConfigError (Option String)
resolve_default value ws es =
    unless_undefined value
      (ok (if is_some (lookup default_name ws) then some default_name else only_entry es))
      λ v. checked_default v ws

-- `resolveConcurrencyLimits`.
unfoldable pub resolve_limits : Value → Result ConfigError ResolvedLimits
resolve_limits limits = do
  fs ← as_record limits (fail_with options_not_object none)
  limit ← positive_int (get fs "maxConcurrent") max_concurrent none
  queued ←
      unless_undefined (get fs "maxQueued") (ok none)
        λ v. do n ← non_negative_int v max_queued none; ok (some n)
  es ← raw_entries (get fs "workloads")
  throw_if (length es == 0) (fail_with no_workloads none)
  (ws, total) ← resolve_entries limit es [] 0
  throw_if (ltb limit total) (fail_with (reservations_exceed total limit) none)
  default ← resolve_default (get fs "defaultWorkload") ws es
  ok (record {
    max_concurrent = limit;
    max_queued = queued;
    default_workload = default;
    workloads = ws;
  })

-- The names that `resolveWorkload` lists when no workload is selected.
abbrev pub names : ResolvedLimits → List String
names limits = map (λ e. e.0) limits.workloads

abbrev pub settings_of :
    ResolvedLimits → Option String → Result ConfigError (String × ResolvedWorkload)
settings_of limits none = err (fail_with (no_default (names limits)) none)
settings_of limits (some name) = elim (lookup name limits.workloads) [
  | none ↦ err (fail_with (unknown_workload name) (some name))
  | some settings ↦ ok (name, settings)
]

abbrev pub or_default : Option String → Option String → Option String
or_default none d = d
or_default (some w) d = some w

-- `resolveWorkload`.
unfoldable pub resolve_workload :
    ResolvedLimits → Option String → Result ConfigError (String × ResolvedWorkload)
resolve_workload limits workload = settings_of limits (or_default workload limits.default_workload)
