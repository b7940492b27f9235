-- ===== src/Concurrency/Policy/Accepts.antt =====
-- Settings written out as options, and their validation (resolveConcurrencyLimits of
-- packages/agent/src/concurrency-policy.ts).
use native.Mathlib.Nat.{add-zero, add_assoc}
use runcell.Prelude.{
  ℕ, ◌+◌, ◌<◌, ◌≤◌, ◌≡◌, ◌≢◌, refl, sym, ap, ◌∙◌, String, true, false, Option, none, some, [], ◌∷◌,
  ◌++◌, append_assoc, append-nil, pos, str_eq, eq_iff, ok, lookup, is_some, IsMap, insert-Lacks,
  IsMap-append_mid, AllEntries, arith, ltb, ◌==◌, length,
}
use runcell.Js.{
  Value, undefined, number, string, object, Fields, end, field, entries, is_safe, max_safe,
}
use runcell.Concurrency.Policy.{
  ResolvedWorkload, ResolvedLimits, positive_int, non_negative_int, resolve_entry, assign,
  resolve_entries, resolve_default, Setting, resolve_limits,
}
use runcell.Concurrency.Policy.Valid.{Entries, reservations, IsValidWorkload}

abbrev pub optional : Option ℕ → Value
optional none = undefined
optional (some n) = number (pos n)

-- Settings written out as options, every one of them stated.
abbrev pub encode_workload : ResolvedWorkload → Value
encode_workload w = object (
    field "maxConcurrent" (number (pos w.max_concurrent)) (
      field "reserved" (number (pos w.reserved))
        (field "priority" (number w.priority) (field "maxWaitMs" (optional w.max_wait_ms) end))))

abbrev pub encode_entries : Entries → Fields
encode_entries [] = end
encode_entries ((k, w) ∷ m) = field k (encode_workload w) (encode_entries m)

abbrev pub encode_default : Option String → Value
encode_default none = undefined
encode_default (some d) = string d

abbrev pub encode : ResolvedLimits → Value
encode limits = object (
    field "maxConcurrent" (number (pos limits.max_concurrent)) (
      field "maxQueued" (optional limits.max_queued) (
        field "workloads" (object (encode_entries limits.workloads))
          (field "defaultWorkload" (encode_default limits.default_workload) end))))

-- The numbers are safe integers, and a wait limit is positive.
abbrev pub IsSafeWait : Option ℕ → Type 0
IsSafeWait none = Unit
IsSafeWait (some n) = (0 < n) × (n ≤ max_safe)

abbrev pub IsNamed : String → Type 0
IsNamed k = (k ≢ "") × (k ≢ "__proto__")

abbrev pub IsAcceptedWorkload : ℕ → String → ResolvedWorkload → Type 0
IsAcceptedWorkload limit k w =
    IsNamed k × IsValidWorkload limit w × (is_safe w.priority ≡ true) × IsSafeWait w.max_wait_ms

abbrev pub IsSafeQueue : Option ℕ → Type 0
IsSafeQueue none = Unit
IsSafeQueue (some n) = n ≤ max_safe

pub record IsAccepted (limits : ResolvedLimits) (d : String) : Type 0 where
  pub safe : limits.max_concurrent ≤ max_safe
  pub positive : 0 < limits.max_concurrent
  pub queue : IsSafeQueue limits.max_queued
  pub workloads : AllEntries (IsAcceptedWorkload limits.max_concurrent) limits.workloads
  pub reserved_fits : reservations limits.workloads ≤ limits.max_concurrent
  pub distinct : IsMap limits.workloads
  pub default : limits.default_workload ≡ some d
  pub configured : is_some (lookup d limits.workloads) ≡ true

resolve_entry-encode :
    (limit : ℕ) (k : String) (w : ResolvedWorkload)
    → limit ≤ max_safe
    → IsAcceptedWorkload limit k w
    → resolve_entry limit k (encode_workload w) ≡ ok w
unfolding resolve_entry positive_int non_negative_int
resolve_entry-encode limit k w s a = go w.max_wait_ms refl a.3
  where
    go :
        (o : Option ℕ)
        → w.max_wait_ms ≡ o
        → IsSafeWait w.max_wait_ms
        → resolve_entry limit k (encode_workload w) ≡ ok w
    go none e h = ground (arith, eq_iff k "")
    go (some n) e h = ground (arith, eq_iff k "")

resolve_entries-encode :
    (limit : ℕ) (done rest : Entries) (total : ℕ)
    → limit ≤ max_safe
    → AllEntries (IsAcceptedWorkload limit) rest
    → IsMap (done ++ rest)
    → resolve_entries limit (entries (encode_entries rest)) done total
      ≡ ok (done ++ rest, total + reservations rest)
unfolding resolve_entries assign
resolve_entries-encode limit done [] total s a d =
    ap ok (λ i. (sym (append-nil done) i, sym (add-zero total) i))
resolve_entries-encode limit done ((k, w) ∷ rest) total s a d =
    let step = resolve_entry-encode limit k w s a.0 in
    let fresh = insert-Lacks k w done (IsMap-append_mid k w done rest d) in
    let plain : str_eq k "__proto__" ≡ false = ground (arith, eq_iff k "__proto__") in
    let regroup = append_assoc done ((k, w) ∷ []) rest in
    rw (step, plain, fresh)
      (resolve_entries-encode limit (done ++ (k, w) ∷ []) rest (total + w.reserved) s a.1
          (rw regroup d)
        ∙ ap ok (λ i. (regroup i, add_assoc total w.reserved (reservations rest) i)))

accepted_length :
    (m : Entries) (d : String)
    → is_some (lookup d m) ≡ true
    → (length (entries (encode_entries m)) == 0) ≡ false
unfolding lookup
accepted_length [] d h = cc
accepted_length ((k, w) ∷ m) d h = ground arith

-- Validation accepts every settings object that states valid settings in safe integers, with
-- workload names other than "" and "__proto__", and returns those settings unchanged.
pub resolve_limits-encode :
    (limits : ResolvedLimits) (d : String)
    → IsAccepted limits d
    → resolve_limits (encode limits) ≡ ok limits
unfolding resolve_limits positive_int non_negative_int resolve_default
resolve_limits-encode limits d a = go limits.max_queued refl a.queue
  where
    some_entry : (length (entries (encode_entries limits.workloads)) == 0) ≡ false
    some_entry = accepted_length limits.workloads d a.configured

    loop :
        resolve_entries limits.max_concurrent (entries (encode_entries limits.workloads)) [] 0
        ≡ ok (limits.workloads, 0 + reservations limits.workloads)
    loop =
        resolve_entries-encode limits.max_concurrent [] limits.workloads 0 a.safe a.workloads
          a.distinct

    fits : ltb limits.max_concurrent (0 + reservations limits.workloads) ≡ false
    fits = ground (arith, a.reserved_fits)

    limit :
        positive_int (number (pos limits.max_concurrent)) Setting.max_concurrent none
        ≡ ok limits.max_concurrent
    limit = ground (arith, a.safe, a.positive)

    default :
        resolve_default
          (encode_default limits.default_workload)
          limits.workloads
          (entries (encode_entries limits.workloads))
        ≡ ok limits.default_workload
    default = rw a.default (rw a.configured)

    go :
        (o : Option ℕ)
        → limits.max_queued ≡ o
        → IsSafeQueue limits.max_queued
        → resolve_limits (encode limits) ≡ ok limits
    go none e h = ground (arith, limit, loop, some_entry, fits, default)
    go (some n) e h = ground (arith, limit, loop, some_entry, fits, default)
