-- ===== src/Concurrency/Policy/Valid.antt =====
-- The settings that validation returns (resolveConcurrencyLimits of
-- packages/agent/src/concurrency-policy.ts).
use runcell.Prelude.{
  ℕ, ◌+◌, ◌<◌, ◌≤◌, ◌≡◌, subst, String, Option, none, some, List, [], ◌∷◌, Bool-cases, ltb, ◌==◌,
  str_eq, ok, throw_if, insert, IsMap, insert-IsMap, AllEntries, AllEntries-insert, >>=-eq-ok,
  throw_if-ltb, ok_injective, arith, inl, inr, length,
}
use runcell.Js.{Value, undefined, get}
use runcell.Concurrency.Policy.{
  ResolvedWorkload, ResolvedLimits, positive_int, resolve_entry, assign, resolve_entries,
  resolve_default, resolve_limits, raw_entries, as_record, safe_integer, Setting, max_concurrent,
  max_concurrent_of, unless_undefined,
}

abbrev pub Entries : Type 0
Entries = List (String × ResolvedWorkload)

-- The sum of the reservations.
abbrev pub reservations : Entries → ℕ
reservations [] = 0
reservations ((k, w) ∷ m) = w.reserved + reservations m

abbrev pub IsValidWorkload : ℕ → ResolvedWorkload → Type 0
IsValidWorkload limit w =
    (0 < w.max_concurrent) × (w.max_concurrent ≤ limit) × (w.reserved ≤ w.max_concurrent)

pub record IsValid (limits : ResolvedLimits) : Type 0 where
  pub positive : 0 < limits.max_concurrent
  pub ceilings : AllEntries (λ k w. IsValidWorkload limits.max_concurrent w) limits.workloads
  pub reserved_fits : reservations limits.workloads ≤ limits.max_concurrent
  pub distinct : IsMap limits.workloads

positive_int-pos :
    (v : Value) (s : Setting) (o : Option String) (n : ℕ) → positive_int v s o ≡ ok n → 0 < n
unfolding positive_int
positive_int-pos v s o n e = ground arith

ceiling-pos :
    (limit : ℕ) (v : Value) (o : Option String) (n : ℕ)
    → 0 < limit
    → unless_undefined v (ok limit) (λ u. positive_int u max_concurrent_of o) ≡ ok n
    → 0 < n
ceiling-pos limit undefined o n h e = ground arith
ceiling-pos limit v o n h e = positive_int-pos v max_concurrent_of o n e

resolve_entry-IsValid :
    (limit : ℕ) (name : String) (raw : Value) (w : ResolvedWorkload)
    → 0 < limit
    → resolve_entry limit name raw ≡ ok w
    → IsValidWorkload limit w
unfolding resolve_entry
resolve_entry-IsValid limit name raw w h e =
    let (_, _, e₁) = >>=-eq-ok (throw_if (str_eq name "") _) _ e in
    let (fs, _, e₂) = >>=-eq-ok (as_record raw _) _ e₁ in
    let (w_max, m, e₃) = >>=-eq-ok (unless_undefined (get fs "maxConcurrent") (ok limit) _) _ e₂ in
    let (_, over, e₄) = >>=-eq-ok (throw_if (ltb limit w_max) _) _ e₃ in
    let (held, _, e₅) = >>=-eq-ok (unless_undefined (get fs "reserved") (ok 0) _) _ e₄ in
    let (_, under, e₆) = >>=-eq-ok (throw_if (ltb w_max held) _) _ e₅ in
    let (rank, _, e₇) = >>=-eq-ok (safe_integer _ _) _ e₆ in
    let (wait, _, e₈) = >>=-eq-ok (unless_undefined (get fs "maxWaitMs") _ _) _ e₇ in
    let pos = ceiling-pos limit (get fs "maxConcurrent") (some name) w_max h m in
    let same = ok_injective _ w e₈ in
    rw (← same) (pos, throw_if-ltb _ _ _ over, throw_if-ltb _ _ _ under)

reservations-insert :
    (name : String) (w : ResolvedWorkload) (m : Entries)
    → reservations (insert name w m) ≤ reservations m + w.reserved
unfolding insert
reservations-insert name w [] = omega arith
reservations-insert name w ((k, v) ∷ m) = ground (arith, reservations-insert name w m)

-- What the loop over the workloads keeps.
record Built (limit : ℕ) (m : Entries) (total : ℕ) : Type 0 where
  ceilings : AllEntries (λ k w. IsValidWorkload limit w) m
  within : reservations m ≤ total
  distinct : IsMap m

assign-Built :
    (limit : ℕ) (name : String) (w : ResolvedWorkload) (m : Entries) (total : ℕ)
    → IsValidWorkload limit w
    → Built limit m total
    → Built limit (assign name w m) (total + w.reserved)
unfolding assign
assign-Built limit name w m total v b = elim (Bool-cases (str_eq name "__proto__")) [
  | inl skip ↦
      rw skip
        (record { ceilings = b.ceilings; within = omega (arith, b.within); distinct = b.distinct })
  | inr new ↦ rw new (record {
    ceilings = AllEntries-insert (λ k u. IsValidWorkload limit u) name w m v b.ceilings;
    within = omega (arith, b.within, reservations-insert name w m);
    distinct = insert-IsMap name w m b.distinct;
  })
]

resolve_entries-Built :
    (limit : ℕ) (es : List (String × Value)) (m : Entries) (total : ℕ) (ws : Entries) (sum : ℕ)
    → 0 < limit
    → Built limit m total
    → resolve_entries limit es m total ≡ ok (ws, sum)
    → Built limit ws sum
unfolding resolve_entries
resolve_entries-Built limit [] m total ws sum h b e =
    let same = ok_injective (m, total) (ws, sum) e in
    subst (λ (p : Entries × ℕ). Built limit p.0 p.1) same b
resolve_entries-Built limit ((name, raw) ∷ es) m total ws sum h b e =
    let (w, found, rest) = >>=-eq-ok (resolve_entry limit name raw) _ e in
    resolve_entries-Built limit es (assign name w m) (total + w.reserved) ws sum h
      (assign-Built limit name w m total (resolve_entry-IsValid limit name raw w h found) b) rest

-- What a successful validation went through.
pub record Resolution (limits : ResolvedLimits) : Type 0 where
  pub raw : List (String × Value)
  pub total : ℕ
  pub given : Value
  pub positive : 0 < limits.max_concurrent
  pub loop : resolve_entries limits.max_concurrent raw [] 0 ≡ ok (limits.workloads, total)
  pub fits : total ≤ limits.max_concurrent
  pub chosen : resolve_default given limits.workloads raw ≡ ok limits.default_workload

pub resolve_limits-Resolution :
    (v : Value) (limits : ResolvedLimits) → resolve_limits v ≡ ok limits → Resolution limits
unfolding resolve_limits
resolve_limits-Resolution v limits e =
    let (fs, _, e₁) = >>=-eq-ok (as_record v _) _ e in
    let (limit, positive, e₂) = >>=-eq-ok (positive_int (get fs "maxConcurrent") _ _) _ e₁ in
    let (queued, _, e₃) = >>=-eq-ok (unless_undefined (get fs "maxQueued") (ok none) _) _ e₂ in
    let (es, _, e₄) = >>=-eq-ok (raw_entries (get fs "workloads")) _ e₃ in
    let (_, _, e₅) = >>=-eq-ok (throw_if (length es == 0) _) _ e₄ in
    let (built, loop, e₆) = >>=-eq-ok (resolve_entries limit es [] 0) _ e₅ in
    let (_, over, e₇) = >>=-eq-ok (throw_if (ltb limit built.1) _) _ e₆ in
    let (_, picked, e₈) = >>=-eq-ok (resolve_default (get fs "defaultWorkload") built.0 es) _ e₇ in
    subst Resolution (ok_injective _ limits e₈) (record {
      raw = es;
      total = built.1;
      given = get fs "defaultWorkload";
      positive = positive_int-pos (get fs "maxConcurrent") max_concurrent none limit positive;
      loop = loop;
      fits = throw_if-ltb limit built.1 _ over;
      chosen = picked;
    })

-- Settings that pass validation have room for at least one request, keep every workload ceiling
-- positive and within the limiter's, every reservation within its ceiling, and all reservations
-- together within the limiter's; and no workload is listed twice.
pub resolve_limits-IsValid :
    (v : Value) (limits : ResolvedLimits) → resolve_limits v ≡ ok limits → IsValid limits
resolve_limits-IsValid v limits e =
    let r = resolve_limits-Resolution v limits e in
    let b : Built limits.max_concurrent limits.workloads r.total =
      resolve_entries-Built limits.max_concurrent r.raw [] 0 limits.workloads r.total r.positive
        (record { ceilings = tt; within = omega arith; distinct = tt }) r.loop in
    record {
      positive = r.positive;
      ceilings = b.ceilings;
      reserved_fits = omega (arith, b.within, r.fits);
      distinct = b.distinct;
    }
