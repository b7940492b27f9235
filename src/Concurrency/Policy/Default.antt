-- ===== src/Concurrency/Policy/Default.antt =====
-- The default workload of validated settings (resolveConcurrencyLimits and resolveWorkload of
-- packages/agent/src/concurrency-policy.ts).
use runcell.Prelude.{
  ℕ, ◌+◌, ◌≡◌, ◌≢◌, refl, ap, ◌∙◌, String, Bool, true, false, Option, none, some, List, [], ◌∷◌,
  ◌||◌, inl, inr, ◌⊎◌, Bool-cases, if◌then◌else◌, str_eq, eq_iff, ok, lookup, lookup-insert,
  is_some, >>=-eq-ok, arith,
}
use runcell.Js.{Value, undefined, string}
use runcell.Concurrency.Policy.{
  ResolvedWorkload, ResolvedLimits, resolve_entry, assign, resolve_entries, resolve_default,
  resolve_limits, resolve_workload, default_name,
}
use runcell.Concurrency.Policy.Valid.{Entries, resolve_limits-Resolution}

assign-is_some :
    (k name : String) (w : ResolvedWorkload) (m : Entries)
    → k ≢ "__proto__"
    → is_some (lookup k (assign name w m)) ≡ (str_eq name k || is_some (lookup k m))
unfolding assign
assign-is_some k name w m h =
    ground (arith, lookup-insert name k w m, eq_iff name "__proto__", eq_iff name k)

regroup :
    (b : Bool) (v : Value) (o : Option Value) (c : Bool)
    → (is_some o || (b || c)) ≡ (is_some (if b then some v else o) || c)
regroup true v none c = refl
regroup true v (some x) c = refl
regroup false v none c = refl
regroup false v (some x) c = refl

-- The loop stores an entry for exactly the names that it is given, `__proto__` apart.
resolve_entries-keys :
    (k : String) (limit : ℕ) (es : List (String × Value)) (m : Entries) (total : ℕ) (ws : Entries)
    (sum : ℕ)
    → k ≢ "__proto__"
    → resolve_entries limit es m total ≡ ok (ws, sum)
    → is_some (lookup k ws) ≡ (is_some (lookup k es) || is_some (lookup k m))
unfolding resolve_entries lookup
resolve_entries-keys k limit [] m total ws sum h e = ground arith
resolve_entries-keys k limit ((name, raw) ∷ es) m total ws sum h e =
    let (w, found, rest) = >>=-eq-ok (resolve_entry limit name raw) _ e in
    let later =
      resolve_entries-keys k limit es (assign name w m) (total + w.reserved) ws sum h rest in
    let here = assign-is_some k name w m h in
    rw (later, here) (regroup (str_eq name k) raw (lookup k es) (is_some (lookup k m)))

or-false : (b : Bool) → (b || false) ≡ b
or-false true = refl
or-false false = refl

is_some_eq :
    (o : Option ResolvedWorkload) → is_some o ≡ true → (w : ResolvedWorkload) × (o ≡ some w)
is_some_eq none h = cc
is_some_eq (some w) h = (w, refl)

resolve_default-is_some :
    (v : Value) (ws : Entries) (es : List (String × Value)) (d : String)
    → ((k : String) → k ≢ "__proto__" → is_some (lookup k ws) ≡ is_some (lookup k es))
    → resolve_default v ws es ≡ ok (some d)
    → d ≢ "__proto__"
    → is_some (lookup d ws) ≡ true
unfolding resolve_default lookup
resolve_default-is_some undefined ws es d keys e n =
    absent es keys (Bool-cases (is_some (lookup default_name ws))) e
  where
    absent :
        (es : List (String × Value))
        → ((k : String) → k ≢ "__proto__" → is_some (lookup k ws) ≡ is_some (lookup k es))
        → (is_some (lookup default_name ws) ≡ true) ⊎ (is_some (lookup default_name ws) ≡ false)
        → resolve_default undefined ws es ≡ ok (some d)
        → is_some (lookup d ws) ≡ true
    absent es keys (inl held) e = ground arith
    absent [] keys (inr gone) e = ground arith
    absent ((name, raw) ∷ []) keys (inr gone) e = ground (arith, keys d n, eq_iff name d)
    absent (a ∷ b ∷ es) keys (inr gone) e = ground arith
resolve_default-is_some (string name) ws es d keys e n = ground arith
resolve_default-is_some v ws es d keys e n = ground arith

-- The default of validated settings, unless it is `__proto__`, is one of their workloads, so a
-- request that selects no workload is resolved to it.
pub resolve_workload-default :
    (v : Value) (limits : ResolvedLimits) (d : String)
    → resolve_limits v ≡ ok limits
    → limits.default_workload ≡ some d
    → d ≢ "__proto__"
    → (w : ResolvedWorkload) × (resolve_workload limits none ≡ ok (d, w))
unfolding resolve_workload lookup
resolve_workload-default v limits d e chosen n =
    let r = resolve_limits-Resolution v limits e in
    let held =
      resolve_default-is_some r.given limits.workloads r.raw d
        (λ k p.
          resolve_entries-keys k limits.max_concurrent r.raw [] 0 limits.workloads r.total p r.loop
          ∙ or-false _)
        (r.chosen ∙ ap ok chosen) n in
    let (w, found) = is_some_eq (lookup d limits.workloads) held in (w, ground (arith, found))
