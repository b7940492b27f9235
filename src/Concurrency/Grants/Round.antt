-- ===== src/Concurrency/Grants/Round.antt =====
-- One round of the allocator: the queue that it picks (selectConcurrencyGrants of
-- packages/agent/src/concurrency-policy.ts).
use mathlib.Core.Option.{some-injective}
use runcell.Prelude.{
  ◌+◌, ◌≤◌, ◌<◌, ◌≡◌, refl, ℤ, ◌<ℤ◌, ◌≤ℤ◌, String, true, false, Option, none, some, List, [], ◌∷◌,
  inl, inr, ◌⊎◌, Bool-cases, Option-cases, lookup, AllEntries, Lacks, lookup-Lacks, is_some,
  if◌then◌else◌, sym, ap, subst, ◌∙◌, arith, eq_iff, IsMap,
}
use runcell.Concurrency.Policy.{ResolvedWorkload, ResolvedLimits}
use runcell.Concurrency.Grants.{
  Waiter, Queues, Allocation, Best, active_of, unmet_of, is_blocked, is_better, consider_with,
  consider,
}

-- A workload may take one more slot: it is configured, it is below its ceiling, and the
-- unmet reservations of the others still fit.
pub record CanGrant (limits : ResolvedLimits) (s : Allocation) (workload : String)
    (settings : ResolvedWorkload) : Type 0 where
  pub configured : lookup workload limits.workloads ≡ some settings
  pub below : active_of workload s.active < settings.max_concurrent
  pub fits : s.total + 1 + unmet_of limits.workloads s.active workload ≤ limits.max_concurrent

-- A candidate comes before a waiter of the given priority: by priority, then by age.
abbrev pub Precedes : Best → ℤ → Waiter → Type 0
Precedes b p w = (p <ℤ b.priority) ⊎ ((p ≤ℤ b.priority) × (b.priority ≤ℤ p) × (b.head.seq ≤ w.seq))

abbrev pub PrecedesBest : Best → Option Best → Type 0
PrecedesBest b none = Unit
PrecedesBest b (some c) = Precedes b c.priority c.head

-- No queue whose head may be granted comes before the candidate.
abbrev pub PrecedesQueue : ResolvedLimits → Allocation → Best → String → List Waiter → Type 0
PrecedesQueue limits s b w [] = Unit
PrecedesQueue limits s b w (head ∷ rest) =
    (settings : ResolvedWorkload) → CanGrant limits s w settings → Precedes b settings.priority head

-- A candidate is the head of a queue that may be granted.
pub record IsCandidate (limits : ResolvedLimits) (s : Allocation) (qs : Queues) (b : Best)
    : Type 0 where
  pub settings : ResolvedWorkload
  pub allowed : CanGrant limits s b.workload settings
  pub ranked : settings.priority ≡ b.priority
  pub queued : lookup b.workload qs ≡ some (b.head ∷ b.rest)

module _ (limits : ResolvedLimits) (s : Allocation) where
  is_blocked-false :
      (w : String) (settings : ResolvedWorkload)
      → lookup w limits.workloads ≡ some settings
      → is_blocked limits s w settings ≡ false
      → CanGrant limits s w settings
  unfolding is_blocked
  is_blocked-false w settings e h = record {
    configured = e;
    below = ground arith;
    fits = ground arith;
  }

  pub is_blocked-CanGrant :
      (w : String) (settings : ResolvedWorkload)
      → CanGrant limits s w settings
      → is_blocked limits s w settings ≡ false
  unfolding is_blocked
  is_blocked-CanGrant w settings c = ground (arith, c.below, c.fits)

  Precedes-trans :
      (b c : Best) (p : ℤ) (w : Waiter)
      → Precedes b c.priority c.head
      → Precedes c p w
      → Precedes b p w
  Precedes-trans b c p w (inl h) (inl k) = inl (omega arith)
  Precedes-trans b c p w (inl h) (inr k) = inl (omega arith)
  Precedes-trans b c p w (inr h) (inl k) = inl (omega arith)
  Precedes-trans b c p w (inr h) (inr k) = inr (omega arith, omega arith, omega arith)

  -- A pass keeps the best so far or replaces it by the head of its queue, whichever comes first.
  pub data Passed (best : Option Best) (w : String) (q : List Waiter) : Option Best → Type 0 where
    kept :
        {r : Option Best}
        → r ≡ best
        → ((b : Best) → PrecedesBest b best → PrecedesQueue limits s b w q)
        → Passed best w q r
    replaced :
        {r : Option Best} (c : Best) (settings : ResolvedWorkload)
        → r ≡ some c
        → c.workload ≡ w
        → q ≡ c.head ∷ c.rest
        → c.priority ≡ settings.priority
        → CanGrant limits s w settings
        → ((b : Best) → Precedes b c.priority c.head → PrecedesBest b best)
        → Passed best w q r

  is_better-false :
      (c d b : Best)
      → is_better (some c) d ≡ false
      → Precedes b c.priority c.head
      → Precedes b d.priority d.head
  unfolding is_better
  is_better-false c d b h p = Precedes-trans b c d.priority d.head p (ground arith)

  is_better-true :
      (best : Option Best) (d b : Best)
      → is_better best d ≡ true
      → Precedes b d.priority d.head
      → PrecedesBest b best
  unfolding is_better
  is_better-true none d b h p = tt
  is_better-true (some c) d b h p = Precedes-trans b d c.priority c.head p (ground arith)

  is_better-none : (c : Best) → ¬ (is_better none c ≡ false)
  unfolding is_better
  is_better-none c h = cc

  -- The pass over a queue with settings that may be granted.
  offer :
      (best : Option Best) (w : String) (c : Best) (settings : ResolvedWorkload)
      → c.workload ≡ w
      → c.priority ≡ settings.priority
      → lookup w limits.workloads ≡ some settings
      → CanGrant limits s w settings
      → Passed best w (c.head ∷ c.rest) (if is_better best c then some c else best)
  offer best w c settings here ranked found can = elim (Bool-cases (is_better best c)) [
    | inl better ↦
        rw better
          (replaced c settings refl here refl ranked can (λ b p. is_better-true best c b better p))
    | inr worse ↦ rw worse (kept refl (λ b p other o. beaten best b other worse p o))
  ]
    where
      same : (other : ResolvedWorkload) → CanGrant limits s w other → settings ≡ other
      same other o = some-injective _ _ (sym found ∙ o.configured)

      beaten :
          (best : Option Best) (b : Best) (other : ResolvedWorkload)
          → is_better best c ≡ false
          → PrecedesBest b best
          → CanGrant limits s w other
          → Precedes b other.priority c.head
      beaten none b other worse p o = absurd (is_better-none c worse)
      beaten (some d) b other worse p o =
          subst (λ (z : ℤ). Precedes b z c.head)
            (ranked ∙ ap (λ (r : ResolvedWorkload). r.priority) (same other o))
            (is_better-false d c b worse p)

  blocked-CanGrant :
      (w : String) (settings other : ResolvedWorkload)
      → lookup w limits.workloads ≡ some settings
      → is_blocked limits s w settings ≡ true
      → ¬ CanGrant limits s w other
  blocked-CanGrant w settings other found h c =
      let same : settings ≡ other = some-injective _ _ (sym found ∙ c.configured) in
      cc (is_blocked-CanGrant w other c)

  consider_with-Passed :
      (best : Option Best) (w : String) (q : List Waiter)
      → Passed best w q (consider_with limits s best w q (lookup w limits.workloads))
  unfolding consider_with
  consider_with-Passed best w [] = kept refl (λ b p. tt)
  consider_with-Passed best w (head ∷ rest) = elim (Option-cases (lookup w limits.workloads)) [
    | inl gone ↦ rw gone (kept refl (λ b p settings c. absurd (cc (sym gone ∙ c.configured))))
    | inr (settings, found) ↦ elim (Bool-cases (is_blocked limits s w settings)) [
      | inl blocked ↦
          rw (found, blocked)
            (kept refl (λ b p other c. absurd (blocked-CanGrant w settings other found blocked c)))
      | inr free ↦
          rw (found, free)
            (offer best w
              (record { workload = w; head = head; priority = settings.priority; rest = rest })
              settings refl refl found (is_blocked-false w settings found free))
    ]
  ]

  -- A pass over a queue that may be granted leaves a candidate, and no pass drops one.
  consider_with-is_some :
      (best : Option Best) (w : String) (q : List Waiter) (found : Option ResolvedWorkload)
      → is_some best ≡ true
      → is_some (consider_with limits s best w q found) ≡ true
  unfolding consider_with
  consider_with-is_some best w [] found h = h
  consider_with-is_some best w (head ∷ rest) none h = h
  consider_with-is_some best w (head ∷ rest) (some settings) h = ground arith

  abbrev next : Option Best → String → List Waiter → Option Best
  next best w q = consider_with limits s best w q (lookup w limits.workloads)

  consider-is_some :
      (best : Option Best) (qs : Queues)
      → is_some best ≡ true
      → is_some (consider limits s best qs) ≡ true
  unfolding consider
  consider-is_some best [] h = h
  consider-is_some best ((w, q) ∷ qs) h =
      consider-is_some (next best w q) qs
        (consider_with-is_some best w q (lookup w limits.workloads) h)

  consider_with-CanGrant :
      (best : Option Best) (w : String) (head : Waiter) (rest : List Waiter)
      (settings : ResolvedWorkload)
      → CanGrant limits s w settings
      → is_some (consider_with limits s best w (head ∷ rest) (lookup w limits.workloads)) ≡ true
  unfolding consider_with
  consider_with-CanGrant none w head rest settings c =
      rw (c.configured, is_blocked-CanGrant w settings c) (ground arith)
  consider_with-CanGrant (some d) w head rest settings c =
      consider_with-is_some (some d) w (head ∷ rest) (lookup w limits.workloads) refl

  -- What a queue holds when nothing can be granted from it.
  abbrev pub IsStuck : String → List Waiter → Type 0
  IsStuck w [] = Unit
  IsStuck w (head ∷ rest) = (settings : ResolvedWorkload) → ¬ CanGrant limits s w settings

  -- A round without a candidate means that no queue could be granted.
  pub consider-none :
      (best : Option Best) (qs : Queues) → consider limits s best qs ≡ none → AllEntries IsStuck qs
  unfolding consider
  consider-none best [] e = tt
  consider-none best ((w, []) ∷ qs) e = (tt, consider-none (next best w []) qs e)
  consider-none best ((w, head ∷ rest) ∷ qs) e = (
    λ settings c.
        let found =
          consider-is_some (next best w (head ∷ rest)) qs
            (consider_with-CanGrant best w head rest settings c) in
        cc found,
    consider-none (next best w (head ∷ rest)) qs e,
  )

  IsCandidate-cons :
      (w : String) (q : List Waiter) (qs : Queues) (b : Best)
      → Lacks w qs
      → IsCandidate limits s qs b
      → IsCandidate limits s ((w, q) ∷ qs) b
  unfolding lookup
  IsCandidate-cons w q qs b h c = record {
    settings = c.settings;
    allowed = c.allowed;
    ranked = c.ranked;
    queued = ground (arith, eq_iff w b.workload, lookup-Lacks w qs h, c.queued);
  }

  IsCandidate-head :
      (w : String) (q : List Waiter) (qs : Queues) (b : Best) (settings : ResolvedWorkload)
      → b.workload ≡ w
      → q ≡ b.head ∷ b.rest
      → b.priority ≡ settings.priority
      → CanGrant limits s w settings
      → IsCandidate limits s ((w, q) ∷ qs) b
  unfolding lookup
  IsCandidate-head w q qs b settings here e ranked can = record {
    settings = settings;
    allowed = subst (λ (v : String). CanGrant limits s v settings) (sym here) can;
    ranked = sym ranked;
    queued = ground (arith, eq_iff w b.workload, here, e);
  }

  PrecedesBest-self : (best : Option Best) (b : Best) → best ≡ some b → PrecedesBest b best
  PrecedesBest-self none b e = tt
  PrecedesBest-self (some c) b e =
      subst (λ (d : Best). Precedes b d.priority d.head) (sym (some-injective _ _ e))
        (inr (omega arith, omega arith, omega arith))

  PrecedesQueue-head :
      (c b : Best) (w : String) (q : List Waiter) (settings : ResolvedWorkload)
      → q ≡ c.head ∷ c.rest
      → c.priority ≡ settings.priority
      → lookup w limits.workloads ≡ some settings
      → Precedes b c.priority c.head
      → PrecedesQueue limits s b w q
  PrecedesQueue-head c b w q settings eq ranked found p =
      subst (PrecedesQueue limits s b w) (sym eq) λ other o.
        subst (λ (z : ℤ). Precedes b z c.head)
          (ranked
            ∙ ap (λ (r : ResolvedWorkload). r.priority)
                (some-injective _ _ (sym found ∙ o.configured)))
          p

  -- What comes before the new best comes before the old one and before the queue.
  Passed-order :
      (best : Option Best) (w : String) (q : List Waiter) (r : Option Best) (b : Best)
      → Passed best w q r
      → PrecedesBest b r
      → PrecedesBest b best × PrecedesQueue limits s b w q
  Passed-order best w q r b (kept e f) p =
      let before = subst (PrecedesBest b) e p in (before, f b before)
  Passed-order best w q r b (replaced c settings e here eq ranked can f) p =
      let first = subst (PrecedesBest b) e p in
      (f b first, PrecedesQueue-head c b w q settings eq ranked can.configured first)

  -- The new best is the old one or the head of the queue.
  Passed-origin :
      (best : Option Best) (w : String) (q : List Waiter) (qs : Queues) (r : Option Best) (b : Best)
      → Passed best w q r
      → r ≡ some b
      → (best ≡ some b) ⊎ IsCandidate limits s ((w, q) ∷ qs) b
  Passed-origin best w q qs r b (kept e f) same = inl (sym e ∙ same)
  Passed-origin best w q qs r b (replaced c settings e here eq ranked can f) same = inr (
      subst (IsCandidate limits s ((w, q) ∷ qs)) (some-injective _ _ (sym e ∙ same))
        (IsCandidate-head w q qs c settings here eq ranked can))

  -- What the rounds so far and the queues that are left give for the final candidate.
  consider-some :
      (best : Option Best) (qs : Queues) (b : Best)
      → IsMap qs
      → consider limits s best qs ≡ some b
      → ((best ≡ some b) ⊎ IsCandidate limits s qs b)
        × PrecedesBest b best
        × AllEntries (PrecedesQueue limits s b) qs
  unfolding consider
  consider-some best [] b m e = (inl e, PrecedesBest-self best b e, tt)
  consider-some best ((w, q) ∷ qs) b m e =
      let (from, first, later) = consider-some (next best w q) qs b m.1 e in
      let p = consider_with-Passed best w q in
      let (before, here) = Passed-order best w q (next best w q) b p first in
      (origin p from, before, (here, later))
    where
      origin :
          Passed best w q (next best w q)
          → (next best w q ≡ some b) ⊎ IsCandidate limits s qs b
          → (best ≡ some b) ⊎ IsCandidate limits s ((w, q) ∷ qs) b
      origin p (inl same) = Passed-origin best w q qs (next best w q) b p same
      origin p (inr c) = inr (IsCandidate-cons w q qs b m.0 c)

  -- A round picks the head of a queue that may be granted, and of all such heads one of the highest
  -- priority, and among those of that priority one that has waited longest.
  pub consider-IsCandidate :
      (qs : Queues) (b : Best)
      → IsMap qs
      → consider limits s none qs ≡ some b
      → IsCandidate limits s qs b × AllEntries (PrecedesQueue limits s b) qs
  consider-IsCandidate qs b m e =
      let (from, _, all) = consider-some none qs b m e in (picked from, all)
    where
      picked : (none ≡ some b) ⊎ IsCandidate limits s qs b → IsCandidate limits s qs b
      picked (inl h) = absurd (cc h)
      picked (inr c) = c
