-- ===== src/Concurrency/Limiter/Stats/Inherited.antt =====
-- Inherited names in `stats` of packages/agent/src/concurrency-limiter.ts.
use runcell.Prelude.{
  ℕ, ◌≡◌, refl, ap, subst, String, Bool, true, false, none, some, List, [], ◌∷◌, ◌||◌, str_eq,
  eq_iff, lookup, lookup-insert, is_some, Bool-cases, Option-cases, inl, inr, values,
}
use runcell.Concurrency.Policy.{ResolvedWorkload}
use runcell.Concurrency.Limiter.{Options, Slot, Entry, Limiter, purge_expired}
use runcell.Concurrency.Limiter.Stats.{
  Tally, Tallies, is_inherited, zero_tally, entry, change, one_active, one_queued, entries_of,
  tally_slots, tally_waiters, stats,
}

left_false : (a b : Bool) → (a || b) ≡ false → a ≡ false
left_false true b e = e
left_false false b e = refl

-- An inherited name is none that is not.
differs : (k w : String) → is_inherited w ≡ true → is_inherited k ≡ false → str_eq k w ≡ false
differs k w taken plain = elim (Bool-cases (str_eq k w)) [
  | inr other ↦ other
  | inl same ↦ absurd (cc (ap is_inherited ((eq_iff k w).0 same)))
]

entry_inherited :
    (k w : String) (m : Tallies)
    → is_inherited w ≡ true
    → lookup w m ≡ none
    → lookup w (entry k m) ≡ none
unfolding entry
entry_inherited k w m taken gone = elim (Bool-cases (is_inherited k || is_some (lookup k m))) [
  | inl old ↦ rw old gone
  | inr new ↦ rw (new, lookup-insert k w zero_tally m, differs k w taken (left_false _ _ new)) gone
]

change_inherited :
    (f : Tally → Tally) (k w : String) (m : Tallies)
    → is_inherited w ≡ true
    → lookup w m ≡ none
    → lookup w (change f k m) ≡ none
unfolding change
change_inherited f k w m taken gone = elim (Option-cases (lookup k (entry k m))) [
  | inl missing ↦ rw (missing, change) (entry_inherited k w m taken gone)
  | inr (t, found) ↦
      rw (found, change)
        (rw (lookup-insert k w (f t) (entry k m), other t found) (entry_inherited k w m taken gone))
]
  where
    other : (t : Tally) → lookup k (entry k m) ≡ some t → str_eq k w ≡ false
    other t found = elim (Bool-cases (str_eq k w)) [
      | inr e ↦ e
      | inl e ↦
          let here =
            subst (λ (x : String). lookup x (entry k m) ≡ some t) ((eq_iff k w).0 e) found in
          absurd (cc (here, entry_inherited k w m taken gone))
    ]

entries_of_inherited :
    (ws : List (String × ResolvedWorkload)) (w : String) (m : Tallies)
    → is_inherited w ≡ true
    → lookup w m ≡ none
    → lookup w (entries_of ws m) ≡ none
unfolding entries_of
entries_of_inherited [] w m taken gone = gone
entries_of_inherited ((k, settings) ∷ ws) w m taken gone =
    entries_of_inherited ws w (entry k m) taken (entry_inherited k w m taken gone)

tally_slots_inherited :
    (slots : List Slot) (w : String) (m : Tallies)
    → is_inherited w ≡ true
    → lookup w m ≡ none
    → lookup w (tally_slots slots m) ≡ none
unfolding tally_slots
tally_slots_inherited [] w m taken gone = gone
tally_slots_inherited (slot ∷ slots) w m taken gone =
    tally_slots_inherited slots w (change one_active slot.workload m) taken
      (change_inherited one_active slot.workload w m taken gone)

tally_waiters_inherited :
    (es : List Entry) (w : String) (m : Tallies)
    → is_inherited w ≡ true
    → lookup w m ≡ none
    → lookup w (tally_waiters es m) ≡ none
unfolding tally_waiters
tally_waiters_inherited [] w m taken gone = gone
tally_waiters_inherited (e ∷ es) w m taken gone =
    tally_waiters_inherited es w (change one_queued e.waiter.workload m) taken
      (change_inherited one_queued e.waiter.workload w m taken gone)

-- A workload that is named like a property that every object inherits has no tally of its own in
-- what `stats` reports, whatever its slots and waiters, also when it is configured.
pub stats_inherited :
    (o : Options) (now : ℕ) (st : Limiter) (w : String)
    → is_inherited w ≡ true
    → lookup w (stats o now st).0.workloads ≡ none
unfolding stats lookup
stats_inherited o now st w taken = tally_waiters_inherited (values st.waiters) w _ taken (
    tally_slots_inherited (values (purge_expired now st.slots)) w _ taken
      (entries_of_inherited o.limits.workloads w [] taken refl))
