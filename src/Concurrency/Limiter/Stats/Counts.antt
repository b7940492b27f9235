-- ===== src/Concurrency/Limiter/Stats/Counts.antt =====
-- The loops of `stats` (packages/agent/src/concurrency-limiter.ts): the tallies that they make, and
-- for which workloads.
use runcell.Prelude.{
  ℕ, ◌+◌, ◌≡◌, refl, ap, subst, All, ◌∙◌, String, Bool, true, false, Option, none, some, List, [],
  ◌∷◌, ◌||◌, if◌then◌else◌, str_eq, eq_iff, eq_refl, lookup, insert, lookup-insert, is_some,
  count_if, sym, ltb, Bool-cases, Option-cases, inl, inr, arith,
}
use runcell.Concurrency.Policy.{ResolvedWorkload}
use runcell.Concurrency.Limiter.{Slot, Entry}
use runcell.Concurrency.Limiter.Stats.{
  Tally, Tallies, is_inherited, zero_tally, entry, change, one_active, one_queued, entries_of,
  tally_slots, tally_waiters, tally_of,
}

right_false : (a b : Bool) → (a || b) ≡ false → b ≡ false
right_false true b e = cc
right_false false b e = e

-- The new field is a zero tally, which is what a missing one counts as.
entry_new :
    (k w : String) (m : Tallies)
    → lookup k m ≡ none
    → tally_of w (insert k zero_tally m) ≡ tally_of w m
entry_new k w m absent = elim (Bool-cases (str_eq k w)) [
  | inl same ↦
      let missing = subst (λ (x : String). lookup x m ≡ none) ((eq_iff k w).0 same) absent in
      rw (lookup-insert k w zero_tally m, same, missing)
  | inr other ↦ rw (lookup-insert k w zero_tally m, other)
]

none_of_is_some {ℓ} : {A : Type ℓ} (o : Option A) → is_some o ≡ false → o ≡ none
none_of_is_some none e = refl
none_of_is_some (some a) e = cc

entry-tally_of : (k w : String) (m : Tallies) → tally_of w (entry k m) ≡ tally_of w m
unfolding entry
entry-tally_of k w m = elim (Bool-cases (is_inherited k || is_some (lookup k m))) [
  | inl old ↦ rw old
  | inr new ↦ rw new (entry_new k w m (none_of_is_some (lookup k m) (right_false _ _ new)))
]

entry-lookup :
    (k : String) (m : Tallies) → is_inherited k ≡ false → lookup k (entry k m) ≡ some (tally_of k m)
unfolding entry
entry-lookup k m plain = elim (Option-cases (lookup k m)) [
  | inl gone ↦ rw (plain, gone) (rw (lookup-insert k k zero_tally m, eq_refl k))
  | inr (t, found) ↦ rw (plain, found) found
]

change_lem :
    (f : Tally → Tally) (k : String) (m : Tallies)
    → is_inherited k ≡ false
    → change f k m ≡ insert k (f (tally_of k m)) (entry k m)
unfolding change
change_lem f k m plain = rw (entry-lookup k m plain, change)

change-tally_of :
    (f : Tally → Tally) (k w : String) (m : Tallies)
    → is_inherited k ≡ false
    → tally_of w (change f k m) ≡ (if str_eq k w then f (tally_of w m) else tally_of w m)
change-tally_of f k w m plain = elim (Bool-cases (str_eq k w)) [
  | inl same ↦
      let eq = ap (λ (x : String). f (tally_of x m)) ((eq_iff k w).0 same) in
      rw (change_lem f k m plain, lookup-insert k w (f (tally_of k m)) (entry k m), same) eq
  | inr other ↦
      rw (change_lem f k m plain, lookup-insert k w (f (tally_of k m)) (entry k m), other)
        (entry-tally_of k w m)
]

pub entries_of-tally_of :
    (ws : List (String × ResolvedWorkload)) (w : String) (m : Tallies)
    → tally_of w (entries_of ws m) ≡ tally_of w m
unfolding entries_of
entries_of-tally_of [] w m = refl
entries_of-tally_of ((k, settings) ∷ ws) w m =
    entries_of-tally_of ws w (entry k m) ∙ entry-tally_of k w m

abbrev pub on_slot : String → Slot → Bool
on_slot w slot = str_eq slot.workload w

abbrev pub on_entry : String → Entry → Bool
on_entry w e = str_eq e.waiter.workload w

abbrev plus : Tally → ℕ → ℕ → Tally
plus t a q = record { active = t.active + a; queued = t.queued + q }

pub tally_slots-tally_of :
    (slots : List Slot) (w : String) (m : Tallies)
    → All (λ s. is_inherited s.workload ≡ false) slots
    → tally_of w (tally_slots slots m) ≡ plus (tally_of w m) (count_if (on_slot w) slots) 0
unfolding tally_slots
tally_slots-tally_of [] w m h = ground arith
tally_slots-tally_of (slot ∷ slots) w m (plain, h) =
    tally_slots-tally_of slots w (change one_active slot.workload m) h
    ∙ ground (arith, change-tally_of one_active slot.workload w m plain)

pub tally_waiters-tally_of :
    (es : List Entry) (w : String) (m : Tallies)
    → All (λ e. is_inherited e.waiter.workload ≡ false) es
    → tally_of w (tally_waiters es m) ≡ plus (tally_of w m) 0 (count_if (on_entry w) es)
unfolding tally_waiters
tally_waiters-tally_of [] w m h = ground arith
tally_waiters-tally_of (e ∷ es) w m (plain, h) =
    tally_waiters-tally_of es w (change one_queued e.waiter.workload m) h
    ∙ ground (arith, change-tally_of one_queued e.waiter.workload w m plain)

is_some-insert :
    {A : Type 0} (k w : String) (a : A) (m : List (String × A))
    → is_some (lookup w (insert k a m)) ≡ (str_eq k w || is_some (lookup w m))
is_some-insert k w a m = elim (Bool-cases (str_eq k w)) [
  | inl same ↦ rw (lookup-insert k w a m, same)
  | inr other ↦ rw (lookup-insert k w a m, other)
]

-- An entry is made for a name that is not inherited, and for no other.
entry-is_some :
    (k w : String) (m : Tallies)
    → is_inherited w ≡ false
    → is_some (lookup w (entry k m)) ≡ (str_eq k w || is_some (lookup w m))
unfolding entry
entry-is_some k w m plain = elim (Bool-cases (str_eq k w)) [
  | inl same ↦
      let e = (eq_iff k w).0 same in
      subst (λ (x : String). is_some (lookup w (entry x m)) ≡ (str_eq x w || is_some (lookup w m)))
        (sym e) itself
  | inr other ↦ elim (Bool-cases (is_inherited k || is_some (lookup k m))) [
    | inl old ↦ rw (old, other)
    | inr new ↦ rw new (is_some-insert k w zero_tally m)
  ]
]
  where
    itself : is_some (lookup w (entry w m)) ≡ (str_eq w w || is_some (lookup w m))
    itself = rw (entry-lookup w m plain, eq_refl w)

change-is_some :
    (f : Tally → Tally) (k w : String) (m : Tallies)
    → is_inherited k ≡ false
    → is_inherited w ≡ false
    → is_some (lookup w (change f k m)) ≡ (str_eq k w || is_some (lookup w m))
change-is_some f k w m plain plain' =
    rw
      (
        change_lem f k m plain,
        is_some-insert k w (f (tally_of k m)) (entry k m),
        entry-is_some k w m plain',
      )
      (absorb (str_eq k w) (is_some (lookup w m)))
  where
    absorb : (a b : Bool) → (a || (a || b)) ≡ (a || b)
    absorb true b = refl
    absorb false b = refl

pub entries_of-is_some :
    (ws : List (String × ResolvedWorkload)) (w : String) (m : Tallies)
    → is_inherited w ≡ false
    → is_some (lookup w (entries_of ws m)) ≡ (is_some (lookup w ws) || is_some (lookup w m))
unfolding entries_of lookup
entries_of-is_some [] w m plain = refl
entries_of-is_some ((k, settings) ∷ ws) w m plain =
    entries_of-is_some ws w (entry k m) plain ∙ ground (arith, entry-is_some k w m plain)

pub tally_slots-is_some :
    (slots : List Slot) (w : String) (m : Tallies)
    → is_inherited w ≡ false
    → All (λ s. is_inherited s.workload ≡ false) slots
    → is_some (lookup w (tally_slots slots m))
      ≡ (ltb 0 (count_if (on_slot w) slots) || is_some (lookup w m))
unfolding tally_slots
tally_slots-is_some [] w m plain h = refl
tally_slots-is_some (slot ∷ slots) w m plain (here, h) =
    tally_slots-is_some slots w (change one_active slot.workload m) plain h
    ∙ ground (arith, change-is_some one_active slot.workload w m here plain)

pub tally_waiters-is_some :
    (es : List Entry) (w : String) (m : Tallies)
    → is_inherited w ≡ false
    → All (λ e. is_inherited e.waiter.workload ≡ false) es
    → is_some (lookup w (tally_waiters es m))
      ≡ (ltb 0 (count_if (on_entry w) es) || is_some (lookup w m))
unfolding tally_waiters
tally_waiters-is_some [] w m plain h = refl
tally_waiters-is_some (e ∷ es) w m plain (here, h) =
    tally_waiters-is_some es w (change one_queued e.waiter.workload m) plain h
    ∙ ground (arith, change-is_some one_queued e.waiter.workload w m here plain)
