-- ===== src/Concurrency/Limiter/Stats/Reported.antt =====
-- What `stats` of packages/agent/src/concurrency-limiter.ts reports.
use runcell.Prelude.{
  ℕ, ◌≡◌, refl, ap, ◌∙◌, String, Bool, true, false, Option, none, some, List, [], ◌∷◌, ◌&&◌, ◌||◌,
  if◌then◌else◌, ltb, leb, str_eq, lookup, is_some, or_else, length, All, count_if, Bool-cases, inl,
  inr, values, arith,
}
use runcell.Concurrency.Limiter.{Options, Slot, Entry, Limiter, purge_expired}
use runcell.Concurrency.Limiter.Stats.{
  Tally, Tallies, Stats, is_inherited, zero_tally, entries_of, tally_slots, stats, tally_of,
}
use runcell.Concurrency.Limiter.Stats.Counts.{
  on_slot, on_entry, entries_of-tally_of, tally_slots-tally_of, tally_waiters-tally_of,
  entries_of-is_some, tally_slots-is_some, tally_waiters-is_some,
}

-- A slot that has not expired, and one that is of a workload besides.
abbrev pub is_live : ℕ → Slot → Bool
is_live now slot = ltb now slot.expires_at

abbrev pub is_live_of : ℕ → String → Slot → Bool
is_live_of now w slot = ltb now slot.expires_at && str_eq slot.workload w

abbrev pub IsPlain : Slot → Type 0
IsPlain slot = is_inherited slot.workload ≡ false

abbrev pub IsPlainEntry : Entry → Type 0
IsPlainEntry e = is_inherited e.waiter.workload ≡ false

purge_expired-All :
    (now : ℕ) (m : List (String × Slot))
    → All IsPlain (values m)
    → All IsPlain (values (purge_expired now m))
unfolding purge_expired
purge_expired-All now [] h = tt
purge_expired-All now ((k, slot) ∷ m) (here, h) = elim (Bool-cases (leb slot.expires_at now)) [
  | inl gone ↦ rw gone (purge_expired-All now m h)
  | inr live ↦ rw live (here, purge_expired-All now m h)
]

count_if-purge_expired :
    (now : ℕ) (w : String) (m : List (String × Slot))
    → count_if (on_slot w) (values (purge_expired now m)) ≡ count_if (is_live_of now w) (values m)
unfolding purge_expired
count_if-purge_expired now w [] = refl
count_if-purge_expired now w ((k, slot) ∷ m) = ground (arith, count_if-purge_expired now w m)

length-purge_expired :
    (now : ℕ) (m : List (String × Slot))
    → length (purge_expired now m) ≡ count_if (is_live now) (values m)
unfolding purge_expired
length-purge_expired now [] = refl
length-purge_expired now ((k, slot) ∷ m) = ground (arith, length-purge_expired now m)

abbrev when : Bool → Tally → Option Tally
when listed t = if listed then some t else none

-- A field is its tally, where it is there.
lookup-tally_of :
    (w : String) (m : Tallies) → lookup w m ≡ when (is_some (lookup w m)) (tally_of w m)
lookup-tally_of w m = go (lookup w m)
  where
    go : (r : Option Tally) → r ≡ when (is_some r) (or_else r zero_tally)
    go none = refl
    go (some t) = refl

-- A report of some numbers: in all the unexpired slots and the waiters, and of a workload those that
-- are its own. It has a field where it is configured or has a slot or a waiter, and else none.
abbrev pub Reports : Options → ℕ → Limiter → String → Stats → Type 0
Reports o now st w report =
    let active = count_if (is_live_of now w) (values st.slots) in
    let queued = count_if (on_entry w) (values st.waiters) in
    (report.active ≡ count_if (is_live now) (values st.slots))
    × (report.queued ≡ length st.waiters)
    × (lookup w report.workloads ≡ (
        if is_some (lookup w o.limits.workloads) || (ltb 0 active || ltb 0 queued)
        then some (record { active = active; queued = queued })
        else none))

module _ (o : Options) (now : ℕ) (st : Limiter) (w : String) where
  abbrev active_of_w : ℕ
  active_of_w = count_if (is_live_of now w) (values st.slots)

  abbrev queued_of_w : ℕ
  queued_of_w = count_if (on_entry w) (values st.waiters)

  reported-tally_of :
      All IsPlain (values (purge_expired now st.slots))
      → All IsPlainEntry (values st.waiters)
      → tally_of w (stats o now st).0.workloads
        ≡ record { active = active_of_w; queued = queued_of_w }
  unfolding stats lookup
  reported-tally_of h k =
      let live = values (purge_expired now st.slots) in
      let made = entries_of o.limits.workloads [] in
      let a = entries_of-tally_of o.limits.workloads w [] in
      let b = tally_slots-tally_of live w made h in
      let c = tally_waiters-tally_of (values st.waiters) w (tally_slots live made) k in
      rw (c, b, a, count_if-purge_expired now w st.slots) (ground arith)

  reported-is_some :
      is_inherited w ≡ false
      → All IsPlain (values (purge_expired now st.slots))
      → All IsPlainEntry (values st.waiters)
      → is_some (lookup w (stats o now st).0.workloads)
        ≡ (is_some (lookup w o.limits.workloads) || (ltb 0 active_of_w || ltb 0 queued_of_w))
  unfolding stats lookup
  reported-is_some plain h k =
      let live = values (purge_expired now st.slots) in
      let made = entries_of o.limits.workloads [] in
      let a = entries_of-is_some o.limits.workloads w [] plain in
      let b = tally_slots-is_some live w made plain h in
      let c = tally_waiters-is_some (values st.waiters) w (tally_slots live made) plain k in
      rw (c, b, a, count_if-purge_expired now w st.slots)
        (turn (is_some (lookup w o.limits.workloads)) (ltb 0 active_of_w) (ltb 0 queued_of_w))
    where
      turn : (c a q : Bool) → (q || (a || (c || false))) ≡ (c || (a || q))
      turn true true true = refl
      turn true true false = refl
      turn true false true = refl
      turn true false false = refl
      turn false true true = refl
      turn false true false = refl
      turn false false true = refl
      turn false false false = refl

  -- Where no workload of a slot or a waiter is named like a property that every object inherits, `stats`
  -- reports the number of unexpired slots and of waiters, and of each workload that is not so named its
  -- own: a workload has a field just if it is configured or has an unexpired slot or a waiter.
  pub stats-Reports :
      is_inherited w ≡ false
      → All IsPlain (values st.slots)
      → All IsPlainEntry (values st.waiters)
      → Reports o now st w (stats o now st).0
  unfolding stats
  stats-Reports plain h k =
      let live = purge_expired-All now st.slots h in
      (
        length-purge_expired now st.slots,
        refl,
        lookup-tally_of w (stats o now st).0.workloads
            ∙ ap (λ (b : Bool). when b (tally_of w (stats o now st).0.workloads))
                (reported-is_some plain live k)
            ∙ ap
                (when (
                  is_some (lookup w o.limits.workloads)
                  || (ltb 0 active_of_w || ltb 0 queued_of_w)))
                (reported-tally_of live k),
      )
