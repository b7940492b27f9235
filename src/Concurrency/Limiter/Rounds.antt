-- ===== src/Concurrency/Limiter/Rounds.antt =====
-- All the rounds of the loop of `schedule` (packages/agent/src/concurrency-limiter.ts), for ids of
-- waiters that are there.
use mathlib.Core.List.{Perm}
use runcell.Prelude.{
  ℕ, suc, ◌+◌, ◌≤◌, ◌≡◌, refl, sym, ap, subst, ◌∙◌, String, some, List, [], ◌∷◌, ◌++◌, map,
  if◌then◌else◌, str_eq, lookup, insert, delete, length, insert-Lacks, Lacks-insert,
  count_if-append, length-append, IsMap, Lacks, arith,
}
use runcell.Concurrency.Grants.{Waiter}
use runcell.Concurrency.Grants.Order.{of_workload}
use runcell.Concurrency.Limiter.{Options, Slot, Entry, Limiter, waiters_of, give, give_all}
use runcell.Concurrency.Limiter.Slots.{held}
use runcell.Concurrency.Limiter.Give.{IsKeyed, delete-IsMap, delete-AllEntries, perm-lookup}

-- No id that is still to be drawn is the id of a slot.
abbrev pub IsFresh : (ℕ → String) → Limiter → Type 0
IsFresh uuid st = (i : ℕ) → st.drawn ≤ i → Lacks (uuid i) st.slots

-- `randomUUID` never returns the same id twice.
abbrev pub IsUnique : (ℕ → String) → Type 0
IsUnique uuid = (i j : ℕ) → uuid i ≡ uuid j → i ≡ j

-- What the rounds for some waiters do, where others stay.
pub record Given (uuid : ℕ → String) (gs rest : List Waiter) (st st' : Limiter) : Type 0 where
  pub left : Perm rest (waiters_of st'.waiters)
  pub count : (w : String) → held st'.slots w ≡ held st.slots w + length (of_workload w gs)
  pub size : length st'.slots ≡ length st.slots + length gs
  pub keyed : IsKeyed st'.waiters
  pub distinct : IsMap st'.waiters
  pub fresh : IsFresh uuid st'
  pub seq : st'.seq ≡ st.seq
  pub later : st.drawn ≤ st'.drawn

-- What the rounds need of the state.
pub record Ready (uuid : ℕ → String) (ws : List Waiter) (st : Limiter) : Type 0 where
  pub there : Perm ws (waiters_of st.waiters)
  pub keyed : IsKeyed st.waiters
  pub distinct : IsMap st.waiters
  pub fresh : IsFresh uuid st

module _ (uuid : ℕ → String) (unique : IsUnique uuid) (o : Options) (now : ℕ) where
  abbrev slot_for : Limiter → Entry → Slot
  slot_for st e = record {
    id = uuid st.drawn;
    workload = e.waiter.workload;
    expires_at = now + o.lease_ttl_ms;
  }

  abbrev after : Limiter → String → Entry → Limiter
  after st id e = record st {
    slots = insert (uuid st.drawn) (slot_for st e) st.slots;
    waiters = delete id st.waiters;
    drawn = suc st.drawn;
  }

  give_found :
      (st : Limiter) (id : String) (e : Entry)
      → lookup id st.waiters ≡ some e
      → (give uuid o now st id).0 ≡ after st id e
  unfolding give
  give_found st id e h = rw (h, give)

  after-IsFresh :
      (st : Limiter) (id : String) (e : Entry) → IsFresh uuid st → IsFresh uuid (after st id e)
  after-IsFresh st id e f i h =
      Lacks-insert (uuid st.drawn) (uuid i) (slot_for st e) st.slots
        (λ same. omega (arith, unique st.drawn i same)) (f i (omega arith))

  after-held :
      (st : Limiter) (id : String) (e : Entry) (w : String)
      → IsFresh uuid st
      → held (after st id e).slots w
        ≡ held st.slots w + (if str_eq e.waiter.workload w then 1 else 0)
  after-held st id e w f =
      rw (insert-Lacks (uuid st.drawn) (slot_for st e) st.slots (f st.drawn (omega arith))) (
        ground (
          arith,
          count_if-append (λ (x : String × Slot). str_eq x.1.workload w) st.slots
              ((uuid st.drawn, slot_for st e) ∷ []),
        ))

  after-length :
      (st : Limiter) (id : String) (e : Entry)
      → IsFresh uuid st
      → length (after st id e).slots ≡ length st.slots + 1
  after-length st id e f =
      rw (insert-Lacks (uuid st.drawn) (slot_for st e) st.slots (f st.drawn (omega arith)))
        (omega (arith, length-append st.slots ((uuid st.drawn, slot_for st e) ∷ [])))

  give-Ready :
      (g : Waiter) (ws : List Waiter) (st : Limiter)
      → Ready uuid (g ∷ ws) st
      → (e : Entry) × (e.waiter ≡ g)
        × ((give uuid o now st g.id).0 ≡ after st g.id e)
        × Ready uuid ws (after st g.id e)
  give-Ready g ws st r =
      let (e, found, same, left) = perm-lookup g ws st.waiters r.keyed r.distinct r.there in
      (
        e,
        same,
        give_found st g.id e found,
        record {
          there = left;
          keyed = delete-AllEntries (λ k x. x.waiter.id ≡ k) g.id st.waiters r.keyed;
          distinct = delete-IsMap g.id st.waiters r.distinct;
          fresh = after-IsFresh st g.id e r.fresh;
        },
      )

  pub give_all-Given :
      (gs rest : List Waiter) (st : Limiter)
      → Ready uuid (gs ++ rest) st
      → Given uuid gs rest st (give_all uuid o now st (map (λ g. g.id) gs)).0
  unfolding give_all
  give_all-Given [] rest st r = record {
    left = r.there;
    count = λ w. omega arith;
    size = omega arith;
    keyed = r.keyed;
    distinct = r.distinct;
    fresh = r.fresh;
    seq = refl;
    later = omega arith;
  }
  give_all-Given (g ∷ gs) rest st r =
      let (e, same, step, next) = give-Ready g (gs ++ rest) st r in
      let v = give_all-Given gs rest (after st g.id e) next in
      subst
        (λ (x : Limiter).
          Given uuid (g ∷ gs) rest st (give_all uuid o now x (map (λ g. g.id) gs)).0)
        (sym step)
        (record {
          left = v.left;
          count = λ w.
              v.count w
              ∙ ground
                  (arith, after-held st g.id e w r.fresh, ap (λ (x : Waiter). x.workload) same);
          size = v.size ∙ omega (arith, after-length st g.id e r.fresh);
          keyed = v.keyed;
          distinct = v.distinct;
          fresh = v.fresh;
          seq = v.seq;
          later = omega (arith, v.later);
        })
