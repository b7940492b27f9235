-- ===== src/Concurrency/Limiter/Invariant.antt =====
-- The invariant of the in-process limiter, and changes to its waiters
-- (packages/agent/src/concurrency-limiter.ts).
use runcell.Prelude.{
  ℕ, ◌≤◌, ◌<◌, ◌≡◌, refl, ap, String, List, [], ◌∷◌, ◌++◌, str_eq, delete, Lacks, All, All-append,
  Bool-cases, inl, inr,
}
use runcell.Concurrency.Grants.{Waiter}
use runcell.Concurrency.Grants.Order.{IsConfigured}
use runcell.Concurrency.Limiter.{Options, Limiter, waiters_of, arm_expiry_timer}
use runcell.Concurrency.Limiter.Give.{Waiters, Lacks-delete, delete-IsMap, delete-AllEntries}
use runcell.Concurrency.Limiter.Schedule.{Base}

-- Strictly older waiters stand first.
abbrev pub IsByAge : List Waiter → Type 0
IsByAge [] = Unit
IsByAge (w ∷ ws) = All (λ x. w.seq < x.seq) ws × IsByAge ws

-- What holds of the waiters whatever their number.
pub record Inv (uuid : ℕ → String) (o : Options) (st : Limiter) : Type 0 where
  pub base : Base uuid o st
  pub unseen : (i : ℕ) → st.drawn ≤ i → Lacks (uuid i) st.waiters
  pub ages : IsByAge (waiters_of st.waiters)
  pub young : All (λ w. w.seq ≤ st.seq) (waiters_of st.waiters)

pub All-delete :
    (P : Waiter → Type 0) (k : String) (m : Waiters)
    → All P (waiters_of m)
    → All P (waiters_of (delete k m))
unfolding delete
All-delete P k [] h = tt
All-delete P k ((j, e) ∷ m) h = elim (Bool-cases (str_eq j k)) [
  | inl here ↦ rw here (All-delete P k m h.1)
  | inr other ↦ rw other (h.0, All-delete P k m h.1)
]

pub IsByAge-delete :
    (k : String) (m : Waiters) → IsByAge (waiters_of m) → IsByAge (waiters_of (delete k m))
unfolding delete
IsByAge-delete k [] h = tt
IsByAge-delete k ((j, e) ∷ m) h = elim (Bool-cases (str_eq j k)) [
  | inl here ↦ rw here (IsByAge-delete k m h.1)
  | inr other ↦ rw other (All-delete (λ x. e.waiter.seq < x.seq) k m h.0, IsByAge-delete k m h.1)
]

pub waiters_of-append : (m n : Waiters) → waiters_of (m ++ n) ≡ waiters_of m ++ waiters_of n
waiters_of-append [] n = refl
waiters_of-append ((k, e) ∷ m) n = ap (λ (ws : List Waiter). e.waiter ∷ ws) (waiters_of-append m n)

pub IsByAge-append :
    (ws : List Waiter) (x : Waiter)
    → IsByAge ws
    → All (λ w. w.seq < x.seq) ws
    → IsByAge (ws ++ x ∷ [])
IsByAge-append [] x h k = (tt, tt)
IsByAge-append (w ∷ ws) x h k =
    (All-append (λ y. w.seq < y.seq) ws (x ∷ []) h.0 (k.0, tt), IsByAge-append ws x h.1 k.1)

-- A waiter that leaves.
pub leave-Inv :
    (uuid : ℕ → String) (o : Options) (id : String) (st : Limiter)
    → Inv uuid o st
    → Inv uuid o (record st { waiters = delete id st.waiters })
leave-Inv uuid o id st v = record {
  base = record {
    fits = v.base.fits;
    keyed = delete-AllEntries (λ k e. e.waiter.id ≡ k) id st.waiters v.base.keyed;
    distinct = delete-IsMap id st.waiters v.base.distinct;
    known = All-delete (λ w. IsConfigured o.limits w.workload) id st.waiters v.base.known;
    fresh = v.base.fresh;
  };
  unseen = λ i h. Lacks-delete id (uuid i) st.waiters (v.unseen i h);
  ages = IsByAge-delete id st.waiters v.ages;
  young = All-delete (λ w. w.seq ≤ st.seq) id st.waiters v.young;
}

pub arm-Inv :
    (uuid : ℕ → String) (o : Options) (now : ℕ) (st : Limiter)
    → Inv uuid o st
    → Inv uuid o (arm_expiry_timer now st)
unfolding arm_expiry_timer
arm-Inv uuid o now st v = record {
  base = record {
    fits = v.base.fits;
    keyed = v.base.keyed;
    distinct = v.base.distinct;
    known = v.base.known;
    fresh = v.base.fresh;
  };
  unseen = v.unseen;
  ages = v.ages;
  young = v.young;
}
