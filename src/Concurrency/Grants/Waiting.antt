-- ===== src/Concurrency/Grants/Waiting.antt =====
-- The allocator's queues as a whole (selectConcurrencyGrants of
-- packages/agent/src/concurrency-policy.ts).
use mathlib.Core.List.{Perm, perm_append_comm, perm_append_singleton}
use mathlib.Core.List.Perm
use runcell.Prelude.{
  ◌≡◌, refl, sym, subst, String, List, [], ◌∷◌, ◌++◌, append_assoc, append-nil, inl, inr,
  Bool-cases, lookup, insert, arith, str_eq, or_else, filter, is_some, leb, leb→le, ℕ, ◌≤◌, All,
  All-map,
}
use runcell.Concurrency.Policy.{ResolvedLimits}
use runcell.Concurrency.Grants.{Waiter, Queues, enqueue, group, insert_by_seq, sort_by_seq}

abbrev pub pending : Queues → List Waiter
pending [] = []
pending ((k, q) ∷ qs) = q ++ pending qs

abbrev pub configured : ResolvedLimits → List Waiter → List Waiter
configured limits = filter (λ x. is_some (lookup x.workload limits.workloads))

insert_by_seq-perm : (w : Waiter) (xs : List Waiter) → Perm (insert_by_seq w xs) (w ∷ xs)
unfolding insert_by_seq
insert_by_seq-perm w [] = Perm.refl _
insert_by_seq-perm w (x ∷ xs) = elim (Bool-cases (leb w.seq x.seq)) [
  | inl first ↦ rw first (Perm.refl _)
  | inr later ↦ rw later (Perm.trans (Perm.cons x (insert_by_seq-perm w xs)) (Perm.swap w x xs))
]

-- Sorting loses and doubles no waiter.
pub sort_by_seq-perm : (ws : List Waiter) → Perm (sort_by_seq ws) ws
unfolding sort_by_seq
sort_by_seq-perm [] = Perm.refl _
sort_by_seq-perm (w ∷ ws) =
    Perm.trans (insert_by_seq-perm w (sort_by_seq ws)) (Perm.cons w (sort_by_seq-perm ws))

-- Oldest first.
abbrev pub IsOldestFirst : List Waiter → Type 0
IsOldestFirst [] = Unit
IsOldestFirst (x ∷ xs) = All (λ y. x.seq ≤ y.seq) xs × IsOldestFirst xs

insert_by_seq-All :
    (n : ℕ) (w : Waiter) (xs : List Waiter)
    → n ≤ w.seq
    → All (λ y. n ≤ y.seq) xs
    → All (λ y. n ≤ y.seq) (insert_by_seq w xs)
unfolding insert_by_seq
insert_by_seq-All n w [] h k = (h, tt)
insert_by_seq-All n w (x ∷ xs) h (here, later) = elim (Bool-cases (leb w.seq x.seq)) [
  | inl first ↦ rw first (h, (here, later))
  | inr last ↦ rw last (here, insert_by_seq-All n w xs h later)
]

insert_by_seq-IsOldestFirst :
    (w : Waiter) (xs : List Waiter) → IsOldestFirst xs → IsOldestFirst (insert_by_seq w xs)
unfolding insert_by_seq
insert_by_seq-IsOldestFirst w [] h = (tt, tt)
insert_by_seq-IsOldestFirst w (x ∷ xs) (below, sorted) = elim (Bool-cases (leb w.seq x.seq)) [
  | inl first ↦
      let older = leb→le w.seq x.seq first in
      rw first (
        (older, All-map (λ (y : Waiter) (h : x.seq ≤ y.seq). omega (arith, older, h)) xs below),
        (below, sorted),
      )
  | inr last ↦ rw last (
    insert_by_seq-All x.seq w xs (ground (arith, last)) below,
    insert_by_seq-IsOldestFirst w xs sorted,
  )
]

-- Sorting puts the oldest first.
pub sort_by_seq-IsOldestFirst : (ws : List Waiter) → IsOldestFirst (sort_by_seq ws)
unfolding sort_by_seq
sort_by_seq-IsOldestFirst [] = tt
sort_by_seq-IsOldestFirst (w ∷ ws) =
    insert_by_seq-IsOldestFirst w (sort_by_seq ws) (sort_by_seq-IsOldestFirst ws)

perm_across {ℓ} : {A : Type ℓ} (a r x : List A) → Perm (a ++ (r ++ x)) (r ++ (a ++ x))
perm_across a r x =
    rw (← append_assoc a r x, ← append_assoc r a x) (Perm.append_right x (perm_append_comm a r))

-- Replacing a queue exchanges its waiters.
pub pending-insert :
    (k : String) (old q a b : List Waiter) (qs : Queues)
    → or_else (lookup k qs) [] ≡ old
    → Perm (a ++ q) (b ++ old)
    → Perm (a ++ pending (insert k q qs)) (b ++ pending qs)
unfolding lookup insert
pending-insert k old q a b [] e p =
    rw (append-nil q) (subst (λ (o : List Waiter). Perm (a ++ q) (b ++ o)) (sym e) p)
pending-insert k old q a b ((j, r) ∷ qs) e p = elim (Bool-cases (str_eq j k)) [
  | inl same ↦
      let here : r ≡ old = ground (arith, e) in
      rw (same, here, ← append_assoc a q (pending qs), ← append_assoc b old (pending qs))
        (Perm.append_right (pending qs) p)
  | inr other ↦
      let ih = pending-insert k old q a b qs (ground (arith, e)) p in
      rw other (
        Perm.trans (perm_across a r (pending (insert k q qs)))
          (Perm.trans (Perm.append_left r ih) (Perm.symm (perm_across b r (pending qs)))))
]

enqueue-perm :
    (limits : ResolvedLimits) (qs : Queues) (x : Waiter)
    → Perm (pending (enqueue limits qs x)) (configured limits (x ∷ []) ++ pending qs)
unfolding enqueue
enqueue-perm limits qs x = elim (Bool-cases (is_some (lookup x.workload limits.workloads))) [
  | inl known ↦ rw known (
      pending-insert x.workload (or_else (lookup x.workload qs) [])
        (or_else (lookup x.workload qs) [] ++ x ∷ []) [] (x ∷ []) qs refl
        (perm_append_singleton x (or_else (lookup x.workload qs) [])))
  | inr other ↦ rw other (Perm.refl _)
]

configured-append :
    (limits : ResolvedLimits) (xs ys : List Waiter)
    → configured limits (xs ++ ys) ≡ configured limits xs ++ configured limits ys
configured-append limits [] ys = refl
configured-append limits (x ∷ xs) ys = ground (arith, configured-append limits xs ys)

-- The queues hold exactly the waiters of configured workloads.
pub group-perm :
    (limits : ResolvedLimits) (qs : Queues) (ws : List Waiter)
    → Perm (pending (group limits qs ws)) (configured limits ws ++ pending qs)
unfolding group
group-perm limits qs [] = Perm.refl _
group-perm limits qs (x ∷ ws) = Perm.trans (group-perm limits (enqueue limits qs x) ws) (
    Perm.trans (Perm.append_left (configured limits ws) (enqueue-perm limits qs x)) (
      rw (configured-append limits (x ∷ []) ws, append_assoc)
        (perm_across (configured limits ws) (configured limits (x ∷ [])) (pending qs))))
