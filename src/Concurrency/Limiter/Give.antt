-- ===== src/Concurrency/Limiter/Give.antt =====
-- Handing slots to the waiters that the allocator chose (the loop of `schedule` in
-- packages/agent/src/concurrency-limiter.ts).
use mathlib.Core.List.{Perm, Mem, Memᴰ, mem-cons_self}
use mathlib.Core.List.Perm
use mathlib.Core.List.Memᴰ
use mathlib.Core.HLevel.{⊥_prop, prop→set}
use text.Mathlib.TextEquality.{IsScalar-prop}
use mathlib.Core.Logic.{∥∥₁_elim}
use runcell.Prelude.{
  ℕ, ◌+◌, ◌≤◌, ◌≡◌, refl, sym, subst, String, true, false, some, List, [], ◌∷◌, str_eq, eq_iff,
  lookup, delete, lookup-Lacks, length, IsMap, Lacks, AllEntries, Bool-cases, Option-cases, inl,
  inr, ◌⊎◌, arith,
}
use runcell.Concurrency.Grants.{Waiter}
use runcell.Concurrency.Limiter.{Entry, waiters_of}

abbrev pub Waiters : Type 0
Waiters = List (String × Entry)

-- A waiter is stored under its own id.
abbrev pub IsKeyed : Waiters → Type 0
IsKeyed m = AllEntries (λ k e. e.waiter.id ≡ k) m

delete-Lacks {ℓ} : {V : Type ℓ} (k : String) (m : List (String × V)) → Lacks k m → delete k m ≡ m
unfolding delete
delete-Lacks k [] h = refl
delete-Lacks k ((j, v) ∷ m) h = ground (arith, eq_iff j k, delete-Lacks k m h.1)

pub Lacks-delete {ℓ} :
    {V : Type ℓ} (k j : String) (m : List (String × V)) → Lacks j m → Lacks j (delete k m)
unfolding delete
Lacks-delete k j [] h = tt
Lacks-delete k j ((i, v) ∷ m) h = ground (arith, Lacks-delete k j m h.1)

pub delete-IsMap {ℓ} :
    {V : Type ℓ} (k : String) (m : List (String × V)) → IsMap m → IsMap (delete k m)
unfolding delete
delete-IsMap k [] h = tt
delete-IsMap k ((j, v) ∷ m) h = ground (arith, delete-IsMap k m h.1, Lacks-delete k j m h.0)

pub delete-AllEntries {ℓ κ} :
    {V : Type ℓ} (P : String → V → Type κ) (k : String) (m : List (String × V))
    → AllEntries P m
    → AllEntries P (delete k m)
unfolding delete
delete-AllEntries P k [] h = tt
delete-AllEntries P k ((j, v) ∷ m) h = elim (Bool-cases (str_eq j k)) [
  | inl here ↦ rw here (delete-AllEntries P k m h.1)
  | inr other ↦ rw other (h.0, delete-AllEntries P k m h.1)
]

pub length-delete_le {ℓ} :
    {V : Type ℓ} (k : String) (m : List (String × V)) → length (delete k m) ≤ length m
unfolding delete
length-delete_le k [] = omega arith
length-delete_le k ((j, v) ∷ m) = ground (arith, length-delete_le k m)

pub length-delete {ℓ} :
    {V : Type ℓ} (k : String) (v : V) (m : List (String × V))
    → IsMap m
    → lookup k m ≡ some v
    → length m ≡ length (delete k m) + 1
unfolding delete lookup
length-delete k v [] d found = cc
length-delete k v ((j, u) ∷ m) d found = elim (Bool-cases (str_eq j k)) [
  | inl here ↦
      rw (here, delete-Lacks k m (subst (λ (x : String). Lacks x m) ((eq_iff j k).0 here) d.0))
        (omega arith)
  | inr other ↦ rw other (omega (arith, length-delete k v m d.1 (ground (arith, found))))
]

pub lookup-delete {ℓ} :
    {V : Type ℓ} (k j : String) (m : List (String × V))
    → str_eq k j ≡ false
    → lookup j (delete k m) ≡ lookup j m
unfolding delete lookup
lookup-delete k j [] h = refl
lookup-delete k j ((i, u) ∷ m) h =
    ground (arith, eq_iff i k, eq_iff i j, eq_iff k j, h, lookup-delete k j m h)

-- Deleting a waiter takes exactly that one out.
delete-perm :
    (k : String) (m : Waiters) (e : Entry)
    → IsMap m
    → lookup k m ≡ some e
    → Perm (waiters_of m) (e.waiter ∷ waiters_of (delete k m))
unfolding lookup delete
delete-perm k [] e d found = cc
delete-perm k ((j, u) ∷ m) e d found = elim (Bool-cases (str_eq j k)) [
  | inl here ↦
      let gone = delete-Lacks k m (subst (λ (x : String). Lacks x m) ((eq_iff j k).0 here) d.0) in
      let same : u ≡ e = ground (arith, found) in rw (here, gone, same) (Perm.refl _)
  | inr other ↦
      let ih = delete-perm k m e d.1 (ground (arith, found)) in
      rw other (Perm.trans (Perm.cons u.waiter ih) (Perm.swap e.waiter u.waiter _))
]

-- A waiter that is in the map is found under its id.
Memᴰ-lookup :
    (g : Waiter) (m : Waiters)
    → IsKeyed m
    → IsMap m
    → Memᴰ g (waiters_of m)
    → (e : Entry) × (lookup g.id m ≡ some e) × (e.waiter ≡ g)
unfolding lookup
Memᴰ-lookup g [] k d h = absurd (Memᴰ.not-nil h)
Memᴰ-lookup g ((j, u) ∷ m) k d h = elim (Memᴰ.cases_cons h) [
  | inl e ↦ (u, ground (arith, k.0, e, eq_iff j g.id), sym e)
  | inr later ↦
      let (e, found, same) = Memᴰ-lookup g m k.1 d.1 later in
      let other : str_eq j g.id ≡ false = apart (Bool-cases (str_eq j g.id)) e found in
      (e, rw other found, same)
]
  where
    apart :
        (str_eq j g.id ≡ true) ⊎ (str_eq j g.id ≡ false)
        → (e : Entry) → lookup g.id m ≡ some e
        → str_eq j g.id ≡ false
    apart (inr other) e found = other
    apart (inl here) e found =
        let gone =
          lookup-Lacks g.id m (subst (λ (x : String). Lacks x m) ((eq_iff j g.id).0 here) d.0) in
        absurd (cc (found, gone))

waiter_set : IsSet Waiter
waiter_set = hlevel (λ (n : ℕ). prop→set (IsScalar-prop n))

-- So each waiter that the allocator chose is found, and taking it out leaves the others.
pub perm-lookup :
    (g : Waiter) (rest : List Waiter) (m : Waiters)
    → IsKeyed m
    → IsMap m
    → Perm (g ∷ rest) (waiters_of m)
    → (e : Entry) × (lookup g.id m ≡ some e)
      × (e.waiter ≡ g)
      × Perm rest (waiters_of (delete g.id m))
perm-lookup g rest m k d p = elim (Option-cases (lookup g.id m)) [
  | inl gone ↦ absurd (∥∥₁_elim member ⊥_prop (λ h. cc (gone, (Memᴰ-lookup g m k d h).1)))
  | inr (e, found) ↦
      let same =
        ∥∥₁_elim member (waiter_set e.waiter g)
          (λ h. ground (arith, found, (Memᴰ-lookup g m k d h).1, (Memᴰ-lookup g m k d h).2)) in
      (
        e,
        found,
        same,
        Perm.cons_inv (
            Perm.trans p (
              subst (λ (w : Waiter). Perm (waiters_of m) (w ∷ waiters_of (delete g.id m))) same
                (delete-perm g.id m e d found))),
      )
]
  where
    member : Mem g (waiters_of m)
    member = Perm.subset p g mem-cons_self
