-- ===== src/Concurrency/Limiter/Slots/Back.antt =====
-- Slots that are given back, expire or are renewed
-- (packages/agent/src/concurrency-limiter.ts).
use runcell.Prelude.{
  ℕ, ◌+◌, ◌≤◌, ◌≡◌, refl, sym, subst, String, some, List, [], ◌∷◌, ◌++◌, append_assoc,
  if◌then◌else◌, str_eq, eq_iff, lookup, insert, delete, length, length-append, count_if-append,
  AllEntries, IsMap, Lacks, Bool-cases, inl, inr, arith, leb,
}
use runcell.Concurrency.Policy.{ResolvedLimits}
use runcell.Concurrency.Policy.Valid.{Entries}
use runcell.Concurrency.Limiter.{Slot, purge_expired}
use runcell.Concurrency.Limiter.Slots.{Slots, held, unmet_by, Fits}

-- One slot fewer for one workload raises the unmet reservations by at most one.
unmet_by-Lacks :
    (m : Entries) (f g : String → ℕ) (j : String)
    → Lacks j m
    → ((k : String) → g k ≡ f k + (if str_eq j k then 1 else 0))
    → unmet_by m f ≡ unmet_by m g
unmet_by-Lacks [] f g j l h = refl
unmet_by-Lacks ((k, w) ∷ m) f g j l h =
    ground (arith, unmet_by-Lacks m f g j l.1 h, h k, eq_iff j k, eq_iff k j)

unmet_by_drop :
    (m : Entries) (f g : String → ℕ) (j : String)
    → IsMap m
    → ((k : String) → g k ≡ f k + (if str_eq j k then 1 else 0))
    → unmet_by m f ≤ unmet_by m g + 1
unmet_by_drop [] f g j d h = omega arith
unmet_by_drop ((k, w) ∷ m) f g j d h = elim (Bool-cases (str_eq j k)) [
  | inl same ↦
      let e = (eq_iff j k).0 same in
      let rest = unmet_by-Lacks m f g j (subst (λ (x : String). Lacks x m) (sym e) d.0) h in
      ground (arith, h k, rest)
  | inr other ↦ ground (arith, h k, unmet_by_drop m f g j d.1 h)
]

ceilings_drop :
    (m : Entries) (f g : String → ℕ)
    → ((k : String) → f k ≤ g k)
    → AllEntries (λ k w. g k ≤ w.max_concurrent) m
    → AllEntries (λ k w. f k ≤ w.max_concurrent) m
ceilings_drop [] f g h c = tt
ceilings_drop ((k, w) ∷ m) f g h c = (omega (arith, h k, c.0), ceilings_drop m f g h c.1)

module _ (limits : ResolvedLimits) (d : IsMap limits.workloads) where
  held_mid :
      (xs ys : Slots) (id : String) (s : Slot) (k : String)
      → held (xs ++ (id, s) ∷ ys) k ≡ held (xs ++ ys) k + (if str_eq s.workload k then 1 else 0)
  held_mid xs ys id s k = ground (
    arith,
    count_if-append (λ e. str_eq e.1.workload k) xs ((id, s) ∷ ys),
    count_if-append (λ e. str_eq e.1.workload k) xs ys,
  )

  pub Fits-drop :
      (xs ys : Slots) (id : String) (s : Slot)
      → Fits limits (xs ++ (id, s) ∷ ys)
      → Fits limits (xs ++ ys)
  Fits-drop xs ys id s v = record {
    ceilings =
        ceilings_drop limits.workloads (held (xs ++ ys)) (held (xs ++ (id, s) ∷ ys))
          (λ k. omega (arith, held_mid xs ys id s k)) v.ceilings;
    room = omega (
      arith,
      v.room,
      unmet_by_drop limits.workloads (held (xs ++ ys)) (held (xs ++ (id, s) ∷ ys)) s.workload d
          (held_mid xs ys id s),
      length-append xs ys,
      length-append xs ((id, s) ∷ ys),
    );
  }

  -- What is kept of the slots after a prefix that stays.
  purge_after :
      (now : ℕ) (xs m : Slots) → Fits limits (xs ++ m) → Fits limits (xs ++ purge_expired now m)
  unfolding purge_expired
  purge_after now xs [] v = v
  purge_after now xs ((id, s) ∷ m) v = elim (Bool-cases (leb s.expires_at now)) [
    | inl old ↦ rw old (purge_after now xs m (Fits-drop xs m id s v))
    | inr live ↦
        rw (live, ← append_assoc xs ((id, s) ∷ []) (purge_expired now m))
          (purge_after now (xs ++ (id, s) ∷ []) m (rw (append_assoc xs ((id, s) ∷ []) m) v))
  ]

  delete_after :
      (k : String) (xs m : Slots) → Fits limits (xs ++ m) → Fits limits (xs ++ delete k m)
  unfolding delete
  delete_after k xs [] v = v
  delete_after k xs ((id, s) ∷ m) v = elim (Bool-cases (str_eq id k)) [
    | inl here ↦ rw here (delete_after k xs m (Fits-drop xs m id s v))
    | inr other ↦
        rw (other, ← append_assoc xs ((id, s) ∷ []) (delete k m))
          (delete_after k (xs ++ (id, s) ∷ []) m (rw (append_assoc xs ((id, s) ∷ []) m) v))
  ]

  pub purge_expired-Fits : (now : ℕ) (m : Slots) → Fits limits m → Fits limits (purge_expired now m)
  purge_expired-Fits now m v = purge_after now [] m v

  pub delete-Fits : (k : String) (m : Slots) → Fits limits m → Fits limits (delete k m)
  delete-Fits k m v = delete_after k [] m v

-- A renewed slot stays with its workload.
pub held-insert :
    (id : String) (s t : Slot) (m : Slots) (w : String)
    → lookup id m ≡ some s
    → t.workload ≡ s.workload
    → held (insert id t m) w ≡ held m w
unfolding lookup insert
held-insert id s t [] w e same = cc
held-insert id s t ((k, u) ∷ m) w e same = ground (arith, held-insert id s t m w)

pub length-insert {ℓ} :
    {V : Type ℓ} (id : String) (s t : V) (m : List (String × V))
    → lookup id m ≡ some s
    → length (insert id t m) ≡ length m
unfolding lookup insert
length-insert id s t [] e = cc
length-insert id s t ((k, u) ∷ m) e = ground (arith, length-insert id s t m)
