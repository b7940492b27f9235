-- ===== src/Prelude/Maps.antt =====
-- A `Map` or an object with string keys, as an association list in insertion order: a write to a
-- key that is there replaces its value in place, and any other goes to the end.
use Prim.Native.String.{String}
use mathlib.Core.Path.{◌≡◌, refl, sym}
use mathlib.Core.Logic.{◌≢◌}
use mathlib.Core.Bool.{Bool, true, false}
use mathlib.Core.Option.{Option, none, some}
use mathlib.Core.List.{List, [], ◌∷◌, ◌++◌}
use native.Mathlib.Omega.{arith}
use text.Mathlib.Text.{◌==◌ as str_eq}
use text.Mathlib.TextEquality.{eq_iff}
use runcell.Prelude.Tests.{if◌then◌else◌}

abbrev pub or_else {ℓ} : {A : Type ℓ} → Option A → A → A
or_else none d = d
or_else (some a) d = a

abbrev pub is_some {ℓ} : {A : Type ℓ} → Option A → Bool
is_some none = false
is_some (some a) = true

module _ {ℓ} {V : Type ℓ} where
  unfoldable pub lookup : String → List (String × V) → Option V
  lookup key [] = none
  lookup key ((k, v) ∷ m) = if str_eq k key then some v else lookup key m

  unfoldable pub insert : String → V → List (String × V) → List (String × V)
  insert key new [] = (key, new) ∷ []
  insert key new ((k, v) ∷ m) = if str_eq k key then (k, new) ∷ m else (k, v) ∷ insert key new m

  -- `map.delete(key)`.
  unfoldable pub delete : String → List (String × V) → List (String × V)
  delete k [] = []
  delete k ((j, v) ∷ m) = if str_eq j k then delete k m else (j, v) ∷ delete k m

  abbrev pub values : List (String × V) → List V
  values [] = []
  values ((k, v) ∷ m) = v ∷ values m

  pub lookup-insert :
      (key other : String) (new : V) (m : List (String × V))
      → lookup other (insert key new m) ≡ (if str_eq key other then some new else lookup other m)
  unfolding lookup insert
  lookup-insert key other new [] = refl
  lookup-insert key other new ((k, v) ∷ m) =
      ground (arith, lookup-insert key other new m, eq_iff k key, eq_iff k other, eq_iff key other)

  -- Every key is held once, which a `Map` and an object always meet.
  abbrev pub Lacks : String → List (String × V) → Type 0
  Lacks k [] = Unit
  Lacks k ((j, v) ∷ m) = (j ≢ k) × Lacks k m

  abbrev pub IsMap : List (String × V) → Type 0
  IsMap [] = Unit
  IsMap ((k, v) ∷ m) = Lacks k m × IsMap m

  pub Lacks-insert :
      (k j : String) (v : V) (m : List (String × V)) → k ≢ j → Lacks j m → Lacks j (insert k v m)
  unfolding insert
  Lacks-insert k j v [] n h = (n, tt)
  Lacks-insert k j v ((i, w) ∷ m) n h = ground (arith, Lacks-insert k j v m n h.1)

  pub insert-IsMap : (k : String) (v : V) (m : List (String × V)) → IsMap m → IsMap (insert k v m)
  unfolding insert
  insert-IsMap k v [] h = (tt, tt)
  insert-IsMap k v ((i, w) ∷ m) h =
      ground (arith, eq_iff i k, insert-IsMap k v m h.1, Lacks-insert k i v m)

  pub lookup-Lacks : (k : String) (m : List (String × V)) → Lacks k m → lookup k m ≡ none
  unfolding lookup
  lookup-Lacks k [] h = refl
  lookup-Lacks k ((j, v) ∷ m) h = ground (arith, eq_iff j k, lookup-Lacks k m h.1)

  -- A key that is not there is written at the end.
  pub insert-Lacks :
      (k : String) (v : V) (m : List (String × V)) → Lacks k m → insert k v m ≡ m ++ (k, v) ∷ []
  unfolding insert
  insert-Lacks k v [] h = refl
  insert-Lacks k v ((j, w) ∷ m) h = ground (arith, eq_iff j k, insert-Lacks k v m h.1)

  pub Lacks-append_mid :
      (k j : String) (v : V) (m n : List (String × V)) → Lacks k (m ++ (j, v) ∷ n) → j ≢ k
  Lacks-append_mid k j v [] n h = h.0
  Lacks-append_mid k j v (e ∷ m) n h = Lacks-append_mid k j v m n h.1

  pub IsMap-append_mid :
      (k : String) (v : V) (m n : List (String × V)) → IsMap (m ++ (k, v) ∷ n) → Lacks k m
  IsMap-append_mid k v [] n h = tt
  IsMap-append_mid k v ((j, w) ∷ m) n h =
      (λ e. Lacks-append_mid j k v m n h.0 (sym e), IsMap-append_mid k v m n h.1)

module _ {ℓ κ} {V : Type ℓ} (P : String → V → Type κ) where
  -- What holds of every entry.
  abbrev pub AllEntries : List (String × V) → Type κ
  AllEntries [] = Unit
  AllEntries ((k, v) ∷ m) = P k v × AllEntries m

  pub AllEntries-lookup :
      (k : String) (m : List (String × V)) (v : V) → AllEntries m → lookup k m ≡ some v → P k v
  unfolding lookup
  AllEntries-lookup k [] v h e = cc
  AllEntries-lookup k ((j, w) ∷ m) v (p, h) e =
      ground (arith, eq_iff j k, AllEntries-lookup k m v h, p)

  pub AllEntries-insert :
      (k : String) (v : V) (m : List (String × V))
      → P k v
      → AllEntries m
      → AllEntries (insert k v m)
  unfolding insert
  AllEntries-insert k v [] p h = (p, tt)
  AllEntries-insert k v ((j, w) ∷ m) p h = ground (arith, eq_iff j k, AllEntries-insert k v m p h.1)
