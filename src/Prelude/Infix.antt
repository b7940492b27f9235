-- ===== src/Prelude/Infix.antt =====
-- Where an element or a text stands in a longer one.
use mathlib.Core.Path.{◌≡◌, refl, sym, ap, ◌∙◌, subst}
use mathlib.Core.Bool.{Bool, true}
use mathlib.Core.List.{List, [], ◌∷◌, ◌++◌, map, Memᴰ, append_assoc, append-nil}
use mathlib.Core.Logic.{inl, inr}
use runcell.Prelude.Tests.{Bool-cases}
use runcell.Prelude.Lists.{filter, All}

module _ {ℓ} {A : Type ℓ} where
  -- One list inside another.
  abbrev pub IsInfix : List A → List A → Type ℓ
  IsInfix s t = (before : List A) × (after : List A) × (t ≡ before ++ (s ++ after))

  pub IsInfix-refl : (s : List A) → IsInfix s s
  IsInfix-refl s = ([], [], sym (append-nil s))

  pub IsInfix-left : (s t u : List A) → IsInfix s t → IsInfix s (u ++ t)
  IsInfix-left s t u (a, b, e) =
      (u ++ a, b, ap (λ (r : List A). u ++ r) e ∙ sym (append_assoc u a (s ++ b)))

  pub IsInfix-right : (s t u : List A) → IsInfix s t → IsInfix s (t ++ u)
  IsInfix-right s t u (a, b, e) = (
    a,
    b ++ u,
    ap (λ (r : List A). r ++ u) e
        ∙ append_assoc a (s ++ b) u
        ∙ ap (λ (r : List A). a ++ r) (append_assoc s b u),
  )

  pub IsInfix-trans : (s t u : List A) → IsInfix s t → IsInfix t u → IsInfix s u
  IsInfix-trans s t u h (a, b, e) =
      subst (IsInfix s) (sym e) (IsInfix-left s (t ++ b) a (IsInfix-right s t b h))

  pub filter-Mem :
      (p : A → Bool) (x : A) (xs : List A) → p x ≡ true → Memᴰ x xs → Memᴰ x (filter p xs)
  filter-Mem p x [] h k = elim k [ ]
  filter-Mem p x (y ∷ ys) h (Memᴰ.head same) = rw (← same, h) (Memᴰ.head refl)
  filter-Mem p x (y ∷ ys) h (Memᴰ.tail later) = elim (Bool-cases (p y)) [
    | inl passes ↦ rw passes (Memᴰ.tail (filter-Mem p x ys h later))
    | inr fails ↦ rw fails (filter-Mem p x ys h later)
  ]

module _ {ℓ κ} {A : Type ℓ} {B : Type κ} (f : A → B) where
  pub map-Mem : (x : A) (xs : List A) → Memᴰ x xs → Memᴰ (f x) (map f xs)
  map-Mem x [] h = elim h [ ]
  map-Mem x (y ∷ ys) (Memᴰ.head same) = Memᴰ.head (ap f same)
  map-Mem x (y ∷ ys) (Memᴰ.tail later) = Memᴰ.tail (map-Mem x ys later)

module _ {ℓ κ} {A : Type ℓ} (P : A → Type κ) where
  -- What is said of each element that stands in a list holds of all.
  pub All-Mem : (xs : List A) → ((x : A) → Memᴰ x xs → P x) → All P xs
  All-Mem [] h = tt
  All-Mem (x ∷ xs) h = (h x (Memᴰ.head refl), All-Mem xs (λ y k. h y (Memᴰ.tail k)))

  pub Mem-All : (x : A) (xs : List A) → All P xs → Memᴰ x xs → P x
  Mem-All x [] h k = elim k [ ]
  Mem-All x (y ∷ ys) h (Memᴰ.head same) = subst P (sym same) h.0
  Mem-All x (y ∷ ys) h (Memᴰ.tail later) = Mem-All x ys h.1 later
