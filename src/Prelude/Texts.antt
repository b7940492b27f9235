-- ===== src/Prelude/Texts.antt =====
-- Texts as lists of code units.
use Prim.Native.Char.{code}
use Prim.Native.String.{String, [] as no_string, ◌∷◌ as string_cons}
use Prim.Native.Nat.{ℕ, zero, suc, ◌+◌, ◌-◌, ◌*◌, ◌/◌, ◌%◌, ◌<◌}
use mathlib.Core.Path.{◌≡◌, refl, sym, ap, ◌∙◌}
use mathlib.Core.Bool.{Bool, true, false, ◌&&◌, ◌||◌}
use mathlib.Core.List.{List, [], ◌∷◌, ◌++◌}
use native.Mathlib.Omega.{arith}
use runcell.Prelude.Tests.{◌==◌, ltb}

abbrev pub Text : Type 0
Text = List ℕ

-- The units of a literal of ASCII characters.
abbrev pub units : String → Text
units no_string = []
units (string_cons c s) = code c ∷ units s

abbrev pub text_eq : Text → Text → Bool
text_eq [] [] = true
text_eq [] (d ∷ ds) = false
text_eq (c ∷ cs) [] = false
text_eq (c ∷ cs) (d ∷ ds) = c == d && text_eq cs ds

-- `text.includes(c)`, for one code unit.
unfoldable pub includes : ℕ → Text → Bool
includes c [] = false
includes c (x ∷ xs) = x == c || includes c xs

pub text_eq_refl : (s : Text) → text_eq s s ≡ true
text_eq_refl [] = refl
text_eq_refl (c ∷ cs) = ground (arith, text_eq_refl cs)

pub text_eq-true : (s t : Text) → text_eq s t ≡ true → s ≡ t
text_eq-true [] [] h = refl
text_eq-true [] (d ∷ ds) h = cc
text_eq-true (c ∷ cs) [] h = cc
text_eq-true (c ∷ cs) (d ∷ ds) h = ground (arith, h, text_eq-true cs ds)

-- `${n}`, in decimal. Each round divides by ten, so n + 1 rounds are enough.
abbrev pub digits_in : ℕ → ℕ → Text
digits_in zero n = []
digits_in (suc fuel) n = elim (ltb n 10) [
  | true ↦ (48 + n) ∷ []
  | false ↦ digits_in fuel (n / 10) ++ (48 + n % 10) ∷ []
]

unfoldable pub digits : ℕ → Text
digits n = digits_in (suc n) n

-- What a numeral stands for, after what was read before it.
abbrev pub value_after : ℕ → Text → ℕ
value_after n [] = n
value_after n (c ∷ cs) = value_after (n * 10 + (c - 48)) cs

value_after-append : (n : ℕ) (s t : Text) → value_after n (s ++ t) ≡ value_after (value_after n s) t
value_after-append n [] t = refl
value_after-append n (c ∷ cs) t = value_after-append (n * 10 + (c - 48)) cs t

value-digits_in : (fuel n : ℕ) → n < fuel → value_after 0 (digits_in fuel n) ≡ n
value-digits_in zero n h = omega arith
value-digits_in (suc fuel) n h = pick (ltb n 10) refl (value-digits_in fuel (n / 10))
  where
    pick :
        (b : Bool)
        → ltb n 10 ≡ b
        → (n / 10 < fuel → value_after 0 (digits_in fuel (n / 10)) ≡ n / 10)
        → value_after 0 (elim b [
          | true ↦ (48 + n) ∷ []
          | false ↦ digits_in fuel (n / 10) ++ (48 + n % 10) ∷ []
        ])
          ≡ n
    pick true small ih = omega arith
    pick false big ih =
        value_after-append 0 (digits_in fuel (n / 10)) ((48 + n % 10) ∷ [])
        ∙ ground (arith, big, ih (ground (arith, big)))

pub value-digits : (n : ℕ) → value_after 0 (digits n) ≡ n
unfolding digits
value-digits n = value-digits_in (suc n) n (omega arith)

-- Numerals of different numbers differ.
pub digits_injective : (m n : ℕ) → digits m ≡ digits n → m ≡ n
digits_injective m n e = sym (value-digits m) ∙ ap (value_after 0) e ∙ value-digits n
