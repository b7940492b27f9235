-- ===== src/Attachments/Fresh.antt =====
-- The loop of attachmentPath (packages/agent/src/ui-message-stream.ts) and the path that it finds.
use mathlib.Core.List.{append_cancel_left, append_cancel_right, tail-eq_of_cons-eq}
use runcell.Prelude.{
  ℕ, zero, suc, ◌+◌, ◌≤◌, ◌<◌, ◌≡◌, ◌≢◌, refl, sym, ap, ◌∙◌, true, false, Option, none, some, List,
  [], ◌∷◌, ◌++◌, length, length-append, if◌then◌else◌, Text, units, text_eq, text_eq_refl,
  text_eq-true, digits, digits_injective, Bool-cases, inl, inr, arith,
}
use runcell.Attachments.{
  take, drop, is_used, last_dot, stem_and_ext, numbered, in_folder, first_free,
}

-- The paths in use but for one.
abbrev except : Text → List Text → List Text
except t [] = []
except t (u ∷ us) = if text_eq u t then except t us else u ∷ except t us

pub apart_sym : (s t : Text) → text_eq s t ≡ false → text_eq t s ≡ false
apart_sym s t h = elim (Bool-cases (text_eq t s)) [
  | inr other ↦ other
  | inl same ↦ absurd (cc (text_eq-true t s same, h, text_eq_refl s))
]

is_used-except :
    (t d : Text) (us : List Text) → text_eq t d ≡ false → is_used d (except t us) ≡ is_used d us
is_used-except t d [] h = refl
is_used-except t d (u ∷ us) h = elim (Bool-cases (text_eq u t)) [
  | inr other ↦ rw (other, is_used-except t d us h) refl
  | inl same ↦
      let away : text_eq d u ≡ false = cc (text_eq-true u t same, apart_sym t d h) in
      rw (same, is_used-except t d us h, away) refl
]

length-except_le : (t : Text) (us : List Text) → length (except t us) ≤ length us
length-except_le t [] = omega arith
length-except_le t (u ∷ us) = ground (arith, length-except_le t us)

length-except :
    (t : Text) (us : List Text) → is_used t us ≡ true → length (except t us) + 1 ≤ length us
length-except t [] h = cc
length-except t (u ∷ us) h = elim (Bool-cases (text_eq u t)) [
  | inl same ↦ rw same (omega (arith, length-except_le t us))
  | inr other ↦
      let later : is_used t us ≡ true = ground (arith, h, apart_sym u t other) in
      rw other (omega (arith, length-except t us later))
]

-- A candidate and the numbered ones from a number on differ from each other.
abbrev IsApart : Text → Text → ℕ → Type 0
IsApart name candidate suffix =
    (n : ℕ) → suffix ≤ n → text_eq candidate (in_folder (numbered name n)) ≡ false

differs : (s t : Text) → s ≢ t → text_eq s t ≡ false
differs s t h = elim (Bool-cases (text_eq s t)) [
  | inl same ↦ absurd (h (text_eq-true s t same))
  | inr other ↦ other
]

take-append-drop : (n : ℕ) (cs : Text) → take n cs ++ drop n cs ≡ cs
take-append-drop zero cs = refl
take-append-drop (suc n) [] = refl
take-append-drop (suc n) (c ∷ cs) = ap (λ (r : Text). c ∷ r) (take-append-drop n cs)

length-stem_and_ext :
    (d : Option ℕ) (name : Text)
    → length (stem_and_ext d name).0 + length (stem_and_ext d name).1 ≡ length name
length-stem_and_ext none name = omega arith
length-stem_and_ext (some zero) name = omega arith
length-stem_and_ext (some (suc i)) name = omega (
  arith,
  length-append (take (suc i) name) (drop (suc i) name),
  ap length (take-append-drop (suc i) name),
)

length-numbered : (name : Text) (n : ℕ) → length name < length (numbered name n)
length-numbered name n =
    let (stem, ext) = stem_and_ext (last_dot name) name in
    omega (
      arith,
      length-stem_and_ext (last_dot name) name,
      length-append (stem_and_ext (last_dot name) name).0
          (45 ∷ digits n ++ (stem_and_ext (last_dot name) name).1),
      length-append (45 ∷ digits n) (stem_and_ext (last_dot name) name).1,
    )

numbered_injective : (name : Text) (m n : ℕ) → numbered name m ≡ numbered name n → m ≡ n
numbered_injective name m n e =
    let parts = stem_and_ext (last_dot name) name in
    let tails =
      append_cancel_left parts.0 (45 ∷ digits m ++ parts.1) (45 ∷ digits n ++ parts.1) e in
    let numerals = append_cancel_right (45 ∷ digits m) (45 ∷ digits n) parts.1 tails in
    digits_injective m n (tail-eq_of_cons-eq numerals)

in_folder-IsApart : (name : Text) → IsApart name (in_folder name) 2
in_folder-IsApart name n h = differs (in_folder name) (in_folder (numbered name n)) (λ e. omega (
  arith,
  length-numbered name n,
  ap length (append_cancel_left (units "attachments/") name (numbered name n) e),
))

numbered-IsApart : (name : Text) (m : ℕ) → IsApart name (in_folder (numbered name m)) (m + 1)
numbered-IsApart name m n h =
    differs (in_folder (numbered name m)) (in_folder (numbered name n)) (λ e. omega (
      arith,
      numbered_injective name m n
          (append_cancel_left (units "attachments/") (numbered name m) (numbered name n) e),
      h,
    ))

-- The paths in `left` are those in use that a round may still meet.
first_free_lem :
    (fuel : ℕ) (name : Text) (suffix : ℕ) (candidate : Text) (used left : List Text)
    → length left ≤ fuel
    → is_used candidate used ≡ is_used candidate left
    → ((n : ℕ)
        → suffix ≤ n
        → is_used (in_folder (numbered name n)) used ≡ is_used (in_folder (numbered name n)) left)
    → IsApart name candidate suffix
    → is_used (first_free (suc fuel) name suffix candidate used) used ≡ false
unfolding first_free
first_free_lem zero name suffix candidate used [] short here later away = rw (here, first_free) here
first_free_lem zero name suffix candidate used (u ∷ us) short here later away =
    absurd (omega (arith, short))
first_free_lem (suc fuel) name suffix candidate used left short here later away =
    elim (Bool-cases (is_used candidate used)) [
      | inr unused ↦ rw (unused, first_free) unused
      | inl taken ↦
          rw (taken, first_free)
            (first_free_lem fuel name (suffix + 1) (in_folder (numbered name suffix)) used
              (except candidate left)
              (omega (arith, short, length-except candidate left (sym here ∙ taken)))
              (later suffix (omega arith)
                ∙ sym (
                    is_used-except candidate (in_folder (numbered name suffix)) left
                      (away suffix (omega arith))))
              (λ n h.
                later n (omega (arith, h))
                ∙ sym (
                    is_used-except candidate (in_folder (numbered name n)) left
                      (away n (omega (arith, h)))))
              (numbered-IsApart name suffix))
    ]

-- The loop ends within its fuel, at a path that is not in use.
pub first_free-is_used :
    (name : Text) (used : List Text)
    → is_used (first_free (suc (length used)) name 2 (in_folder name) used) used ≡ false
first_free-is_used name used =
    first_free_lem (length used) name 2 (in_folder name) used used (omega arith) refl (λ n h. refl)
      (in_folder-IsApart name)
