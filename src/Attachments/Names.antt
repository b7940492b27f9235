-- ===== src/Attachments/Names.antt =====
-- The names of attached files (attachmentPath in packages/agent/src/ui-message-stream.ts), and the
-- paths of the workspace that they give (packages/agent/src/paths.ts).
use runcell.Prelude.{
  ℕ, zero, suc, ◌+◌, ◌/◌, ◌%◌, ◌<◌, ltb, ltb→lt, ◌≡◌, ◌≢◌, refl, sym, true, false, Option, none,
  some, List, [], ◌∷◌, ◌++◌, map, length, Text, units, text_eq, digits, digits_in, or_else,
  Bool-cases, inl, inr, arith, All, All-append, ok, subst, includes, ◌==◌, ==_iff,
}
use runcell.Paths.{safe_path, join, is_dot, is_dot_dot}
use runcell.Paths.Safe.{safe_path-join, Without}
use runcell.Attachments.{
  take, drop, is_name_unit, clean_unit, drop_dots, base_name, after_separator, extension_part,
  bind_extension, attachment_name, last_dot, stem_and_ext, numbered, is_used, in_folder, first_free,
  lower_type, attachment_path,
}

abbrev IsUnit : ℕ → Type 0
IsUnit c = is_name_unit c ≡ true

abbrev AreUnits : Text → Type 0
AreUnits = All IsUnit

-- A file's own name: it has a unit, does not start with a dot, and its units are letters, digits,
-- dots, lines and hyphens.
abbrev pub IsName : Text → Type 0
IsName [] = ⊥
IsName (c ∷ cs) = (c ≢ 46) × AreUnits (c ∷ cs)

clean_unit-IsUnit : (c : ℕ) → IsUnit (clean_unit c)
clean_unit-IsUnit c = elim (Bool-cases (is_name_unit c)) [
  | inl same ↦ rw same same
  | inr other ↦ rw other refl
]

map-AreUnits : (s : Text) → AreUnits (map clean_unit s)
map-AreUnits [] = tt
map-AreUnits (c ∷ cs) = (clean_unit-IsUnit c, map-AreUnits cs)

drop_dots-AreUnits : (s : Text) → AreUnits s → AreUnits (drop_dots s)
drop_dots-AreUnits [] h = tt
drop_dots-AreUnits (c ∷ cs) h = ground (arith, drop_dots-AreUnits cs h.1, h)

drop_dots-head : (s : Text) (c : ℕ) (cs : Text) → drop_dots s ≡ c ∷ cs → c ≢ 46
drop_dots-head [] c cs e = cc
drop_dots-head (d ∷ ds) c cs e = ground (arith, e, drop_dots-head ds c cs)

base_name-AreUnits : (filename : Text) → AreUnits (base_name filename)
base_name-AreUnits filename =
    drop_dots-AreUnits (map clean_unit (after_separator filename))
      (map-AreUnits (after_separator filename))

-- What is not found by inheritance.
abbrev pub IsOwn : Option Text → Type 0
IsOwn none = Unit
IsOwn (some t) = (text_eq t (units "constructor") ≡ false) × (text_eq t (units "__proto__") ≡ false)

extension-AreUnits :
    (media_type : Option Text)
    → IsOwn media_type
    → AreUnits (extension_part (bind_extension media_type))
extension-AreUnits none h = tt
extension-AreUnits (some t) h = ground (arith, h)

numeral_IsUnit : (n : ℕ) → n < 10 → IsUnit (48 + n)
numeral_IsUnit n h = ground (arith, h)

digits_in-AreUnits : (fuel n : ℕ) → AreUnits (digits_in fuel n)
digits_in-AreUnits zero n = tt
digits_in-AreUnits (suc fuel) n = elim (Bool-cases (ltb n 10)) [
  | inl small ↦ rw (small, digits_in) (numeral_IsUnit n (ltb→lt n 10 small), tt)
  | inr big ↦
      rw (big, digits_in)
        (All-append IsUnit (digits_in fuel (n / 10)) ((48 + n % 10) ∷ [])
          (digits_in-AreUnits fuel (n / 10)) (numeral_IsUnit (n % 10) (omega arith), tt))
]

digits-AreUnits : (n : ℕ) → AreUnits (digits n)
unfolding digits
digits-AreUnits n = digits_in-AreUnits (suc n) n

named-IsName :
    (base : Text) (media_type : Option Text) (index : ℕ)
    → AreUnits base
    → ((c : ℕ) (cs : Text) → base ≡ c ∷ cs → c ≢ 46)
    → (base ≡ [] → IsOwn media_type)
    → IsName (attachment_name base media_type index)
named-IsName [] media_type index h k own = (
  omega arith,
  All-append IsUnit (units "attachment-")
      (digits (index + 1) ++ extension_part (bind_extension media_type)) (ground arith)
      (All-append IsUnit (digits (index + 1)) (extension_part (bind_extension media_type))
        (digits-AreUnits (index + 1)) (extension-AreUnits media_type (own refl))),
)
named-IsName (c ∷ cs) media_type index h k own = (k c cs refl, h)

take-AreUnits : (n : ℕ) (s : Text) → AreUnits s → AreUnits (take n s)
take-AreUnits zero s h = tt
take-AreUnits (suc n) [] h = tt
take-AreUnits (suc n) (c ∷ cs) h = (h.0, take-AreUnits n cs h.1)

drop-AreUnits : (n : ℕ) (s : Text) → AreUnits s → AreUnits (drop n s)
drop-AreUnits zero s h = h
drop-AreUnits (suc n) [] h = tt
drop-AreUnits (suc n) (c ∷ cs) h = drop-AreUnits n cs h.1

-- A name stays one with anything of units at its end.
append-IsName : (s t : Text) → IsName s → AreUnits t → IsName (s ++ t)
append-IsName [] t h k = absurd h
append-IsName (c ∷ cs) t h k = (h.0, All-append IsUnit (c ∷ cs) t h.1 k)

stem_and_ext-IsName :
    (d : Option ℕ) (name : Text)
    → IsName name
    → IsName (stem_and_ext d name).0 × AreUnits (stem_and_ext d name).1
stem_and_ext-IsName none name h = (h, tt)
stem_and_ext-IsName (some zero) name h = (h, tt)
stem_and_ext-IsName (some (suc i)) [] h = absurd h
stem_and_ext-IsName (some (suc i)) (c ∷ cs) h =
    ((h.0, (h.1.0, take-AreUnits i cs h.1.1)), drop-AreUnits i cs h.1.1)

numbered-IsName : (name : Text) (n : ℕ) → IsName name → IsName (numbered name n)
numbered-IsName name n h =
    let (stem, ext) = stem_and_ext-IsName (last_dot name) name h in
    append-IsName (stem_and_ext (last_dot name) name).0
      (45 ∷ digits n ++ (stem_and_ext (last_dot name) name).1) stem
      (
        refl,
        All-append IsUnit (digits n) (stem_and_ext (last_dot name) name).1 (digits-AreUnits n) ext,
      )

-- A path of the folder with a name for its file.
abbrev pub IsInFolder : Text → Type 0
IsInFolder path = (name : Text) × (path ≡ in_folder name) × IsName name

first_free-IsInFolder :
    (fuel : ℕ) (name : Text) (suffix : ℕ) (candidate : Text) (used : List Text)
    → IsName name
    → IsInFolder candidate
    → IsInFolder (first_free fuel name suffix candidate used)
unfolding first_free
first_free-IsInFolder zero name suffix candidate used h k = k
first_free-IsInFolder (suc fuel) name suffix candidate used h k =
    elim (Bool-cases (is_used candidate used)) [
      | inr unused ↦ rw (unused, first_free) k
      | inl taken ↦
          rw (taken, first_free)
            (first_free-IsInFolder fuel name (suffix + 1) (in_folder (numbered name suffix)) used h
              (numbered name suffix, refl, numbered-IsName name suffix h))
    ]

AreUnits-Without : (x : ℕ) (s : Text) → is_name_unit x ≡ false → AreUnits s → Without x s
unfolding includes
AreUnits-Without x [] h k = refl
AreUnits-Without x (c ∷ cs) h k = elim (Bool-cases (c == x)) [
  | inl same ↦ absurd (cc ((==_iff c x).0 same, k.0, h))
  | inr other ↦ rw (other, includes) (AreUnits-Without x cs h k.1)
]

in_folder-safe : (name : Text) → IsName name → safe_path (in_folder name) ≡ ok (in_folder name)
unfolding join
in_folder-safe [] h = absurd h
in_folder-safe (c ∷ cs) h =
    safe_path-join (units "attachments" ∷ (c ∷ cs) ∷ []) refl
      ((refl, refl, refl), ((refl, not_dot c cs h.0, not_dots c cs h.0), tt))
      (
        AreUnits-Without 47 (units "attachments") refl (ground arith),
        (AreUnits-Without 47 (c ∷ cs) refl h.1, tt),
      )
      (
        AreUnits-Without 0 (units "attachments") refl (ground arith),
        (AreUnits-Without 0 (c ∷ cs) refl h.1, tt),
      )
      (
        AreUnits-Without 92 (units "attachments") refl (ground arith),
        (AreUnits-Without 92 (c ∷ cs) refl h.1, tt),
      )
  where
    not_dot : (c : ℕ) (cs : Text) → c ≢ 46 → is_dot (c ∷ cs) ≡ false
    not_dot c [] n = ground (arith, n)
    not_dot c (d ∷ ds) n = refl

    not_dots : (c : ℕ) (cs : Text) → c ≢ 46 → is_dot_dot (c ∷ cs) ≡ false
    not_dots c [] n = refl
    not_dots c (d ∷ []) n = ground (arith, n)
    not_dots c (d ∷ e ∷ es) n = refl

module _ (lower : Text → Text) where
  -- An attached file's path is the folder's with a name of letters, digits, dots, lines and hyphens
  -- that does not start with a dot, when its name comes from its media type only if that is no name
  -- that every object inherits.
  pub attachment_path-IsInFolder :
      (media_type filename : Option Text) (index : ℕ) (used : List Text)
      → (base_name (or_else filename []) ≡ [] → IsOwn (lower_type lower media_type))
      → IsInFolder (attachment_path lower media_type filename index used)
  unfolding attachment_path
  attachment_path-IsInFolder media_type filename index used own =
      let base = base_name (or_else filename []) in
      let named =
        named-IsName base (lower_type lower media_type) index
          (base_name-AreUnits (or_else filename []))
          (drop_dots-head (map clean_unit (after_separator (or_else filename [])))) own in
      let name = attachment_name base (lower_type lower media_type) index in
      first_free-IsInFolder (suc (length used)) name 2 (in_folder name) used named
        (name, refl, named)

  -- The check of workspace paths returns an attached file's path as it is, when the file's name comes
  -- from its media type only if that is no name that every object inherits.
  pub safe_path-attachment_path :
      (media_type filename : Option Text) (index : ℕ) (used : List Text)
      → (base_name (or_else filename []) ≡ [] → IsOwn (lower_type lower media_type))
      → safe_path (attachment_path lower media_type filename index used)
        ≡ ok (attachment_path lower media_type filename index used)
  safe_path-attachment_path media_type filename index used own =
      let (name, at, named) = attachment_path-IsInFolder media_type filename index used own in
      subst (λ (x : Text). safe_path x ≡ ok x) (sym at) (in_folder-safe name named)
