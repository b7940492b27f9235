-- ===== src/Paths/Safe.antt =====
-- What assertSafeWorkspacePath returns (packages/agent/src/paths.ts).
use runcell.Prelude.{
  ℕ, ◌≡◌, refl, sym, ap, subst, ◌∙◌, true, false, List, [], ◌∷◌, ◌++◌, ◌==◌, ◌||◌, if◌then◌else◌,
  ok, err, ◌>>=◌, throw_if, >>=-eq-ok, throw_if-eq-ok, ok_injective, All, Bool-cases, inl, inr,
  arith, Text, includes,
}
use runcell.Paths.{
  slash, starts_with_slash, has_drive, is_blank, is_dot, is_dot_dot, onto_first, split, join,
  no_text, null_byte, backslash, absolute, drive, traversal, no_file, clean, is_nil, safe_path,
}

abbrev pub Without : ℕ → Text → Type 0
Without c s = includes c s ≡ false

-- A segment that names something below its directory.
abbrev pub IsSegment : Text → Type 0
IsSegment s = (is_blank s ≡ false) × (is_dot s ≡ false) × (is_dot_dot s ≡ false)

onto_first-Without :
    (c x : ℕ) (ss : List Text)
    → (x == c) ≡ false
    → All (Without c) ss
    → All (Without c) (onto_first x ss)
unfolding includes
onto_first-Without c x [] n h = (ground (arith, n), tt)
onto_first-Without c x (s ∷ ss) n h = (ground (arith, n, h.0), h.1)

split-no_slash : (t : Text) → All (Without slash) (split t)
unfolding split includes
split-no_slash [] = (refl, tt)
split-no_slash (c ∷ cs) = elim (Bool-cases (c == slash)) [
  | inl here ↦ rw here (refl, split-no_slash cs)
  | inr other ↦ rw other (onto_first-Without slash c (split cs) other (split-no_slash cs))
]

-- What no code unit of a text is, no code unit of its segments is.
split-Without : (x : ℕ) (t : Text) → Without x t → All (Without x) (split t)
unfolding split includes
split-Without x [] h = (refl, tt)
split-Without x (c ∷ cs) h = elim (Bool-cases (c == slash)) [
  | inl here ↦ rw here (refl, split-Without x cs (ground (arith, h)))
  | inr other ↦ rw other (
      onto_first-Without x c (split cs) (ground (arith, h))
        (split-Without x cs (ground (arith, h))))
]

clean-All :
    (P : Text → Type 0) (ss cs : List Text)
    → All P ss
    → clean ss ≡ ok cs
    → All P cs × All IsSegment cs
unfolding clean
clean-All P [] cs h e = rw (← ok_injective [] cs e) (tt, tt)
clean-All P (s ∷ ss) cs h e = elim (Bool-cases (is_blank s || is_dot s)) [
  | inl skip ↦ clean-All P ss cs h.1 (sym (step_skip skip) ∙ e)
  | inr kept ↦ elim (Bool-cases (is_dot_dot s)) [
    | inl up ↦ absurd (cc (sym (step_up kept up) ∙ e))
    | inr down ↦
        let (rest, found, e') =
          >>=-eq-ok (clean ss) (λ cleaned. ok (s ∷ cleaned)) (sym (step_down kept down) ∙ e) in
        let (ps, segments) = clean-All P ss rest h.1 found in
        rw (← ok_injective (s ∷ rest) cs e')
          ((h.0, ps), ((ground (arith, kept), ground (arith, kept), down), segments))
  ]
]
  where
    step_skip : (is_blank s || is_dot s) ≡ true → clean (s ∷ ss) ≡ clean ss
    step_skip skip = rw skip refl

    step_up :
        (is_blank s || is_dot s) ≡ false → is_dot_dot s ≡ true → clean (s ∷ ss) ≡ err traversal
    step_up kept up = rw (kept, up) refl

    step_down :
        (is_blank s || is_dot s) ≡ false
        → is_dot_dot s ≡ false
        → clean (s ∷ ss) ≡ (clean ss >>= λ cleaned. ok (s ∷ cleaned))
    step_down kept down = rw (kept, down) refl

split-end : (s : Text) → Without slash s → split s ≡ s ∷ []
unfolding split includes
split-end [] h = refl
split-end (c ∷ cs) h =
    let other : (c == slash) ≡ false = ground (arith, h) in
    rw (other, split-end cs (ground (arith, h))) refl

split-append : (s t : Text) → Without slash s → split (s ++ slash ∷ t) ≡ s ∷ split t
unfolding split includes
split-append [] t h = refl
split-append (c ∷ cs) t h =
    let other : (c == slash) ≡ false = ground (arith, h) in
    rw (other, split-append cs t (ground (arith, h))) refl

split-join : (ss : List Text) → is_nil ss ≡ false → All (Without slash) ss → split (join ss) ≡ ss
unfolding join
split-join [] n h = cc
split-join (s ∷ []) n h = split-end s h.0
split-join (s ∷ t ∷ ss) n h =
    split-append s (join (t ∷ ss)) h.0
    ∙ ap (λ (r : List Text). s ∷ r) (split-join (t ∷ ss) refl h.1)

-- The path that is returned for a path: its segments, joined, and what they are known to be.
pub record Accepted (path q : Text) : Type 0 where
  pub segments : List Text
  pub some_segment : is_nil segments ≡ false
  pub joined : join segments ≡ q
  pub are_segments : All IsSegment segments
  pub no_slash : All (Without slash) segments
  pub no_null : All (Without 0) segments
  pub no_backslash : All (Without 92) segments

safe_path-Accepted : (path q : Text) → safe_path path ≡ ok q → Accepted path q
unfolding safe_path
safe_path-Accepted path q e =
    let (_, _, e₁) = >>=-eq-ok (throw_if (is_blank path) no_text) _ e in
    let (_, null, e₂) = >>=-eq-ok (throw_if (includes 0 path) null_byte) _ e₁ in
    let (_, back, e₃) = >>=-eq-ok (throw_if (includes 92 path) backslash) _ e₂ in
    let (_, _, e₄) = >>=-eq-ok (throw_if (starts_with_slash path) absolute) _ e₃ in
    let (_, _, e₅) = >>=-eq-ok (throw_if (has_drive path) drive) _ e₄ in
    let (cs, cleaned, e₆) = >>=-eq-ok (clean (split path)) _ e₅ in
    let (_, some, e₇) = >>=-eq-ok (throw_if (is_nil cs) no_file) _ e₆ in
    record {
      segments = cs;
      some_segment = throw_if-eq-ok (is_nil cs) no_file some;
      joined = ok_injective (join cs) q e₇;
      are_segments = (clean-All (Without slash) (split path) cs (split-no_slash path) cleaned).1;
      no_slash = (clean-All (Without slash) (split path) cs (split-no_slash path) cleaned).0;
      no_null =
          (clean-All (Without 0) (split path) cs
            (split-Without 0 path (throw_if-eq-ok (includes 0 path) null_byte null)) cleaned).0;
      no_backslash =
          (clean-All (Without 92) (split path) cs
            (split-Without 92 path (throw_if-eq-ok (includes 92 path) backslash back)) cleaned).0;
    }

-- A path that is returned leads to something inside the workspace: none of its segments is empty,
-- "." or "..", so it is not absolute either, and no segment holds a null byte or a backslash.
pub safe_path-IsSegment :
    (path q : Text)
    → safe_path path ≡ ok q
    → All IsSegment (split q) × All (Without 0) (split q) × All (Without 92) (split q)
safe_path-IsSegment path q e =
    let a = safe_path-Accepted path q e in
    let parts = ap split (sym a.joined) ∙ split-join a.segments a.some_segment a.no_slash in
    rw parts (a.are_segments, a.no_null, a.no_backslash)

Without-append : (x : ℕ) (s t : Text) → Without x s → Without x t → Without x (s ++ t)
unfolding includes
Without-append x [] t h k = k
Without-append x (c ∷ cs) t h k = ground (arith, h, Without-append x cs t (ground (arith, h)) k)

join-Without :
    (x : ℕ) (ss : List Text) → (slash == x) ≡ false → All (Without x) ss → Without x (join ss)
unfolding join includes
join-Without x [] n h = refl
join-Without x (s ∷ []) n h = h.0
join-Without x (s ∷ t ∷ ss) n h =
    let rest = join-Without x (t ∷ ss) n h.1 in
    Without-append x s (slash ∷ join (t ∷ ss)) h.0 (rw (n, rest) refl)

clean-segments : (ss : List Text) → All IsSegment ss → clean ss ≡ ok ss
unfolding clean
clean-segments [] h = refl
clean-segments (s ∷ ss) h = rw (h.0.0, h.0.1, h.0.2, clean-segments ss h.1) refl

first_unit :
    (ss : List Text)
    → is_nil ss ≡ false
    → All IsSegment ss
    → All (Without slash) ss
    → (is_blank (join ss) ≡ false) × (starts_with_slash (join ss) ≡ false)
unfolding join includes
first_unit [] n h k = cc
first_unit ([] ∷ ss) n h k = absurd (cc (h.0.0))
first_unit ((c ∷ cs) ∷ []) n h k = (refl, ground (arith, k.0))
first_unit ((c ∷ cs) ∷ t ∷ ss) n h k = (refl, ground (arith, k.0))

-- Segments that are kept make a path that is returned as it is, unless it begins with a drive letter.
pub safe_path-join :
    (ss : List Text)
    → is_nil ss ≡ false
    → All IsSegment ss
    → All (Without slash) ss
    → All (Without 0) ss
    → All (Without 92) ss
    → safe_path (join ss) ≡ (if has_drive (join ss) then err drive else ok (join ss))
unfolding safe_path
safe_path-join ss some_segment segments no_slash no_null no_backslash =
    let (full, relative) = first_unit ss some_segment segments no_slash in
    let null_free = join-Without 0 ss refl no_null in
    let backslash_free = join-Without 92 ss refl no_backslash in
    let parts = split-join ss some_segment no_slash in
    let again = clean-segments ss segments in
    ground (arith, full, relative, null_free, backslash_free, parts, again, some_segment)

-- A path that is returned is returned unchanged when it is checked again, unless it begins with a
-- drive letter: then it is refused.
pub safe_path_idem :
    (path q : Text)
    → safe_path path ≡ ok q
    → safe_path q ≡ (if has_drive q then err drive else ok q)
safe_path_idem path q e =
    let a = safe_path-Accepted path q e in
    subst (λ (x : Text). safe_path x ≡ (if has_drive x then err drive else ok x)) a.joined
      (safe_path-join a.segments a.some_segment a.are_segments a.no_slash a.no_null a.no_backslash)
