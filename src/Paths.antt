-- ===== src/Paths.antt =====
-- packages/agent/src/paths.ts: which paths name a file of the workspace. Text is a list of its code
-- units.
pub mod Safe
use runcell.Prelude.{
  ℕ, ◌≤◌, Bool, true, false, List, [], ◌∷◌, ◌++◌, ◌==◌, ◌||◌, ◌&&◌, leb, if◌then◌else◌, Result, ok,
  err, ◌>>=◌, ◌>>◌, throw_if, Text, includes,
}

abbrev pub slash : ℕ
slash = 47

abbrev pub dot : ℕ
dot = 46

-- `text.startsWith('/')`.
abbrev pub starts_with_slash : Text → Bool
starts_with_slash [] = false
starts_with_slash (x ∷ xs) = x == slash

abbrev pub is_letter : ℕ → Bool
is_letter c = (leb 97 c && leb c 122) || (leb 65 c && leb c 90)

-- `/^[a-zA-Z]:/`.
abbrev pub has_drive : Text → Bool
has_drive [] = false
has_drive (c ∷ []) = false
has_drive (c ∷ d ∷ rest) = is_letter c && d == 58

abbrev pub is_blank : Text → Bool
is_blank [] = true
is_blank (x ∷ xs) = false

-- `segment === '.'` and `segment === '..'`.
abbrev pub is_dot : Text → Bool
is_dot [] = false
is_dot (c ∷ []) = c == dot
is_dot (c ∷ d ∷ rest) = false

abbrev pub is_dot_dot : Text → Bool
is_dot_dot [] = false
is_dot_dot (c ∷ []) = false
is_dot_dot (c ∷ d ∷ []) = c == dot && d == dot
is_dot_dot (c ∷ d ∷ e ∷ rest) = false

abbrev pub onto_first : ℕ → List Text → List Text
onto_first c [] = (c ∷ []) ∷ []
onto_first c (s ∷ ss) = (c ∷ s) ∷ ss

-- `text.split('/')`.
unfoldable pub split : Text → List Text
split [] = [] ∷ []
split (c ∷ cs) = if c == slash then [] ∷ split cs else onto_first c (split cs)

-- `segments.join('/')`.
unfoldable pub join : List Text → Text
join [] = []
join (s ∷ []) = s
join (s ∷ t ∷ ss) = s ++ slash ∷ join (t ∷ ss)

-- `InvalidOptionError`, by its message.
pub data PathError : Type 0 where
  no_text null_byte backslash absolute drive traversal no_file : PathError

-- The loop over the segments.
unfoldable pub clean : List Text → Result PathError (List Text)
clean [] = ok []
clean (s ∷ ss) =
    let rest = clean ss in
    if is_blank s || is_dot s
    then rest
    else if is_dot_dot s
    then err traversal
    else do cleaned ← rest; ok (s ∷ cleaned)

abbrev pub is_nil : List Text → Bool
is_nil [] = true
is_nil (s ∷ ss) = false

-- `assertSafeWorkspacePath`.
unfoldable pub safe_path : Text → Result PathError Text
unfolding includes split join clean
safe_path path = do
  throw_if (is_blank path) no_text
  throw_if (includes 0 path) null_byte
  throw_if (includes 92 path) backslash
  throw_if (starts_with_slash path) absolute
  throw_if (has_drive path) drive
  cleaned ← clean (split path)
  throw_if (is_nil cleaned) no_file
  ok (join cleaned)
