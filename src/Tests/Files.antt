-- ===== src/Tests/Files.antt =====
-- Tests of the paths of workspace files.
use runcell.Prelude.{◌≡◌, refl, [], ◌∷◌, ok, err, if◌then◌else◌, All, Text, includes}
use runcell.Paths.{split, join, clean, safe_path, has_drive, drive}
use runcell.Paths.Safe.{IsSegment, Without, safe_path-IsSegment, safe_path_idem}

-- "./a//b" and "a/b".
abbrev messy : Text
messy = 46 ∷ 47 ∷ 97 ∷ 47 ∷ 47 ∷ 98 ∷ []

abbrev neat : Text
neat = 97 ∷ 47 ∷ 98 ∷ []

safe_path-messy : safe_path messy ≡ ok neat
unfolding safe_path includes split join clean
safe_path-messy = refl

safe_path-IsSegment_example :
    All IsSegment (split neat) × All (Without 0) (split neat) × All (Without 92) (split neat)
safe_path-IsSegment_example = safe_path-IsSegment messy neat safe_path-messy

safe_path_idem_example : safe_path neat ≡ (if has_drive neat then err drive else ok neat)
safe_path_idem_example = safe_path_idem messy neat safe_path-messy

-- "./C:/x" passes as "C:/x".
drive_after_dot : safe_path (46 ∷ 47 ∷ 67 ∷ 58 ∷ 47 ∷ 120 ∷ []) ≡ ok (67 ∷ 58 ∷ 47 ∷ 120 ∷ [])
unfolding safe_path includes split join clean
drive_after_dot = refl
