-- ===== src/Tests/Paths.antt =====
-- The theorems on paths, at a concrete one.
use a4team_os.Base.{[], ◌∷◌}
use a4team_os.Path.{skipelem}
use a4team_os.Path.Elements.{IsSplit, skipelem-IsSplit}

-- The path `//a/b`.
skipelem-IsSplit_example :
    IsSplit (47 ∷ 47 ∷ 97 ∷ 47 ∷ 98 ∷ []) (skipelem (47 ∷ 47 ∷ 97 ∷ 47 ∷ 98 ∷ []))
skipelem-IsSplit_example = skipelem-IsSplit (47 ∷ 47 ∷ 97 ∷ 47 ∷ 98 ∷ [])
