-- ===== src/Tests/Greps.antt =====
-- The theorem on the matcher, at the pattern `^a*b`.
use a4team_os.Base.{◌≡◌, ◌↔◌, true, [], ◌∷◌}
use a4team_os.Grep.{match_line}
use a4team_os.Grep.Meaning.{Means, match_line_iff}

match_line_iff_example :
    (match_line (94 ∷ 97 ∷ 42 ∷ 98 ∷ []) (97 ∷ 97 ∷ 98 ∷ 99 ∷ []) ≡ true)
    ↔ Means (94 ∷ 97 ∷ 42 ∷ 98 ∷ []) (97 ∷ 97 ∷ 98 ∷ 99 ∷ [])
match_line_iff_example = match_line_iff (94 ∷ 97 ∷ 42 ∷ 98 ∷ []) (97 ∷ 97 ∷ 98 ∷ 99 ∷ [])
