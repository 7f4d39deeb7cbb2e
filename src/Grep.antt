-- ===== src/Grep.antt =====
-- Model of the matcher of xv6/grep.c. A C string is the list of its characters before the NUL.
pub mod Meaning
use a4team_os.Base.{
  ℕ, zero, suc, Bool, true, false, ◌&&◌, ◌||◌, ◌==◌, if◌then◌else◌, List, [], ◌∷◌, Option, none,
  some,
}

-- The characters '*', '$', '.' and '^'.
abbrev pub star : ℕ
star = 42

abbrev pub dollar : ℕ
dollar = 36

abbrev pub dot : ℕ
dot = 46

abbrev pub caret : ℕ
caret = 94

-- `c == '.' || c == x`
abbrev pub fits : (c x : ℕ) → Bool
fits c x = (c == dot) || (c == x)

abbrev pub is_end : List ℕ → Bool
is_end [] = true
is_end _ = false

-- `matchstar`, for what `matchhere` does with the rest of the pattern.
pub matchstar : (c : ℕ) → (rest_matches : List ℕ → Bool) → List ℕ → Bool
matchstar c rest_matches [] = rest_matches []
matchstar c rest_matches (x ∷ text) =
    let more = matchstar c rest_matches text in rest_matches (x ∷ text) || (fits c x && more)

-- `*text != '\0' && (re[0] == '.' || re[0] == *text)`, and `matchhere(re+1, text+1)`.
abbrev pub one : (c : ℕ) → (rest_matches : List ℕ → Bool) → List ℕ → Bool
one c rest_matches [] = false
one c rest_matches (x ∷ text) = fits c x && rest_matches text

pub matchhere : (re text : List ℕ) → Bool
unfolding matchstar
matchhere [] text = true
matchhere (c ∷ []) text = if c == dollar then is_end text else one c (matchhere []) text
matchhere (c ∷ d ∷ re) text =
    let starred = matchstar c (matchhere re) text in
    let single = one c (matchhere (d ∷ re)) text in if d == star then starred else single

-- The loop of `match`: from each position, the end included.
pub anywhere : (re text : List ℕ) → Bool
unfolding matchhere
anywhere re [] = matchhere re []
anywhere re (x ∷ text) = let later = anywhere re text in matchhere re (x ∷ text) || later

pub match_line : (re text : List ℕ) → Bool
unfolding matchhere anywhere
match_line [] text = anywhere [] text
match_line (c ∷ re) text = if c == caret then matchhere re text else anywhere (c ∷ re) text
