-- ===== src/Path.antt =====
-- Model of skipelem of xv6/fs.c, on the list of the characters of a path before its NUL.
pub mod Elements
use a4team_os.Base.{ℕ, ◌==◌, if◌then◌else◌, List, [], ◌∷◌, Option, none, some, take}

abbrev pub slash : ℕ
slash = 47

abbrev pub dir_siz : ℕ
dir_siz = 14

pub skip_slashes : List ℕ → List ℕ
skip_slashes [] = []
skip_slashes (c ∷ cs) = let rest = skip_slashes cs in if c == slash then rest else c ∷ cs

-- The characters up to the next slash or the end, and the path from there.
pub element : List ℕ → List ℕ × List ℕ
element [] = ([], [])
element (c ∷ cs) =
    let (name, rest) = element cs in if c == slash then ([], c ∷ cs) else (c ∷ name, rest)

-- The element that ends up in `name`, at most DIRSIZ characters of it, and the rest of the path.
pub skipelem : List ℕ → Option (List ℕ × List ℕ)
unfolding skip_slashes element
skipelem path = elim (skip_slashes path) [
  | [] ↦ none
  | c ∷ cs ↦ let (name, rest) = element (c ∷ cs) in some (take dir_siz name, skip_slashes rest)
]
