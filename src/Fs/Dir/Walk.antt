-- ===== src/Fs/Dir/Walk.antt =====
-- The rounds of the walk along a path in namex of xv6/fs.c.
use a4team_os.Base.{
  ℕ, zero, suc, ◌<◌, ◌≡◌, refl, Bool, arith, List, Option, length, Option-cases, inl, inr,
}
use a4team_os.Path.{skipelem}
use a4team_os.Path.Elements.{skipelem_shorter}
use a4team_os.Fs.Cache.{Icache}
use a4team_os.Fs.Dir.{Found, Round, returns, goes_on, walk_round, walk}

-- A round and the rest of the walk.
abbrev after_round : ℕ → (parent : Bool) (name path : List ℕ) → Round → Option Found
after_round f parent name path (returns r) = r
after_round f parent name path (goes_on next s) = walk f parent next name path s

after_round_same :
    (f g : ℕ) (parent : Bool) (name path : List ℕ) (r : Round)
    → ((next : ℕ) (s : Icache) → walk f parent next name path s ≡ walk g parent next name path s)
    → after_round f parent name path r ≡ after_round g parent name path r
after_round_same f g parent name path (returns r) same = refl
after_round_same f g parent name path (goes_on next s) same = same next s

-- The walk of `namex` has the same result with any two numbers of rounds that are greater than the
-- length of the path.
walk_same :
    (f g : ℕ) (parent : Bool) (ip : ℕ) (name path : List ℕ) (s : Icache)
    → length path < f
    → length path < g
    → walk f parent ip name path s ≡ walk g parent ip name path s
unfolding walk
walk_same zero g parent ip name path s lf lg = absurd (omega arith)
walk_same (suc f) zero parent ip name path s lf lg = absurd (omega arith)
walk_same (suc f) (suc g) parent ip name path s lf lg = elim (Option-cases (skipelem path)) [
  | inl e ↦ rw (e, walk) refl
  | inr ((name', path'), e) ↦
      let less = skipelem_shorter path e in
      rw (e, walk)
        (after_round_same f g parent name' path' (walk_round parent ip name' path' s) (λ next s'.
          walk_same f g parent next name' path' s' (omega (arith, less)) (omega (arith, less))))
]
