-- ===== src/Bio/Ring.antt =====
-- The doubly linked list of xv6/bio.c as a list of buffers, and the loops along it.
use a4team_os.Base.{
  ℕ, zero, suc, ◌+◌, ◌<◌, ◌≡◌, refl, ap, ◌∙◌, Bool, true, false, not, ◌&&◌, ◌==◌, if◌then◌else◌,
  arith, List, [], ◌∷◌, Option, none, some, length, Bool-cases, inl, inr,
}
use a4team_os.Bio.{head, walk_from}

-- The links lead from `a` through the buffers of the list to `c`, and back.
unfoldable pub IsChain : (next prev : ℕ → ℕ) (a : ℕ) (xs : List ℕ) (c : ℕ) → Type 0
IsChain next prev a [] c = (next a ≡ c) × (prev c ≡ a)
IsChain next prev a (x ∷ xs) c = (next a ≡ x) × (prev x ≡ a) × IsChain next prev x xs c

abbrev pub lacks : ℕ → List ℕ → Bool
lacks x [] = true
lacks x (y ∷ ys) = not (x == y) && lacks x ys

abbrev pub distinct : List ℕ → Bool
distinct [] = true
distinct (x ∷ xs) = lacks x xs && distinct xs

-- The list of all buffers, from the one used last on.
pub record IsRing (next prev : ℕ → ℕ) (xs : List ℕ) : Type 0 where
  pub chain : IsChain next prev head xs head
  pub no_head : lacks head xs ≡ true
  pub apart : distinct xs ≡ true

abbrev pub first_of : (ℕ → Bool) → List ℕ → Option ℕ
first_of test [] = none
first_of test (x ∷ xs) = let rest = first_of test xs in if test x then some x else rest

abbrev pub or_else : Option ℕ → Option ℕ → Option ℕ
or_else none r = r
or_else (some x) r = some x

abbrev pub last_of : (ℕ → Bool) → List ℕ → Option ℕ
last_of test [] = none
last_of test (x ∷ xs) = or_else (last_of test xs) (if test x then some x else none)

walk_from_step :
    (f : ℕ) (step : ℕ → ℕ) (x : ℕ) (test : ℕ → Bool)
    → (x == head) ≡ false
    → walk_from (suc f) step x test ≡ (if test x then some x else walk_from f step (step x) test)
unfolding walk_from
walk_from_step f step x test e = elim (Bool-cases (test x)) [
  | inl t ↦ rw (e, t, walk_from) refl
  | inr n ↦ rw (e, n, walk_from) refl
]

forward_from :
    (f : ℕ) (next prev : ℕ → ℕ) (test : ℕ → Bool) (a : ℕ) (xs : List ℕ)
    → IsChain next prev a xs head
    → lacks head xs ≡ true
    → length xs < f
    → walk_from f next (next a) test ≡ first_of test xs
unfolding IsChain walk_from
forward_from zero next prev test a xs c no_head lt = absurd (omega arith)
forward_from (suc f) next prev test a [] (e, e') no_head lt = rw e refl
forward_from (suc f) next prev test a (x ∷ xs) (e, e', c) no_head lt =
    let rest = forward_from f next prev test x xs c (ground arith) (omega arith) in
    let step = walk_from_step f next x test (ground arith) in
    ap (λ b. walk_from (suc f) next b test) e ∙ step ∙ ap (λ r. if test x then some x else r) rest

-- The loop along `next` finds the first buffer of the list that passes the test.
pub walk_forward :
    (f : ℕ) (next prev : ℕ → ℕ) (test : ℕ → Bool) (xs : List ℕ)
    → IsRing next prev xs
    → length xs < f
    → walk_from f next (next head) test ≡ first_of test xs
walk_forward f next prev test xs r lt = forward_from f next prev test head xs r.chain r.no_head lt

backward_from :
    (f : ℕ) (next prev : ℕ → ℕ) (test : ℕ → Bool) (a : ℕ) (xs : List ℕ) (c : ℕ)
    → IsChain next prev a xs c
    → lacks head xs ≡ true
    → walk_from (f + length xs) prev (prev c) test
      ≡ or_else (last_of test xs) (walk_from f prev a test)
unfolding IsChain walk_from
backward_from f next prev test a [] c (e, e') no_head =
    let z : f + 0 ≡ f = omega arith in rw (e', z) refl
backward_from f next prev test a (x ∷ xs) c (e, e', ch) no_head =
    let rest = backward_from (suc f) next prev test x xs c ch (ground arith) in
    let shift : f + suc (length xs) ≡ suc f + length xs = omega arith in
    let step = walk_from_step f prev x test (ground arith) in
    rw shift (
      rest
      ∙ ap (or_else (last_of test xs)) (step ∙ rw e' refl)
      ∙ or_else_if (last_of test xs) (test x) (walk_from f prev a test))
  where
    or_else_if :
        (r : Option ℕ) (b : Bool) (z : Option ℕ)
        → or_else r (if b then some x else z) ≡ or_else (or_else r (if b then some x else none)) z
    or_else_if none true z = refl
    or_else_if none false z = refl
    or_else_if (some y) b z = refl

or_else-none : (r : Option ℕ) → or_else r none ≡ r
or_else-none none = refl
or_else-none (some x) = refl

-- The loop along `prev` finds the last one.
pub walk_backward :
    (f : ℕ) (next prev : ℕ → ℕ) (test : ℕ → Bool) (xs : List ℕ)
    → IsRing next prev xs
    → walk_from (suc f + length xs) prev (prev head) test ≡ last_of test xs
unfolding walk_from
walk_backward f next prev test xs r =
    backward_from (suc f) next prev test head xs head r.chain r.no_head
    ∙ or_else-none (last_of test xs)
