-- ===== src/Bio/Links.antt =====
-- Unlinking a buffer of the doubly linked list of xv6/bio.c.
use a4team_os.Base.{
  ℕ, ◌≡◌, refl, ◌≢◌, ◌⊎◌, true, false, ◌==◌, if◌then◌else◌, update, arith, List, [], ◌∷◌,
  Bool-cases, inl, inr,
}
use a4team_os.Bio.Ring.{IsChain, lacks, distinct}

-- The list without the buffer.
abbrev pub without : ℕ → List ℕ → List ℕ
without b [] = []
without b (x ∷ xs) = let rest = without b xs in if x == b then xs else x ∷ rest

pub lacks_ne : (y z : ℕ) (xs : List ℕ) → lacks y xs ≡ true → lacks z xs ≡ false → z ≢ y
lacks_ne y z xs l m e = let same : lacks z xs ≡ true = rw e l in absurd cc

next_of :
    (b : ℕ) (next prev : ℕ → ℕ) (a : ℕ) (xs : List ℕ) (c : ℕ)
    → IsChain next prev a xs c
    → lacks b xs ≡ false
    → (next b ≡ c) ⊎ (lacks (next b) xs ≡ false)
unfolding IsChain
next_of b next prev a [] c ch l = absurd cc
next_of b next prev a (x ∷ []) c (e, e', (e1, e2)) l = inl (ground arith)
next_of b next prev a (x ∷ y ∷ ys) c (e, e', (e1, e2, ch)) l = elim (Bool-cases (b == x)) [
  | inl here ↦ inr (ground arith)
  | inr later ↦ elim (next_of b next prev x (y ∷ ys) c (e1, e2, ch) (ground arith)) [
    | inl last ↦ inl last
    | inr inside ↦ inr (ground arith)
  ]
]

prev_of :
    (b : ℕ) (next prev : ℕ → ℕ) (a : ℕ) (xs : List ℕ) (c : ℕ)
    → IsChain next prev a xs c
    → lacks b xs ≡ false
    → (prev b ≡ a) ⊎ (lacks (prev b) xs ≡ false)
unfolding IsChain
prev_of b next prev a [] c ch l = absurd cc
prev_of b next prev a (x ∷ xs) c (e, e', ch) l = elim (Bool-cases (b == x)) [
  | inl here ↦ inl (ground arith)
  | inr later ↦ elim (prev_of b next prev x xs c ch (ground arith)) [
    | inl first ↦ inr (ground arith)
    | inr inside ↦ inr (ground arith)
  ]
]

-- Writing to links that are not in the chain.
pub IsChain-update :
    (i u j w : ℕ) (next prev : ℕ → ℕ) (a : ℕ) (xs : List ℕ) (c : ℕ)
    → i ≢ a
    → lacks i xs ≡ true
    → j ≢ c
    → lacks j xs ≡ true
    → IsChain next prev a xs c
    → IsChain (update next i u) (update prev j w) a xs c
unfolding IsChain
IsChain-update i u j w next prev a [] c ia il jc jl (e, e') = (ground arith, ground arith)
IsChain-update i u j w next prev a (x ∷ xs) c ia il jc jl (e, e', ch) = (
  ground arith,
  ground arith,
  IsChain-update i u j w next prev x xs c (ground arith) (ground arith) jc (ground arith) ch,
)

-- From `a` past `b`.
bypass :
    (b : ℕ) (next prev : ℕ → ℕ) (a : ℕ) (xs : List ℕ) (c : ℕ)
    → lacks a xs ≡ true
    → lacks c xs ≡ true
    → distinct xs ≡ true
    → IsChain next prev b xs c
    → IsChain (update next a (next b)) (update prev (next b) a) a xs c
unfolding IsChain
bypass b next prev a [] c la lc d (e, e') = (ground arith, ground arith)
bypass b next prev a (y ∷ ys) c la lc d (e, e', ch) = (
  ground arith,
  ground arith,
  IsChain-update a (next b) (next b) a next prev y ys c (ground arith) (ground arith) (ground arith)
      (ground arith) ch,
)

pub unlink-IsChain :
    (b : ℕ) (next prev : ℕ → ℕ) (a : ℕ) (xs : List ℕ) (c : ℕ)
    → lacks a xs ≡ true
    → lacks c xs ≡ true
    → distinct xs ≡ true
    → lacks b xs ≡ false
    → IsChain next prev a xs c
    → IsChain (update next (prev b) (next b)) (update prev (next b) (prev b)) a (without b xs) c
unfolding IsChain
unlink-IsChain b next prev a [] c la lc d lb ch = absurd cc
unlink-IsChain b next prev a (x ∷ xs) c la lc d lb (e, e', ch) = elim (Bool-cases (x == b)) [
  | inl here ↦
      let same : x ≡ b = ground arith in
      let from : prev b ≡ a = ground arith in
      rw (here, from)
        (bypass b next prev a xs c (ground arith) (ground arith) (ground arith) (rw same at ch))
  | inr later ↦
      let p = prev_of b next prev x xs c ch (ground arith) in
      let n = next_of b next prev x xs c ch (ground arith) in
      let rest =
        unlink-IsChain b next prev x xs c (ground arith) (ground arith) (ground arith)
          (ground arith) ch in
      let not_a : prev b ≢ a = ground (arith, lacks_ne a (prev b) xs) in
      let not_x : next b ≢ x = ground (arith, lacks_ne x (next b) xs) in
      rw later (ground arith, ground arith, rest)
]

pub lacks-without : (x b : ℕ) (xs : List ℕ) → lacks x xs ≡ true → lacks x (without b xs) ≡ true
lacks-without x b [] l = refl
lacks-without x b (y ∷ ys) l = ground (arith, lacks-without x b ys)

pub distinct-without :
    (b : ℕ) (xs : List ℕ)
    → distinct xs ≡ true
    → (distinct (without b xs) ≡ true) × (lacks b (without b xs) ≡ true)
distinct-without b [] d = (refl, refl)
distinct-without b (x ∷ xs) d = ground (arith, distinct-without b xs, lacks-without x b xs)
