-- ===== src/Grep/Meaning.antt =====
-- The matcher of xv6/grep.c decides what its patterns mean.
use a4team_os.Base.{
  ℕ, ◌≡◌, refl, ◌≢◌, ◌⊎◌, ◌↔◌, true, ◌==◌, arith, List, [], ◌∷◌, Bool-cases, inl, inr,
}
use a4team_os.Grep.{fits, matchstar, one, matchhere, anywhere, match_line}

-- The pattern matches at the beginning of the text: an empty pattern matches, `c*` stands for any
-- number of characters that fit `c`, a last `$` for the end of the text, and any other character
-- for one that fits it.
pub data Here : (re text : List ℕ) → Type 0 where
  empty : {text : List ℕ} → Here [] text
  no_more : {c : ℕ} {re text : List ℕ} → Here re text → Here (c ∷ 42 ∷ re) text
  one_more :
      {c x : ℕ} {re text : List ℕ}
      → fits c x ≡ true
      → Here (c ∷ 42 ∷ re) text
      → Here (c ∷ 42 ∷ re) (x ∷ text)
  at_end : Here (36 ∷ []) []
  last : {c x : ℕ} {text : List ℕ} → c ≢ 36 → fits c x ≡ true → Here (c ∷ []) (x ∷ text)
  single :
      {c d x : ℕ} {re text : List ℕ}
      → d ≢ 42
      → fits c x ≡ true
      → Here (d ∷ re) text
      → Here (c ∷ d ∷ re) (x ∷ text)

-- The pattern matches at the end of the text or somewhere before.
pub data Anywhere (re : List ℕ) : List ℕ → Type 0 where
  here : {text : List ℕ} → Here re text → Anywhere re text
  later : {x : ℕ} {text : List ℕ} → Anywhere re text → Anywhere re (x ∷ text)

matchstar_sound :
    (c : ℕ) (re text : List ℕ)
    → ((t : List ℕ) → matchhere re t ≡ true → Here re t)
    → matchstar c (matchhere re) text ≡ true
    → Here (c ∷ 42 ∷ re) text
unfolding matchstar
matchstar_sound c re [] rest h = no_more (rest [] h)
matchstar_sound c re (x ∷ text) rest h = elim (Bool-cases (matchhere re (x ∷ text))) [
  | inl now ↦ no_more (rest (x ∷ text) now)
  | inr not_now ↦ one_more (ground arith) (matchstar_sound c re text rest (ground arith))
]

last_sound : (c : ℕ) (text : List ℕ) → matchhere (c ∷ []) text ≡ true → Here (c ∷ []) text
unfolding matchhere
last_sound c [] h = let e : c ≡ 36 = ground arith in rw e at_end
last_sound c (x ∷ text) h = last (ground arith) (ground arith)

single_sound :
    (c d : ℕ) (re text : List ℕ)
    → d ≢ 42
    → ((t : List ℕ) → matchhere (d ∷ re) t ≡ true → Here (d ∷ re) t)
    → one c (matchhere (d ∷ re)) text ≡ true
    → Here (c ∷ d ∷ re) text
single_sound c d re [] ne rest h = cc
single_sound c d re (x ∷ text) ne rest h = single ne (ground arith) (rest text (ground arith))

sound : (re text : List ℕ) → matchhere re text ≡ true → Here re text
unfolding matchhere
sound [] text h = empty
sound (c ∷ []) text h = last_sound c text h
sound (c ∷ d ∷ re) text h = elim (Bool-cases (d == 42)) [
  | inl s ↦
      let e : d ≡ 42 = ground arith in rw e (matchstar_sound c re text (sound re) (ground arith))
  | inr o ↦ single_sound c d re text (ground arith) (sound (d ∷ re)) (ground arith)
]

star_now :
    (c : ℕ) (re text : List ℕ) → matchhere re text ≡ true → matchstar c (matchhere re) text ≡ true
unfolding matchstar
star_now c re [] h = h
star_now c re (x ∷ text) h = ground arith

complete : {re text : List ℕ} → Here re text → matchhere re text ≡ true
unfolding matchhere matchstar
complete empty = refl
complete (no_more {c} {re} {text} h) = ground (arith, star_now c re text (complete h))
complete (one_more f h) = ground (arith, complete h)
complete at_end = refl
complete (last ne f) = ground arith
complete (single ne f h) = ground (arith, complete h)

anywhere_sound : (re text : List ℕ) → anywhere re text ≡ true → Anywhere re text
unfolding anywhere
anywhere_sound re [] h = here (sound re [] h)
anywhere_sound re (x ∷ text) h = elim (Bool-cases (matchhere re (x ∷ text))) [
  | inl now ↦ here (sound re (x ∷ text) now)
  | inr not_now ↦ later (anywhere_sound re text (ground arith))
]

anywhere_now : (re text : List ℕ) → matchhere re text ≡ true → anywhere re text ≡ true
unfolding anywhere
anywhere_now re [] h = h
anywhere_now re (x ∷ text) h = ground arith

anywhere_complete : (re : List ℕ) {text : List ℕ} → Anywhere re text → anywhere re text ≡ true
unfolding anywhere
anywhere_complete re (here {text} h) = anywhere_now re text (complete h)
anywhere_complete re (later a) = ground (arith, anywhere_complete re a)

-- What a pattern means for a line: after `^`, it matches at the beginning.
pub Means : (re text : List ℕ) → Type 0
Means [] text = Anywhere [] text
Means (c ∷ re) text = ((c ≡ 94) × Here re text) ⊎ ((c ≢ 94) × Anywhere (c ∷ re) text)

-- `match` answers 1 exactly on the lines that the pattern means.
pub match_line_iff : (re text : List ℕ) → (match_line re text ≡ true) ↔ Means re text
unfolding match_line Means
match_line_iff [] text = (anywhere_sound [] text, anywhere_complete [])
match_line_iff (c ∷ re) text = (
  λ h. elim (Bool-cases (c == 94)) [
    | inl s ↦ inl (ground arith, sound re text (ground arith))
    | inr o ↦ inr (ground arith, anywhere_sound (c ∷ re) text (ground arith))
  ],
  λ m. elim m [
    | inl (e, h) ↦ ground (arith, complete h)
    | inr (ne, a) ↦ ground (arith, anywhere_complete (c ∷ re) a)
  ],
)
