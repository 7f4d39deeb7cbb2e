-- ===== src/Shell/Token.antt =====
-- Where the tokens of xv6/sh.c stand: gettoken and peek.
use a4team_os.Base.{
  ℕ, zero, suc, ◌+◌, ◌-◌, ◌≤◌, ◌<◌, ◌≡◌, refl, Bool, true, false, not, ◌&&◌, ◌||◌, ◌==◌,
  if◌then◌else◌, arith, Bool-cases, inl, inr,
}
use a4team_os.Shell.{is_space, is_symbol, skip_space, skip_word, scan_token, gettoken, peek}

-- The string ends with the first NUL, at `es`.
abbrev pub IsString : (text : ℕ → ℕ) (es : ℕ) → Type 0
IsString text es = (text es ≡ 0) × ((i : ℕ) → i < es → ¬ (text i ≡ 0))

pub if_rule :
    {A : Type 0} (P : A → Type 0) (b : Bool) {x y : A}
    → (b ≡ true → P x)
    → (b ≡ false → P y)
    → P (if b then x else y)
if_rule P true t f = t refl
if_rule P false t f = f refl

other_symbol :
    (c : ℕ)
    → (c == b'|' || c == b'(' || c == b')' || c == b';' || c == b'&' || c == b'<') ≡ false
    → (c == b'>') ≡ false
    → is_symbol c ≡ false
unfolding is_symbol
other_symbol c n n' = ground arith

module _ (text : ℕ → ℕ) where
  skip_space_lem :
      (n s : ℕ)
      → (s ≤ skip_space text n s)
        × (skip_space text n s ≤ s + n)
        × (skip_space text n s < s + n → is_space (text (skip_space text n s)) ≡ false)
  unfolding skip_space
  skip_space_lem zero s = (omega arith, omega arith, λ lt. absurd (omega arith))
  skip_space_lem (suc n) s = elim (Bool-cases (is_space (text s))) [
    | inl space ↦
        let (lo, hi, stop) = skip_space_lem n (s + 1) in
        rw (space, skip_space) (omega arith, omega arith, λ lt. stop (omega arith))
    | inr other ↦ rw (other, skip_space) (omega arith, omega arith, λ lt. other)
  ]

  skip_space_stay : (n s : ℕ) → is_space (text s) ≡ false → skip_space text n s ≡ s
  unfolding skip_space
  skip_space_stay zero s stop = refl
  skip_space_stay (suc n) s stop = rw (stop, skip_space) refl

  skip_word_lem : (n s : ℕ) → (s ≤ skip_word text n s) × (skip_word text n s ≤ s + n)
  unfolding skip_word
  skip_word_lem zero s = (omega arith, omega arith)
  skip_word_lem (suc n) s =
      let (lo, hi) = skip_word_lem n (s + 1) in
      elim (Bool-cases (not (is_space (text s)) && not (is_symbol (text s)))) [
        | inl goes ↦ rw (goes, skip_word) (omega arith, omega arith)
        | inr stops ↦ rw (stops, skip_word) (omega arith, omega arith)
      ]

  -- A word that starts here is not empty.
  skip_word_some :
      (n s : ℕ)
      → is_space (text s) ≡ false
      → is_symbol (text s) ≡ false
      → s < skip_word text (suc n) s
  unfolding skip_word
  skip_word_some n s no_space no_symbol =
      let (lo, hi) = skip_word_lem n (s + 1) in rw (no_space, no_symbol, skip_word) (omega arith)

  module _ (es : ℕ) (str : IsString text es) where
    skipped :
        (s : ℕ)
        → s ≤ es
        → let r = skip_space text (es - s) s in
          (s ≤ r) × (r ≤ es) × (r < es → is_space (text r) ≡ false)
    skipped s le =
        let (lo, hi, stop) = skip_space_lem (es - s) s in
        (lo, omega arith, λ lt. stop (omega arith))

    before_end : (s : ℕ) → s ≤ es → (text s == 0) ≡ false → s < es
    before_end s le h =
        let (nul, inside) = str in
        elim (Bool-cases (s == es)) [
          | inl last ↦
              let e : s ≡ es = ground arith in
              let n : text s ≡ 0 = rw e nul in absurd (ground arith)
          | inr more ↦ ground arith
        ]

    -- A token from `s` to `eq`; it takes at least one character, unless the string is at its end.
    abbrev pub TokenAt : (s : ℕ) → ℕ × ℕ → Type 0
    TokenAt s (tok, eq) =
        (s ≤ eq)
        × (eq ≤ es)
        × ((text s == 0) ≡ false → (s < eq) × ((tok == 0) ≡ false))
        × ((text s == 0) ≡ true → tok ≡ 0)

    scan_token_lem :
        (s : ℕ) → s ≤ es → (s < es → is_space (text s) ≡ false) → TokenAt s (scan_token text es s)
    unfolding scan_token
    scan_token_lem s le no_space =
        if_rule (TokenAt s) (text s == 0)
          (λ z. (omega arith, le, (λ n. absurd (ground arith)), λ n. refl))
          (λ z.
            let lt = before_end s le z in
            if_rule (TokenAt s)
              (text s == b'|'
                || text s == b'('
                || text s == b')'
                || text s == b';'
                || text s == b'&'
                || text s == b'<')
              (λ y. (omega arith, omega arith, (λ n. (omega arith, z)), λ n. absurd (ground arith)))
              (λ n.
                if_rule (TokenAt s) (text s == b'>')
                  (λ y.
                    if_rule (TokenAt s) (text (s + 1) == b'>')
                      (λ y'.
                        let nz : (text (s + 1) == 0) ≡ false = ground arith in
                        let lt' = before_end (s + 1) (omega arith) nz in
                        (
                          omega arith,
                          omega arith,
                          (λ n. (omega arith, refl)),
                          λ n. absurd (ground arith),
                        ))
                      (λ n'. (
                        omega arith,
                        omega arith,
                        (λ n. (omega arith, z)),
                        λ n. absurd (ground arith),
                      )))
                  (λ n'.
                    let no_symbol : is_symbol (text s) ≡ false = other_symbol (text s) n n' in
                    let (lo, hi) = skip_word_lem (es - s) s in
                    let some : s < skip_word text (es - s) s =
                      let k : es - s ≡ suc (es - s - 1) = omega arith in
                      rw k (skip_word_some (es - s - 1) s (no_space lt) no_symbol) in
                    (lo, omega arith, (λ n. (some, refl)), λ n. absurd (ground arith)))))

    -- What `gettoken` finds lies within the string, in this order.
    pub gettoken_lem :
        (s : ℕ)
        → s ≤ es
        → let t = gettoken text es s in
          (s ≤ t.q)
          × (t.q ≤ t.eq)
          × (t.eq ≤ t.ps)
          × (t.ps ≤ es)
          × ((t.tok == 0) ≡ false → t.q < t.eq)
    unfolding gettoken
    gettoken_lem s le =
        let (lo, hi, stop) = skipped s le in
        let q = skip_space text (es - s) s in
        let (lo', hi', go, zero_tok) = scan_token_lem q hi stop in
        let (lo'', hi'', stop'') = skipped (scan_token text es q).1 hi' in
        (
          lo,
          lo',
          lo'',
          hi'',
          λ t. elim (Bool-cases (text q == 0)) [
            | inl nul ↦ let z = zero_tok nul in absurd (ground arith)
            | inr c ↦ let (lt, nz) = go c in lt
          ],
        )

    -- After a `peek` that is not at the end, `gettoken` takes at least one character.
    pub peek_lem :
        (s : ℕ) (toks : ℕ → Bool)
        → s ≤ es
        → let (more, s') = peek text es s toks in
          (s ≤ s') × (s' ≤ es) × (more ≡ true → s' < (gettoken text es s').ps)
    unfolding peek gettoken
    peek_lem s toks le =
        let (lo, hi, stop) = skipped s le in
        let s' = skip_space text (es - s) s in
        (
          lo,
          hi,
          λ more.
              let c : (text s' == 0) ≡ false = ground arith in
              let stay = skip_space_stay (es - s') s' (stop (before_end s' hi c)) in
              let (lo', hi', go, zero_tok) = scan_token_lem s' hi stop in
              let (lt, nz) = go c in
              let (lo'', hi'', stop'') = skipped (scan_token text es s').1 hi' in
              rw stay (omega arith),
        )
