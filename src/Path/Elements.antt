-- ===== src/Path/Elements.antt =====
-- skipelem of xv6/fs.c takes a path apart at its slashes.
use a4team_os.Base.{
  ℕ, zero, suc, ◌<◌, ◌≡◌, refl, sym, ap, ◌∙◌, ◌≢◌, ◌⊎◌, Bool, true, false, not, ◌&&◌, ◌==◌,
  if◌then◌else◌, arith, List, [], ◌∷◌, ◌++◌, Option, none, some, take, length, length-append,
  Bool-cases, inl, inr,
}
use a4team_os.Path.{slash, skip_slashes, element, skipelem}

abbrev pub slashes : ℕ → List ℕ
slashes zero = []
slashes (suc n) = slash ∷ slashes n

abbrev pub starts_with_slash : List ℕ → Bool
starts_with_slash [] = false
starts_with_slash (c ∷ cs) = c == slash

-- No character is a slash.
abbrev pub lacks_slash : List ℕ → Bool
lacks_slash [] = true
lacks_slash (c ∷ cs) = not (c == slash) && lacks_slash cs

-- `rest` is `cs` after its leading slashes.
data IsSkipped (cs : List ℕ) : List ℕ → Type 0 where
  leading :
      (n : ℕ) {rest : List ℕ}
      → cs ≡ slashes n ++ rest
      → starts_with_slash rest ≡ false
      → IsSkipped cs rest

one_more :
    (c : ℕ) (cs : List ℕ) {rest : List ℕ} → c ≡ slash → IsSkipped cs rest → IsSkipped (c ∷ cs) rest
one_more c cs e (leading n s other) = leading (suc n) (rw (e, s) refl) other

skip_slashes-IsSkipped : (cs : List ℕ) → IsSkipped cs (skip_slashes cs)
unfolding skip_slashes
skip_slashes-IsSkipped [] = leading 0 refl refl
skip_slashes-IsSkipped (c ∷ cs) = elim (Bool-cases (c == slash)) [
  | inl e ↦ rw (e, skip_slashes) (one_more c cs (ground arith) (skip_slashes-IsSkipped cs))
  | inr ne ↦ rw (ne, skip_slashes) (leading 0 refl ne)
]

-- `cs` is the element `name`, and then `rest`, which is empty or starts with a slash.
data IsElement (cs : List ℕ) : List ℕ × List ℕ → Type 0 where
  split :
      {name rest : List ℕ}
      → cs ≡ name ++ rest
      → lacks_slash name ≡ true
      → (rest ≡ []) ⊎ (starts_with_slash rest ≡ true)
      → IsElement cs (name, rest)

abbrev put_first : (c : ℕ) (cs : List ℕ) → List ℕ × List ℕ → List ℕ × List ℕ
put_first c cs (name, rest) = if c == slash then ([], c ∷ cs) else (c ∷ name, rest)

put_first-IsElement :
    (c : ℕ) (cs : List ℕ) {r : List ℕ × List ℕ}
    → IsElement cs r
    → IsElement (c ∷ cs) (put_first c cs r)
put_first-IsElement c cs (split {name} {rest} e l h) = elim (Bool-cases (c == slash)) [
  | inl s ↦ rw s (split refl refl (inr s))
  | inr ne ↦ rw ne (split (ap (λ x. c ∷ x) e) (rw (ne, l) refl) h)
]

element-IsElement : (cs : List ℕ) → IsElement cs (element cs)
unfolding element
element-IsElement [] = split refl refl (inl refl)
element-IsElement (c ∷ cs) = put_first-IsElement c cs (element-IsElement cs)

-- What `skipelem` answers: none, for a path of slashes; or the first 14 characters of the first
-- element, and the path behind it and the slashes that follow it.
pub data IsSplit (path : List ℕ) : Option (List ℕ × List ℕ) → Type 0 where
  no_element : (n : ℕ) → path ≡ slashes n → IsSplit path none
  first :
      (n m : ℕ) {name rest : List ℕ}
      → path ≡ slashes n ++ (name ++ (slashes m ++ rest))
      → name ≢ []
      → lacks_slash name ≡ true
      → starts_with_slash rest ≡ false
      → (m ≡ 0 → rest ≡ [])
      → IsSplit path (some (take 14 name, rest))

-- The end of `skipelem`, after the element.
abbrev ended : List ℕ × List ℕ → Option (List ℕ × List ℕ)
ended (name, rest) = some (take 14 name, skip_slashes rest)

not_empty :
    (c : ℕ) (cs name rest : List ℕ)
    → (c == slash) ≡ false
    → c ∷ cs ≡ name ++ rest
    → (rest ≡ []) ⊎ (starts_with_slash rest ≡ true)
    → name ≢ []
not_empty c cs [] rest ne e (inl h) z = absurd cc
not_empty c cs [] rest ne e (inr h) z =
    let same : starts_with_slash rest ≡ false = ap starts_with_slash (sym e) ∙ ne in absurd cc
not_empty c cs (x ∷ xs) rest ne e h z = cc

IsSplit-of :
    (n : ℕ) (path : List ℕ) (c : ℕ) (cs name rest : List ℕ)
    → path ≡ slashes n ++ (c ∷ cs)
    → (c == slash) ≡ false
    → c ∷ cs ≡ name ++ rest
    → lacks_slash name ≡ true
    → (rest ≡ []) ⊎ (starts_with_slash rest ≡ true)
    → {later : List ℕ} → IsSkipped rest later
    → IsSplit path (some (take 14 name, later))
IsSplit-of n path c cs name rest e ne s l h (leading m {rest = later} t other) =
    first n m (e ∙ ap (λ x. slashes n ++ x) (s ∙ ap (λ x. name ++ x) t))
      (not_empty c cs name rest ne s h) l other
      (λ z. elim h [
        | inl empty ↦ sym (rw z at t) ∙ empty
        | inr starts ↦
            let same : rest ≡ later = rw z at t in
            absurd (not_both (sym (ap starts_with_slash same ∙ other) ∙ starts))
      ])
  where
    not_both : false ≢ true
    not_both e = cc

ended-IsSplit :
    (n : ℕ) (path : List ℕ) (c : ℕ) (cs : List ℕ)
    → path ≡ slashes n ++ (c ∷ cs)
    → (c == slash) ≡ false
    → {r : List ℕ × List ℕ} → IsElement (c ∷ cs) r
    → IsSplit path (ended r)
ended-IsSplit n path c cs e ne (split {name} {rest} s l h) =
    IsSplit-of n path c cs name rest e ne s l h (skip_slashes-IsSkipped rest)

-- `skipelem` after the leading slashes.
abbrev after_slashes : List ℕ → Option (List ℕ × List ℕ)
after_slashes [] = none
after_slashes (c ∷ cs) = ended (element (c ∷ cs))

after_slashes-IsSplit :
    (path : List ℕ) {rest : List ℕ} → IsSkipped path rest → IsSplit path (after_slashes rest)
after_slashes-IsSplit path {rest = []} (leading n e other) =
    no_element n (e ∙ append_empty (slashes n))
  where
    append_empty : (xs : List ℕ) → xs ++ [] ≡ xs
    append_empty [] = refl
    append_empty (x ∷ xs) = ap (λ ys. x ∷ ys) (append_empty xs)
after_slashes-IsSplit path {rest = c ∷ cs} (leading n e other) =
    ended-IsSplit n path c cs e other (element-IsElement (c ∷ cs))

-- `skipelem` takes the path apart as slashes, a non-empty element without a slash, slashes, and
-- the path it returns, which does not start with a slash and is empty if no slash follows the
-- element. It puts the first 14 characters of the element into the name. It answers none exactly
-- for a path of slashes only.
pub skipelem-IsSplit : (path : List ℕ) → IsSplit path (skipelem path)
unfolding skipelem
skipelem-IsSplit path = after_slashes-IsSplit path (skip_slashes-IsSkipped path)

length_not_empty : (xs : List ℕ) → xs ≢ [] → 0 < length xs
length_not_empty [] ne = absurd (ne refl)
length_not_empty (x ∷ xs) ne = omega arith

-- The rest of a path that `skipelem` took apart is shorter than the path.
pub rest_shorter :
    (path name rest : List ℕ) → IsSplit path (some (name, rest)) → length rest < length path
rest_shorter path name rest (first n m {name = elt} e ne l other h) =
    let whole = ap length e in
    let a = length-append (slashes n) (elt ++ (slashes m ++ rest)) in
    let b = length-append elt (slashes m ++ rest) in
    let c = length-append (slashes m) rest in omega (arith, whole, a, b, c, length_not_empty elt ne)

pub skipelem_shorter :
    (path : List ℕ) {name rest : List ℕ}
    → skipelem path ≡ some (name, rest)
    → length rest < length path
skipelem_shorter path {name} {rest} e =
    rest_shorter path name rest (rw e at (skipelem-IsSplit path))
