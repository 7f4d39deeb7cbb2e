-- ===== src/Print/Digits.antt =====
-- What printint writes, and that atoi reads it back.
use a4team_os.Base.{
  ℕ, zero, suc, ◌+◌, ◌-◌, ◌*◌, ◌/◌, ◌%◌, ◌^◌, ◌≤◌, ◌<◌, ◌≡◌, refl, ap, ◌∙◌, Bool, true, false, ◌&&◌,
  ◌==◌, leb, if◌then◌else◌, arith, List, [], ◌∷◌, ◌++◌, length, some, Bool-cases, inl, inr,
  length-append,
}
use mathlib.Core.List.{reverse, reverse-cons}
use native.Mathlib.Nat.{pow-suc, pow-zero, pow-le-pow_left}
use a4team_os.Str.{Memory}
use a4team_os.Print.{digit, digit_loop, is_neg, magnitude, print_buf, printint, atoi_loop, atoi}

-- The digits of `x`, least significant first, by their defining property: each is a digit of the
-- table below `base`, they stand for `x`, and the number is 0 only as the single digit "0".
pub data Numeral (base : ℕ) : ℕ → List ℕ → Type 0 where
  last : {x : ℕ} → x < base → Numeral base x (digit x ∷ [])
  more :
      {x q d : ℕ} {ds : List ℕ}
      → d < base
      → 0 < q
      → x ≡ q * base + d
      → Numeral base q ds
      → Numeral base x (digit d ∷ ds)

div_facts :
    (x base b : ℕ)
    → 1 < base
    → x < b * base
    → (x / base < b) × (x % base < base) × (x ≡ x / base * base + x % base)
div_facts x base b h1 hx = grind (arith)

small_quotient : (x base : ℕ) → 1 < base → x / base ≡ 0 → (x < base) × (x % base ≡ x)
small_quotient x base h1 h = grind arith

exponent_pos : (k base q : ℕ) → q < base ^ k → 0 < q → 0 < k
exponent_pos zero base q h p = absurd (omega (arith, pow-zero base))
exponent_pos (suc k) base q h p = omega arith

-- With `k` rounds for a number below `base ^ k` the loop ends, with at most `k` characters.
digit_loop_lem :
    (k fuel x base b : ℕ)
    → 1 < base
    → k ≤ fuel
    → 0 < k
    → b ≡ base ^ k
    → x < b
    → (ds : List ℕ) × (digit_loop fuel x base ≡ some ds) × Numeral base x ds × (length ds ≤ k)
unfolding digit_loop
digit_loop_lem zero fuel x base b h1 hk h0 e hx = absurd (omega arith)
digit_loop_lem (suc k) zero x base b h1 hk h0 e hx = absurd (omega arith)
digit_loop_lem (suc k) (suc fuel) x base b h1 hk h0 e hx = elim (Bool-cases (x / base == 0)) [
  | inl small ↦
      let (lt, e') = small_quotient x base h1 (ground arith) in
      (digit x ∷ [], ground arith, last lt, omega arith)
  | inr large ↦
      let (q_lt, r_lt, sum) = div_facts x base (base ^ k) h1 (rw (e, pow-suc) at hx) in
      let (ds, eq, num, len) =
        digit_loop_lem k fuel (x / base) base (base ^ k) h1 (omega arith)
          (exponent_pos k base (x / base) q_lt (ground arith)) refl q_lt in
      (digit (x % base) ∷ ds, ground arith, more r_lt (ground arith) sum num, omega arith)
]

-- The characters of a numeral, first the most significant, in memory from `s` on.
pub Holds : Memory → ℕ → List ℕ → Type 0
Holds m s [] = Unit {0}
Holds m s (c ∷ cs) = (m s ≡ c) × Holds m (s + 1) cs

abbrev pub is_digit : ℕ → Bool
is_digit c = leb b'0' c && leb c b'9'

-- What the loop of `atoi` adds up for digits that come most significant first.
pub read_digits : ℕ → List ℕ → ℕ
read_digits n [] = n
read_digits n (c ∷ cs) = read_digits (n * 10 + c - b'0') cs

AllDigits : List ℕ → Type 0
AllDigits [] = Unit {0}
AllDigits (c ∷ cs) = (is_digit c ≡ true) × AllDigits cs

atoi_loop_lem :
    (cs : List ℕ) (fuel s n t : ℕ) (m : Memory)
    → AllDigits cs
    → Holds m s cs
    → t ≡ s + length cs
    → is_digit (m t) ≡ false
    → length cs < fuel
    → atoi_loop fuel s (n % 2 ^ 32) m ≡ some (read_digits n cs % 2 ^ 32)
unfolding atoi_loop Holds read_digits AllDigits
atoi_loop_lem cs zero s n t m d h e stop hf = absurd (omega arith)
atoi_loop_lem [] (suc fuel) s n t m d h e stop hf = ground arith
atoi_loop_lem (c ∷ cs) (suc fuel) s n t m d h e stop hf =
    let (at, rest) = h in
    let (dg, dgs) = d in
    let low : b'0' ≤ m s = ground arith in
    let wrap : (n % 2 ^ 32 * 10 + m s - b'0') % 2 ^ 32 ≡ (n * 10 + c - b'0') % 2 ^ 32 =
      omega arith in
    let ih =
      atoi_loop_lem cs fuel (s + 1) (n * 10 + c - b'0') t m dgs rest (omega arith) stop
        (omega arith) in
    let yes_digit : (leb b'0' (m s) && leb (m s) b'9') ≡ true = ground arith in
    rw (yes_digit, atoi_loop, wrap) ih

read_digits-append :
    (xs : List ℕ) (n c : ℕ) → read_digits n (xs ++ (c ∷ [])) ≡ read_digits n xs * 10 + c - b'0'
unfolding read_digits
read_digits-append [] n c = refl
read_digits-append (x ∷ xs) n c = read_digits-append xs (n * 10 + x - b'0') c

AllDigits-append :
    (xs : List ℕ) (c : ℕ) → AllDigits xs → is_digit c ≡ true → AllDigits (xs ++ (c ∷ []))
unfolding AllDigits
AllDigits-append [] c h e = (e, tt)
AllDigits-append (x ∷ xs) c h e = (h.0, AllDigits-append xs c h.1 e)

digit_decimal : (d : ℕ) → d < 10 → (is_digit (digit d) ≡ true) × (digit d ≡ b'0' + d)
unfolding digit
digit_decimal d h = ground arith

-- A decimal numeral read from its most significant end is the number.
read-Numeral :
    {x : ℕ} {ds : List ℕ}
    → Numeral 10 x ds
    → (read_digits 0 (reverse ds) ≡ x) × AllDigits (reverse ds)
unfolding read_digits AllDigits
read-Numeral (last {x} lt) = ground (arith, digit_decimal x lt)
read-Numeral (more {x} {q} {d} {ds} lt pos_q e num) = rw reverse-cons (
    let ih = read-Numeral num in
    let (dd, dv) = digit_decimal d lt in
    (
      omega (arith, read_digits-append (reverse ds) 0 (digit d), ih.0),
      AllDigits-append (reverse ds) (digit d) ih.1 dd,
    ))

magnitude-lt : (xx : ℕ) (sgn : Bool) → xx < 2 ^ 32 → magnitude xx sgn < 2 ^ 32
unfolding magnitude
magnitude-lt xx sgn h = ground arith

magnitude_nonneg : (xx : ℕ) (sgn : Bool) → is_neg xx sgn ≡ false → magnitude xx sgn ≡ xx
unfolding magnitude
magnitude_nonneg xx sgn h = ground arith

small_nonneg : (xx : ℕ) (sgn : Bool) → xx < 2 ^ 31 → is_neg xx sgn ≡ false
unfolding is_neg
small_nonneg xx sgn h = ground arith

-- For every 32-bit argument and a base of at least 8 (printf uses 10 and 16) the digit loop ends
-- within 11 rounds, and `buf`, of 16 characters, takes at most 12 of them, the sign included.
pub print_buf_bounds :
    (fuel xx base : ℕ) (sgn : Bool)
    → xx < 2 ^ 32
    → 8 ≤ base
    → 11 ≤ fuel
    → (buf : List ℕ) × (print_buf fuel xx base sgn ≡ some buf) × (length buf ≤ 12)
unfolding print_buf
print_buf_bounds fuel xx base sgn hx hb hf =
    let (ds, eq, num, len) =
      digit_loop_lem 11 fuel (magnitude xx sgn) base (base ^ 11) (omega arith) hf (omega arith) refl
        (omega (arith, magnitude-lt xx sgn hx, pow-le-pow_left hb 11)) in
    (
      (if is_neg xx sgn then ds ++ (b'-' ∷ []) else ds),
      ground arith,
      ground (arith, length-append ds (b'-' ∷ [])),
    )

-- For an argument below 2 ^ 31, signed or not, the decimal digits that `printint` writes, put in memory
-- before a character that is no digit, are read by `atoi` as that argument.
pub atoi-printint :
    (fuel xx : ℕ) (sgn : Bool)
    → xx < 2 ^ 31
    → 11 ≤ fuel
    → (out : List ℕ) × (printint fuel xx 10 sgn ≡ some out)
      × ((m : Memory) (s fuel' : ℕ)
          → Holds m s out
          → is_digit (m (s + length out)) ≡ false
          → length out < fuel'
          → atoi fuel' s m ≡ some xx)
unfolding printint print_buf atoi
atoi-printint fuel xx sgn hx hf =
    let pos_xx = small_nonneg xx sgn hx in
    let (ds, eq, num, len) =
      digit_loop_lem 11 fuel (magnitude xx sgn) 10 (10 ^ 11) (omega arith) hf (omega arith) refl
        (omega (arith, magnitude-lt xx sgn (omega arith))) in
    let (val, all) = read-Numeral num in
    (
      reverse ds,
      ground arith,
      λ m s fuel' h stop hf'.
          atoi_loop_lem (reverse ds) fuel' s 0 (s + length (reverse ds)) m all h refl stop hf'
          ∙ ap some (let e = val ∙ magnitude_nonneg xx sgn pos_xx in omega arith),
    )
