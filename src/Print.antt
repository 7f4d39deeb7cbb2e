-- ===== src/Print.antt =====
-- Model of xv6/printf.c, and of atoi in xv6/ulib.c. What `putc` writes is collected in a list.
pub mod Digits
use a4team_os.Base.{
  ℕ, zero, suc, ◌+◌, ◌-◌, ◌*◌, ◌/◌, ◌%◌, ◌^◌, Bool, true, false, not, ◌&&◌, ◌||◌, ◌==◌, ltb, leb,
  if◌then◌else◌, List, [], ◌∷◌, ◌++◌, Option, none, some,
}
use mathlib.Core.List.{reverse}
use a4team_os.Str.{Memory}

-- `digits[d]` of the table "0123456789ABCDEF".
unfoldable pub digit : ℕ → ℕ
digit d = if ltb d 10 then b'0' + d else b'A' + (d - 10)

-- `do buf[i++] = digits[x % base]; while((x /= base) != 0);` with fuel: the characters in the
-- order in which they are stored.
unfoldable pub digit_loop : ℕ → (x base : ℕ) → Option (List ℕ)
digit_loop zero x base = none
digit_loop (suc f) x base = elim (x / base == 0) [
  | true ↦ some (digit (x % base) ∷ [])
  | false ↦ elim (digit_loop f (x / base) base) [
    | none ↦ none
    | some ds ↦ some (digit (x % base) ∷ ds)
  ]
]

-- `xx` is the bit pattern of the argument, below 2 ^ 32. A pattern from 2 ^ 31 on is negative.
unfoldable pub is_neg : (xx : ℕ) (sgn : Bool) → Bool
is_neg xx sgn = sgn && leb (2 ^ 31) xx

unfoldable pub magnitude : (xx : ℕ) (sgn : Bool) → ℕ
unfolding is_neg
magnitude xx sgn = if is_neg xx sgn then 2 ^ 32 - xx else xx

-- The characters in `buf`, the sign last.
unfoldable pub print_buf : ℕ → (xx base : ℕ) (sgn : Bool) → Option (List ℕ)
unfolding digit_loop is_neg magnitude digit
print_buf fuel xx base sgn = elim (digit_loop fuel (magnitude xx sgn) base) [
  | none ↦ none
  | some ds ↦ some (if is_neg xx sgn then ds ++ (b'-' ∷ []) else ds)
]

-- `while(--i >= 0) putc(fd, buf[i]);`
unfoldable pub printint : ℕ → (xx base : ℕ) (sgn : Bool) → Option (List ℕ)
unfolding print_buf
printint fuel xx base sgn = elim (print_buf fuel xx base sgn) [
  | none ↦ none
  | some buf ↦ some (reverse buf)
]

-- `while('0' <= *s && *s <= '9') n = n*10 + *s++ - '0';` with fuel. The sum is kept as
-- the 32 bits of an `int`, which wrap.
unfoldable pub atoi_loop : ℕ → (s n : ℕ) → Memory → Option ℕ
atoi_loop zero s n m = none
atoi_loop (suc f) s n m =
    let rest = atoi_loop f (s + 1) ((n * 10 + m s - b'0') % 2 ^ 32) m in
    if leb b'0' (m s) && leb (m s) b'9' then rest else some n

unfoldable pub atoi : (fuel s : ℕ) → Memory → Option ℕ
unfolding atoi_loop
atoi fuel s m = atoi_loop fuel s 0 m
