-- ===== src/Vm/Bits.antt =====
-- `|` on numbers whose bits do not overlap, as the page table entries of xv6/vm.c are made.
use Prim.Native.Nat.{max, bit_or, digits, bit_or-bitwise}
use a4team_os.Base.{ℕ, zero, suc, ◌+◌, ◌-◌, ◌*◌, ◌/◌, ◌%◌, ◌≤◌, ◌<◌, ◌≡◌, refl, ◌∙◌, arith}

abbrev or_digits : ℕ → ℕ → ℕ → ℕ
or_digits n a b = digits (λ b. b) max n a b

-- `c << k`
abbrev shifted : (k c : ℕ) → ℕ
shifted zero c = c
shifted (suc k) c = shifted k c * 2

-- `b` has at most `k` bits.
abbrev Fits : (k b : ℕ) → Type 0
Fits zero b = b ≡ 0
Fits (suc k) b = Fits k (b / 2)

or_digits_zero : (n a b : ℕ) → a ≤ n → b ≡ 0 → or_digits n a b ≡ a
or_digits_zero zero zero b le e = e
or_digits_zero zero (suc a) b le e = absurd (omega arith)
or_digits_zero (suc n) zero b le e = e
or_digits_zero (suc n) (suc a) b le e =
    omega (arith, or_digits_zero n (suc a / 2) (b / 2) (omega arith) (omega arith))

or_digits_apart : (k n a b c : ℕ) → a ≤ n → a ≡ shifted k c → Fits k b → or_digits n a b ≡ a + b
or_digits_apart zero n a b c le e f = or_digits_zero n a b le f ∙ omega arith
or_digits_apart (suc k) zero zero b c le e f = omega arith
or_digits_apart (suc k) zero (suc a) b c le e f = absurd (omega arith)
or_digits_apart (suc k) (suc n) zero b c le e f = omega arith
or_digits_apart (suc k) (suc n) (suc a) b c le e f =
    omega (arith, or_digits_apart k n (suc a / 2) (b / 2) c (omega arith) (omega arith) f)

-- An address of a page and the flags of an entry.
pub bit_or_flags : (a f : ℕ) → a % 4096 ≡ 0 → f < 4096 → bit_or a f ≡ a + f
bit_or_flags a f e lt =
    bit_or-bitwise a f
    ∙ or_digits_apart 12 a a f (a / 4096) (omega arith) (omega arith) (omega arith)

or_digits_one : (n a : ℕ) → a ≤ n → or_digits n a 1 ≡ a - a % 2 + 1
or_digits_one zero zero le = omega arith
or_digits_one zero (suc a) le = absurd (omega arith)
or_digits_one (suc n) zero le = omega arith
or_digits_one (suc n) (suc a) le = omega (arith, or_digits_zero n (suc a / 2) 0 (omega arith) refl)

-- The present bit is set.
pub bit_or_one : (a : ℕ) → bit_or a 1 ≡ a - a % 2 + 1
bit_or_one a = bit_or-bitwise a 1 ∙ or_digits_one a a (omega arith)
