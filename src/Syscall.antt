-- ===== src/Syscall.antt =====
-- Model of the argument checks of xv6/syscall.c, for a process of `sz` bytes with the memory `m`.
-- The arithmetic on addresses is modulo 2 ^ 32. A result of none is -1.
pub mod Bounds
use a4team_os.Base.{
  ℕ, zero, suc, ◌+◌, ◌-◌, ◌*◌, ◌%◌, ◌^◌, Bool, true, false, ◌&&◌, ◌||◌, ◌==◌, ltb, leb,
  if◌then◌else◌, Option, none, some, ℤ, pos, negsuc,
}
use a4team_os.Str.{Memory}

-- The 32-bit word at an address, low byte first.
unfoldable pub word_at : Memory → ℕ → ℕ
word_at m a = m a + 2 ^ 8 * m (a + 1) + 2 ^ 16 * m (a + 2) + 2 ^ 24 * m (a + 3)

unfoldable pub fetchint : (sz : ℕ) → Memory → (addr : ℕ) → Option ℕ
unfolding word_at
fetchint sz m addr =
    if leb sz addr || ltb sz ((addr + 4) % 2 ^ 32) then none else some (word_at m addr)

-- The loop of `fetchstr`, with `n` addresses left below the end: the length from `s` on.
unfoldable pub fetchstr_loop : (n : ℕ) → Memory → (s len : ℕ) → Option ℕ
fetchstr_loop zero m s len = none
fetchstr_loop (suc n) m s len =
    let rest = fetchstr_loop n m (s + 1) (len + 1) in if m s == 0 then some len else rest

-- The length of the string; its address is `addr`.
unfoldable pub fetchstr : (sz : ℕ) → Memory → (addr : ℕ) → Option ℕ
unfolding fetchstr_loop
fetchstr sz m addr = if leb sz addr then none else fetchstr_loop (sz - addr) m addr 0

unfoldable pub argint : (sz esp : ℕ) → Memory → (n : ℕ) → Option ℕ
unfolding fetchint
argint sz esp m n = fetchint sz m ((esp + 4 + 4 * n) % 2 ^ 32)

-- `argptr`: the pointer. `size` is signed.
unfoldable pub argptr : (sz esp : ℕ) → Memory → (n : ℕ) → (size : ℤ) → Option ℕ
unfolding argint
argptr sz esp m n (negsuc k) = none
argptr sz esp m n (pos size) = elim (argint sz esp m n) [
  | none ↦ none
  | some i ↦ if leb sz i || ltb sz ((i + size) % 2 ^ 32) then none else some i
]

-- `argstr`: the pointer and the length.
pub argstr : (sz esp : ℕ) → Memory → (n : ℕ) → Option (ℕ × ℕ)
unfolding argint fetchstr
argstr sz esp m n = elim (argint sz esp m n) [
  | none ↦ none
  | some addr ↦ elim (fetchstr sz m addr) [ none ↦ none | some len ↦ some (addr, len) ]
]
