-- ===== src/Syscall/Bounds.antt =====
-- The argument checks of xv6/syscall.c keep the kernel inside the memory of the process.
use a4team_os.Base.{
  ℕ, zero, suc, ◌+◌, ◌-◌, ◌^◌, ◌≤◌, ◌<◌, ◌≡◌, ◌≢◌, ◌==◌, leb, if◌then◌else◌, arith, none, some, pos,
  Bool-cases, Option-cases, inl, inr,
}
use a4team_os.Str.{Memory}
use a4team_os.Syscall.{word_at, fetchint, fetchstr_loop, fetchstr, argint, argptr}

-- For a process below KERNBASE and a size that is an int, `argptr` answers only a pointer to a
-- block that lies inside the process as a whole, although the sum in its check may wrap.
pub argptr_bounds :
    (sz esp : ℕ) (m : Memory) (n size p : ℕ)
    → sz ≤ 2 ^ 31
    → size < 2 ^ 31
    → argptr sz esp m n (pos size) ≡ some p
    → (argint sz esp m n ≡ some p) × (p < sz) × (p + size ≤ sz)
unfolding argptr
argptr_bounds sz esp m n size p low small h = elim (Option-cases (argint sz esp m n)) [
  | inl e ↦ ground (arith, e)
  | inr (i, e) ↦ ground (arith, e)
]

-- `fetchint` answers the word at an address exactly if the four bytes lie inside the process.
pub fetchint_lem :
    (sz : ℕ) (m : Memory) (addr : ℕ)
    → sz ≤ 2 ^ 31
    → addr < 2 ^ 32
    → fetchint sz m addr ≡ (if leb (addr + 4) sz then some (word_at m addr) else none)
unfolding fetchint
fetchint_lem sz m addr low small = ground arith

fetchstr_loop_lem :
    (n : ℕ) (m : Memory) (s len r : ℕ)
    → fetchstr_loop n m s len ≡ some r
    → (len ≤ r)
      × (r < len + n)
      × (m (s + (r - len)) ≡ 0)
      × ((j : ℕ) → len ≤ j → j < r → m (s + (j - len)) ≢ 0)
unfolding fetchstr_loop
fetchstr_loop_lem zero m s len r h = cc
fetchstr_loop_lem (suc n) m s len r h = elim (Bool-cases (m s == 0)) [
  | inl nul ↦
      let e : r ≡ len = ground arith in
      let at : s + (r - len) ≡ s = omega arith in
      (omega arith, omega arith, rw at (ground arith), λ j lo hi. absurd (omega arith))
  | inr more ↦
      let (lo, hi, nul, earlier) = fetchstr_loop_lem n m (s + 1) (len + 1) r (ground arith) in
      let at : s + (r - len) ≡ s + 1 + (r - (len + 1)) = omega arith in
      (
        omega arith,
        omega arith,
        rw at nul,
        λ j a b. elim (Bool-cases (j == len)) [
          | inl here ↦ let e : s + (j - len) ≡ s = ground arith in rw e (ground arith)
          | inr past ↦
              let e : s + (j - len) ≡ s + 1 + (j - (len + 1)) = ground arith in
              rw e (earlier j (ground arith) b)
        ],
      )
]

-- `fetchstr` answers only the length of a C string that ends, with its NUL, inside the process.
fetchstr_bounds :
    (sz : ℕ) (m : Memory) (addr len : ℕ)
    → fetchstr sz m addr ≡ some len
    → (addr + len < sz) × (m (addr + len) ≡ 0) × ((j : ℕ) → j < len → m (addr + j) ≢ 0)
unfolding fetchstr
fetchstr_bounds sz m addr len h = elim (Bool-cases (leb sz addr)) [
  | inl out ↦ ground arith
  | inr inside ↦
      let (lo, hi, nul, earlier) = fetchstr_loop_lem (sz - addr) m addr 0 len (ground arith) in
      let all : len - 0 ≡ len = omega arith in
      (
        ground arith,
        rw all at nul,
        λ j lt. let same : j - 0 ≡ j = omega arith in rw same at (earlier j (omega arith) lt),
      )
]
