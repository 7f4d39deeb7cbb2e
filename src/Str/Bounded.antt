-- ===== src/Str/Bounded.antt =====
-- strncpy, safestrcpy and strlen of xv6/string.c.
use a4team_os.Base.{
  ℕ, zero, suc, ◌+◌, ◌-◌, ◌≤◌, ◌<◌, ◌≡◌, refl, ◌⊎◌, false, ltb, if◌then◌else◌, update, arith, pos,
  some, length,
}
use a4team_os.Str.{
  Memory, zero_fill, strncpy_loop, strncpy, safestrcpy_loop, safestrcpy, strlen_loop, strlen,
}
use a4team_os.Str.Copy.{within}
use a4team_os.Str.Compare.{cstr}

zero_fill_lem :
    (n s : ℕ) (m : Memory) (a : ℕ) → zero_fill n s m a ≡ (if within s n a then 0 else m a)
unfolding zero_fill
zero_fill_lem zero s m a = ground arith
zero_fill_lem (suc n) s m a = ground (arith, zero_fill_lem n (s + 1) (update m s 0) a)

abbrev pub Disjoint : (s n t k : ℕ) → Type 0
Disjoint s n t k = (s + n ≤ t) ⊎ (t + k ≤ s)

-- A write outside its range does not change a C string.
cstr-update : (n t s v : ℕ) (m : Memory) → Disjoint s 1 t n → cstr (update m s v) t n ≡ cstr m t n
unfolding cstr
cstr-update zero t s v m h = refl
cstr-update (suc n) t s v m h = ground (arith, cstr-update n (t + 1) s v m)

strncpy_loop_lem :
    (n s t : ℕ) (m : Memory) (a : ℕ)
    → Disjoint s n t n
    → strncpy_loop n s t m a ≡ (
        if within s n a
        then (if ltb (a - s) (length (cstr m t n)) then m (t + (a - s)) else 0)
        else m a)
unfolding strncpy_loop cstr
strncpy_loop_lem zero s t m a h = ground arith
strncpy_loop_lem (suc n) s t m a h = ground (
  arith,
  zero_fill_lem n (s + 1) (update m s (m t)) a,
  strncpy_loop_lem n (s + 1) (t + 1) (update m s (m t)) a,
  cstr-update n (t + 1) s (m t) m,
)

-- For ranges that do not overlap, `strncpy` with a count of `n` copies the C string at `t` (at
-- most `n` characters), fills the rest of the `n` bytes at `s` with zeros, and changes nothing else.
strncpy_lem :
    (s t n : ℕ) (m : Memory) (a : ℕ)
    → Disjoint s n t n
    → strncpy s t (pos n) m a ≡ (
        if within s n a
        then (if ltb (a - s) (length (cstr m t n)) then m (t + (a - s)) else 0)
        else m a)
unfolding strncpy
strncpy_lem s t n m a h = strncpy_loop_lem n s t m a h

length-cstr-le : (n t : ℕ) (m : Memory) → length (cstr m t n) ≤ n
unfolding cstr
length-cstr-le zero t m = omega arith
length-cstr-le (suc n) t m = ground (arith, length-cstr-le n (t + 1) m)

safestrcpy_loop_frame :
    (k s t : ℕ) (m : Memory) (a : ℕ)
    → (within s (suc k) a ≡ false)
    → safestrcpy_loop k s t m a ≡ m a
unfolding safestrcpy_loop
safestrcpy_loop_frame zero s t m a h = ground arith
safestrcpy_loop_frame (suc k) s t m a h =
    ground (arith, safestrcpy_loop_frame k (s + 1) (t + 1) (update m s (m t)) a)

cstr-safestrcpy_loop :
    (k s t : ℕ) (m : Memory)
    → Disjoint s (suc k) t k
    → cstr (safestrcpy_loop k s t m) s (suc k) ≡ cstr m t k
unfolding safestrcpy_loop cstr
cstr-safestrcpy_loop zero s t m h = ground arith
cstr-safestrcpy_loop (suc k) s t m h = ground (
  arith,
  cstr-safestrcpy_loop k (s + 1) (t + 1) (update m s (m t)),
  safestrcpy_loop_frame k (s + 1) (t + 1) (update m s (m t)) s,
  cstr-update k (t + 1) s (m t) m,
)

-- `safestrcpy` with a count of `n + 1`, for ranges that do not overlap, leaves at `s` a C string
-- that ends within the `n + 1` bytes: the first `n` characters of the one at `t`. No byte outside
-- the `n + 1` is changed.
safestrcpy_lem :
    (s t n : ℕ) (m : Memory)
    → Disjoint s (suc n) t n
    → (cstr (safestrcpy s t (pos (suc n)) m) s (suc n) ≡ cstr m t n)
      × (length (cstr (safestrcpy s t (pos (suc n)) m) s (suc n)) ≤ n)
      × ((a : ℕ) → within s (suc n) a ≡ false → safestrcpy s t (pos (suc n)) m a ≡ m a)
unfolding safestrcpy
safestrcpy_lem s t n m h = (
  cstr-safestrcpy_loop n s t m h,
  ground (arith, cstr-safestrcpy_loop n s t m h, length-cstr-le n t m),
  safestrcpy_loop_frame n s t m,
)

strlen_loop_lem :
    (n f s k a : ℕ) (m : Memory)
    → a ≡ s + k
    → n ≤ f
    → length (cstr m a n) < n
    → strlen_loop f s k m ≡ some (k + length (cstr m a n))
unfolding strlen_loop cstr
strlen_loop_lem zero f s k a m e h l = absurd (omega arith)
strlen_loop_lem (suc n) zero s k a m e h l = absurd (omega arith)
strlen_loop_lem (suc n) (suc f) s k a m e h l =
    ground (arith, strlen_loop_lem n f s (k + 1) (a + 1) m)

-- If a NUL stands among the `n` bytes at `s`, `strlen` returns, on fuel `n` or more, the number of
-- characters before the first NUL.
strlen_lem :
    (s n fuel : ℕ) (m : Memory)
    → n ≤ fuel
    → length (cstr m s n) < n
    → strlen fuel s m ≡ some (length (cstr m s n))
unfolding strlen
strlen_lem s n fuel m h l = ground (arith, strlen_loop_lem n fuel s 0 s m)
