-- ===== src/Str/Copy.antt =====
-- memmove and memset of xv6/string.c at every address.
use a4team_os.Base.{
  ℕ, zero, suc, ◌+◌, ◌-◌, ◌*◌, ◌/◌, ◌%◌, ◌≤◌, ◌<◌, ◌≡◌, refl, ◌⊎◌, Bool, true, ◌&&◌, ◌==◌, ltb, leb,
  if◌then◌else◌, update, arith,
}
use a4team_os.Base.Bytes.{all_below, all_below_sound}
use a4team_os.Str.{Memory, copy_up, copy_down, memmove, stosb, store_word, stosl, spread, memset}

-- `a` lies in the `n` bytes from `d` on.
abbrev pub within : ℕ → ℕ → ℕ → Bool
within d n a = leb d a && ltb a (d + n)

copy_up_lem :
    (n s d : ℕ) (m : Memory) (a : ℕ)
    → (d ≤ s) ⊎ (s + n ≤ d)
    → copy_up n s d m a ≡ (if within d n a then m (s + (a - d)) else m a)
unfolding copy_up
copy_up_lem zero s d m a h = ground arith
copy_up_lem (suc n) s d m a h = ground (arith, copy_up_lem n (s + 1) (d + 1) (update m d (m s)) a)

copy_down_lem :
    (n s d e f : ℕ) (m : Memory) (a : ℕ)
    → s < d
    → e ≡ s + n
    → f ≡ d + n
    → copy_down n e f m a ≡ (if within d n a then m (s + (a - d)) else m a)
unfolding copy_down
copy_down_lem zero s d e f m a h p q = ground arith
copy_down_lem (suc n) s d e f m a h p q =
    ground (arith, copy_down_lem n s d (e - 1) (f - 1) (update m (f - 1) (m (e - 1))) a)

-- `memmove` copies the `n` bytes at `src`, as they were before the call, to `dst`, and changes
-- no byte outside the destination, whether or not the two ranges overlap.
pub memmove_lem :
    (dst src n : ℕ) (m : Memory) (a : ℕ)
    → memmove dst src n m a ≡ (if within dst n a then m (src + (a - dst)) else m a)
unfolding memmove
memmove_lem dst src n m a =
    ground (arith, copy_down_lem n src dst (src + n) (dst + n) m a, copy_up_lem n src dst m a)

stosb_lem : (n d c : ℕ) (m : Memory) (a : ℕ) → stosb d c n m a ≡ (if within d n a then c else m a)
unfolding stosb
stosb_lem zero d c m a = ground arith
stosb_lem (suc n) d c m a = ground (arith, stosb_lem n (d + 1) c (update m d c) a)

spread_bytes_table :
    all_below 256 (λ c.
      (spread c % 256 == c)
      && (spread c / 256 % 256 == c)
      && (spread c / 65536 % 256 == c)
      && (spread c / 16777216 % 256 == c))
    ≡ true
unfolding all_below spread
spread_bytes_table = refl

store_word_lem :
    (d c : ℕ) (m : Memory) (a : ℕ)
    → c < 256
    → store_word d (spread c) m a ≡ (if within d 4 a then c else m a)
unfolding store_word
store_word_lem d c m a h = ground (arith, all_below_sound 256 _ c spread_bytes_table h)

stosl_lem :
    (n d c : ℕ) (m : Memory) (a : ℕ)
    → c < 256
    → stosl d (spread c) n m a ≡ (if within d (4 * n) a then c else m a)
unfolding stosl
stosl_lem zero d c m a h = ground arith
stosl_lem (suc n) d c m a h =
    ground (arith, stosl_lem n (d + 4) c (store_word d (spread c) m) a h, store_word_lem d c m a h)

-- `memset` writes the low byte of `c` to each of the `n` bytes at `dst` and nothing else, on the
-- path by words and on the path by bytes.
memset_lem :
    (dst c n : ℕ) (m : Memory) (a : ℕ)
    → memset dst c n m a ≡ (if within dst n a then c % 256 else m a)
unfolding memset
memset_lem dst c n m a =
    ground (arith, stosl_lem (n / 4) dst (c % 256) m a, stosb_lem n dst (c % 256) m a)
