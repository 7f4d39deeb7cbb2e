-- ===== src/Str.antt =====
-- Model of xv6/string.c: the kernel's memory and string routines.
-- Memory is a function from addresses to bytes; an address is a number, and a range that would
-- wrap round 2 ^ 32 is outside the model.
pub mod Copy
pub mod Compare
pub mod Bounded
use a4team_os.Base.{
  ℕ, zero, suc, ◌+◌, ◌-◌, ◌*◌, ◌/◌, ◌%◌, ◌^◌, Bool, true, false, not, ◌&&◌, ◌==◌, ltb, leb,
  if◌then◌else◌, ℤ, pos, negsuc, sub_ℕ, update, Option, none, some,
}
use Prim.Native.Nat.{bit_and, bit_or}

abbrev pub Memory : Type 0
Memory = ℕ → ℕ

-- `while(n-- > 0) *--d = *--s;`
pub copy_down : ℕ → (s d : ℕ) → Memory → Memory
copy_down zero s d m = m
copy_down (suc n) s d m = copy_down n (s - 1) (d - 1) (update m (d - 1) (m (s - 1)))

-- `while(n-- > 0) *d++ = *s++;`
pub copy_up : ℕ → (s d : ℕ) → Memory → Memory
copy_up zero s d m = m
copy_up (suc n) s d m = copy_up n (s + 1) (d + 1) (update m d (m s))

pub memmove : (dst src n : ℕ) → Memory → Memory
memmove dst src n m =
    if ltb src dst && ltb dst (src + n)
    then copy_down n (src + n) (dst + n) m
    else copy_up n src dst m

-- `rep stosb` and `rep stosl`.
pub stosb : (addr byte : ℕ) → ℕ → Memory → Memory
stosb addr byte zero m = m
stosb addr byte (suc n) m = stosb (addr + 1) byte n (update m addr byte)

pub store_word : (addr word : ℕ) → Memory → Memory
store_word addr word m =
    update
      (update (update (update m addr (word % 256)) (addr + 1) (word / 256 % 256)) (addr + 2)
        (word / 65536 % 256))
      (addr + 3) (word / 16777216 % 256)

pub stosl : (addr word : ℕ) → ℕ → Memory → Memory
stosl addr word zero m = m
stosl addr word (suc n) m = stosl (addr + 4) word n (store_word addr word m)

-- `(c<<24)|(c<<16)|(c<<8)|c`
pub spread : ℕ → ℕ
spread c = bit_or (bit_or (bit_or (c * 16777216) (c * 65536)) (c * 256)) c

-- `c` is the argument's bit pattern as a 32-bit word; `stosb` stores its low byte.
pub memset : (dst c n : ℕ) → Memory → Memory
memset dst c n m =
    if (dst % 4 == 0) && (n % 4 == 0)
    then stosl dst (spread (c % 256)) (n / 4) m
    else stosb dst (c % 256) n m

-- `*s1 - *s2` at the first difference, 0 if there is none.
pub memcmp : (s1 s2 n : ℕ) → Memory → ℤ
memcmp s1 s2 zero m = pos 0
memcmp s1 s2 (suc n) m =
    if not (m s1 == m s2) then sub_ℕ (m s1) (m s2) else memcmp (s1 + 1) (s2 + 1) n m

pub strncmp : (p q n : ℕ) → Memory → ℤ
strncmp p q zero m = pos 0
strncmp p q (suc n) m =
    if not (m p == 0) && (m p == m q) then strncmp (p + 1) (q + 1) n m else sub_ℕ (m p) (m q)

-- `while(n-- > 0) *s++ = 0;`
pub zero_fill : ℕ → (s : ℕ) → Memory → Memory
zero_fill zero s m = m
zero_fill (suc n) s m = zero_fill n (s + 1) (update m s 0)

-- `while(n-- > 0 && (*s++ = *t++) != 0);` and the loop after it, which pads with zeros.
pub strncpy_loop : ℕ → (s t : ℕ) → Memory → Memory
strncpy_loop zero s t m = m
strncpy_loop (suc n) s t m =
    if m t == 0
    then zero_fill n (s + 1) (update m s (m t))
    else strncpy_loop n (s + 1) (t + 1) (update m s (m t))

pub strncpy : (s t : ℕ) → ℤ → Memory → Memory
strncpy s t (pos n) m = strncpy_loop n s t m
strncpy s t (negsuc n) m = m

-- `while(--n > 0 && (*s++ = *t++) != 0); *s = 0;` with `k` rounds left. After a NUL is copied `s`
-- already stands behind it.
pub safestrcpy_loop : ℕ → (s t : ℕ) → Memory → Memory
safestrcpy_loop zero s t m = update m s 0
safestrcpy_loop (suc k) s t m =
    if m t == 0
    then update (update m s (m t)) (s + 1) 0
    else safestrcpy_loop k (s + 1) (t + 1) (update m s (m t))

pub safestrcpy : (s t : ℕ) → ℤ → Memory → Memory
safestrcpy s t (pos zero) m = m
safestrcpy s t (pos (suc n)) m = safestrcpy_loop n s t m
safestrcpy s t (negsuc n) m = m

-- `for(n = 0; s[n]; n++);` with fuel; `none` means that the fuel ran out.
pub strlen_loop : ℕ → (s n : ℕ) → Memory → Option ℕ
strlen_loop zero s n m = none
strlen_loop (suc f) s n m =
    let rest = strlen_loop f s (n + 1) m in if m (s + n) == 0 then some n else rest

pub strlen : (fuel s : ℕ) → Memory → Option ℕ
strlen fuel s m = strlen_loop fuel s 0 m
