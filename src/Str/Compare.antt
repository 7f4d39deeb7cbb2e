-- ===== src/Str/Compare.antt =====
-- memcmp and strncmp of xv6/string.c against equality of ranges and of C strings.
use a4team_os.Base.{
  ℕ, zero, suc, ◌+◌, ◌≡◌, refl, ◌↔◌, ◌==◌, if◌then◌else◌, arith, List, [], ◌∷◌, pos,
}
use a4team_os.Str.{Memory, memcmp, strncmp}

-- The characters of the C string at `a`: those before the first NUL, at most `n`.
unfoldable pub cstr : Memory → (a n : ℕ) → List ℕ
cstr m a zero = []
cstr m a (suc n) = if m a == 0 then [] else m a ∷ cstr m (a + 1) n

-- The `n` bytes at `a`.
unfoldable pub bytes : Memory → (a n : ℕ) → List ℕ
bytes m a zero = []
bytes m a (suc n) = m a ∷ bytes m (a + 1) n

-- `memcmp` answers 0 exactly when the two ranges of `n` bytes are equal.
memcmp_iff : (s1 s2 n : ℕ) (m : Memory) → (memcmp s1 s2 n m ≡ pos 0) ↔ (bytes m s1 n ≡ bytes m s2 n)
unfolding memcmp bytes
memcmp_iff s1 s2 zero m = (λ _. refl, λ _. refl)
memcmp_iff s1 s2 (suc n) m = ground (arith, memcmp_iff (s1 + 1) (s2 + 1) n m)

-- `strncmp` answers 0 exactly when the first `n` characters of the two C strings are equal.
strncmp_iff : (p q n : ℕ) (m : Memory) → (strncmp p q n m ≡ pos 0) ↔ (cstr m p n ≡ cstr m q n)
unfolding strncmp cstr
strncmp_iff p q zero m = (λ _. refl, λ _. refl)
strncmp_iff p q (suc n) m = ground (arith, strncmp_iff (p + 1) (q + 1) n m)
