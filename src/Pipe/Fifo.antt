-- ===== src/Pipe/Fifo.antt =====
-- A valid pipe is a queue of at most 512 bytes.
use a4team_os.Base.{
  ℕ, zero, suc, ◌+◌, ◌-◌, ◌%◌, ◌≤◌, ◌<◌, ◌≡◌, refl, ap, ◌↔◌, Bool, true, false, update, arith, List,
  [], ◌∷◌, ◌++◌, length,
}
use a4team_os.Pipe.{pipe_size, uint_mod, Pipe, fresh, is_full, is_empty, put, get}

-- The number of bytes in the pipe, by 32-bit subtraction.
abbrev pub count : Pipe → ℕ
count p = (p.nwrite + uint_mod - p.nread) % uint_mod

pub record IsValid (p : Pipe) : Type 0 where
  pub read_fits : p.nread < uint_mod
  pub write_fits : p.nwrite < uint_mod
  pub bounded : count p ≤ pipe_size

-- The `n` bytes from the counter value `r` on.
pub window : (ℕ → ℕ) → (r n : ℕ) → List ℕ
window buf r zero = []
window buf r (suc n) = buf (r % pipe_size) ∷ window buf ((r + 1) % uint_mod) n

-- The bytes in the pipe, oldest first.
pub contents : Pipe → List ℕ
unfolding window
contents p = window p.buf p.nread (count p)

length-window : (buf : ℕ → ℕ) (r n : ℕ) → length (window buf r n) ≡ n
unfolding window
length-window buf r zero = refl
length-window buf r (suc n) = ap suc (length-window buf ((r + 1) % uint_mod) n)

pub length-contents : (p : Pipe) → length (contents p) ≡ count p
unfolding contents
length-contents p = length-window p.buf p.nread (count p)

window-update :
    (buf : ℕ → ℕ) (n r w c : ℕ)
    → r < uint_mod
    → n < pipe_size
    → w ≡ (r + n) % uint_mod
    → window (update buf (w % pipe_size) c) r (suc n) ≡ window buf r n ++ (c ∷ [])
unfolding window
window-update buf zero r w c hr hn e = ground arith
window-update buf (suc n) r w c hr hn e =
    ground (arith, window-update buf n ((r + 1) % uint_mod) w c)

pub fresh-IsValid : (junk : ℕ → ℕ) → IsValid (fresh junk)
unfolding fresh
fresh-IsValid junk = omega arith

pub contents-fresh : (junk : ℕ → ℕ) → contents (fresh junk) ≡ []
unfolding contents fresh
contents-fresh junk = refl

-- The test for a full pipe compares counters for equality; on a valid pipe it says exactly that
-- 512 bytes are in it, also after the counters have wrapped.
pub is_full_iff : {p : Pipe} → IsValid p → (is_full p ≡ true) ↔ (length (contents p) ≡ 512)
unfolding is_full
is_full_iff {p} v = ground (arith, length-contents p)

pub is_empty_iff : {p : Pipe} → IsValid p → (is_empty p ≡ true) ↔ (count p ≡ 0)
unfolding is_empty
is_empty_iff {p} v = ground arith

pub put-IsValid : {p : Pipe} (c : ℕ) → IsValid p → is_full p ≡ false → IsValid (put p c)
unfolding is_full put
put-IsValid c v h = ground arith

pub contents-put :
    {p : Pipe} (c : ℕ) → IsValid p → is_full p ≡ false → contents (put p c) ≡ contents p ++ (c ∷ [])
unfolding is_full put contents
contents-put {p} c v h =
    let e : (((p.nwrite + 1) % uint_mod + uint_mod - p.nread) % uint_mod) ≡ suc (count p) =
      ground arith in
    rw e
      (window-update p.buf (count p) p.nread p.nwrite c v.read_fits (ground arith) (ground arith))

pub get-IsValid : {p : Pipe} → IsValid p → is_empty p ≡ false → IsValid (get p).1
unfolding is_empty get
get-IsValid v h = ground arith

pub contents-get :
    {p : Pipe} → IsValid p → is_empty p ≡ false → contents p ≡ (get p).0 ∷ contents (get p).1
unfolding is_empty get contents
contents-get {p} v h =
    let e : count p ≡ suc ((p.nwrite + uint_mod - (p.nread + 1) % uint_mod) % uint_mod) =
      ground arith in
    rw e refl

pub contents-flags :
    (p : Pipe) (r w : Bool) → contents (record p { readopen = r; writeopen = w }) ≡ contents p
unfolding contents
contents-flags p r w = refl
