-- ===== src/Fs/Content/Read.antt =====
-- readi of xv6/fs.c copies the bytes of the content, up to the size.
use a4team_os.Base.{
  ℕ, zero, suc, ◌+◌, ◌-◌, ◌/◌, ◌%◌, ◌^◌, ◌≤◌, ◌<◌, ◌≡◌, refl, ◌∙◌, ◌≢◌, ◌⊎◌, true, false, ◌&&◌,
  ◌||◌, ◌==◌, ltb, leb, if◌then◌else◌, arith, Option, none, some, ℤ, pos, negsuc, Bool-cases, inl,
  inr,
}
use a4team_os.Fs.{Inode, Volume, blit}
use a4team_os.Fs.Content.{chunk, readi_loop, readi_file}
use a4team_os.Fs.Content.Slots.{slot, slot_of, IsMapped}
use a4team_os.Fs.Content.Map.{Bmapped, failed, mapped, bmap-Bmapped}
use a4team_os.Fs.Content.Grown.{Grown, Grown-refl, Grown-trans}
use a4team_os.Fs.Content.Write.{byte_at, byte_at-Grown}

-- `dst'` is `dst` with `n` bytes of the content, from `off` on, at `tot`.
abbrev Copied : (tot n off : ℕ) → (dst dst' : ℕ → ℕ) → Inode → Volume → Type 0
Copied tot n off dst dst' ip v =
    (a : ℕ)
    → dst' a ≡ (if leb tot a && ltb a (tot + n) then byte_at ip v (off + (a - tot)) else dst a)

-- What the loop of `readi` answers: none only if the content lacks a block of the range, or the
-- bytes.
data Looped (tot n off : ℕ) (dst : ℕ → ℕ) (ip : Inode) (v : Volume)
    : Option ((ℕ → ℕ) × Inode × Volume) → Type 0 where
  stuck :
      (x : ℕ)
      → off ≤ x
      → x < off + n
      → slot ip v (slot_of (x / 512)) ≡ 0
      → Looped tot n off dst ip v none
  done :
      {dst' : ℕ → ℕ} {ip' : Inode} {v' : Volume}
      → Grown ip v ip' v'
      → Copied tot n off dst dst' ip v
      → Looped tot n off dst ip v (some (dst', ip', v'))

-- The bytes that one round copies, of the block of `off`.
round-Copied :
    (tot n off b : ℕ) (dst : ℕ → ℕ) (ip : Inode) (v : Volume) (ip1 : Inode) (v1 : Volume)
    → IsMapped ip v
    → Grown ip v ip1 v1
    → off + n ≤ 71680
    → n ≤ 512 - off % 512
    → b ≢ 0
    → slot ip1 v1 (slot_of (off / 512)) ≡ b
    → Copied tot n off dst (blit tot n (λ a. v1.bytes b (off % 512 + a)) dst) ip v
unfolding blit
round-Copied tot n off b dst ip v ip1 v1 m g fits small ne at a =
    elim (Bool-cases (leb tot a && ltb a (tot + n))) [
      | inr out ↦ rw out refl
      | inl here ↦
          let i = a - tot in
          let li : i < n = ground arith in
          let q : (off + i) / 512 ≡ off / 512 = omega arith in
          let r : (off + i) % 512 ≡ off % 512 + i = omega arith in
          rw here (byte_of i q r ∙ byte_at-Grown m g (off + i) (omega arith))
    ]
  where
    byte_of :
        (i : ℕ)
        → (off + i) / 512 ≡ off / 512
        → (off + i) % 512 ≡ off % 512 + i
        → v1.bytes b (off % 512 + i) ≡ byte_at ip1 v1 (off + i)
    byte_of i q r = unfold byte_at in rw (q, r, at) (ground arith)

next-Looped :
    (tot left n off : ℕ) (dst dst1 : ℕ → ℕ) {ip : Inode} {v : Volume} {ip1 : Inode} {v1 : Volume}
    → n ≤ left
    → off + left ≤ 71680
    → IsMapped ip v
    → Grown ip v ip1 v1
    → Copied tot n off dst dst1 ip v
    → {r : Option ((ℕ → ℕ) × Inode × Volume)} → Looped (tot + n) (left - n) (off + n) dst1 ip1 v1 r
    → Looped tot left off dst ip v r
next-Looped tot left n off dst dst1 {ip} {v} le fits m g c (stuck x lo hi e) =
    stuck x (omega arith) (omega arith) (ground (arith, g.slots (slot_of (x / 512))))
next-Looped tot left n off dst dst1 {ip} {v} {ip1} {v1} le fits m g c (done {dst'} h d) =
    done (Grown-trans m g h) whole
  where
    whole : Copied tot left off dst dst' ip v
    whole a = elim (Bool-cases (leb (tot + n) a && ltb a (tot + left))) [
      | inl late ↦
          let shift : off + n + (a - (tot + n)) ≡ off + (a - tot) = ground arith in
          let old = byte_at-Grown m g (off + (a - tot)) (ground arith) in
          let out : (leb (tot + n) a && ltb a (tot + n + (left - n))) ≡ true = ground arith in
          let whole_out : (leb tot a && ltb a (tot + left)) ≡ true = ground arith in
          rw whole_out (d a ∙ rw (out, shift) old)
      | inr early ↦
          let out : (leb (tot + n) a && ltb a (tot + n + (left - n))) ≡ false = ground arith in
          let same : (leb tot a && ltb a (tot + left)) ≡ (leb tot a && ltb a (tot + n)) =
            ground arith in
          rw same (d a ∙ rw out (c a))
    ]

-- A round of the loop after `bmap`.
abbrev after_bmap :
    ℕ
    → (tot left off : ℕ) → (ℕ → ℕ)
    → Option (ℕ × Inode × Volume)
    → Option ((ℕ → ℕ) × Inode × Volume)
after_bmap f tot left off dst none = none
after_bmap f tot left off dst (some (b, ip, v)) =
    let m = chunk left off in
    readi_loop f (tot + m) (left - m) (off + m) (blit tot m (λ a. v.bytes b (off % 512 + a)) dst) ip
      v

after_bmap-Looped :
    (f tot left off : ℕ) (dst : ℕ → ℕ) (ip : Inode) (v : Volume) {Lack : Type 0}
    → 0 < left
    → off + left ≤ 71680
    → IsMapped ip v
    → ((dst1 : ℕ → ℕ) (ip1 : Inode) (v1 : Volume)
        → IsMapped ip1 v1
        → let m = chunk left off in
          Looped
            (tot + m)
            (left - m)
            (off + m)
            dst1
            ip1
            v1
            (readi_loop f (tot + m) (left - m) (off + m) dst1 ip1 v1))
    → {r : Option (ℕ × Inode × Volume)} → Bmapped Lack (off / 512) ip v r
    → Looped tot left off dst ip v (after_bmap f tot left off dst r)
after_bmap-Looped f tot left off dst ip v some_left fits m rest (failed (inl big)) =
    absurd (omega arith)
after_bmap-Looped f tot left off dst ip v some_left fits m rest (failed (inr (e, l))) =
    stuck off (omega arith) (omega arith) e
after_bmap-Looped f tot left off dst ip v some_left fits m rest
      (mapped {addr = b} {ip' = ip1} {v' = v1} lt ne at g) =
    let n = chunk left off in
    let le : n ≤ left = ground arith in
    let small : n ≤ 512 - off % 512 = ground arith in
    let dst1 = blit tot n (λ a. v1.bytes b (off % 512 + a)) dst in
    next-Looped tot left n off dst dst1 le fits m g
      (round-Copied tot n off b dst ip v ip1 v1 m g (omega arith) small ne at)
      (rest dst1 ip1 v1 g.mapped)

empty-Looped :
    (tot n off : ℕ) (dst : ℕ → ℕ) (ip : Inode) (v : Volume)
    → n ≡ 0
    → IsMapped ip v
    → Looped tot n off dst ip v (some (dst, ip, v))
empty-Looped tot n off dst ip v e m = done (Grown-refl ip v m) (λ a. ground arith)

readi_loop-Looped :
    (f tot left off : ℕ) (dst : ℕ → ℕ) (ip : Inode) (v : Volume)
    → left ≤ f
    → off + left ≤ 71680
    → IsMapped ip v
    → Looped tot left off dst ip v (readi_loop f tot left off dst ip v)
unfolding readi_loop
readi_loop-Looped zero tot left off dst ip v lf fits m =
    empty-Looped tot left off dst ip v (omega arith) m
readi_loop-Looped (suc f) tot left off dst ip v lf fits m = elim (Bool-cases (left == 0)) [
  | inl e ↦ rw (e, readi_loop) (empty-Looped tot left off dst ip v (ground arith) m)
  | inr ne ↦
      rw (ne, readi_loop)
        (after_bmap-Looped f tot left off dst ip v (ground arith) fits m
          (λ dst1 ip1 v1 m1.
            readi_loop-Looped f (tot + chunk left off) (left - chunk left off)
              (off + chunk left off) dst1 ip1 v1 (ground arith) (ground arith) m1)
          (bmap-Bmapped ip (off / 512) v m))
]

-- What `readi` answers on a file for `n` bytes at `off`: -1, with nothing changed, if the range
-- starts behind the end or its end is no number of 32 bits; none only if the content lacks a block
-- of the range; or the bytes of the range below the size, and their number.
pub data Read (off n : ℕ) (dst : ℕ → ℕ) (ip : Inode) (v : Volume)
    : Option (ℤ × (ℕ → ℕ) × Inode × Volume) → Type 0 where
  refused : (ip.size < off) ⊎ (2 ^ 32 ≤ off + n) → Read off n dst ip v (some (negsuc 0, dst, ip, v))
  no_block :
      off ≤ ip.size
      → off + n < 2 ^ 32
      → (x : ℕ) → off ≤ x
      → x < ip.size
      → x < off + n
      → slot ip v (slot_of (x / 512)) ≡ 0
      → Read off n dst ip v none
  copied :
      {k : ℕ} {dst' : ℕ → ℕ} {ip' : Inode} {v' : Volume}
      → off ≤ ip.size
      → off + n < 2 ^ 32
      → k ≡ (if ltb ip.size (off + n) then ip.size - off else n)
      → ((a : ℕ) → dst' a ≡ (if ltb a k then byte_at ip v (off + a) else dst a))
      → Grown ip v ip' v'
      → Read off n dst ip v (some (pos k, dst', ip', v'))

-- The end of `readi` after its loop.
abbrev ended : (n : ℕ) → Option ((ℕ → ℕ) × Inode × Volume) → Option (ℤ × (ℕ → ℕ) × Inode × Volume)
ended n none = none
ended n (some (dst, ip, v)) = some (pos n, dst, ip, v)

ended-Read :
    (off n k : ℕ) (dst : ℕ → ℕ) (ip : Inode) (v : Volume)
    → off ≤ ip.size
    → off + n < 2 ^ 32
    → off + k ≤ ip.size
    → k ≡ (if ltb ip.size (off + n) then ip.size - off else n)
    → {r : Option ((ℕ → ℕ) × Inode × Volume)} → Looped 0 k off dst ip v r
    → Read off n dst ip v (ended k r)
ended-Read off n k dst ip v inside short fits e (stuck x lo hi z) =
    no_block inside short x lo (omega arith) (ground arith) z
ended-Read off n k dst ip v inside short fits e (done g c) =
    copied inside short e (λ a. ground (arith, c a)) g

-- For an inode with blocks of its own and a size within a file's bounds, and an offset and a count
-- of 32 bits, `readi` does what `Read` says. It answers -1 for a range that starts behind the end or
-- whose end is no number of 32 bits. It panics only if the content lacks a block of the range below
-- the size. Otherwise it copies the bytes of the content from the offset on, as many as
-- asked for but none behind the size, and changes no byte of the content.
pub readi_file-Read :
    (ip : Inode) (dst : ℕ → ℕ) (off n : ℕ) (v : Volume)
    → IsMapped ip v
    → ip.size ≤ 71680
    → off < 2 ^ 32
    → n < 2 ^ 32
    → Read off n dst ip v (readi_file ip dst off n v)
unfolding readi_file
readi_file-Read ip dst off n v m small lo ln =
    elim (Bool-cases (ltb ip.size off || ltb ((off + n) % 2 ^ 32) off)) [
      | inl out ↦ rw out (
          refused (elim (Bool-cases (ltb ip.size off)) [
            | inl behind ↦ inl (ground arith)
            | inr inside ↦ inr (ground arith)
          ]))
      | inr fits ↦
          let same : (off + n) % 2 ^ 32 ≡ off + n = ground arith in
          let k = if ltb ip.size ((off + n) % 2 ^ 32) then ip.size - off else n in
          rw fits (
            ended-Read off n k dst ip v (ground arith) (ground arith) (ground arith) (rw same refl)
              (readi_loop-Looped k 0 k off dst ip v (omega arith) (ground arith) m))
    ]
