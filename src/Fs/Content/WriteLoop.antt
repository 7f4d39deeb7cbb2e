-- ===== src/Fs/Content/WriteLoop.antt =====
-- The loop of writei of xv6/fs.c.
use a4team_os.Base.{
  ℕ, zero, suc, ◌+◌, ◌-◌, ◌/◌, ◌%◌, ◌≤◌, ◌<◌, ◌≡◌, refl, ap, ◌==◌, arith, Option, none, some,
  Bool-cases, inl, inr,
}
use a4team_os.Fs.{Inode, Volume}
use a4team_os.Fs.Content.{chunk, put_bytes, writei_loop}
use a4team_os.Fs.Content.Slots.{slot, slot_of, IsMapped}
use a4team_os.Fs.Content.Map.{Bmapped, failed, mapped, bmap-Bmapped}
use a4team_os.Fs.Content.Write.{Wrote, round-Wrote, Wrote_trans}

-- What the loop of `writei` answers for `n` bytes at `off`: none only if the content has no block
-- for some offset of the range, or the state with the bytes written.
pub data Looped (off n : ℕ) (src : ℕ → ℕ) (ip : Inode) (v : Volume)
    : Option (ℕ × Inode × Volume) → Type 0 where
  stuck :
      (x : ℕ)
      → off ≤ x
      → x < off + n
      → slot ip v (slot_of (x / 512)) ≡ 0
      → Looped off n src ip v none
  done :
      {ip' : Inode} {v' : Volume}
      → Wrote off (off + n) src ip v ip' v'
      → Looped off n src ip v (some (off + n, ip', v'))

Wrote_none :
    (off : ℕ) (src : ℕ → ℕ) (ip : Inode) (v : Volume)
    → IsMapped ip v
    → Wrote off (off + 0) src ip v ip v
Wrote_none off src ip v m = record {
  mapped = m;
  content = λ x lx. ground arith;
  owned = λ k lk ne. refl;
  others = λ c a u own. refl;
  used = λ c u. u;
  new = λ k lk e ne. absurd (ne e);
  meta = (refl, refl, refl, refl, refl, refl, refl);
  rest = record { size = refl; ninodes = refl; dinode = refl };
}

next-Looped :
    (tot left off n : ℕ) (src : ℕ → ℕ)
    → n ≤ left
    → {ip : Inode} {v : Volume} {ip1 : Inode} {v1 : Volume}
    → Wrote off (off + n) (λ i. src (tot + i)) ip v ip1 v1
    → off + left ≤ 71680
    → {r : Option (ℕ × Inode × Volume)}
    → Looped (off + n) (left - n) (λ i. src (tot + n + i)) ip1 v1 r
    → Looped off left (λ i. src (tot + i)) ip v r
next-Looped tot left off n src le {ip} {v} {ip1} {v1} w fits (stuck x lo hi e) =
    stuck x (omega arith) (omega arith) (ground (arith, w.owned (slot_of (x / 512))))
next-Looped tot left off n src le {ip} {v} {ip1} {v1} w fits (done {ip'} {v'} x) =
    let e : off + n + (left - n) ≡ off + left = omega arith in
    rw e (
      done (
        Wrote_trans off (off + n) (off + left) (λ i. src (tot + i)) (λ i. src (tot + n + i))
          (omega arith) (omega arith) (λ i. ap src (omega arith)) w (rw e at x)))

done_at :
    (off off' n : ℕ) (src : ℕ → ℕ) {ip : Inode} {v : Volume} {ip' : Inode} {v' : Volume}
    → off' ≡ off + n
    → Wrote off (off + n) src ip v ip' v'
    → Looped off n src ip v (some (off', ip', v'))
done_at off off' n src e w = rw e (done w)

empty-Looped :
    (off n : ℕ) (src : ℕ → ℕ) (ip : Inode) (v : Volume)
    → n ≡ 0
    → IsMapped ip v
    → Looped off n src ip v (some (off, ip, v))
empty-Looped off n src ip v e m =
    done_at off off n src (omega arith) (rw e (Wrote_none off src ip v m))

-- A round of the loop after `bmap`.
abbrev after_bmap :
    ℕ → (tot left off : ℕ) → (ℕ → ℕ) → Option (ℕ × Inode × Volume) → Option (ℕ × Inode × Volume)
after_bmap f tot left off src none = none
after_bmap f tot left off src (some (b, ip, v)) =
    let m = chunk left off in
    writei_loop f (tot + m) (left - m) (off + m) src ip
      (put_bytes b (off % 512) m (λ a. src (tot + a)) v)

after_bmap-Looped :
    (f tot left off : ℕ) (src : ℕ → ℕ) (ip : Inode) (v : Volume) {Lack : Type 0}
    → 0 < left
    → off + left ≤ 71680
    → IsMapped ip v
    → ((ip1 : Inode) (v1 : Volume)
        → IsMapped ip1 v1
        → let m = chunk left off in
          Looped
            (off + m)
            (left - m)
            (λ i. src (tot + m + i))
            ip1
            v1
            (writei_loop f (tot + m) (left - m) (off + m) src ip1 v1))
    → {r : Option (ℕ × Inode × Volume)} → Bmapped Lack (off / 512) ip v r
    → Looped off left (λ i. src (tot + i)) ip v (after_bmap f tot left off src r)
after_bmap-Looped f tot left off src ip v some_left fits m rest (failed (inl big)) =
    absurd (omega arith)
after_bmap-Looped f tot left off src ip v some_left fits m rest (failed (inr (e, l))) =
    stuck off (omega arith) (omega arith) e
after_bmap-Looped f tot left off src ip v some_left fits m rest
      (mapped {addr = b} {ip' = ip1} {v' = v1} lt ne at g) =
    let n = chunk left off in
    let le : n ≤ left = ground arith in
    let small : n ≤ 512 - off % 512 = ground arith in
    let w = round-Wrote ip v ip1 v1 off n b (λ a. src (tot + a)) m ne (omega arith) at small g in
    next-Looped tot left off n src le w fits
      (rest ip1 (put_bytes b (off % 512) n (λ a. src (tot + a)) v1) w.mapped)

pub writei_loop-Looped :
    (f tot left off : ℕ) (src : ℕ → ℕ) (ip : Inode) (v : Volume)
    → left ≤ f
    → off + left ≤ 71680
    → IsMapped ip v
    → Looped off left (λ i. src (tot + i)) ip v (writei_loop f tot left off src ip v)
unfolding writei_loop
writei_loop-Looped zero tot left off src ip v lf fits m =
    empty-Looped off left (λ i. src (tot + i)) ip v (omega arith) m
writei_loop-Looped (suc f) tot left off src ip v lf fits m = elim (Bool-cases (left == 0)) [
  | inl e ↦ rw (e, writei_loop) (empty-Looped off left (λ i. src (tot + i)) ip v (ground arith) m)
  | inr ne ↦
      rw (ne, writei_loop)
        (after_bmap-Looped f tot left off src ip v (ground arith) fits m
          (λ ip1 v1 m1.
            writei_loop-Looped f (tot + chunk left off) (left - chunk left off)
              (off + chunk left off) src ip1 v1 (ground arith) (ground arith) m1)
          (bmap-Bmapped ip (off / 512) v m))
]
