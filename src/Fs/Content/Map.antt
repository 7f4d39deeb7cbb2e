-- ===== src/Fs/Content/Map.antt =====
-- bmap of xv6/fs.c finds the block of an offset, or gives the inode a new, zeroed one.
use a4team_os.Base.{
  ℕ, ◌+◌, ◌-◌, ◌≤◌, ◌<◌, ◌≡◌, refl, sym, ◌∙◌, ◌≢◌, ◌⊎◌, true, false, ◌==◌, ltb, arith, Option, none,
  some, Bool-cases, inl, inr,
}
use a4team_os.Fs.{Inode, Volume}
use a4team_os.Fs.Alloc.Blocks.{
  in_use, in_use_map, IsMap, Taken, Balloced, full, found, balloc-Balloced,
}
use a4team_os.Fs.Content.{or_balloc, set_addr, set_number, bmap_entry, bmap}
use a4team_os.Fs.Content.Slots.{slot, slot_of, IsMapped, set_addr-Filled, set_number-Filled}
use a4team_os.Fs.Content.Grown.{Grown, Grown-trans, fill-Grown, same-Grown}

-- At most one block of the disk is free.
abbrev pub OneLeft : Volume → Type 0
OneLeft v =
    (c c' : ℕ) → c < v.size → c' < v.size → in_use v c ≡ false → in_use v c' ≡ false → c ≡ c'

-- Every block of the disk is in use.
abbrev Full : Volume → Type 0
Full v = (c : ℕ) → c < v.size → in_use v c ≡ true

-- What `bmap` answers for the block `bn` of the content; `Lack` is how few blocks were free when it
-- failed.
pub data Bmapped (Lack : Type 0) (bn : ℕ) (ip : Inode) (v : Volume)
    : Option (ℕ × Inode × Volume) → Type 0 where
  failed : (140 ≤ bn) ⊎ ((slot ip v (slot_of bn) ≡ 0) × Lack) → Bmapped Lack bn ip v none
  mapped :
      {addr : ℕ} {ip' : Inode} {v' : Volume}
      → bn < 140
      → addr ≢ 0
      → slot ip' v' (slot_of bn) ≡ addr
      → Grown ip v ip' v'
      → Bmapped Lack bn ip v (some (addr, ip', v'))

-- `or_balloc` on a slot: the block that is there, or a new one.
data Got (addr : ℕ) (v : Volume) : Option (ℕ × Volume) → Type 0 where
  none_left : addr ≡ 0 → ((c : ℕ) → c < v.size → in_use v c ≡ true) → Got addr v none
  kept : addr ≢ 0 → Got addr v (some (addr, v))
  new :
      {b : ℕ} {v' : Volume}
      → addr ≡ 0
      → b < v.size
      → in_use v b ≡ false
      → Taken b v v'
      → Got addr v (some (b, v'))

new_of : {addr : ℕ} {v : Volume} {r : Option (ℕ × Volume)} → addr ≡ 0 → Balloced v r → Got addr v r
new_of e (full all) = none_left e all
new_of e (found b lt free before t) = new e lt free t

or_balloc-Got : (addr : ℕ) (v : Volume) → IsMap v → Got addr v (or_balloc addr v)
unfolding or_balloc
or_balloc-Got addr v m = elim (Bool-cases (addr == 0)) [
  | inl empty ↦ rw empty (new_of (ground arith) (balloc-Balloced v m))
  | inr there ↦ rw there (kept (ground arith))
]

-- Filling or keeping the slot of a direct block, or of the indirect block.
direct-Grown :
    (k : ℕ) (ip : Inode) (v : Volume) {addr : ℕ} {v' : Volume}
    → k < 13
    → IsMapped ip v
    → Got (ip.addrs k) v (some (addr, v'))
    → (addr ≢ 0) × ((set_addr ip k addr).addrs k ≡ addr) × Grown ip v (set_addr ip k addr) v'
unfolding slot set_addr
direct-Grown k ip v lk m (kept ne) = (
  ne,
  ground arith,
  same-Grown ip v (set_addr ip k (ip.addrs k)) v m (λ x. ground arith) m.map (λ c. refl)
      (λ c a. refl) (refl, refl, refl, refl, refl, refl, refl)
      (record { size = refl; ninodes = refl; dinode = refl }),
)
direct-Grown k ip v lk m (new {b} {v'} e lt free t) = (
  λ z. ground (arith, m.zero_used),
  ground arith,
  fill-Grown k b ip v v' (set_addr ip k b) v' m (ground arith) free t t.map (λ c. refl)
      (λ c a. refl) (record { size = refl; ninodes = refl; dinode = refl })
      (refl, refl, refl, refl, refl, refl, refl) (set_addr-Filled k b ip v v' m lk e free t),
)

-- The end of `bmap_entry`.
abbrev entered : Inode → (b j : ℕ) → Option (ℕ × Volume) → Option (ℕ × Inode × Volume)
entered ip b j none = none
entered ip b j (some (addr, v')) = some (addr, ip, set_number b j addr v')

entered-Bmapped :
    (ip : Inode) (bn : ℕ) (v : Volume)
    → IsMapped ip v
    → 12 ≤ bn
    → bn < 140
    → ip.addrs 12 ≢ 0
    → {r : Option (ℕ × Volume)} → Got (v.numbers (ip.addrs 12) (bn - 12)) v r
    → Bmapped (Full v) bn ip v (entered ip (ip.addrs 12) (bn - 12) r)
unfolding slot set_number
entered-Bmapped ip bn v m lo hi ne (none_left e all) = failed (inr (ground arith, all))
entered-Bmapped ip bn v m lo hi ne (kept there) =
    let addr = v.numbers (ip.addrs 12) (bn - 12) in
    mapped hi there (ground arith) (
      same-Grown ip v ip (set_number (ip.addrs 12) (bn - 12) addr v) m (λ x. ground arith) m.map
        (λ c. in_use_map v _ c refl) (λ c a. refl) (refl, refl, refl, refl, refl, refl, refl)
        (record { size = refl; ninodes = refl; dinode = refl }))
entered-Bmapped ip bn v m lo hi ne (new {b} {v'} e lt free t) =
    mapped hi (λ z. ground (arith, m.zero_used)) (ground arith)
      (fill-Grown (13 + (bn - 12)) b ip v v' ip (set_number (ip.addrs 12) (bn - 12) b v') m
        (ground arith) free t t.map (λ c. in_use_map v' _ c refl) (λ c a. refl)
        (record { size = refl; ninodes = refl; dinode = refl })
        (refl, refl, refl, refl, refl, refl, refl)
        (set_number-Filled (bn - 12) b ip v v' m (omega arith) ne free t))

Bmapped-Grown :
    (bn : ℕ) (ip : Inode) (v : Volume) (ip1 : Inode) (v1 : Volume)
    → IsMapped ip v
    → Grown ip v ip1 v1
    → (Full v1 → OneLeft v)
    → {r : Option (ℕ × Inode × Volume)} → Bmapped (Full v1) bn ip1 v1 r
    → Bmapped (OneLeft v) bn ip v r
Bmapped-Grown bn ip v ip1 v1 m g left (failed (inl big)) = failed (inl big)
Bmapped-Grown bn ip v ip1 v1 m g left (failed (inr (e, l))) = elim (Bool-cases (ltb bn 140)) [
  | inl lt ↦ failed (inr (ground (arith, g.slots (slot_of bn)), left l))
  | inr big ↦ failed (inl (ground arith))
]
Bmapped-Grown bn ip v ip1 v1 m g left (mapped lt ne at h) = mapped lt ne at (Grown-trans m g h)

-- The direct half of `bmap`.
abbrev direct : Inode → (k : ℕ) → Option (ℕ × Volume) → Option (ℕ × Inode × Volume)
direct ip k none = none
direct ip k (some (addr, v')) = some (addr, set_addr ip k addr, v')

direct-Bmapped :
    (bn : ℕ) (ip : Inode) (v : Volume)
    → bn < 12
    → IsMapped ip v
    → {r : Option (ℕ × Volume)} → Got (ip.addrs bn) v r
    → Bmapped (OneLeft v) bn ip v (direct ip bn r)
unfolding slot set_addr
direct-Bmapped bn ip v lo m (none_left e all) =
    failed (inr (ground arith, λ c c' lc lc' f f'. ground (arith, all c)))
direct-Bmapped bn ip v lo m (kept ne) =
    let (ne', at, g) = direct-Grown bn ip v (omega arith) m (kept ne) in
    mapped (omega arith) ne' (ground arith) g
direct-Bmapped bn ip v lo m (new e lt free t) =
    let (ne', at, g) = direct-Grown bn ip v (omega arith) m (new e lt free t) in
    mapped (omega arith) ne' (ground arith) g

-- The indirect half of `bmap`.
abbrev indirect : Inode → (bn : ℕ) → Option (ℕ × Volume) → Option (ℕ × Inode × Volume)
indirect ip bn none = none
indirect ip bn (some (b, v')) = bmap_entry (set_addr ip 12 b) b (bn - 12) v'

bmap_entry-Bmapped :
    (ip : Inode) (b bn : ℕ) (v : Volume)
    → IsMapped ip v
    → 12 ≤ bn
    → bn < 140
    → ip.addrs 12 ≡ b
    → b ≢ 0
    → Bmapped (Full v) bn ip v (bmap_entry ip b (bn - 12) v)
unfolding bmap_entry
bmap_entry-Bmapped ip b bn v m lo hi at ne = rw (← at) (
    entered-Bmapped ip bn v m lo hi (λ z. ne (sym at ∙ z))
      (or_balloc-Got (v.numbers (ip.addrs 12) (bn - 12)) v m.map))

indirect-Bmapped :
    (bn : ℕ) (ip : Inode) (v : Volume)
    → 12 ≤ bn
    → bn < 140
    → IsMapped ip v
    → {r : Option (ℕ × Volume)} → Got (ip.addrs 12) v r
    → Bmapped (OneLeft v) bn ip v (indirect ip bn r)
unfolding slot
indirect-Bmapped bn ip v lo hi m (none_left e all) =
    failed (inr (ground arith, λ c c' lc lc' f f'. ground (arith, all c)))
indirect-Bmapped bn ip v lo hi m (kept ne) =
    let (ne', at, g) = direct-Grown 12 ip v (omega arith) m (kept ne) in
    Bmapped-Grown bn ip v (set_addr ip 12 (ip.addrs 12)) v m g
      (λ all c c' lc lc' f f'. ground (arith, all c))
      (bmap_entry-Bmapped (set_addr ip 12 (ip.addrs 12)) (ip.addrs 12) bn v g.mapped lo hi at ne')
indirect-Bmapped bn ip v lo hi m (new {b} {v'} e lt free t) =
    let (ne', at, g) = direct-Grown 12 ip v (omega arith) m (new e lt free t) in
    Bmapped-Grown bn ip v (set_addr ip 12 b) v' m g
      (λ all c c' lc lc' f f'. ground (arith, all c, all c', t.used c, t.used c', t.rest.size))
      (bmap_entry-Bmapped (set_addr ip 12 b) b bn v' g.mapped lo hi at ne')

pub bmap-Bmapped :
    (ip : Inode) (bn : ℕ) (v : Volume) → IsMapped ip v → Bmapped (OneLeft v) bn ip v (bmap ip bn v)
unfolding bmap
bmap-Bmapped ip bn v m = elim (Bool-cases (ltb bn 12)) [
  | inl lo ↦ rw lo (direct-Bmapped bn ip v (ground arith) m (or_balloc-Got (ip.addrs bn) v m.map))
  | inr hi ↦ elim (Bool-cases (ltb (bn - 12) 128)) [
    | inl inside ↦
        rw (hi, inside)
          (indirect-Bmapped bn ip v (ground arith) (ground arith) m
            (or_balloc-Got (ip.addrs 12) v m.map))
    | inr out ↦ rw (hi, out) (failed (inl (ground arith)))
  ]
]
