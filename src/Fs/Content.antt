-- ===== src/Fs/Content.antt =====
-- The content of an inode in xv6/fs.c: bmap, itrunc, readi and writei.
pub mod Slots
pub mod Grown
pub mod Map
pub mod Write
pub mod WriteLoop
pub mod Writei
pub mod Read
pub mod Free
pub mod Trunc
use a4team_os.Base.{
  ℕ, zero, suc, ◌+◌, ◌-◌, ◌*◌, ◌/◌, ◌%◌, ◌^◌, Bool, true, false, not, ◌&&◌, ◌||◌, ◌==◌, ltb, leb,
  if◌then◌else◌, update, Option, none, some, ℤ, pos, negsuc,
}
use a4team_os.Proc.{for_each}
use a4team_os.Fs.{
  Inode, InodeType, nothing, dir, file, dev, Volume, bsize, ndirect, nindirect, blit, iupdate,
  Devsw,
}
use a4team_os.Fs.Alloc.{balloc, bfree}

-- `if((addr = ...) == 0) ... = addr = balloc(ip->dev);`
pub or_balloc : ℕ → Volume → Option (ℕ × Volume)
or_balloc addr v = if addr == 0 then balloc v else some (addr, v)

pub set_addr : Inode → (i addr : ℕ) → Inode
set_addr ip i addr = record ip { addrs = update ip.addrs i addr }

pub set_number : (b i addr : ℕ) → Volume → Volume
set_number b i addr v = record v { numbers = update v.numbers b (update (v.numbers b) i addr) }

-- The part of `bmap` for a block of the indirect block `b`.
pub bmap_entry : Inode → (b i : ℕ) → Volume → Option (ℕ × Inode × Volume)
unfolding or_balloc
bmap_entry ip b i v = elim (or_balloc (v.numbers b i) v) [
  | none ↦ none
  | some (addr, v') ↦ some (addr, ip, set_number b i addr v')
]

pub bmap : Inode → (bn : ℕ) → Volume → Option (ℕ × Inode × Volume)
unfolding or_balloc bmap_entry
bmap ip bn v =
    if ltb bn ndirect
    then elim (or_balloc (ip.addrs bn) v) [
      | none ↦ none
      | some (addr, v') ↦ some (addr, set_addr ip bn addr, v')
    ]
    else if ltb (bn - ndirect) nindirect
    then elim (or_balloc (ip.addrs ndirect) v) [
      | none ↦ none
      | some (b, v') ↦ bmap_entry (set_addr ip ndirect b) b (bn - ndirect) v'
    ]
    else none

-- The bodies of the two loops of `itrunc`.
pub free_direct : ℕ → Option (Inode × Volume) → Option (Inode × Volume)
free_direct i none = none
free_direct i (some (ip, v)) =
    if ip.addrs i == 0
    then some (ip, v)
    else elim (bfree (ip.addrs i) v) [ none ↦ none | some v' ↦ some (set_addr ip i 0, v') ]

pub free_entry : (b : ℕ) → ℕ → Option Volume → Option Volume
free_entry b j none = none
free_entry b j (some v) = if v.numbers b j == 0 then some v else bfree (v.numbers b j) v

-- The part of `itrunc` for the indirect block.
pub free_indirect : Inode → Volume → Option (Inode × Volume)
unfolding free_entry
free_indirect ip v =
    if ip.addrs ndirect == 0
    then some (ip, v)
    else elim (for_each nindirect 0 (free_entry (ip.addrs ndirect)) (some v)) [
      | none ↦ none
      | some v' ↦ elim (bfree (ip.addrs ndirect) v') [
        | none ↦ none
        | some v'' ↦ some (set_addr ip ndirect 0, v'')
      ]
    ]

pub itrunc : Inode → Volume → Option (Inode × Volume)
unfolding free_direct free_indirect iupdate
itrunc ip v = elim (for_each ndirect 0 free_direct (some (ip, v))) [
  | none ↦ none
  | some (ip', v') ↦ elim (free_indirect ip' v') [
    | none ↦ none
    | some (ip'', v'') ↦ let done = record ip'' { size = 0 } in some (done, iupdate done v'')
  ]
]

-- `min(n - tot, BSIZE - off%BSIZE)`
abbrev pub chunk : (left off : ℕ) → ℕ
chunk left off = if ltb left (bsize - off % bsize) then left else bsize - off % bsize

-- The loop of `readi`, with `left` bytes to read, from `tot` on in `dst`.
pub readi_loop :
    ℕ → (tot left off : ℕ) → (dst : ℕ → ℕ) → Inode → Volume → Option ((ℕ → ℕ) × Inode × Volume)
unfolding bmap blit
readi_loop zero tot left off dst ip v = some (dst, ip, v)
readi_loop (suc f) tot left off dst ip v = elim (left == 0) [
  | true ↦ some (dst, ip, v)
  | false ↦ elim (bmap ip (off / bsize) v) [
    | none ↦ none
    | some (b, ip', v') ↦
        let m = chunk left off in
        readi_loop f (tot + m) (left - m) (off + m)
          (blit tot m (λ a. v'.bytes b (off % bsize + a)) dst) ip' v'
  ]
]

pub put_bytes : (b at n : ℕ) (src : ℕ → ℕ) → Volume → Volume
unfolding blit
put_bytes b at n src v = record v { bytes = update v.bytes b (blit at n src (v.bytes b)) }

-- The loop of `writei`; the result has the offset at its end.
pub writei_loop :
    ℕ → (tot left off : ℕ) → (src : ℕ → ℕ) → Inode → Volume → Option (ℕ × Inode × Volume)
unfolding bmap put_bytes
writei_loop zero tot left off src ip v = some (off, ip, v)
writei_loop (suc f) tot left off src ip v = elim (left == 0) [
  | true ↦ some (off, ip, v)
  | false ↦ elim (bmap ip (off / bsize) v) [
    | none ↦ none
    | some (b, ip', v') ↦
        let m = chunk left off in
        writei_loop f (tot + m) (left - m) (off + m) src ip'
          (put_bytes b (off % bsize) m (λ a. src (tot + a)) v')
  ]
]

-- `MAXFILE*BSIZE`
abbrev pub max_bytes : ℕ
max_bytes = 71680

-- `readi` on a file or a directory. A round reads at least one byte, so `n` rounds are enough.
pub readi_file :
    Inode → (dst : ℕ → ℕ) → (off n : ℕ) → Volume → Option (ℤ × (ℕ → ℕ) × Inode × Volume)
unfolding readi_loop
readi_file ip dst off n v =
    if ltb ip.size off || ltb ((off + n) % 2 ^ 32) off
    then some (negsuc 0, dst, ip, v)
    else let n' = if ltb ip.size ((off + n) % 2 ^ 32) then ip.size - off else n in
      elim (readi_loop n' 0 n' off dst ip v) [
        | none ↦ none
        | some (dst', ip', v') ↦ some (pos n', dst', ip', v')
      ]

-- The end of `writei`.
pub grow : (n off : ℕ) → Inode → Volume → Inode × Volume
unfolding iupdate
grow n off ip v =
    if ltb 0 n && ltb ip.size off
    then (let ip' = record ip { size = off } in (ip', iupdate ip' v))
    else (ip, v)

-- `writei` on a file or a directory.
pub writei_file : Inode → (src : ℕ → ℕ) → (off n : ℕ) → Volume → Option (ℤ × Inode × Volume)
unfolding writei_loop grow
writei_file ip src off n v =
    if ltb ip.size off || ltb ((off + n) % 2 ^ 32) off || ltb max_bytes ((off + n) % 2 ^ 32)
    then some (negsuc 0, ip, v)
    else elim (writei_loop n 0 n off src ip v) [
      | none ↦ none
      | some (off', ip', v') ↦ let (ip'', v'') = grow n off' ip' v' in some (pos n, ip'', v'')
    ]

abbrev pub is_dev : InodeType → Bool
is_dev dev = true
is_dev _ = false

-- The driver that `major` names, if there is one; NDEV is 10.
abbrev pub driver {ℓ} : {D : Type ℓ} → ℤ → (ℕ → Option D) → Option D
driver (pos k) drivers = if leb 10 k then none else drivers k
driver (negsuc k) drivers = none

module _ {W : Type 0} (sw : Devsw W) where
  pub readi :
      Inode → (dst : ℕ → ℕ) → (off n : ℕ) → Volume → W → Option (ℤ × (ℕ → ℕ) × Inode × Volume × W)
  unfolding readi_file
  readi ip dst off n v w =
      if is_dev ip.type
      then elim (driver ip.major sw.read) [
        | none ↦ some (negsuc 0, dst, ip, v, w)
        | some f ↦ let (r, dst', w') = f n dst w in some (r, dst', ip, v, w')
      ]
      else elim (readi_file ip dst off n v) [
        | none ↦ none
        | some (r, dst', ip', v') ↦ some (r, dst', ip', v', w)
      ]

  pub writei : Inode → (src : ℕ → ℕ) → (off n : ℕ) → Volume → W → Option (ℤ × Inode × Volume × W)
  unfolding writei_file
  writei ip src off n v w =
      if is_dev ip.type
      then elim (driver ip.major sw.write) [
        | none ↦ some (negsuc 0, ip, v, w)
        | some f ↦ let (r, w') = f n src w in some (r, ip, v, w')
      ]
      else elim (writei_file ip src off n v) [
        | none ↦ none
        | some (r, ip', v') ↦ some (r, ip', v', w)
      ]
