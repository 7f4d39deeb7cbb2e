-- ===== src/Fs/Cache.antt =====
-- The inode cache of xv6/fs.c: ialloc, iget, idup, ilock, iunlock, iput and iunlockput.
-- An inode is the index of its cache entry. Each call runs without interference; one that panics,
-- or that would wait for an inode's lock, is `none`.
pub mod Get
pub mod Put
use a4team_os.Base.{
  ℕ, zero, suc, ◌+◌, ◌-◌, Bool, true, false, not, ◌&&◌, ◌||◌, ◌==◌, ltb, if◌then◌else◌, update,
  Option, none, some, pos,
}
use a4team_os.Proc.{find_from}
use a4team_os.Fs.{Inode, InodeType, nothing, dir, file, dev, Dinode, Volume, iupdate}
use a4team_os.Fs.Content.{itrunc}

abbrev pub ninode : ℕ
ninode = 50

-- `icache`, with the sleep lock of each inode (whether it is held, and `lk->pid`), the disk, and
-- `myproc()->pid` of the process that calls.
pub record Icache : Type 0 where
  pub inode : ℕ → Inode
  pub locked : ℕ → Bool
  pub owner : ℕ → ℕ
  pub caller : ℕ
  pub volume : Volume

abbrev pub is_nothing : InodeType → Bool
is_nothing nothing = true
is_nothing _ = false

-- The cache entry is that of inode `inum` on device `dev_no`.
unfoldable pub is_cached : (dev_no inum : ℕ) → Inode → Bool
is_cached dev_no inum ip = ltb 0 ip.ref && (ip.dev_no == dev_no) && (ip.inum == inum)

-- How the loop of `iget` ends: at the inode's entry, or with the empty slot it remembers.
pub data Slot : Type 0 where
  hit : (i : ℕ) → Slot
  miss : (empty : Option ℕ) → Slot

-- `if(empty == 0 && ip->ref == 0) empty = ip;`
pub remember : (inode : ℕ → Inode) (i : ℕ) → Option ℕ → Option ℕ
remember inode i none = if (inode i).ref == 0 then some i else none
remember inode i (some e) = some e

pub iget_loop : ℕ → (i : ℕ) → (empty : Option ℕ) → (dev_no inum : ℕ) → (ℕ → Inode) → Slot
unfolding is_cached remember
iget_loop zero i empty dev_no inum inode = miss empty
iget_loop (suc n) i empty dev_no inum inode =
    let rest = iget_loop n (i + 1) (remember inode i empty) dev_no inum inode in
    if is_cached dev_no inum (inode i) then hit i else rest

unfoldable pub set_inode : (i : ℕ) → Inode → Icache → Icache
set_inode i ip s = record s { inode = update s.inode i ip }

-- `iget` after its loop.
pub recycle : (dev_no inum : ℕ) → Slot → Icache → Option (ℕ × Icache)
unfolding set_inode
recycle dev_no inum (hit i) s =
    some (i, set_inode i (record (s.inode i) { ref = (s.inode i).ref + 1 }) s)
recycle dev_no inum (miss none) s = none
recycle dev_no inum (miss (some e)) s =
    some (
      e,
      set_inode e (record (s.inode e) { dev_no = dev_no; inum = inum; ref = 1; valid = false }) s,
    )

pub iget : (dev_no inum : ℕ) → Icache → Option (ℕ × Icache)
unfolding iget_loop recycle
iget dev_no inum s = recycle dev_no inum (iget_loop ninode 0 none dev_no inum s.inode) s

-- The inode on disk that `ialloc` writes.
abbrev pub blank : InodeType → Dinode
blank type = record {
  type = type;
  major = pos 0;
  minor = pos 0;
  nlink = 0;
  size = 0;
  addrs = λ i. 0;
}

pub ialloc : (dev_no : ℕ) → InodeType → Icache → Option (ℕ × Icache)
unfolding iget
ialloc dev_no type s =
    let v = s.volume in
    elim (find_from (v.ninodes - 1) 1 (λ i. is_nothing (v.dinode i).type)) [
      | none ↦ none
      | some inum ↦
          iget dev_no inum
            (record s { volume = record v { dinode = update v.dinode inum (blank type) } })
    ]

pub idup : (i : ℕ) → Icache → ℕ × Icache
unfolding set_inode
idup i s = (i, set_inode i (record (s.inode i) { ref = (s.inode i).ref + 1 }) s)

-- The fields that `ilock` reads from the disk.
abbrev pub load : Dinode → Inode → Inode
load d ip = record ip {
  valid = true;
  type = d.type;
  major = d.major;
  minor = d.minor;
  nlink = d.nlink;
  size = d.size;
  addrs = d.addrs;
}

-- `acquiresleep(&ip->lock)` and `releasesleep(&ip->lock)`
pub lock_inode : (i : ℕ) → Icache → Option Icache
lock_inode i s =
    if s.locked i
    then none
    else some (record s { locked = update s.locked i true; owner = update s.owner i s.caller })

pub unlock_inode : (i : ℕ) → Icache → Icache
unlock_inode i s = record s { locked = update s.locked i false; owner = update s.owner i 0 }

-- `ilock` with the lock held.
pub load_inode : (i : ℕ) → Icache → Option Icache
unfolding set_inode
load_inode i s =
    let ip = s.inode i in
    let d = s.volume.dinode ip.inum in
    if ip.valid
    then some s
    else if is_nothing d.type
    then none
    else some (set_inode i (load d ip) s)

pub ilock : (i : ℕ) → Icache → Option Icache
unfolding lock_inode load_inode
ilock i s =
    if ltb (s.inode i).ref 1
    then none
    else elim (lock_inode i s) [ none ↦ none | some s' ↦ load_inode i s' ]

pub iunlock : (i : ℕ) → Icache → Option Icache
unfolding unlock_inode
iunlock i s =
    if not (s.locked i && (s.owner i == s.caller)) || ltb (s.inode i).ref 1
    then none
    else some (unlock_inode i s)

-- The part of `iput` that frees an inode with no links and no other references.
pub free_inode : (i : ℕ) → Icache → Option Icache
unfolding set_inode
free_inode i s =
    let ip = s.inode i in
    if ip.valid && (ip.nlink == 0) && (ip.ref == 1)
    then elim (itrunc ip s.volume) [
      | none ↦ none
      | some (ip', v) ↦
          let gone = record ip' { type = nothing } in
          some (record (set_inode i (record gone { valid = false }) s) { volume = iupdate gone v })
    ]
    else some s

-- `ip->ref--`
pub drop_ref : (i : ℕ) → Icache → Icache
unfolding set_inode
drop_ref i s = set_inode i (record (s.inode i) { ref = (s.inode i).ref - 1 }) s

pub iput : (i : ℕ) → Icache → Option Icache
unfolding lock_inode free_inode unlock_inode drop_ref
iput i s = elim (lock_inode i s) [
  | none ↦ none
  | some s1 ↦ elim (free_inode i s1) [
    | none ↦ none
    | some s2 ↦ some (drop_ref i (unlock_inode i s2))
  ]
]

pub iunlockput : (i : ℕ) → Icache → Option Icache
unfolding iunlock iput
iunlockput i s = elim (iunlock i s) [ none ↦ none | some s' ↦ iput i s' ]
