-- ===== src/Fs/Content/Slots.antt =====
-- The block numbers of an inode of xv6/fs.c, direct and indirect, as one array of slots.
use a4team_os.Base.{
  ℕ, ◌+◌, ◌-◌, ◌<◌, ◌≡◌, ◌≢◌, true, false, ◌||◌, ◌==◌, ltb, if◌then◌else◌, update, arith,
}
use a4team_os.Fs.{Inode, Volume}
use a4team_os.Fs.Alloc.Blocks.{in_use, IsMap, Taken}
use a4team_os.Fs.Content.{set_addr, set_number}

-- Slots 0 to 11 are the direct blocks, 12 is the indirect block, and the others are its entries.
unfoldable pub slot : Inode → Volume → ℕ → ℕ
slot ip v k =
    if ltb k 13
    then ip.addrs k
    else if ip.addrs 12 == 0
    then 0
    else v.numbers (ip.addrs 12) (k - 13)

-- The slot of block `bn` of the content.
abbrev pub slot_of : ℕ → ℕ
slot_of bn = if ltb bn 12 then bn else bn + 1

-- The blocks of the inode are marked in the free map, no two slots share one, and block 0 is never
-- handed out.
pub record IsMapped (ip : Inode) (v : Volume) : Type 0 where
  pub map : IsMap v
  pub zero_used : in_use v 0 ≡ true
  pub marked : (k : ℕ) → k < 141 → slot ip v k ≢ 0 → in_use v (slot ip v k) ≡ true
  pub apart :
      (k k' : ℕ) → k < 141 → k' < 141 → slot ip v k ≢ 0 → slot ip v k ≡ slot ip v k' → k ≡ k'

-- The slot `k` was empty, and holds the new block `b`.
abbrev pub Filled : (k b : ℕ) → Inode → Volume → Inode → Volume → Type 0
Filled k b ip v ip' v' =
    (k' : ℕ) → k' < 141 → slot ip' v' k' ≡ (if k' == k then b else slot ip v k')

pub fill-IsMapped :
    (k b : ℕ) (ip : Inode) (v : Volume) (ip' : Inode) (v' : Volume)
    → IsMapped ip v
    → in_use v b ≡ false
    → IsMap v'
    → ((c : ℕ) → in_use v' c ≡ ((c == b) || in_use v c))
    → Filled k b ip v ip' v'
    → IsMapped ip' v'
fill-IsMapped k b ip v ip' v' m free map used f = record {
  map = map;
  zero_used = ground (arith, used 0, m.zero_used);
  marked = λ x lx ne. ground (arith, f x, used (slot ip' v' x), m.marked x);
  apart = λ x y lx ly ne e. ground (arith, f x, f y, m.apart x y, m.marked x, m.marked y);
}

-- Filling an empty direct slot, or the slot of the indirect block, with a block just taken.
pub set_addr-Filled :
    (k b : ℕ) (ip : Inode) (v v' : Volume)
    → IsMapped ip v
    → k < 13
    → ip.addrs k ≡ 0
    → in_use v b ≡ false
    → Taken b v v'
    → Filled k b ip v (set_addr ip k b) v'
unfolding slot set_addr
set_addr-Filled k b ip v v' m lt empty free t k' lk =
    ground (arith, m.zero_used, m.marked 12, t.numbers (update ip.addrs k b 12) (k' - 13))

-- Filling an empty entry of the indirect block.
pub set_number-Filled :
    (j b : ℕ) (ip : Inode) (v v' : Volume)
    → IsMapped ip v
    → j < 128
    → ip.addrs 12 ≢ 0
    → in_use v b ≡ false
    → Taken b v v'
    → Filled (13 + j) b ip v ip (set_number (ip.addrs 12) j b v')
unfolding slot set_number
set_number-Filled j b ip v v' m lt ind free t k' lk =
    ground (arith, m.marked 12, t.numbers (ip.addrs 12) (k' - 13))
