-- ===== src/Fs/Content/Writei.antt =====
-- writei of xv6/fs.c: its bounds, and what it does to the size.
use a4team_os.Base.{
  ℕ, ◌+◌, ◌-◌, ◌/◌, ◌≤◌, ◌<◌, ◌≡◌, ◌≢◌, ◌⊎◌, true, ◌&&◌, ltb, leb, if◌then◌else◌, Option, none,
  some, ℤ, pos, negsuc,
}
use a4team_os.Fs.{Inode, Volume}
use a4team_os.Fs.Alloc.Blocks.{in_use}
use a4team_os.Fs.Content.{grow}
use a4team_os.Fs.Content.Slots.{slot, slot_of, IsMapped}
use a4team_os.Fs.Content.Write.{byte_at}

-- What `writei` answers on a file for `n` bytes at `off`: -1, with nothing changed, if the range
-- starts behind the end or does not fit a file; none only if the content lacks a block of the
-- range; or the state with the bytes written and the size grown to cover them.
pub data Written (off n : ℕ) (src : ℕ → ℕ) (ip : Inode) (v : Volume)
    : Option (ℤ × Inode × Volume) → Type 0 where
  refused : (ip.size < off) ⊎ (71680 < off + n) → Written off n src ip v (some (negsuc 0, ip, v))
  no_block :
      off ≤ ip.size
      → off + n ≤ 71680
      → (x : ℕ) → off ≤ x
      → x < off + n
      → slot ip v (slot_of (x / 512)) ≡ 0
      → Written off n src ip v none
  written :
      {ip' : Inode} {v' : Volume}
      → off ≤ ip.size
      → off + n ≤ 71680
      → IsMapped ip' v'
      → ((x : ℕ)
          → x < 71680
          → byte_at ip' v' x
            ≡ (if leb off x && ltb x (off + n) then src (x - off) else byte_at ip v x))
      → ip'.size ≡ (if ltb ip.size (off + n) then off + n else ip.size)
      → (ip.size < off + n
          → ((v'.dinode ip.inum).size ≡ off + n) × ((v'.dinode ip.inum).addrs ≡ ip'.addrs))
      → ((i : ℕ) → i ≢ ip.inum → v'.dinode i ≡ v.dinode i)
      → ((c a : ℕ)
          → in_use v c ≡ true
          → ((k : ℕ) → k < 141 → slot ip v k ≢ c)
          → v'.bytes c a ≡ v.bytes c a)
      → Written off n src ip v (some (pos n, ip', v'))

-- The end of `writei` after its loop.
abbrev ended : (n : ℕ) → Option (ℕ × Inode × Volume) → Option (ℤ × Inode × Volume)
ended n none = none
ended n (some (off', ip', v')) = let (ip'', v'') = grow n off' ip' v' in some (pos n, ip'', v'')
