-- ===== src/Fs/Dir/Lookup.antt =====
-- dirlookup of xv6/fs.c finds the first entry of a directory with a name.
use a4team_os.Base.{ℕ, ◌+◌, ◌%◌, ◌/◌, ◌≤◌, ◌<◌, ◌≡◌, ◌≢◌, true, false, Option, none, some}
use a4team_os.Fs.{Inode, Volume}
use a4team_os.Fs.Content.Slots.{slot, slot_of}
use a4team_os.Fs.Content.Grown.{Grown}
use a4team_os.Fs.Cache.{Icache, is_cached, set_inode, iget}
use a4team_os.Fs.Cache.Get.{Unique}
use a4team_os.Fs.Dir.{is_dir, is_named, entry_inum}
use a4team_os.Fs.Dir.Scan.{entry_at}

-- What `dirlookup` answers for the directory in entry `dp` of the cache: none, if it is no
-- directory, or its entries do not fill its size, or a block is missing, or an entry has the name
-- and every other entry of the cache is in use; no
-- inode, if no entry has the name; or the inode of the first entry that has it.
pub data LookedUp (dp : ℕ) (name : ℕ → ℕ) (s : Icache)
    : Option (Option (ℕ × ℕ) × Icache) → Type 0 where
  not_dir : is_dir (s.inode dp).type ≡ false → LookedUp dp name s none
  not_entries : (s.inode dp).size % 16 ≢ 0 → LookedUp dp name s none
  no_block :
      (x : ℕ)
      → x < (s.inode dp).size
      → slot (s.inode dp) s.volume (slot_of (x / 512)) ≡ 0
      → LookedUp dp name s none
  no_slot :
      (at : ℕ)
      → at + 16 ≤ (s.inode dp).size
      → is_named name (entry_at (s.inode dp) s.volume at) ≡ true
      → ((k : ℕ) → k < 50 → k ≢ dp → (s.inode k).ref ≢ 0)
      → LookedUp dp name s none
  absent :
      {s' : Icache}
      → ((k : ℕ)
          → k % 16 ≡ 0
          → k + 16 ≤ (s.inode dp).size
          → is_named name (entry_at (s.inode dp) s.volume k) ≡ false)
      → Grown (s.inode dp) s.volume (s'.inode dp) s'.volume
      → ((j : ℕ) → j ≢ dp → s'.inode j ≡ s.inode j)
      → Unique s'.inode
      → LookedUp dp name s (some (none, s'))
  present :
      {at i : ℕ} {s' : Icache}
      → at % 16 ≡ 0
      → at + 16 ≤ (s.inode dp).size
      → is_named name (entry_at (s.inode dp) s.volume at) ≡ true
      → ((k : ℕ) → k % 16 ≡ 0 → k < at → is_named name (entry_at (s.inode dp) s.volume k) ≡ false)
      → is_cached (s.inode dp).dev_no (entry_inum (entry_at (s.inode dp) s.volume at)) (s'.inode i)
        ≡ true
      → (s'.inode i).ref ≡ (s.inode i).ref + 1
      → Unique s'.inode
      → LookedUp dp name s (some (some (at, i), s'))

-- Giving the entry `dp` an inode with the same number, device and references.
abbrev with_dir : (dp : ℕ) → Inode → Volume → Icache → Icache
with_dir dp ip v s = record (set_inode dp ip s) { volume = v }

-- `dirlookup` after its `iget`.
abbrev after_iget : (off : ℕ) → Option (ℕ × Icache) → Option (Option (ℕ × ℕ) × Icache)
after_iget off none = none
after_iget off (some (i, s)) = some (some (off, i), s)

-- `dirlookup` after its loop.
abbrev after_scan :
    (dp : ℕ)
    → Icache
    → Option (Option (ℕ × (ℕ → ℕ)) × Inode × Volume)
    → Option (Option (ℕ × ℕ) × Icache)
after_scan dp s none = none
after_scan dp s (some (none, ip', v')) = some (none, with_dir dp ip' v' s)
after_scan dp s (some (some (off, de), ip', v')) =
    after_iget off (iget (s.inode dp).dev_no (entry_inum de) (with_dir dp ip' v' s))
