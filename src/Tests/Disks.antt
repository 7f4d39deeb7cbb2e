-- ===== src/Tests/Disks.antt =====
-- The theorems on the file system, at a small disk.
use a4team_os.Base.{ℕ, ◌≡◌, refl, true, false, ◌==◌, if◌then◌else◌, arith, pos}
use a4team_os.Fs.{Inode, file, dir, Volume}
use a4team_os.Fs.Alloc.{bit_clear, is_clear, balloc}
use a4team_os.Fs.Alloc.Blocks.{in_use, IsMap, Balloced, balloc-Balloced}
use a4team_os.Fs.Content.{itrunc, readi_file}
use a4team_os.Fs.Content.Slots.{slot, IsMapped}
use a4team_os.Fs.Content.Read.{Read, readi_file-Read}
use a4team_os.Fs.Content.Trunc.{Truncated, itrunc-Truncated}
use a4team_os.Fs.Cache.{Icache, is_cached, iget, iput}
use a4team_os.Fs.Cache.Get.{Unique, IsGot, iget-IsGot}
use a4team_os.Fs.Cache.Put.{IsPut, iput-IsPut}

-- Ten blocks, of which the first five are in use; block 4 holds one entry of a directory, inode 7
-- with the name `a`.
abbrev small_disk : Volume
small_disk = record {
  size = 10;
  ninodes = 9;
  free_map = λ i j. if j == 0 then 31 else 0;
  dinode = λ i. record {
    type = file;
    major = pos 0;
    minor = pos 0;
    nlink = 1;
    size = 0;
    addrs = λ k. 0;
  };
  bytes = λ b a. if b == 4 then (if a == 0 then 7 else if a == 2 then 97 else 0) else 0;
  numbers = λ b j. 0;
}

-- A directory of one entry, in block 4.
abbrev one_entry : Inode
one_entry = record {
  dev_no = 1;
  inum = 1;
  ref = 1;
  valid = true;
  type = dir;
  major = pos 0;
  minor = pos 0;
  nlink = 1;
  size = 16;
  addrs = λ k. if k == 0 then 4 else 0;
}

small_disk-IsMap : IsMap small_disk
small_disk-IsMap i j = ground arith

used_0 : in_use small_disk 0 ≡ true
unfolding in_use is_clear bit_clear
used_0 = refl

used_4 : in_use small_disk 4 ≡ true
unfolding in_use is_clear bit_clear
used_4 = refl

one_entry-IsMapped : IsMapped one_entry small_disk
unfolding slot
one_entry-IsMapped = record {
  map = small_disk-IsMap;
  zero_used = used_0;
  marked = λ k lk ne. ground (arith, used_4);
  apart = λ k k' lk lk' ne e. ground arith;
}

-- The directory is in entry 0 of the cache, and all others are free.
abbrev one_cached : Icache
one_cached = record {
  inode = λ i. if i == 0 then one_entry else record one_entry { ref = 0 };
  locked = λ i. false;
  owner = λ i. 0;
  caller = 1;
  volume = small_disk;
}

one_cached-Unique : Unique one_cached.inode
unfolding is_cached
one_cached-Unique i j li lj used same = ground arith

balloc-Balloced_example : Balloced small_disk (balloc small_disk)
balloc-Balloced_example = balloc-Balloced small_disk small_disk-IsMap

readi_file-Read_example :
    Read 2 30 (λ a. 0) one_entry small_disk (readi_file one_entry (λ a. 0) 2 30 small_disk)
readi_file-Read_example =
    readi_file-Read one_entry (λ a. 0) 2 30 small_disk one_entry-IsMapped (omega arith)
      (omega arith) (omega arith)

itrunc-Truncated_example : Truncated one_entry small_disk (itrunc one_entry small_disk)
itrunc-Truncated_example = itrunc-Truncated one_entry small_disk one_entry-IsMapped

iget-IsGot_example : IsGot 1 7 one_cached (iget 1 7 one_cached)
iget-IsGot_example = iget-IsGot 1 7 one_cached one_cached-Unique

iput-IsPut_example : IsPut 0 one_cached (iput 0 one_cached)
iput-IsPut_example = iput-IsPut 0 one_cached one_entry-IsMapped

-- The name `a`.
abbrev name_a : ℕ → ℕ
name_a i = if i == 0 then 97 else 0
