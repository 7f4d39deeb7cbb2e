-- ===== src/Tests/Logs.antt =====
-- The theorems on the write-ahead log, at a small disk.
use a4team_os.Base.{
  ℕ, ◌≡◌, refl, false, ◌&&◌, ltb, if◌then◌else◌, arith, [], ◌∷◌, some, length, inr,
}
use a4team_os.Log.{Log, Disk, bread, commit, recover_from_log, restart}
use a4team_os.Log.Crash.{has, commit-recover}

-- Two blocks, 40 and 41, are to be committed to a log at block 2.
abbrev two_blocks : Log
two_blocks = record { start = 2; size = 30; outstanding = 1; committing = false; lh = 40 ∷ 41 ∷ [] }

-- The power lasts for four writes.
abbrev old_disk : Disk ℕ
old_disk = record { block = λ a. 0; head = []; dirty = λ a. some a; power = 4 }

commit-recover_example :
    let r = (recover_from_log two_blocks (restart 3 (commit two_blocks old_disk).1)).1 in
    (r.head ≡ [])
    × (r.block 41 ≡ (
        if has 41 two_blocks.lh && ltb (length two_blocks.lh) old_disk.power
        then bread old_disk 41
        else old_disk.block 41))
commit-recover_example =
    commit-recover two_blocks two_blocks old_disk 3 41 refl (λ e. cc) refl (λ a lo hi. ground arith)
      (omega arith) (inr (omega arith))
