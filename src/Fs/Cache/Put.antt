-- ===== src/Fs/Cache/Put.antt =====
-- iput of xv6/fs.c frees an inode with its last reference, if it has no links.
use a4team_os.Base.{
  ℕ, ◌-◌, ◌<◌, ◌≡◌, refl, ◌∙◌, ◌≢◌, Bool, true, false, ◌&&◌, ◌==◌, update, arith, Option, none,
  some, Bool-cases, Option-cases, inl, inr,
}
use a4team_os.Fs.{Inode, nothing, Volume, iupdate}
use a4team_os.Fs.Alloc.Blocks.{in_use, in_use_map}
use a4team_os.Fs.Content.{itrunc}
use a4team_os.Fs.Content.Slots.{slot, IsMapped}
use a4team_os.Fs.Content.Trunc.{Truncated, truncated, itrunc-Truncated}
use a4team_os.Fs.Cache.{Icache, set_inode, lock_inode, unlock_inode, free_inode, drop_ref, iput}

-- The inode has no links, and its only reference is the one given up.
abbrev pub is_removed : Inode → Bool
is_removed ip = ip.valid && (ip.nlink == 0) && (ip.ref == 1)

-- What `iput` answers: none, if it waits for the lock; the state with one reference less; or, for
-- the last reference of an inode with no links, the state with the inode and its blocks free.
pub data IsPut (i : ℕ) (s : Icache) : Option Icache → Type 0 where
  waits : s.locked i ≡ true → IsPut i s none
  dropped :
      {s' : Icache}
      → s.locked i ≡ false
      → is_removed (s.inode i) ≡ false
      → s'.inode i ≡ record (s.inode i) { ref = (s.inode i).ref - 1 }
      → ((j : ℕ) → j ≢ i → s'.inode j ≡ s.inode j)
      → ((j : ℕ) → s'.locked j ≡ s.locked j)
      → ((j : ℕ) → j ≢ i → s'.owner j ≡ s.owner j)
      → s'.volume ≡ s.volume
      → IsPut i s (some s')
  removed :
      {s' : Icache}
      → s.locked i ≡ false
      → is_removed (s.inode i) ≡ true
      → ((s'.inode i).ref ≡ 0) × ((s'.inode i).valid ≡ false)
      → ((j : ℕ) → j ≢ i → s'.inode j ≡ s.inode j)
      → ((j : ℕ) → s'.locked j ≡ s.locked j)
      → ((j : ℕ) → j ≢ i → s'.owner j ≡ s.owner j)
      → (s'.volume.dinode (s.inode i).inum).type ≡ nothing
      → ((k : ℕ) → k ≢ (s.inode i).inum → s'.volume.dinode k ≡ s.volume.dinode k)
      → ((k : ℕ)
          → k < 141
          → slot (s.inode i) s.volume k ≢ 0
          → in_use s'.volume (slot (s.inode i) s.volume k) ≡ false)
      → ((c : ℕ)
          → ((k : ℕ) → k < 141 → slot (s.inode i) s.volume k ≢ 0 → slot (s.inode i) s.volume k ≢ c)
          → in_use s'.volume c ≡ in_use s.volume c)
      → IsPut i s (some s')

-- The end of `iput` after `itrunc`.
abbrev after_trunc : (i : ℕ) → Icache → Option (Inode × Volume) → Option Icache
after_trunc i s none = none
after_trunc i s (some (ip, v)) =
    let gone : Inode = record ip { type = nothing } in
    some (
      drop_ref i (
        unlock_inode i
          (record (set_inode i (record gone { valid = false }) s) { volume = iupdate gone v })))

after_trunc-IsPut :
    (i : ℕ) (s : Icache)
    → s.locked i ≡ false
    → is_removed (s.inode i) ≡ true
    → {r : Option (Inode × Volume)} → Truncated (s.inode i) s.volume r
    → IsPut i s (
        after_trunc i
          (record s { locked = update s.locked i true; owner = update s.owner i s.caller })
          r)
unfolding drop_ref unlock_inode set_inode iupdate
after_trunc-IsPut i s free last
      (truncated {ip'} {v'} addrs size inum nlink type
        (dev_no, ref)
        map
        out
        kept
        bytes
        here
        others) =
    removed free last (ground arith, ground arith) (λ j ne. ground arith) (λ j. ground arith)
      (λ j ne. ground arith) (ground arith) (λ k ne. others_of k ne)
      (λ k lk ne. in_use_map v' _ (slot (s.inode i) s.volume k) refl ∙ out k lk ne)
      (λ c apart. in_use_map v' _ c refl ∙ kept c apart)
  where
    others_of :
        (k : ℕ)
        → k ≢ (s.inode i).inum
        → (iupdate (record ip' { type = nothing }) v').dinode k ≡ s.volume.dinode k
    others_of k ne = unfold iupdate in ground (arith, others k)

dropped-IsPut :
    (i : ℕ) (s : Icache)
    → s.locked i ≡ false
    → is_removed (s.inode i) ≡ false
    → IsPut i s (
        some (
          drop_ref i (
            unlock_inode i
              (record s { locked = update s.locked i true; owner = update s.owner i s.caller }))))
unfolding drop_ref unlock_inode set_inode
dropped-IsPut i s free more =
    dropped free more (ground arith) (λ j ne. ground arith) (λ j. ground arith)
      (λ j ne. ground arith) refl

-- The end of `iput` after `free_inode`.
abbrev ended : (i : ℕ) → Option Icache → Option Icache
ended i none = none
ended i (some s) = some (drop_ref i (unlock_inode i s))

free_inode_last :
    (i : ℕ) (s : Icache)
    → is_removed (s.inode i) ≡ true
    → ended i (free_inode i s) ≡ after_trunc i s (itrunc (s.inode i) s.volume)
unfolding free_inode
free_inode_last i s last = elim (Option-cases (itrunc (s.inode i) s.volume)) [
  | inl e ↦ rw (last, e, free_inode) refl
  | inr ((ip, v), e) ↦ rw (last, e, free_inode) refl
]

free_inode_more : (i : ℕ) (s : Icache) → is_removed (s.inode i) ≡ false → free_inode i s ≡ some s
unfolding free_inode
free_inode_more i s more = rw (more, free_inode) refl

-- For an entry of an inode with blocks of its own, `iput` waits only if the inode is locked. It
-- gives up one reference and keeps the disk, unless it is the last reference to an inode with no
-- links: then the inode is free on disk, all its blocks are free and no other block is freed, and
-- the entry is free and no longer valid. Other entries and their locks stay, and the lock of the
-- inode is free again.
pub iput-IsPut : (i : ℕ) (s : Icache) → IsMapped (s.inode i) s.volume → IsPut i s (iput i s)
unfolding iput lock_inode
iput-IsPut i s m = elim (Bool-cases (s.locked i)) [
  | inl held ↦ rw (held, iput) (waits held)
  | inr free ↦
      let s1 : Icache = record s {
        locked = update s.locked i true;
        owner = update s.owner i s.caller;
      } in
      rw (free, iput)
        (elim (Bool-cases (is_removed (s.inode i))) [
          | inr more ↦ rw (free_inode_more i s1 more) (dropped-IsPut i s free more)
          | inl last ↦
              rw (free_inode_last i s1 last)
                (after_trunc-IsPut i s free last (itrunc-Truncated (s.inode i) s.volume m))
        ])
]
