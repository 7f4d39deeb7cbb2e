-- ===== src/Fs/Content/Trunc.antt =====
-- itrunc of xv6/fs.c gives back exactly the blocks of the inode.
use a4team_os.Base.{
  ℕ, ◌+◌, ◌<◌, ◌≡◌, refl, sym, ◌∙◌, ◌≢◌, Bool, true, false, ◌&&◌, ◌||◌, ◌==◌, ltb, leb,
  if◌then◌else◌, arith, Option, none, some, Bool-cases, Option-cases, inl, inr,
}
use a4team_os.Proc.Loops.{for_each_at}
use a4team_os.Fs.{Inode, Volume, iupdate}
use a4team_os.Fs.Alloc.{bfree}
use a4team_os.Fs.Alloc.Blocks.{in_use, in_use_map, IsMap, bfree-Bfreed}
use a4team_os.Fs.Content.{set_addr, free_direct, free_entry, free_indirect, itrunc}
use a4team_os.Fs.Content.Slots.{slot, IsMapped}
use a4team_os.Fs.Content.Grown.{SameMeta}
use a4team_os.Fs.Content.Free.{
  Freed, FreedIn, freed_in, bfree-FreedIn, free_slot-FreedIn, Freed-ext,
}

-- The loop over the direct blocks, before index `i`.
abbrev direct_gone : (i : ℕ) → ℕ → Bool
direct_gone i k = ltb k i

data Direct (i : ℕ) (ip : Inode) (v : Volume) : Option (Inode × Volume) → Type 0 where
  direct :
      {ip1 : Inode} {v1 : Volume}
      → Freed (direct_gone i) ip v v1
      → ((k : ℕ) → ip1.addrs k ≡ (if ltb k i then 0 else ip.addrs k))
      → SameMeta ip ip1
      → Direct i ip v (some (ip1, v1))

-- The end of a round of that loop.
abbrev zeroed : (i addr : ℕ) → Inode → Volume → Option Volume → Option (Inode × Volume)
zeroed i addr ip1 v1 none = none
zeroed i addr ip1 v1 (some v2) = if addr == 0 then some (ip1, v2) else some (set_addr ip1 i 0, v2)

zeroed-Direct :
    (i : ℕ) (ip : Inode) (v : Volume) (ip1 : Inode) (v1 : Volume)
    → ((k : ℕ) → ip1.addrs k ≡ (if ltb k i then 0 else ip.addrs k))
    → SameMeta ip ip1
    → {r : Option Volume} → FreedIn (direct_gone (i + 1)) ip v r
    → Direct (i + 1) ip v (zeroed i (ip1.addrs i) ip1 v1 r)
unfolding set_addr
zeroed-Direct i ip v ip1 v1 addrs meta (freed_in f) = elim (Bool-cases (ip1.addrs i == 0)) [
  | inl z ↦ rw z (direct f (λ k. ground (arith, addrs k, addrs i)) meta)
  | inr ne ↦ rw ne (direct f (λ k. ground (arith, addrs k)) meta)
]

free_direct-zeroed :
    (i : ℕ) (ip1 : Inode) (v1 : Volume)
    → free_direct i (some (ip1, v1))
      ≡ zeroed i (ip1.addrs i) ip1 v1 (if ip1.addrs i == 0 then some v1 else bfree (ip1.addrs i) v1)
unfolding free_direct
free_direct-zeroed i ip1 v1 = elim (Bool-cases (ip1.addrs i == 0)) [
  | inl z ↦ ground arith
  | inr ne ↦ elim (Option-cases (bfree (ip1.addrs i) v1)) [
    | inl e ↦ ground arith
    | inr (v2, e) ↦ ground arith
  ]
]

free_direct-Direct :
    (i : ℕ) (ip : Inode) (v : Volume) {r : Option (Inode × Volume)}
    → IsMapped ip v
    → i < 12
    → Direct i ip v r
    → Direct (i + 1) ip v (free_direct i r)
unfolding slot
free_direct-Direct i ip v m li (direct {ip1} {v1} f addrs meta) = rw (free_direct-zeroed i ip1 v1) (
    zeroed-Direct i ip v ip1 v1 addrs meta (
      free_slot-FreedIn i (ip1.addrs i) (direct_gone i) (direct_gone (i + 1)) ip v v1 m
        (λ j lj. ground arith) (omega arith) (ground arith) (ground (arith, addrs i)) f))

-- The loop over the entries of the indirect block, before index `j`.
abbrev entries_gone : (j : ℕ) → ℕ → Bool
entries_gone j k = ltb k 12 || (leb 13 k && ltb k (13 + j))

free_entry-FreedIn :
    (j : ℕ) (ip : Inode) (v : Volume) {r : Option Volume}
    → IsMapped ip v
    → ip.addrs 12 ≢ 0
    → j < 128
    → FreedIn (entries_gone j) ip v r
    → FreedIn (entries_gone (j + 1)) ip v (free_entry (ip.addrs 12) j r)
unfolding free_entry slot
free_entry-FreedIn j ip v m ne lj (freed_in {v1} f) =
    free_slot-FreedIn (13 + j) (v1.numbers (ip.addrs 12) j) (entries_gone j) (entries_gone (j + 1))
      ip v v1 m (λ k lk. ground arith) (omega arith) (ground arith)
      (ground (arith, f.numbers (ip.addrs 12) j)) f

-- All slots but for the indirect block, and all slots.
abbrev all_gone : ℕ → Bool
all_gone k = true

-- What `itrunc` answers: the inode is empty and so is its copy on disk, its blocks are free, and
-- no other block or inode has changed.
pub data Truncated (ip : Inode) (v : Volume) : Option (Inode × Volume) → Type 0 where
  truncated :
      {ip' : Inode} {v' : Volume}
      → ((k : ℕ) → k < 13 → ip'.addrs k ≡ 0)
      → ip'.size ≡ 0
      → ip'.inum ≡ ip.inum
      → ip'.nlink ≡ ip.nlink
      → ip'.type ≡ ip.type
      → (ip'.dev_no ≡ ip.dev_no) × (ip'.ref ≡ ip.ref)
      → IsMap v'
      → ((k : ℕ) → k < 141 → slot ip v k ≢ 0 → in_use v' (slot ip v k) ≡ false)
      → ((c : ℕ)
          → ((k : ℕ) → k < 141 → slot ip v k ≢ 0 → slot ip v k ≢ c)
          → in_use v' c ≡ in_use v c)
      → ((c a : ℕ) → (v'.bytes c a ≡ v.bytes c a) × (v'.numbers c a ≡ v.numbers c a))
      → ((v'.dinode ip.inum).size ≡ 0) × ((v'.dinode ip.inum).addrs ≡ ip'.addrs)
      → ((i : ℕ) → i ≢ ip.inum → v'.dinode i ≡ v.dinode i)
      → Truncated ip v (some (ip', v'))

-- The end of `itrunc`.
abbrev emptied : Option (Inode × Volume) → Option (Inode × Volume)
emptied none = none
emptied (some (ip, v)) = let done = record ip { size = 0 } in some (done, iupdate done v)

data Indirect (ip : Inode) (v : Volume) : Option (Inode × Volume) → Type 0 where
  indirect :
      {ip1 : Inode} {v1 : Volume}
      → Freed all_gone ip v v1
      → ((k : ℕ) → k < 13 → ip1.addrs k ≡ 0)
      → SameMeta ip ip1
      → Indirect ip v (some (ip1, v1))

emptied-Truncated :
    {ip : Inode} {v : Volume} {r : Option (Inode × Volume)}
    → Indirect ip v r
    → Truncated ip v (emptied r)
unfolding iupdate
emptied-Truncated {ip} {v}
      (indirect {ip1} {v1} f addrs (size, type, inum, nlink, dev_no, ref, valid)) =
    truncated addrs refl inum nlink type (dev_no, ref) f.map
      (λ k lk ne. in_use_map v1 _ (slot ip v k) refl ∙ f.out k lk refl ne)
      (λ c apart. in_use_map v1 _ c refl ∙ f.kept c (λ k lk g ne. apart k lk ne))
      (λ c a. (f.bytes c a, f.numbers c a)) (ground (arith, inum), ground (arith, inum))
      (λ i ne. ground (arith, f.rest.dinode))

-- The end of `free_indirect`.
abbrev cut_off : Inode → Option Volume → Option (Inode × Volume)
cut_off ip1 none = none
cut_off ip1 (some v) = some (set_addr ip1 12 0, v)

abbrev after_entries : (b : ℕ) → Inode → Option Volume → Option (Inode × Volume)
after_entries b ip1 none = none
after_entries b ip1 (some v) = cut_off ip1 (bfree b v)

cut_off-Indirect :
    (ip : Inode) (v : Volume) (ip1 : Inode)
    → ((k : ℕ) → ip1.addrs k ≡ (if ltb k 12 then 0 else ip.addrs k))
    → SameMeta ip ip1
    → {r : Option Volume} → FreedIn all_gone ip v r
    → Indirect ip v (cut_off ip1 r)
unfolding set_addr
cut_off-Indirect ip v ip1 addrs meta (freed_in f) =
    indirect f (λ k lk. ground (arith, addrs k)) meta

after_entries-Indirect :
    (ip : Inode) (v : Volume) (ip1 : Inode)
    → IsMapped ip v
    → ip.addrs 12 ≢ 0
    → ((k : ℕ) → ip1.addrs k ≡ (if ltb k 12 then 0 else ip.addrs k))
    → SameMeta ip ip1
    → {r : Option Volume} → FreedIn (entries_gone 128) ip v r
    → Indirect ip v (after_entries (ip.addrs 12) ip1 r)
unfolding slot
after_entries-Indirect ip v ip1 m ne addrs meta (freed_in {v1} f) =
    cut_off-Indirect ip v ip1 addrs meta (
      bfree-FreedIn 12 (entries_gone 128) all_gone ip v v1 m (λ k lk. ground arith) (omega arith)
        refl ne f (bfree-Bfreed (ip.addrs 12) v1 f.map))

free_indirect-Indirect :
    (ip : Inode) (v : Volume) (ip1 : Inode) (v1 : Volume)
    → IsMapped ip v
    → Freed (direct_gone 12) ip v v1
    → ((k : ℕ) → ip1.addrs k ≡ (if ltb k 12 then 0 else ip.addrs k))
    → SameMeta ip ip1
    → Indirect ip v (free_indirect ip1 v1)
unfolding free_indirect slot
free_indirect-Indirect ip v ip1 v1 m f addrs meta =
    let same : ip1.addrs 12 ≡ ip.addrs 12 = ground (arith, addrs 12) in
    elim (Bool-cases (ip.addrs 12 == 0)) [
      | inl z ↦
          rw (same, z)
            (indirect (Freed-ext (direct_gone 12) all_gone ip v v1 (λ k lk ne. ground arith) f)
              (λ k lk. ground (arith, addrs k)) meta)
      | inr there ↦
          let ne : ip.addrs 12 ≢ 0 = ground arith in
          let start =
            freed_in
              (Freed-ext (direct_gone 12) (entries_gone 0) ip v v1 (λ k lk n. ground arith) f) in
          let entries =
            for_each_at (λ j r. FreedIn (entries_gone j) ip v r) (free_entry (ip.addrs 12)) 128
              (λ j r lj g. free_entry-FreedIn j ip v m ne lj g) 128 0 (some v1) refl start in
          let rest = after_entries-Indirect ip v ip1 m ne addrs meta entries in
          let back : ip.addrs 12 ≡ ip1.addrs 12 = sym same in
          let there1 : (ip1.addrs 12 == 0) ≡ false = ground arith in rw there1 (rw back at rest)
    ]

abbrev after_direct : Option (Inode × Volume) → Option (Inode × Volume)
after_direct none = none
after_direct (some (ip, v)) = emptied (free_indirect ip v)

after_direct-Truncated :
    {ip : Inode} {v : Volume} {r : Option (Inode × Volume)}
    → IsMapped ip v
    → Direct 12 ip v r
    → Truncated ip v (after_direct r)
after_direct-Truncated {ip} {v} m (direct {ip1} {v1} f addrs meta) =
    emptied-Truncated (free_indirect-Indirect ip v ip1 v1 m f addrs meta)

none_gone : (ip : Inode) (v : Volume) → IsMap v → Freed (direct_gone 0) ip v v
none_gone ip v m = record {
  map = m;
  out = λ k lk g ne. absurd (ground arith);
  kept = λ c apart. refl;
  bytes = λ c a. refl;
  numbers = λ c a. refl;
  rest = record { size = refl; ninodes = refl; dinode = refl };
}

-- For an inode with blocks of its own, `itrunc` returns, without a panic: it frees all blocks of
-- the inode, direct and indirect, and no other, leaves the inode empty in memory and on disk, and
-- changes no block and no other inode.
pub itrunc-Truncated : (ip : Inode) (v : Volume) → IsMapped ip v → Truncated ip v (itrunc ip v)
unfolding itrunc
itrunc-Truncated ip v m = after_direct-Truncated m (
    for_each_at (λ i r. Direct i ip v r) free_direct 12
      (λ i r li d. free_direct-Direct i ip v m li d) 12 0 (some (ip, v)) refl
      (direct (none_gone ip v m.map) (λ k. ground arith)
        (refl, refl, refl, refl, refl, refl, refl)))
