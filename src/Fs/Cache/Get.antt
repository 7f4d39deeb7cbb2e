-- ===== src/Fs/Cache/Get.antt =====
-- iget of xv6/fs.c keeps at most one entry of the inode cache for an inode.
use a4team_os.Base.{
  ℕ, zero, suc, ◌+◌, ◌≤◌, ◌<◌, ◌≡◌, refl, ◌≢◌, ◌⊎◌, true, false, ◌==◌, if◌then◌else◌, arith, Option,
  none, some, Bool-cases, inl, inr,
}
use a4team_os.Fs.{Inode}
use a4team_os.Fs.Cache.{
  Icache, is_cached, Slot, hit, miss, remember, iget_loop, set_inode, recycle, iget,
}

-- No two entries in use are of the same inode.
abbrev pub Unique : (ℕ → Inode) → Type 0
Unique inode =
    (i j : ℕ)
    → i < 50
    → j < 50
    → 0 < (inode i).ref
    → is_cached (inode i).dev_no (inode i).inum (inode j) ≡ true
    → i ≡ j

-- None of the `n` entries from `i` on is of the inode.
abbrev pub Absent : (n i dev_no inum : ℕ) → (ℕ → Inode) → Type 0
Absent n i dev_no inum inode = (k : ℕ) → i ≤ k → k < i + n → is_cached dev_no inum (inode k) ≡ false

-- How the loop of `iget` ends, `n` entries from `i` on.
data Looped (n i : ℕ) (empty : Option ℕ) (dev_no inum : ℕ) (inode : ℕ → Inode) : Slot → Type 0 where
  at :
      {k : ℕ}
      → k < i + n
      → is_cached dev_no inum (inode k) ≡ true
      → Looped n i empty dev_no inum inode (hit k)
  full :
      Absent n i dev_no inum inode
      → empty ≡ none
      → ((k : ℕ) → i ≤ k → k < i + n → (inode k).ref ≢ 0)
      → Looped n i empty dev_no inum inode (miss none)
  spare :
      {e : ℕ}
      → Absent n i dev_no inum inode
      → (empty ≡ some e) ⊎ ((e < i + n) × ((inode e).ref ≡ 0))
      → Looped n i empty dev_no inum inode (miss (some e))

remember_cases :
    (inode : ℕ → Inode) (i : ℕ) (empty : Option ℕ)
    → ((remember inode i empty ≡ none) → (empty ≡ none) × ((inode i).ref ≢ 0))
      × ((e : ℕ)
          → remember inode i empty ≡ some e
          → (empty ≡ some e) ⊎ ((e ≡ i) × ((inode i).ref ≡ 0)))
unfolding remember
remember_cases inode i none = elim (Bool-cases ((inode i).ref == 0)) [
  | inl z ↦ rw z (λ h. cc, λ e h. inr (ground arith, ground arith))
  | inr ne ↦ rw ne (λ h. (refl, ground arith), λ e h. cc)
]
remember_cases inode i (some x) = (λ h. cc, λ e h. inl h)

Absent-next :
    (n i dev_no inum : ℕ) (inode : ℕ → Inode)
    → is_cached dev_no inum (inode i) ≡ false
    → Absent n (i + 1) dev_no inum inode
    → Absent (suc n) i dev_no inum inode
Absent-next n i dev_no inum inode here later k lo hi = elim (Bool-cases (k == i)) [
  | inl e ↦ let same : k ≡ i = ground arith in rw same here
  | inr ne ↦ later k (ground arith) (omega arith)
]

next-Looped :
    (n i : ℕ) (empty : Option ℕ) (dev_no inum : ℕ) (inode : ℕ → Inode)
    → is_cached dev_no inum (inode i) ≡ false
    → {r : Slot} → Looped n (i + 1) (remember inode i empty) dev_no inum inode r
    → Looped (suc n) i empty dev_no inum inode r
next-Looped n i empty dev_no inum inode here (at lt c) = at (omega arith) c
next-Looped n i empty dev_no inum inode here (full none_there e refs) =
    let (before, used) = (remember_cases inode i empty).0 e in
    full (Absent-next n i dev_no inum inode here none_there) before (λ k lo hi.
      elim (Bool-cases (k == i)) [
        | inl same ↦ let e : k ≡ i = ground arith in rw e used
        | inr ne ↦ refs k (ground arith) (omega arith)
      ])
next-Looped n i empty dev_no inum inode here (spare {e} none_there where_from) =
    spare (Absent-next n i dev_no inum inode here none_there) (elim where_from [
      | inl r ↦ elim ((remember_cases inode i empty).1 e r) [
        | inl old ↦ inl old
        | inr (same, z) ↦ inr (omega arith, rw same z)
      ]
      | inr (lt, z) ↦ inr (omega arith, z)
    ])

iget_loop-Looped :
    (n i : ℕ) (empty : Option ℕ) (dev_no inum : ℕ) (inode : ℕ → Inode)
    → Looped n i empty dev_no inum inode (iget_loop n i empty dev_no inum inode)
unfolding iget_loop
iget_loop-Looped zero i none dev_no inum inode =
    full (λ k lo hi. absurd (omega arith)) refl (λ k lo hi. absurd (omega arith))
iget_loop-Looped zero i (some e) dev_no inum inode =
    spare (λ k lo hi. absurd (omega arith)) (inl refl)
iget_loop-Looped (suc n) i empty dev_no inum inode =
    elim (Bool-cases (is_cached dev_no inum (inode i))) [
      | inl here ↦ rw here (at (omega arith) here)
      | inr miss_here ↦ rw miss_here (
          next-Looped n i empty dev_no inum inode miss_here
            (iget_loop-Looped n (i + 1) (remember inode i empty) dev_no inum inode))
    ]

-- What `iget` answers: none, with all entries in use and none of the inode's; or an entry that is
-- now the inode's, with one more reference, and no other entry of the inode.
pub data IsGot (dev_no inum : ℕ) (s : Icache) : Option (ℕ × Icache) → Type 0 where
  all_used :
      ((k : ℕ) → k < 50 → ((s.inode k).ref ≢ 0) × (is_cached dev_no inum (s.inode k) ≡ false))
      → IsGot dev_no inum s none
  got :
      {i : ℕ} {s' : Icache}
      → i < 50
      → is_cached dev_no inum (s'.inode i) ≡ true
      → (s'.inode i).ref ≡ (s.inode i).ref + 1
      → (if is_cached dev_no inum (s.inode i) then (s.inode i).valid else false)
        ≡ (s'.inode i).valid
      → ((j : ℕ) → j ≢ i → s'.inode j ≡ s.inode j)
      → s'.volume ≡ s.volume
      → s'.locked ≡ s.locked
      → Unique s'.inode
      → IsGot dev_no inum s (some (i, s'))

hit-IsGot :
    (dev_no inum i : ℕ) (s : Icache)
    → Unique s.inode
    → i < 50
    → is_cached dev_no inum (s.inode i) ≡ true
    → IsGot dev_no inum s (recycle dev_no inum (hit i) s)
unfolding recycle set_inode is_cached
hit-IsGot dev_no inum i s u lt c =
    got lt (ground arith) (ground arith) (ground arith) (λ j ne. ground arith) refl refl
      (λ j k lj lk pos_ref same. ground (arith, u j k))

spare-IsGot :
    (dev_no inum e : ℕ) (s : Icache)
    → Unique s.inode
    → e < 50
    → (s.inode e).ref ≡ 0
    → Absent 50 0 dev_no inum s.inode
    → IsGot dev_no inum s (recycle dev_no inum (miss (some e)) s)
unfolding recycle set_inode is_cached
spare-IsGot dev_no inum e s u lt z absent =
    got lt (ground arith) (ground arith) (ground arith) (λ j ne. ground arith) refl refl
      (λ j k lj lk pos_ref same. ground (arith, u j k, absent j, absent k))

-- With at most one entry in use for each inode, `iget` answers an entry of the inode with one more
-- reference, which is valid only if the inode's entry was, and keeps all other entries and that
-- there is at most one for each inode; it panics only if all entries are in use for others.
pub iget-IsGot :
    (dev_no inum : ℕ) (s : Icache) → Unique s.inode → IsGot dev_no inum s (iget dev_no inum s)
unfolding iget
iget-IsGot dev_no inum s u = got_of (iget_loop-Looped 50 0 none dev_no inum s.inode)
  where
    got_of :
        {r : Slot}
        → Looped 50 0 none dev_no inum s.inode r
        → IsGot dev_no inum s (recycle dev_no inum r s)
    got_of (at lt c) = hit-IsGot dev_no inum _ s u lt c
    got_of (full absent e refs) =
        unfold recycle in all_used (λ k lt. (refs k (omega arith) lt, absent k (omega arith) lt))
    got_of (spare absent (inl h)) = absurd cc
    got_of (spare absent (inr (lt, z))) = spare-IsGot dev_no inum _ s u lt z absent
