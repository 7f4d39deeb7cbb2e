-- ===== src/Fs/Dir/Scan.antt =====
-- The loops over the entries of a directory in xv6/fs.c.
use a4team_os.Base.{
  ℕ, zero, suc, ◌+◌, ◌/◌, ◌%◌, ◌≤◌, ◌<◌, ◌≡◌, sym, ap, ◌∙◌, ◌≢◌, Bool, true, false, ◌==◌, ltb,
  if◌then◌else◌, arith, Option, none, some, ℤ, pos, negsuc, Bool-cases, inl, inr,
}
use mathlib.Core.Path.{fun_ext}
use a4team_os.Fs.{Inode, Volume}
use a4team_os.Fs.Content.Slots.{slot, slot_of, IsMapped}
use a4team_os.Fs.Content.Grown.{Grown, Grown-refl, Grown-trans}
use a4team_os.Fs.Content.Write.{byte_at, byte_at-Grown}
use a4team_os.Fs.Content.Read.{Read, refused, no_block, copied, readi_file-Read}
use a4team_os.Fs.Dir.{read_entry, scan_entries}

-- The entry at an offset, from the bytes of the content.
unfoldable pub entry_at : Inode → Volume → (off : ℕ) → ℕ → ℕ
entry_at ip v off a = if ltb a 16 then byte_at ip v (off + a) else 0

pub entry_at-Grown :
    {ip : Inode} {v : Volume} {ip' : Inode} {v' : Volume} (off : ℕ)
    → IsMapped ip v
    → Grown ip v ip' v'
    → off + 16 ≤ 71680
    → entry_at ip' v' off ≡ entry_at ip v off
unfolding entry_at
entry_at-Grown off m g fits = fun_ext (λ a. ground (arith, byte_at-Grown m g (off + a)))

-- What reading an entry answers: none, if it is cut off by the size or a block is missing, or the
-- entry.
data IsRead (off : ℕ) (ip : Inode) (v : Volume) : Option ((ℕ → ℕ) × Inode × Volume) → Type 0 where
  cut : ip.size < off + 16 → IsRead off ip v none
  hole : (x : ℕ) → off ≤ x → x < ip.size → slot ip v (slot_of (x / 512)) ≡ 0 → IsRead off ip v none
  entry :
      {de : ℕ → ℕ} {ip' : Inode} {v' : Volume}
      → off + 16 ≤ ip.size
      → de ≡ entry_at ip v off
      → Grown ip v ip' v'
      → IsRead off ip v (some (de, ip', v'))

abbrev checked : Option (ℤ × (ℕ → ℕ) × Inode × Volume) → Option ((ℕ → ℕ) × Inode × Volume)
checked none = none
checked (some (negsuc e, de, dp, v)) = none
checked (some (pos k, de, dp, v)) = if k == 16 then some (de, dp, v) else none

checked-IsRead :
    (off : ℕ) (ip : Inode) (v : Volume)
    → off < ip.size
    → ip.size ≤ 71680
    → {r : Option (ℤ × (ℕ → ℕ) × Inode × Volume)} → Read off 16 (λ a. 0) ip v r
    → IsRead off ip v (checked r)
unfolding entry_at
checked-IsRead off ip v lt small (refused (inl a)) = absurd (omega arith)
checked-IsRead off ip v lt small (refused (inr b)) = absurd (omega arith)
checked-IsRead off ip v lt small (no_block inside short x lo hi hi_n e) = hole x lo hi e
checked-IsRead off ip v lt small (copied {k} {dst' = de} inside short e bytes g) =
    elim (Bool-cases (k == 16)) [
      | inl whole ↦
          let all : k ≡ 16 = ground arith in
          rw whole (entry (ground arith) (fun_ext (λ a. ground (arith, bytes a))) g)
      | inr part ↦ rw part (cut (ground arith))
    ]

read_entry-IsRead :
    (off : ℕ) (ip : Inode) (v : Volume)
    → IsMapped ip v
    → off < ip.size
    → ip.size ≤ 71680
    → IsRead off ip v (read_entry ip off v)
unfolding read_entry
read_entry-IsRead off ip v m lt small =
    checked-IsRead off ip v lt small
      (readi_file-Read ip (λ a. 0) off 16 v m small (omega arith) (omega arith))

-- What a loop over the entries from `off` on answers: none, if the size is no multiple of 16 or a
-- block is missing; or the first entry that passes the test, if there is one.
pub data Scanned (off : ℕ) (stops : (ℕ → ℕ) → Bool) (ip : Inode) (v : Volume)
    : Option (Option (ℕ × (ℕ → ℕ)) × Inode × Volume) → Type 0 where
  ragged : ip.size % 16 ≢ 0 → Scanned off stops ip v none
  lacking : (x : ℕ) → x < ip.size → slot ip v (slot_of (x / 512)) ≡ 0 → Scanned off stops ip v none
  missing :
      {ip' : Inode} {v' : Volume}
      → Grown ip v ip' v'
      → ((k : ℕ) → off ≤ k → k % 16 ≡ 0 → k + 16 ≤ ip.size → stops (entry_at ip v k) ≡ false)
      → Scanned off stops ip v (some (none, ip', v'))
  found :
      {at : ℕ} {de : ℕ → ℕ} {ip' : Inode} {v' : Volume}
      → Grown ip v ip' v'
      → de ≡ entry_at ip v at
      → off ≤ at
      → at % 16 ≡ 0
      → at + 16 ≤ ip.size
      → stops de ≡ true
      → ((k : ℕ) → off ≤ k → k % 16 ≡ 0 → k < at → stops (entry_at ip v k) ≡ false)
      → Scanned off stops ip v (some (some (at, de), ip', v'))

-- The entry at `off` and those of the rest of the loop.
no_stop_next :
    (off k : ℕ) (stops : (ℕ → ℕ) → Bool) {ip : Inode} {v : Volume} {ip1 : Inode} {v1 : Volume}
    → IsMapped ip v
    → Grown ip v ip1 v1
    → off % 16 ≡ 0
    → k % 16 ≡ 0
    → off ≤ k
    → k + 16 ≤ 71680
    → stops (entry_at ip v off) ≡ false
    → (off + 16 ≤ k → stops (entry_at ip1 v1 k) ≡ false)
    → stops (entry_at ip v k) ≡ false
no_stop_next off k stops m g whole at16 lo fits here later = elim (Bool-cases (k == off)) [
  | inl e ↦ let same : k ≡ off = ground arith in rw same here
  | inr ne ↦
      let past : off + 16 ≤ k = ground arith in
      ap stops (sym (entry_at-Grown k m g fits)) ∙ later past
]

-- An entry that does not pass, before those of the rest of the loop.
next-Scanned :
    (off : ℕ) (stops : (ℕ → ℕ) → Bool) {ip : Inode} {v : Volume} {ip1 : Inode} {v1 : Volume}
    → IsMapped ip v
    → ip.size ≤ 71680
    → off % 16 ≡ 0
    → Grown ip v ip1 v1
    → stops (entry_at ip v off) ≡ false
    → {r : Option (Option (ℕ × (ℕ → ℕ)) × Inode × Volume)} → Scanned (off + 16) stops ip1 v1 r
    → Scanned off stops ip v r
next-Scanned off stops m small whole g here (ragged ne) = ragged (ground (arith, g.meta))
next-Scanned off stops m small whole g here (lacking x lt e) =
    lacking x (ground (arith, g.meta)) (ground (arith, g.slots (slot_of (x / 512)), g.meta))
next-Scanned off stops {ip} m small whole g here (missing h all) =
    missing (Grown-trans m g h) (λ k lo at16 fits.
      no_stop_next off k stops m g whole at16 lo (omega arith) here
        (λ past. all k past at16 (ground (arith, g.meta))))
next-Scanned off stops {ip} {ip1 = ip1} m small whole g here
      (found {at} h same lo at16 fits s all) =
    let size : ip1.size ≡ ip.size = g.meta.0 in
    found (Grown-trans m g h) (same ∙ entry_at-Grown at m g (omega arith)) (omega arith) at16
      (omega arith) s
      (λ k lo' k16 lt.
        no_stop_next off k stops m g whole k16 lo' (omega arith) here (λ past. all k past k16 lt))

-- A round of the loop after `read_entry`.
abbrev after_read :
    ℕ
    → (off : ℕ) → (stops : (ℕ → ℕ) → Bool) → Option ((ℕ → ℕ) × Inode × Volume)
    → Option (Option (ℕ × (ℕ → ℕ)) × Inode × Volume)
after_read f off stops none = none
after_read f off stops (some (de, ip, v)) = elim (stops de) [
  | true ↦ some (some (off, de), ip, v)
  | false ↦ scan_entries f (off + 16) stops ip v
]

after_read-Scanned :
    (f off : ℕ) (stops : (ℕ → ℕ) → Bool) (ip : Inode) (v : Volume)
    → IsMapped ip v
    → ip.size ≤ 71680
    → off % 16 ≡ 0
    → off < ip.size
    → ((ip1 : Inode) (v1 : Volume)
        → IsMapped ip1 v1
        → ip1.size ≡ ip.size
        → Scanned (off + 16) stops ip1 v1 (scan_entries f (off + 16) stops ip1 v1))
    → {r : Option ((ℕ → ℕ) × Inode × Volume)} → IsRead off ip v r
    → Scanned off stops ip v (after_read f off stops r)
after_read-Scanned f off stops ip v m small whole lt rest (cut short) = ragged (omega arith)
after_read-Scanned f off stops ip v m small whole lt rest (hole x lo hi e) = lacking x hi e
after_read-Scanned f off stops ip v m small whole lt rest
      (entry {de} {ip' = ip1} {v' = v1} fits same g) =
    elim (Bool-cases (stops de)) [
      | inl s ↦
          rw (s, after_read)
            (found g same (omega arith) whole fits s (λ k lo k16 l. absurd (omega arith)))
      | inr n ↦
          rw (n, after_read)
            (next-Scanned off stops m small whole g (ap stops (sym same) ∙ n)
              (rest ip1 v1 g.mapped g.meta.0))
    ]

-- For a directory with blocks of its own, the loop over its entries does what `Scanned` says.
pub scan_entries-Scanned :
    (f off : ℕ) (stops : (ℕ → ℕ) → Bool) (ip : Inode) (v : Volume)
    → IsMapped ip v
    → ip.size ≤ 71680
    → off % 16 ≡ 0
    → ip.size ≤ off + f
    → Scanned off stops ip v (scan_entries f off stops ip v)
unfolding scan_entries
scan_entries-Scanned zero off stops ip v m small whole fuel =
    missing (Grown-refl ip v m) (λ k lo k16 fits. absurd (omega arith))
scan_entries-Scanned (suc f) off stops ip v m small whole fuel =
    elim (Bool-cases (ltb off ip.size)) [
      | inr past ↦
          rw (past, scan_entries)
            (missing (Grown-refl ip v m) (λ k lo k16 fits. absurd (ground arith)))
      | inl inside ↦
          rw (inside, scan_entries)
            (after_read-Scanned f off stops ip v m small whole (ground arith)
              (λ ip1 v1 m1 size.
                scan_entries-Scanned f (off + 16) stops ip1 v1 m1 (omega arith) (omega arith)
                  (omega arith))
              (read_entry-IsRead off ip v m (ground arith) small))
    ]
