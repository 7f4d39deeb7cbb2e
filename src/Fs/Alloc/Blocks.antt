-- ===== src/Fs/Alloc/Blocks.antt =====
-- balloc takes the first free block of the disk, and bfree gives a block back.
use a4team_os.Base.{
  ℕ, zero, suc, ◌+◌, ◌-◌, ◌*◌, ◌/◌, ◌%◌, ◌≤◌, ◌<◌, ◌≡◌, refl, ◌∙◌, Bool, true, false, not, ◌&&◌,
  ◌||◌, ◌==◌, ltb, if◌then◌else◌, arith, Option, none, some, Bool-cases, Option-cases, inl, inr,
}
use a4team_os.Proc.{find_from}
use a4team_os.Proc.Loops.{find_from-some, find_from-none}
use a4team_os.Fs.{Volume}
use a4team_os.Fs.Alloc.{
  bit_clear, with_bit, without_bit, is_clear, set_byte, bzero, take_block, bits_in, balloc_from,
  balloc, bfree,
}
use a4team_os.Fs.Alloc.Bits.{bits_lem}

-- The block's bit is set in the free map.
unfoldable pub in_use : Volume → ℕ → Bool
in_use v b = not (is_clear v (b / 4096) (b % 4096))

-- The free map alone says what is in use.
pub in_use_map : (v v' : Volume) (c : ℕ) → v'.free_map ≡ v.free_map → in_use v' c ≡ in_use v c
unfolding in_use is_clear
in_use_map v v' c e = rw e refl

-- The free map holds bytes.
abbrev pub IsMap : Volume → Type 0
IsMap v = (i j : ℕ) → v.free_map i j < 256

-- The parts of the disk other than the free map are the same.
pub record SameRest (v v' : Volume) : Type 0 where
  pub size : v'.size ≡ v.size
  pub ninodes : v'.ninodes ≡ v.ninodes
  pub dinode : v'.dinode ≡ v.dinode

set_byte_clear :
    (v : Volume) (i bi byte i' bj : ℕ)
    → is_clear (set_byte i bi byte v) i' bj
      ≡ (if (i' == i) && (bj / 8 == bi / 8) then bit_clear byte bj else is_clear v i' bj)
unfolding is_clear set_byte
set_byte_clear v i bi byte i' bj = ground arith

set_byte-IsMap : (v : Volume) (i bi byte : ℕ) → byte < 256 → IsMap v → IsMap (set_byte i bi byte v)
unfolding set_byte
set_byte-IsMap v i bi byte lt m i' j = ground (arith, m i' j)

in_use-with_bit :
    (v : Volume) (i bi c : ℕ)
    → IsMap v
    → bi < 4096
    → in_use (set_byte i bi (with_bit (v.free_map i (bi / 8)) bi) v) c
      ≡ ((c == i * 4096 + bi) || in_use v c)
unfolding in_use is_clear
in_use-with_bit v i bi c m lt =
    let b = bits_lem (v.free_map i (bi / 8)) bi (c % 4096) (m i (bi / 8)) in
    ground (
      arith,
      b.0,
      set_byte_clear v i bi (with_bit (v.free_map i (bi / 8)) bi) (c / 4096) (c % 4096),
    )

in_use-without_bit :
    (v : Volume) (i bi c : ℕ)
    → IsMap v
    → bi < 4096
    → in_use (set_byte i bi (without_bit (v.free_map i (bi / 8)) bi) v) c
      ≡ (not (c == i * 4096 + bi) && in_use v c)
unfolding in_use is_clear
in_use-without_bit v i bi c m lt =
    let b = bits_lem (v.free_map i (bi / 8)) bi (c % 4096) (m i (bi / 8)) in
    ground (
      arith,
      b.1,
      set_byte_clear v i bi (without_bit (v.free_map i (bi / 8)) bi) (c / 4096) (c % 4096),
    )

-- What taking the block `b` does: its bit is set, its contents are zero, and nothing else changes.
pub record Taken (b : ℕ) (v v' : Volume) : Type 0 where
  pub map : IsMap v'
  pub used : (c : ℕ) → in_use v' c ≡ ((c == b) || in_use v c)
  pub bytes : (c a : ℕ) → v'.bytes c a ≡ (if c == b then 0 else v.bytes c a)
  pub numbers : (c a : ℕ) → v'.numbers c a ≡ (if c == b then 0 else v.numbers c a)
  pub rest : SameRest v v'

-- What `balloc` answers: none, with every block of the disk in use, or the first free block.
pub data Balloced (v : Volume) : Option (ℕ × Volume) → Type 0 where
  full : ((c : ℕ) → c < v.size → in_use v c ≡ true) → Balloced v none
  found :
      (b : ℕ) {v' : Volume}
      → b < v.size
      → in_use v b ≡ false
      → ((c : ℕ) → c < b → in_use v c ≡ true)
      → Taken b v v'
      → Balloced v (some (b, v'))

take_block-Taken :
    (v : Volume) (i bi : ℕ)
    → IsMap v
    → bi < 4096
    → ((take_block i bi v).0 ≡ i * 4096 + bi) × Taken (i * 4096 + bi) v (take_block i bi v).1
unfolding take_block bzero in_use is_clear set_byte
take_block-Taken v i bi m lt =
    let byte = with_bit (v.free_map i (bi / 8)) bi in
    (
      refl,
      record {
        map = set_byte-IsMap v i bi byte (bits_lem (v.free_map i (bi / 8)) bi 0 (m i (bi / 8))).2 m;
        used = λ c. in_use-with_bit v i bi c m lt;
        bytes = λ c a. ground arith;
        numbers = λ c a. ground arith;
        rest = record { size = refl; ninodes = refl; dinode = refl };
      },
    )

balloc_from-Balloced :
    (n i : ℕ) (v : Volume)
    → IsMap v
    → v.size ≤ (i + n) * 4096
    → ((c : ℕ) → c < i * 4096 → c < v.size → in_use v c ≡ true)
    → Balloced v (balloc_from n i v)
unfolding balloc_from in_use
balloc_from-Balloced zero i v m all before = full (λ c lt. before c (omega arith) lt)
balloc_from-Balloced (suc n) i v m all before =
    elim (Option-cases (find_from (bits_in v i) 0 (is_clear v i))) [
      | inl none_free ↦
          let miss = find_from-none (bits_in v i) 0 (is_clear v i) none_free in
          rw (none_free, balloc_from)
            (balloc_from-Balloced n (i + 1) v m (omega arith) (λ c lt in_disk.
              elim (Bool-cases (ltb c (i * 4096))) [
                | inl low ↦ before c (ground arith) in_disk
                | inr high ↦
                    let same : c / 4096 ≡ i = ground arith in
                    let seen = miss (c % 4096) (omega arith) (ground arith) in
                    ground (arith, seen, same)
              ]))
      | inr (bi, hit) ↦
          let f = find_from-some (bits_in v i) 0 (is_clear v i) hit in
          let bound : bi < 4096 = ground (arith, f.to) in
          let (e, t) = take_block-Taken v i bi m bound in
          let free : in_use v (i * 4096 + bi) ≡ false =
            let q : (i * 4096 + bi) / 4096 ≡ i = omega arith in
            let r : (i * 4096 + bi) % 4096 ≡ bi = omega arith in rw (q, r, f.hit) in
          rw (hit, balloc_from, e)
            (found (i * 4096 + bi) (ground (arith, f.to)) free
              (λ c lt. elim (Bool-cases (ltb c (i * 4096))) [
                | inl low ↦ before c (ground arith) (ground (arith, f.to))
                | inr high ↦
                    let same : c / 4096 ≡ i = ground arith in
                    let seen = f.earlier (c % 4096) (omega arith) (ground arith) in
                    ground (arith, seen, same)
              ])
              t)
    ]

-- On a map of bytes, `balloc` takes the first free block below the size and zeroes it; it panics
-- only if there is none.
pub balloc-Balloced : (v : Volume) → IsMap v → Balloced v (balloc v)
unfolding balloc
balloc-Balloced v m =
    balloc_from-Balloced ((v.size + 4096 - 1) / 4096) 0 v m (omega arith)
      (λ c lt. absurd (omega arith))

-- What `bfree` answers: none for a free block, or the disk with the block free.
pub data Bfreed (b : ℕ) (v : Volume) : Option Volume → Type 0 where
  was_free : in_use v b ≡ false → Bfreed b v none
  freed :
      {v' : Volume}
      → in_use v b ≡ true
      → IsMap v'
      → ((c : ℕ) → in_use v' c ≡ (not (c == b) && in_use v c))
      → ((c a : ℕ) → v'.bytes c a ≡ v.bytes c a)
      → ((c a : ℕ) → v'.numbers c a ≡ v.numbers c a)
      → SameRest v v'
      → Bfreed b v (some v')

-- On a map of bytes, `bfree` panics on a free block, and otherwise makes this block free and
-- changes nothing else.
pub bfree-Bfreed : (b : ℕ) (v : Volume) → IsMap v → Bfreed b v (bfree b v)
unfolding bfree in_use set_byte
bfree-Bfreed b v m = elim (Bool-cases (is_clear v (b / 4096) (b % 4096))) [
  | inl free ↦ rw free (was_free (ground arith))
  | inr taken ↦
      let y = v.free_map (b / 4096) (b % 4096 / 8) in
      rw taken (
        freed (ground arith)
          (set_byte-IsMap v (b / 4096) (b % 4096) (without_bit y (b % 4096))
            (bits_lem y (b % 4096) 0 (m (b / 4096) (b % 4096 / 8))).3 m)
          (λ c.
            let same : b / 4096 * 4096 + b % 4096 ≡ b = omega arith in
            in_use-without_bit v (b / 4096) (b % 4096) c m (omega arith) ∙ rw same refl)
          (λ c a. refl) (λ c a. refl) (record { size = refl; ninodes = refl; dinode = refl }))
]
