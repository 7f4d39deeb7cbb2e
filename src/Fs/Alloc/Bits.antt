-- ===== src/Fs/Alloc/Bits.antt =====
-- The bits of a byte of the free map.
use Prim.Native.Nat.{bit_and, bit_or}
use a4team_os.Base.{
  ℕ, ◌-◌, ◌%◌, ◌^◌, ◌<◌, ◌≡◌, refl, Bool, true, false, not, ◌&&◌, ◌||◌, ◌==◌, ltb, arith,
}
use a4team_os.Base.Bytes.{all_below, all_below_sound}
use a4team_os.Fs.Alloc.{bit_clear, with_bit, without_bit}

-- Two truth values are the same.
abbrev same : Bool → Bool → Bool
same true b = b
same false b = not b

abbrev clear_at : (y j : ℕ) → Bool
clear_at y j = bit_and y (2 ^ j) == 0

abbrev check : (y k j : ℕ) → Bool
check y k j =
    same (clear_at (bit_or y (2 ^ k)) j) (not (j == k) && clear_at y j)
    && same (clear_at (bit_and y (255 - 2 ^ k)) j) ((j == k) || clear_at y j)
    && ltb (bit_or y (2 ^ k)) 256
    && ltb (bit_and y (255 - 2 ^ k)) 256

table : all_below 256 (λ y. all_below 8 (λ k. all_below 8 (check y k))) ≡ true
unfolding all_below
table = refl

checked : (y k j : ℕ) → y < 256 → k < 8 → j < 8 → check y k j ≡ true
checked y k j ly lk lj =
    all_below_sound 8 (check y k) j
      (all_below_sound 8 (λ k. all_below 8 (check y k)) k
        (all_below_sound 256 (λ y. all_below 8 (λ k. all_below 8 (check y k))) y table ly) lk)
      lj

same_eq : (a b : Bool) → same a b ≡ true → a ≡ b
same_eq true b h = cc
same_eq false true h = cc
same_eq false false h = refl

-- Setting a bit clears none and sets no other; clearing a bit sets none and clears no other.
pub bits_lem :
    (y bi bj : ℕ)
    → y < 256
    → (bit_clear (with_bit y bi) bj ≡ (not (bj % 8 == bi % 8) && bit_clear y bj))
      × (bit_clear (without_bit y bi) bj ≡ ((bj % 8 == bi % 8) || bit_clear y bj))
      × (with_bit y bi < 256)
      × (without_bit y bi < 256)
unfolding bit_clear with_bit without_bit
bits_lem y bi bj ly =
    let k = bi % 8 in
    let j = bj % 8 in
    let c = checked y k j ly (omega arith) (omega arith) in
    (
      same_eq _ _ (ground (arith, c)),
      same_eq _ _ (ground (arith, c)),
      ground (arith, c),
      ground (arith, c),
    )
