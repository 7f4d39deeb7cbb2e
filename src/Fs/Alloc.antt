-- ===== src/Fs/Alloc.antt =====
-- balloc and bfree of xv6/fs.c: disk blocks and the free map.
pub mod Bits
pub mod Blocks
use Prim.Native.Nat.{bit_and, bit_or}
use a4team_os.Base.{
  ℕ, zero, suc, ◌+◌, ◌-◌, ◌*◌, ◌/◌, ◌%◌, ◌^◌, Bool, true, false, not, ◌&&◌, ◌||◌, ◌==◌, ltb, leb,
  if◌then◌else◌, update, Option, none, some,
}
use a4team_os.Proc.{find_from}
use a4team_os.Fs.{Volume, bpb}

-- `data[bi/8] & m`, `data[bi/8] | m` and `data[bi/8] & ~m` for `m = 1 << (bi % 8)`.
unfoldable pub bit_clear : (byte bi : ℕ) → Bool
bit_clear byte bi = bit_and byte (2 ^ (bi % 8)) == 0

pub with_bit : (byte bi : ℕ) → ℕ
with_bit byte bi = bit_or byte (2 ^ (bi % 8))

pub without_bit : (byte bi : ℕ) → ℕ
without_bit byte bi = bit_and byte (255 - 2 ^ (bi % 8))

-- The block's bit in block `i` of the free map.
unfoldable pub is_clear : Volume → (i bi : ℕ) → Bool
unfolding bit_clear
is_clear v i bi = bit_clear (v.free_map i (bi / 8)) bi

pub set_byte : (i bi byte : ℕ) → Volume → Volume
set_byte i bi byte v = record v {
  free_map = update v.free_map i (update (v.free_map i) (bi / 8) byte);
}

pub bzero : ℕ → Volume → Volume
bzero b v = record v { bytes = update v.bytes b (λ a. 0); numbers = update v.numbers b (λ a. 0) }

-- The block `bi` of the part `i` of the disk is taken.
pub take_block : (i bi : ℕ) → Volume → ℕ × Volume
unfolding set_byte bzero with_bit
take_block i bi v =
    (i * bpb + bi, bzero (i * bpb + bi) (set_byte i bi (with_bit (v.free_map i (bi / 8)) bi) v))

-- The number of bits to look at in block `i`.
abbrev pub bits_in : Volume → ℕ → ℕ
bits_in v i = if ltb (v.size - i * bpb) bpb then v.size - i * bpb else bpb

-- The outer loop of `balloc`, for `n` blocks of the free map from block `i` on.
pub balloc_from : ℕ → (i : ℕ) → Volume → Option (ℕ × Volume)
unfolding take_block is_clear
balloc_from zero i v = none
balloc_from (suc n) i v = elim (find_from (bits_in v i) 0 (is_clear v i)) [
  | some bi ↦ some (take_block i bi v)
  | none ↦ balloc_from n (i + 1) v
]

-- `balloc`; the outer loop runs `b` over the multiples of BPB below the size.
pub balloc : Volume → Option (ℕ × Volume)
unfolding balloc_from
balloc v = balloc_from ((v.size + bpb - 1) / bpb) 0 v

pub bfree : ℕ → Volume → Option Volume
unfolding set_byte is_clear without_bit
bfree b v =
    if is_clear v (b / bpb) (b % bpb)
    then none
    else some (
        set_byte (b / bpb) (b % bpb) (without_bit (v.free_map (b / bpb) (b % bpb / 8)) (b % bpb)) v)
