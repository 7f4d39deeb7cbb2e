-- ===== src/Tests/Buffers.antt =====
-- The theorems on the buffer cache, after binit.
use a4team_os.Base.{ℕ, ◌≡◌, ◌≢◌, ◌∙◌, sym, refl, true, false, ◌==◌, if◌then◌else◌, arith}
use a4team_os.Bio.{Bcache, binit, bget, brelse, holds_block}
use a4team_os.Bio.Release.{down, Released, brelse-Released, binit-IsRing}
use a4team_os.Bio.Get.{Unique, IsGotBuf, bget-IsGotBuf}

-- Buffers that were never used; the data is a number.
abbrev zeroed : Bcache ℕ
zeroed = record {
  buf = λ i. record {
    valid = false;
    dirty = false;
    dev_no = 0;
    blockno = 0;
    locked = false;
    owner = 0;
    refcnt = 0;
    data_of = 0;
  };
  next = λ i. 0;
  prev = λ i. 0;
  caller = 7;
}

-- After `binit`, with buffer 3 locked by process 7 for block 40 of device 1.
abbrev one_used : Bcache ℕ
one_used = record (binit zeroed) {
  buf = λ i. record {
    valid = i == 3;
    dirty = false;
    dev_no = if i == 3 then 1 else 0;
    blockno = if i == 3 then 40 else 0;
    locked = i == 3;
    owner = if i == 3 then 7 else 0;
    refcnt = if i == 3 then 1 else 0;
    data_of = 0;
  };
}

only_3 : (i d n : ℕ) → d ≢ 0 → holds_block d n (one_used.buf i) ≡ true → i ≡ 3
unfolding holds_block
only_3 i d n ne h = ground arith

one_used-Unique : Unique one_used (down 30)
one_used-Unique i j d n ne li lj hi hj = only_3 i d n ne hi ∙ sym (only_3 j d n ne hj)

brelse-Released_example : Released 3 one_used (down 30) (brelse 3 one_used)
brelse-Released_example =
    brelse-Released 3 one_used (down 30) (binit-IsRing zeroed) refl (omega arith) (omega arith)

bget-IsGotBuf_example : IsGotBuf 1 41 one_used (down 30) (bget 1 41 one_used)
bget-IsGotBuf_example =
    bget-IsGotBuf 1 41 one_used (down 30) (binit-IsRing zeroed) refl one_used-Unique
