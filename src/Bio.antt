-- ===== src/Bio.antt =====
-- Model of binit, bget and brelse of xv6/bio.c: the buffers, in a doubly linked list in order of
-- use. A buffer is its index, and the index after the last stands for the head of the list.
pub mod Ring
pub mod Links
pub mod Release
pub mod Get
use a4team_os.Base.{
  ℕ, zero, suc, ◌+◌, ◌-◌, ◌%◌, ◌^◌, Bool, true, false, not, ◌&&◌, ◌==◌, if◌then◌else◌, update,
  Option, none, some,
}
use a4team_os.Proc.{for_each}

abbrev pub nbuf : ℕ
nbuf = 30

abbrev pub head : ℕ
head = 30

-- `struct buf` without its links: B_VALID and B_DIRTY of `flags`, and of its lock whether it is
-- held and `lk->pid`.
pub record Buf (A : Type 0) : Type 0 where
  pub valid : Bool
  pub dirty : Bool
  pub dev_no : ℕ
  pub blockno : ℕ
  pub locked : Bool
  pub owner : ℕ
  pub refcnt : ℕ
  pub data_of : A

-- `bcache`, with the links of the list, and `myproc()->pid` of the process that calls.
pub record Bcache (A : Type 0) : Type 0 where
  pub buf : ℕ → Buf A
  pub next : ℕ → ℕ
  pub prev : ℕ → ℕ
  pub caller : ℕ

-- A call of `bget`: it panics, or has a buffer and holds its lock, or waits for the lock.
pub data GotBuf (A : Type 0) : Type 0 where
  panics : GotBuf A
  waits : (b : ℕ) → Bcache A → GotBuf A
  holds : (b : ℕ) → Bcache A → GotBuf A

-- A loop along the list from `b` on: the first buffer that passes the test.
pub walk_from : ℕ → (step : ℕ → ℕ) → (b : ℕ) → (test : ℕ → Bool) → Option ℕ
walk_from zero step b test = none
walk_from (suc f) step b test = elim (b == head) [
  | true ↦ none
  | false ↦ elim (test b) [ true ↦ some b | false ↦ walk_from f step (step b) test ]
]

module _ {A : Type 0} where
  -- The buffer `b` behind the head.
  pub push_front : (b : ℕ) → Bcache A → Bcache A
  push_front b s =
      let next' = update s.next b (s.next head) in
      let prev' = update s.prev b head in
      record s { prev = update prev' (next' head) b; next = update next' head b }

  pub unlink : (b : ℕ) → Bcache A → Bcache A
  unlink b s =
      let prev' = update s.prev (s.next b) (s.prev b) in
      record s { prev = prev'; next = update s.next (prev' b) (s.next b) }

  pub set_buf : (b : ℕ) → Buf A → Bcache A → Bcache A
  set_buf b x s = record s { buf = update s.buf b x }

  -- The loop of `binit`.
  pub init_buf : (b : ℕ) → Bcache A → Bcache A
  unfolding push_front set_buf
  init_buf b s = push_front b (set_buf b (record (s.buf b) { locked = false; owner = 0 }) s)

  pub binit : Bcache A → Bcache A
  unfolding init_buf
  binit s =
      for_each nbuf 0 init_buf
        (record s { prev = update s.prev head head; next = update s.next head head })

  unfoldable pub holds_block : (dev_no blockno : ℕ) → Buf A → Bool
  holds_block dev_no blockno x = (x.dev_no == dev_no) && (x.blockno == blockno)

  -- `b->refcnt == 0 && (b->flags & B_DIRTY) == 0`
  pub is_unused : Buf A → Bool
  is_unused x = (x.refcnt == 0) && not x.dirty

  -- `acquiresleep(&b->lock)`
  pub lock_buf : (b : ℕ) → Bcache A → GotBuf A
  unfolding set_buf
  lock_buf b s =
      if (s.buf b).locked
      then waits b s
      else holds b (set_buf b (record (s.buf b) { locked = true; owner = s.caller }) s)

  -- The second half of `bget`, for a block that is not cached.
  pub recycle_buf : (dev_no blockno : ℕ) → Bcache A → GotBuf A
  unfolding walk_from is_unused set_buf lock_buf
  recycle_buf dev_no blockno s =
      elim (walk_from (suc nbuf) s.prev (s.prev head) (λ b. is_unused (s.buf b))) [
        | none ↦ panics
        | some b ↦ lock_buf b (
            set_buf b
              (record (s.buf b) {
                dev_no = dev_no;
                blockno = blockno;
                valid = false;
                dirty = false;
                refcnt = 1;
              })
              s)
      ]

  -- The list has no more than `nbuf` buffers, so a round for each and one for the head are enough.
  pub bget : (dev_no blockno : ℕ) → Bcache A → GotBuf A
  unfolding walk_from holds_block set_buf lock_buf recycle_buf
  bget dev_no blockno s =
      elim (walk_from (suc nbuf) s.next (s.next head) (λ b. holds_block dev_no blockno (s.buf b))) [
        | none ↦ recycle_buf dev_no blockno s
        | some b ↦
            lock_buf b (set_buf b (record (s.buf b) { refcnt = ((s.buf b).refcnt + 1) % 2 ^ 32 }) s)
      ]

  -- The end of `brelse`, at the new count.
  pub move_up : (b : ℕ) → Bcache A → Bcache A
  unfolding unlink push_front
  move_up b s = if (s.buf b).refcnt == 0 then push_front b (unlink b s) else s

  pub brelse : (b : ℕ) → Bcache A → Option (Bcache A)
  unfolding set_buf move_up
  brelse b s =
      let x = s.buf b in
      if not (x.locked && (x.owner == s.caller))
      then none
      else some (
          move_up b (
            set_buf b
              (record x { locked = false; owner = 0; refcnt = (x.refcnt + 2 ^ 32 - 1) % 2 ^ 32 })
              s))
