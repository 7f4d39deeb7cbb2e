-- ===== src/Log.antt =====
-- Model of xv6/log.c: the write-ahead log, on a disk that may stop at any write.
-- `log.lock` makes a stretch between two sleeps one step. A block's contents are any type; the
-- block at `log.start`, which is only used as a log header, is a field of its own.
pub mod Crash
pub mod Space
use a4team_os.Base.{
  ℕ, zero, suc, ◌+◌, ◌-◌, ◌*◌, ◌≤◌, ◌<◌, Bool, true, false, not, ◌&&◌, ◌||◌, ◌==◌, ltb, leb,
  if◌then◌else◌, update, List, [], ◌∷◌, Option, none, some, length,
}

abbrev pub max_op_blocks : ℕ
max_op_blocks = 10

abbrev pub log_size : ℕ
log_size = 30

-- `struct log`; `lh` is `lh.block[0 .. lh.n - 1]`.
pub record Log : Type 0 where
  pub start : ℕ
  pub size : ℕ
  pub outstanding : ℕ
  pub committing : Bool
  pub lh : List ℕ

-- The disk, the header on it, and the buffers that are dirty; a buffer that is not dirty equals its
-- block. `power` is the number of writes that still reach the disk.
pub record Disk (B : Type 0) : Type 0 where
  pub block : ℕ → B
  pub head : List ℕ
  pub dirty : ℕ → Option B
  pub power : ℕ

-- The loop of `log_write`: the block is entered once.
pub absorb : ℕ → List ℕ → List ℕ
absorb b [] = b ∷ []
absorb b (x ∷ xs) = let rest = absorb b xs in if x == b then b ∷ xs else x ∷ rest

-- Whether `begin_op` sleeps.
pub must_wait : Log → Bool
must_wait l = l.committing || ltb log_size (length l.lh + (l.outstanding + 1) * max_op_blocks)

-- One round of `begin_op`: none if it goes to sleep.
pub begin_op : Log → Option Log
unfolding must_wait
begin_op l = if must_wait l then none else some (record l { outstanding = l.outstanding + 1 })

-- `end_op`: whether this call commits, which `begin_op` then waits for. A call with no operation
-- outstanding would make the counter negative; it is told apart as `unmatched`.
pub data EndOp : Type 0 where
  unmatched panics : EndOp
  others_left : Log → EndOp
  commits : Log → EndOp

pub end_op : Log → EndOp
end_op l =
    if l.outstanding == 0
    then unmatched
    else if l.committing
    then panics
    else if l.outstanding == 1
    then commits (record l { outstanding = 0; committing = true })
    else others_left (record l { outstanding = l.outstanding - 1 })

-- How `log_write` ends.
pub data LogWrite (B : Type 0) : Type 0 where
  too_big outside_of_trans : LogWrite B
  logged : Log → Disk B → LogWrite B

module _ {B : Type 0} where
  -- `bread(b)->data`
  pub bread : Disk B → ℕ → B
  bread m b = elim (m.dirty b) [ some v ↦ v | none ↦ m.block b ]

  pub bwrite : Disk B → ℕ → B → Disk B
  bwrite m b v = record m {
    block = if m.power == 0 then m.block else update m.block b v;
    dirty = update m.dirty b none;
    power = m.power - 1;
  }

  -- The loop of `write_log`, from index `tail` on.
  pub write_log : (start tail : ℕ) → List ℕ → Disk B → Disk B
  unfolding bread bwrite
  write_log start tail [] m = m
  write_log start tail (b ∷ bs) m =
      write_log start (tail + 1) bs (bwrite m (start + tail + 1) (bread m b))

  -- The loop of `install_trans`.
  pub install_trans : (start tail : ℕ) → List ℕ → Disk B → Disk B
  unfolding bread bwrite
  install_trans start tail [] m = m
  install_trans start tail (b ∷ bs) m =
      install_trans start (tail + 1) bs (bwrite m b (bread m (start + tail + 1)))

  pub write_head : List ℕ → Disk B → Disk B
  write_head lh m = record m { head = if m.power == 0 then m.head else lh; power = m.power - 1 }

  pub commit : Log → Disk B → Log × Disk B
  unfolding write_log write_head install_trans
  commit l m = elim (l.lh) [
    | [] ↦ (l, m)
    | b ∷ bs ↦
        let logged = write_log l.start 0 (b ∷ bs) m in
        let installed = install_trans l.start 0 (b ∷ bs) (write_head (b ∷ bs) logged) in
        (record l { lh = [] }, write_head [] installed)
  ]

  pub recover_from_log : Log → Disk B → Log × Disk B
  unfolding write_head install_trans
  recover_from_log l m = (record l { lh = [] }, write_head [] (install_trans l.start 0 m.head m))

  -- `v` is what the caller of `log_write` has put into the buffer.
  pub log_write : Log → Disk B → (b : ℕ) → (v : B) → LogWrite B
  unfolding absorb
  log_write l m b v =
      if leb log_size (length l.lh) || leb (l.size - 1) (length l.lh)
      then too_big
      else if ltb l.outstanding 1
      then outside_of_trans
      else logged (record l { lh = absorb b l.lh }) (record m { dirty = update m.dirty b (some v) })

  -- The end of `end_op` in the call that commits.
  pub finish_op : Log → Disk B → Log × Disk B
  unfolding commit
  finish_op l m = let (l', m') = commit l m in (record l' { committing = false }, m')

  -- The machine stops, and starts again with no buffers and with power for `n` writes.
  pub restart : ℕ → Disk B → Disk B
  restart n m = record m { dirty = λ b. none; power = n }
