-- ===== src/Log/Space.antt =====
-- log_write of xv6/log.c enters a block once, and within the space of the log; begin_op admits an
-- operation only if the log has room for it.
use a4team_os.Base.{
  ℕ, ◌+◌, ◌*◌, ◌≤◌, ◌<◌, ◌≡◌, ◌⊎◌, ◌↔◌, Bool, true, false, not, ◌&&◌, ◌||◌, ◌==◌, if◌then◌else◌,
  arith, List, [], ◌∷◌, some, length,
}
use a4team_os.Log.{
  Log, Disk, bread, LogWrite, logged, too_big, outside_of_trans, must_wait, begin_op, log_size,
}
use a4team_os.Log.Crash.{has}

-- No block is listed twice.
unfoldable pub distinct : List ℕ → Bool
distinct [] = true
distinct (b ∷ bs) = let rest = distinct bs in not (has b bs) && rest

module _ {B : Type 0} where
  -- What `log_write` has done, by its result.
  pub data Written (l : Log) (m : Disk B) (b : ℕ) (v : B) : LogWrite B → Type 0 where
    full : (log_size ≤ length l.lh) ⊎ (l.size ≤ length l.lh + 1) → Written l m b v too_big
    alone : l.outstanding ≡ 0 → Written l m b v outside_of_trans
    entered :
        {l' : Log} {m' : Disk B}
        → 0 < l.outstanding
        → length l.lh < log_size
        → length l.lh + 1 < l.size
        → length l'.lh ≤ log_size
        → length l'.lh < l'.size
        → distinct l'.lh ≡ true
        → ((a : ℕ) → has a l'.lh ≡ ((a == b) || has a l.lh))
        → ((a : ℕ) → bread m' a ≡ (if a == b then v else bread m a))
        → ((a : ℕ) → m'.block a ≡ m.block a)
        → Written l m b v (logged l' m')

-- `begin_op` admits an operation exactly if no commit is running and the log has room for ten more
-- blocks for each operation, this one included; it counts the operation and changes nothing else.
pub begin_op_iff :
    (l l' : Log)
    → (begin_op l ≡ some l') ↔ (
        (l.committing ≡ false)
        × (length l.lh + (l.outstanding + 1) * 10 ≤ 30)
        × (record l { outstanding = l.outstanding + 1 } ≡ l'))
unfolding begin_op must_wait
begin_op_iff l l' = (λ e. ground arith, λ (c, room, e). ground arith)
