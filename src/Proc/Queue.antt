-- ===== src/Proc/Queue.antt =====
-- The run queues of xv6/proc.c: add_proc_to_q and remove_proc_from_q.
pub mod Rows
pub mod Inv
pub mod Removal
pub mod Change
use a4team_os.Base.{
  ℕ, zero, suc, ◌+◌, ◌-◌, ◌≤◌, ◌<◌, Bool, true, false, not, ◌&&◌, ◌||◌, ◌==◌, ltb, leb,
  if◌then◌else◌, update, Option, none, some, ℤ, pos, negsuc,
}
use a4team_os.Proc.{Proc, Kernel, set_proc}

-- `for(int i = rem; i < q_tail[q_no]; i++) queue[q_no][i] = queue[q_no][i+1];`, `n` rounds.
pub shift_down : ℕ → (i : ℕ) → (ℕ → ℕ) → ℕ → ℕ
shift_down zero i row = row
shift_down (suc n) i row = shift_down n (i + 1) (update row i (row (i + 1)))

module _ {W : Type 0} where
  -- `pid == queue[q][j]->pid` for some `j` of `n` indices from `i` on: the first such index.
  pub find_pid : Kernel W → (pid q : ℕ) → ℕ → (i : ℕ) → Option ℕ
  find_pid k pid q zero i = none
  find_pid k pid q (suc n) i =
      let rest = find_pid k pid q n (i + 1) in
      if (k.procs (k.slot q i)).pid == pid then some i else rest

  -- The first loop runs to `i < q_tail[q_no]`, so it does not look at the last entry.
  pub add_proc_to_q : (p q_no : ℕ) → Kernel W → Kernel W × ℤ
  unfolding find_pid
  add_proc_to_q p q_no k = elim (find_pid k (k.procs p).pid q_no (k.len q_no - 1) 0) [
    | some i ↦ (k, negsuc 0)
    | none ↦ (
      record k {
        procs = update k.procs p (record (k.procs p) { enter = k.ticks; queue = pos q_no });
        len = update k.len q_no (k.len q_no + 1);
        slot = update k.slot q_no (update (k.slot q_no) (k.len q_no) p);
      },
      pos 1,
    )
  ]

  pub remove_proc_from_q : (p q_no : ℕ) → Kernel W → Kernel W × ℤ
  unfolding find_pid shift_down
  remove_proc_from_q p q_no k = elim (find_pid k (k.procs p).pid q_no (k.len q_no) 0) [
    | none ↦ (k, negsuc 0)
    | some rem ↦ (
      record k {
        slot = update k.slot q_no (shift_down (k.len q_no - 1 - rem) rem (k.slot q_no));
        len = update k.len q_no (k.len q_no - 1);
      },
      pos 1,
    )
  ]

  -- `add_proc_to_q(p, p->queue)`. An index of -1 is outside the array, which C leaves undefined;
  -- here it changes nothing. The invariant of `Inv` rules it out.
  pub requeue : (p : ℕ) → Kernel W → Kernel W
  requeue p k = elim ((k.procs p).queue) [ pos q ↦ (add_proc_to_q p q k).0 | negsuc n ↦ k ]

  -- `remove_proc_from_q(p, p->queue)`.
  pub unqueue : (p : ℕ) → Kernel W → Kernel W
  unqueue p k = elim ((k.procs p).queue) [ pos q ↦ (remove_proc_from_q p q k).0 | negsuc n ↦ k ]
