-- ===== src/Proc/Queue/Inv.antt =====
-- The invariant of the process table and the run queues of xv6/proc.c: who is on a queue.
use a4team_os.Base.{
  ℕ, ◌+◌, ◌-◌, ◌<◌, ◌≡◌, ◌≢◌, Bool, true, not, ◌==◌, update, arith, ℤ, pos, Bool-cases,
  Option-cases, inl, inr,
}
use a4team_os.Proc.{Proc, unused, runnable, Kernel, nproc, is_state}
use a4team_os.Proc.Queue.{find_pid, add_proc_to_q}
use a4team_os.Proc.Queue.Rows.{find_pid-some}

abbrev pub used : Proc → Bool
used p = not (is_state unused p.state)

-- The process `i` is entry `j` of row `q`.
abbrev pub At : {W : Type 0} → Kernel W → ℕ → Type 0
At k i = (q : ℕ) × (j : ℕ) × (j < k.len q) × (k.slot q j ≡ i)

-- A queue index of the array.
abbrev pub Level : ℤ → Type 0
Level z = (q : ℕ) × (z ≡ pos q) × (q < 5)

-- The processes in use have distinct pids below `next_pid` and a queue index; the entries of the
-- queues are distinct runnable processes, each in the row that it names; and every runnable
-- process is an entry, but for `out`, which is none.
pub record Inv {W : Type 0} (out : ℕ) (k : Kernel W) : Type 0 where
  pub low : (i : ℕ) → i < nproc → used (k.procs i) ≡ true → (k.procs i).pid < k.next_pid
  pub unique :
      (i j : ℕ)
      → i < nproc
      → j < nproc
      → used (k.procs i) ≡ true
      → used (k.procs j) ≡ true
      → (k.procs i).pid ≡ (k.procs j).pid
      → i ≡ j
  pub level : (i : ℕ) → i < nproc → used (k.procs i) ≡ true → Level (k.procs i).queue
  pub member :
      (q j : ℕ)
      → j < k.len q
      → (k.slot q j < nproc)
        × ((k.procs (k.slot q j)).state ≡ runnable)
        × ((k.procs (k.slot q j)).queue ≡ pos q)
        × (k.slot q j ≢ out)
  pub nodup : (q a b : ℕ) → a < k.len q → b < k.len q → k.slot q a ≡ k.slot q b → a ≡ b
  pub complete : (i : ℕ) → i < nproc → (k.procs i).state ≡ runnable → i ≢ out → At k i

-- The invariant with no exception.
abbrev pub IsValid : {W : Type 0} → Kernel W → Type 0
IsValid k = Inv nproc k

module _ {W : Type 0} where
  -- The state after `add_proc_to_q` where the loop finds no entry.
  abbrev pub added : (p q : ℕ) → Kernel W → Kernel W
  added p q k = record k {
    procs = update k.procs p (record (k.procs p) { enter = k.ticks; queue = pos q });
    len = update k.len q (k.len q + 1);
    slot = update k.slot q (update (k.slot q) (k.len q) p);
  }

  -- A runnable process that is on no queue passes the test for duplicates.
  pub add-eq-added :
      {k : Kernel W} {p : ℕ} (q : ℕ)
      → Inv p k
      → p < nproc
      → (k.procs p).state ≡ runnable
      → add_proc_to_q p q k ≡ (added p q k, pos 1)
  unfolding add_proc_to_q
  add-eq-added {k} {p} q v lt r =
      elim (Option-cases (find_pid k (k.procs p).pid q (k.len q - 1) 0)) [
        | inl free ↦ ground arith
        | inr (j, found) ↦
            let f = find_pid-some k (k.procs p).pid q (k.len q - 1) 0 found in
            let (in_table, is_runnable, at_level, ne) = v.member q j (omega (arith, f.to)) in
            absurd (ne (v.unique (k.slot q j) p in_table lt (ground arith) (ground arith) f.hit))
      ]

  pub added-Inv :
      {k : Kernel W} {p : ℕ} (q : ℕ)
      → Inv p k
      → p < nproc
      → q < 5
      → (k.procs p).state ≡ runnable
      → IsValid (added p q k)
  added-Inv {k} {p} q v lt lq r = record {
    low = λ i li u. ground (arith, v.low i);
    unique = λ i j li lj ui uj e. ground (arith, v.unique i j);
    level = λ i li u. elim (Bool-cases (i == p)) [
      | inl same ↦ (q, ground arith, lq)
      | inr other ↦ let (n, e, small) = v.level i li (ground arith) in (n, ground arith, small)
    ];
    member = λ q' j lj. ground (arith, v.member q' j);
    nodup = λ q' a b la lb e. ground (arith, v.nodup q' a b, v.member q' a, v.member q' b);
    complete = λ i li s ne. elim (Bool-cases (i == p)) [
      | inl same ↦ (q, k.len q, ground arith, ground arith)
      | inr other ↦
          let (n, j, lj, e) = v.complete i li (ground arith) (ground arith) in
          (n, j, ground arith, ground arith)
    ];
  }
