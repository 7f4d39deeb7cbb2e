-- ===== src/Proc/Sched.antt =====
-- The MLFQ scheduler of xv6/proc.c, and what the timer interrupt of xv6/trap.c does for it.
-- What runs between the two calls of `swtch` is not part of a pass: `dispatch` ends where the
-- process starts, and `after_run` starts where it has come back.
pub mod Pass
pub mod Return
pub mod Choice
use a4team_os.Base.{
  ℕ, zero, suc, ◌+◌, ◌-◌, ◌*◌, ◌%◌, ◌^◌, ◌≤◌, ◌<◌, Bool, true, false, not, ◌&&◌, ◌||◌, ◌==◌, ltb,
  leb, if◌then◌else◌, update, Option, none, some, ℤ, pos, negsuc,
}
use a4team_os.Proc.{Proc, ProcState, runnable, running, Kernel, is_state, set_proc}
use a4team_os.Proc.Queue.{add_proc_to_q, remove_proc_from_q, requeue}

-- `int age = ticks - p->enter; age > 30`, the difference taken modulo 2 ^ 32 and read as signed.
abbrev pub is_old : (ticks enter : ℕ) → Bool
is_old ticks enter = let age = (ticks + 2 ^ 32 - enter) % 2 ^ 32 in ltb 30 age && ltb age (2 ^ 31)

-- `q_ticks_max`
unfoldable pub q_ticks_max : ℕ → ℕ
q_ticks_max zero = 2
q_ticks_max (suc zero) = 4
q_ticks_max (suc (suc zero)) = 8
q_ticks_max (suc (suc (suc zero))) = 16
q_ticks_max _ = 32

-- `p->queue+=1` unless it is 4.
abbrev pub lower : ℤ → ℤ
lower (pos q) = if q == 4 then pos q else pos (q + 1)
lower (negsuc n) = if n == 0 then pos 0 else negsuc (n - 1)

-- The share of ticks is reset, and a process that used up its share goes one row down.
pub charged : Proc → Proc
charged r =
    if r.change_q
    then record r { change_q = false; curr_ticks = 0; queue = lower r.queue }
    else record r { curr_ticks = 0 }

-- The row that an index names; the invariant rules out a negative one.
abbrev pub row_of : ℤ → ℕ
row_of (pos q) = q
row_of (negsuc n) = 0

module _ {W : Type 0} where
  -- The body of the aging loops, for the entry `j` of row `i`.
  pub age_entry : (i j : ℕ) → Kernel W → Kernel W
  age_entry i j k =
      let p = k.slot i j in
      if is_old k.ticks (k.procs p).enter
      then (add_proc_to_q p (i - 1) (remove_proc_from_q p i k).0).0
      else k

  -- `for(int j=0; j <= q_tail[i]; j++)`, on fuel; the bound is read anew in each round.
  pub age_row : ℕ → (i j : ℕ) → Kernel W → Kernel W
  unfolding age_entry
  age_row zero i j k = k
  age_row (suc f) i j k = elim (ltb j (k.len i)) [
    | true ↦ age_row f i (j + 1) (age_entry i j k)
    | false ↦ k
  ]

  -- `for(int i=1; i < 5; i++)`, `n` rows from `i` on.
  pub age_rows : ℕ → (i : ℕ) → Kernel W → Kernel W
  unfolding age_row
  age_rows zero i k = k
  age_rows (suc n) i k = age_rows n (i + 1) (age_row (k.len i) i 0 k)

  -- The first entry of the first row from `i` on, among `n`, that is not empty, taken off.
  pub pick : ℕ → (i : ℕ) → Kernel W → Option ℕ × Kernel W
  pick zero i k = (none, k)
  pick (suc n) i k =
      let rest = pick n (i + 1) k in
      if ltb 0 (k.len i)
      then (let p = k.slot i 0 in (some p, (remove_proc_from_q p i k).0))
      else rest

  -- The process is given the processor, if it is runnable.
  pub start_running : ℕ → Kernel W → Kernel W
  start_running p k =
      if is_state runnable (k.procs p).state
      then set_proc k p (record (k.procs p) { num_run = (k.procs p).num_run + 1; state = running })
      else k

  -- The process that was picked is started, if it is runnable.
  pub launch : Option ℕ × Kernel W → Option ℕ × Kernel W
  launch (none, k) = (none, k)
  launch (some p, k) =
      (if is_state runnable (k.procs p).state then some p else none, start_running p k)

  -- A pass of `scheduler` up to `swtch`: the process that starts, if any, and the state.
  pub dispatch : Kernel W → Option ℕ × Kernel W
  unfolding age_rows pick launch
  dispatch k = launch (pick 5 0 (age_rows 4 1 k))

  -- The rest of the pass, for the process that has come back.
  pub after_run : ℕ → Kernel W → Kernel W
  unfolding charged
  after_run p k =
      let r = k.procs p in
      if is_state runnable r.state then requeue p (set_proc k p (charged r)) else k

  -- `change_q_flag` and `incr_curr_ticks`.
  pub change_q_flag : ℕ → Kernel W → Kernel W
  change_q_flag p k = set_proc k p (record (k.procs p) { change_q = true })

  pub incr_curr_ticks : ℕ → Kernel W → Kernel W
  incr_curr_ticks p k =
      let r = k.procs p in
      set_proc k p (record r {
        curr_ticks = r.curr_ticks + 1;
        qticks = update r.qticks (row_of r.queue) (r.qticks (row_of r.queue) + 1);
      })

  -- The timer interrupt for the running process `p`: whether it calls `yield`. The queue index is
  -- one of the array by the invariant.
  pub timer_mlfq : ℕ → Kernel W → Bool × Kernel W
  unfolding change_q_flag incr_curr_ticks q_ticks_max
  timer_mlfq p k =
      if leb (q_ticks_max (row_of (k.procs p).queue)) (k.procs p).curr_ticks
      then (true, change_q_flag p k)
      else (false, incr_curr_ticks p k)
