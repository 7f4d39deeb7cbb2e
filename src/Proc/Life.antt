-- ===== src/Proc/Life.antt =====
-- The life of a process in xv6/proc.c: allocproc, fork, clone, exit, wait, waitx, join, sleep,
-- wakeup, kill. `cur` is `myproc()`.
pub mod Wake
pub mod Kill
use a4team_os.Base.{
  ℕ, zero, suc, ◌+◌, ◌-◌, ◌*◌, ◌%◌, ◌^◌, ◌≤◌, ◌<◌, Bool, true, false, not, ◌&&◌, ◌||◌, ◌==◌, ltb,
  leb, if◌then◌else◌, update, Option, none, some, ℤ, pos, negsuc, sub_ℕ,
}
use a4team_os.Proc.{
  Proc, ProcState, unused, embryo, sleeping, runnable, running, zombie, Chan, null, at_proc,
  same_chan, Kernel, nproc, nofile, is_state, set_proc, find_from, for_each,
}
use a4team_os.Proc.Services.{Services}
use a4team_os.Proc.Queue.{add_proc_to_q, requeue, unqueue}

module _ {W : Type 0} where
  -- `p->state == s` for the process `i`.
  abbrev pub in_state : ProcState → Kernel W → ℕ → Bool
  in_state s k i = is_state s (k.procs i).state

  -- One round of `wakeup1`.
  unfoldable pub wake_one : Chan → ℕ → Kernel W → Kernel W
  wake_one chan i k =
      if in_state sleeping k i && same_chan (k.procs i).chan chan
      then requeue i (set_proc k i (record (k.procs i) { state = runnable; curr_ticks = 0 }))
      else k

  unfoldable pub wakeup1 : Chan → Kernel W → Kernel W
  unfolding for_each wake_one
  wakeup1 chan k = for_each nproc 0 (wake_one chan) k

  -- `sleep` up to the call of `sched`, and after it. The locks are left out.
  unfoldable pub sleep_start : (cur : ℕ) → Chan → Kernel W → Kernel W
  sleep_start cur chan k = set_proc k cur (record (k.procs cur) { chan = chan; state = sleeping })

  pub sleep_end : (cur : ℕ) → Kernel W → Kernel W
  sleep_end cur k = set_proc k cur (record (k.procs cur) { chan = null })

  -- `yield` up to the call of `sched`.
  pub yield_start : (cur : ℕ) → Kernel W → Kernel W
  yield_start cur k = set_proc k cur (record (k.procs cur) { state = runnable })

  -- The part of `kill` for the process found.
  pub kill_at : ℕ → Kernel W → Kernel W
  kill_at i k =
      let k' = set_proc k i (record (k.procs i) { killed = true }) in
      if in_state sleeping k' i
      then requeue i (set_proc k' i (record (k'.procs i) { state = runnable; curr_ticks = 0 }))
      else k'

  pub kill : (pid : ℕ) → Kernel W → Kernel W × ℤ
  unfolding find_from kill_at
  kill pid k = elim (find_from nproc 0 (λ i. (k.procs i).pid == pid)) [
    | none ↦ (k, negsuc 0)
    | some i ↦ (kill_at i k, pos 0)
  ]

  -- `ticking`, one round and the loop.
  pub tick_one : ℕ → Kernel W → Kernel W
  tick_one i k =
      let k' =
        if in_state running k i
        then set_proc k i (record (k.procs i) { rtime = (k.procs i).rtime + 1 })
        else k in
      if in_state sleeping k' i
      then set_proc k' i (record (k'.procs i) { iotime = (k'.procs i).iotime + 1 })
      else k'

  pub ticking : Kernel W → Kernel W
  unfolding for_each tick_one
  ticking k = for_each nproc 0 tick_one k
