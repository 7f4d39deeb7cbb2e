-- ===== src/Proc/Finish.antt =====
-- The end of a process in xv6/proc.c: exit, wait, waitx and join. `cur` is `myproc()`.
pub mod Reap
pub mod Adopt
pub mod Exit
use a4team_os.Base.{
  ℕ, zero, suc, ◌+◌, ◌-◌, ◌*◌, ◌%◌, ◌^◌, ◌≤◌, ◌<◌, Bool, true, false, not, ◌&&◌, ◌||◌, ◌==◌, ltb,
  leb, if◌then◌else◌, update, Option, none, some, ℤ, pos, negsuc, sub_ℕ,
}
use a4team_os.Proc.{
  Proc, ProcState, unused, embryo, sleeping, runnable, running, zombie, Chan, null, at_proc,
  same_chan, Kernel, nproc, nofile, is_state, set_proc, find_from, for_each,
}
use a4team_os.Proc.Services.{Services}
use a4team_os.Proc.Queue.{unqueue}
use a4team_os.Proc.Life.{wakeup1, sleep_start}

abbrev pub same_ptr : Option ℕ → Option ℕ → Bool
same_ptr none none = true
same_ptr (some i) (some j) = i == j
same_ptr _ _ = false

abbrev pub chan_of : Option ℕ → Chan
chan_of none = null
chan_of (some i) = at_proc i

-- The loop of `wait`, `waitx` and `join` over the table: whether a process was relevant before the
-- loop ended, and the first relevant one that is ready to be reaped.
pub scan : (relevant ready : ℕ → Bool) → ℕ → (i : ℕ) → (havekids : Bool) → Bool × Option ℕ
scan relevant ready zero i havekids = (havekids, none)
scan relevant ready (suc n) i havekids =
    let next = scan relevant ready n (i + 1) (relevant i || havekids) in
    if relevant i && ready i then (true, some i) else next

-- How one round of `wait`, `waitx` or `join` ends: a pid is returned, -1 is returned, or the
-- caller goes to sleep on its own address.
pub data WaitResult (W : Type 0) : Type 0 where
  reaped : ℕ → Kernel W → WaitResult W
  no_kids : Kernel W → WaitResult W
  sleeps : Kernel W → WaitResult W

-- The process as `wait`, `waitx` and `join` leave its slot.
abbrev pub cleared : Proc → Proc
cleared p = record p {
  kstack = 0;
  pid = 0;
  parent = none;
  name = 0;
  killed = false;
  state = unused;
}

module _ {W : Type 0} where
  -- One round of the loop of `exit` that hands the children to `initproc`.
  pub adopt_one : (cur : ℕ) → ℕ → Kernel W → Kernel W
  adopt_one cur i k =
      if same_ptr (k.procs i).parent (some cur)
      then (let k' = set_proc k i (record (k.procs i) { parent = k.initproc }) in
          if is_state zombie (k'.procs i).state then wakeup1 (chan_of k'.initproc) k' else k')
      else k

  pub become_zombie : (cur : ℕ) → Kernel W → Kernel W
  become_zombie cur k =
      let c = k.procs cur in
      set_proc k cur (record c { state = zombie; etime = k.ticks; waitshh = sub_ℕ k.ticks c.ctime })

  -- The rest of one round, for what the loop has found.
  pub settle : (cur : ℕ) → (ℕ → Kernel W → Kernel W) → Kernel W → Bool × Option ℕ → WaitResult W
  settle cur reap k (havekids, some i) = reaped (k.procs i).pid (reap i k)
  settle cur reap k (havekids, none) =
      if not havekids || (k.procs cur).killed
      then no_kids k
      else sleeps (sleep_start cur (at_proc cur) k)

  abbrev pub is_zombie : Kernel W → ℕ → Bool
  is_zombie k i = is_state zombie (k.procs i).state

  -- The negation of `p->parent != curproc && p->pgdir != curproc->pgdir`.
  abbrev pub wait_relevant : (cur : ℕ) → Kernel W → ℕ → Bool
  wait_relevant cur k i =
      same_ptr (k.procs i).parent (some cur) || ((k.procs i).pgdir == (k.procs cur).pgdir)

  abbrev pub child_of : (cur : ℕ) → Kernel W → ℕ → Bool
  child_of cur k i = same_ptr (k.procs i).parent (some cur)

  -- The times that `waitx` stores through its pointers, of the zombie `i`: `*rtime` and `*wtime`.
  pub times : ℕ → Kernel W → ℕ × ℤ
  times i k = let p = k.procs i in (p.rtime, sub_ℕ p.etime (p.ctime + p.rtime + p.iotime))

  abbrev pub join_relevant : (cur tid : ℕ) → Kernel W → ℕ → Bool
  join_relevant cur tid k i =
      child_of cur k i && ((k.procs i).pgdir == (k.procs cur).pgdir) && ((k.procs i).pid == tid)

module _ {W : Type 0} (sv : Services W) where
  -- `for(fd = 0; fd < NOFILE; fd++)` of `exit`.
  pub close_files : (ℕ → ℕ) × W → (ℕ → ℕ) × W
  unfolding for_each
  close_files = for_each nofile 0 λ fd (files, w).
      if files fd == 0 then (files, w) else (update files fd 0, sv.fileclose (files fd) w)

  -- The files and the directory are given back.
  pub let_go : (cur : ℕ) → Kernel W → Kernel W
  unfolding close_files
  let_go cur k =
      let (files, w) = close_files ((k.procs cur).ofile, k.world) in
      set_proc (record k { world = sv.put_cwd (k.procs cur).cwd w }) cur
        (record (k.procs cur) { ofile = files; cwd = 0 })

  -- `exit` up to the call of `sched`; none is the panic "init exiting".
  pub exit : (cur : ℕ) → Kernel W → Option (Kernel W)
  unfolding let_go adopt_one become_zombie for_each
  exit cur k =
      if same_ptr (some cur) k.initproc
      then none
      else (let k1 = let_go cur k in
          let k2 = wakeup1 (chan_of (k1.procs cur).parent) k1 in
          let k3 = for_each nproc 0 (adopt_one cur) k2 in some (become_zombie cur k3))

  -- What `wait` does to the zombie that it has found.
  pub wait_reap : ℕ → Kernel W → Kernel W
  wait_reap i k =
      let k1 = record k {
        world = sv.freevm (k.procs i).pgdir (sv.kfree (k.procs i).kstack k.world);
      } in
      let k2 = unqueue i (set_proc k1 i (record (k1.procs i) { kstack = 0 })) in
      set_proc k2 i (record (cleared (k2.procs i)) { queue = negsuc 0; tgid = 0 })

  -- `waitx` does not reset the group.
  pub waitx_reap : ℕ → Kernel W → Kernel W
  waitx_reap i k =
      let k1 = record k {
        world = sv.freevm (k.procs i).pgdir (sv.kfree (k.procs i).kstack k.world);
      } in
      let k2 = unqueue i (set_proc k1 i (record (k1.procs i) { kstack = 0 })) in
      set_proc k2 i (record (cleared (k2.procs i)) { queue = negsuc 0 })

  -- `join` keeps the address space, and takes no one off a queue.
  pub join_reap : ℕ → Kernel W → Kernel W
  join_reap i k =
      let k1 = record k { world = sv.kfree (k.procs i).kstack k.world } in
      set_proc k1 i (record (cleared (k1.procs i)) { tstack = 0 })

  pub wait : (cur : ℕ) → Kernel W → WaitResult W
  unfolding scan settle wait_reap
  wait cur k = settle cur wait_reap k (scan (wait_relevant cur k) (is_zombie k) nproc 0 false)

  pub waitx : (cur : ℕ) → Kernel W → WaitResult W
  unfolding scan settle waitx_reap
  waitx cur k = settle cur waitx_reap k (scan (child_of cur k) (is_zombie k) nproc 0 false)

  -- The stack that goes back through the pointer is the `tstack` of the process found.
  pub join : (cur tid : ℕ) → Kernel W → WaitResult W
  unfolding scan settle join_reap
  join cur tid k =
      settle cur join_reap k (scan (join_relevant cur tid k) (is_zombie k) nproc 0 false)
