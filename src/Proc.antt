-- ===== src/Proc.antt =====
-- Model of xv6/proc.h and of the process table of xv6/proc.c, in the build that the Makefile
-- chooses (SCHEDULER = MLFQ).
-- A pointer to a `struct proc` is an index of the table, below 64. Each stretch of code under
-- `ptable.lock` is one step, so the lock is left out of the state.
pub mod Queue
pub mod Services
pub mod Loops
pub mod Life
pub mod Create
pub mod Finish
pub mod Sched
pub mod Grow
use a4team_os.Base.{
  ℕ, zero, suc, ◌+◌, ◌-◌, ◌≤◌, ◌<◌, Bool, true, false, not, ◌&&◌, ◌||◌, ◌==◌, ltb, leb,
  if◌then◌else◌, update, Option, none, some, ℤ, pos, negsuc,
}

abbrev pub nproc : ℕ
nproc = 64

abbrev pub nofile : ℕ
nofile = 16

-- `enum procstate`
pub data ProcState : Type 0 where
  unused embryo sleeping runnable running zombie : ProcState

-- What a process can sleep on: the addresses of a process, of another object, or null.
pub data Chan : Type 0 where
  null : Chan
  at_proc : ℕ → Chan
  at_object : ℕ → Chan

abbrev pub same_chan : Chan → Chan → Bool
same_chan null null = true
same_chan (at_proc i) (at_proc j) = i == j
same_chan (at_object a) (at_object b) = a == b
same_chan _ _ = false

-- The part of `struct trapframe` that fork, clone and the system calls touch.
pub record TrapFrame : Type 0 where
  pub eax : ℕ
  pub eip : ℕ
  pub esp : ℕ
  pub ebp : ℕ

-- `struct proc`; a null pointer is 0 or `none`. `name` is kept as one value: it is only copied.
pub record Proc : Type 0 where
  pub sz : ℕ
  pub pgdir : ℕ
  pub kstack : ℕ
  pub tstack : ℕ
  pub state : ProcState
  pub pid : ℕ
  pub tgid : ℕ
  pub parent : Option ℕ
  pub tf : TrapFrame
  pub chan : Chan
  pub killed : Bool
  pub ofile : ℕ → ℕ
  pub cwd : ℕ
  pub name : ℕ
  pub iotime : ℕ
  pub rtime : ℕ
  pub ctime : ℕ
  pub etime : ℕ
  pub waitshh : ℤ
  pub priority : ℕ
  pub num_run : ℕ
  pub qticks : ℕ → ℕ
  pub queue : ℤ
  pub curr_ticks : ℕ
  pub change_q : Bool
  pub enter : ℕ
  pub function : ℕ

-- The globals of proc.c, with `ticks` of trap.c. `len q` is `q_tail[q] + 1`. `world` is the state
-- of the other parts of the kernel, which proc.c reaches by calls only.
pub record Kernel (W : Type 0) : Type 0 where
  pub procs : ℕ → Proc
  pub next_pid : ℕ
  pub next_tgid : ℕ
  pub initproc : Option ℕ
  pub slot : ℕ → ℕ → ℕ
  pub len : ℕ → ℕ
  pub ticks : ℕ
  pub world : W

abbrev pub is_state : ProcState → ProcState → Bool
is_state unused unused = true
is_state embryo embryo = true
is_state sleeping sleeping = true
is_state runnable runnable = true
is_state running running = true
is_state zombie zombie = true
is_state _ _ = false

module _ {W : Type 0} where
  -- `p->field = ...` for the process `i`.
  abbrev pub set_proc : Kernel W → ℕ → Proc → Kernel W
  set_proc k i p = record k { procs = update k.procs i p }

-- `for(p = ptable.proc; p < &ptable.proc[NPROC]; p++)` with an exit: the first index from `i` on,
-- among `n`, that passes the test.
pub find_from : ℕ → (i : ℕ) → (ℕ → Bool) → Option ℕ
find_from zero i test = none
find_from (suc n) i test = let rest = find_from n (i + 1) test in if test i then some i else rest

-- The same loop run to its end.
pub for_each {ℓ} : {S : Type ℓ} → ℕ → (i : ℕ) → (ℕ → S → S) → S → S
for_each zero i body s = s
for_each (suc n) i body s = for_each n (i + 1) body (body i s)
