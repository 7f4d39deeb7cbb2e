-- ===== src/Tests/Kernels.antt =====
-- Concrete states of the process table: a running process, a runnable one on the first queue, a
-- sleeper, and a zombie child of the first.
use a4team_os.Base.{ℕ, ◌+◌, ◌*◌, true, false, ◌==◌, if◌then◌else◌, arith, Option, none, some, pos}
use a4team_os.Proc.{
  Proc, ProcState, unused, sleeping, runnable, running, zombie, Chan, null, at_object, TrapFrame,
  Kernel,
}
use a4team_os.Proc.Services.{Services}
use a4team_os.Proc.Queue.Inv.{Inv, IsValid}

abbrev pub some_frame : TrapFrame
some_frame = record { eax = 5; eip = 4096; esp = 8000; ebp = 8008 }

abbrev pub process : ProcState → (pid pgdir : ℕ) → (parent : Option ℕ) → Chan → Proc
process s id dir par c = record {
  sz = 8192;
  pgdir = dir;
  kstack = 4096 * id;
  tstack = 0;
  state = s;
  pid = id;
  tgid = id;
  parent = par;
  tf = some_frame;
  chan = c;
  killed = false;
  ofile = λ fd. if fd == 1 then 77 else 0;
  cwd = 3;
  name = 9;
  iotime = 0;
  rtime = 0;
  ctime = 1;
  etime = 0;
  waitshh = pos 0;
  priority = 60;
  num_run = 0;
  qticks = λ q. 0;
  queue = pos 0;
  curr_ticks = 2;
  change_q = true;
  enter = 1;
  function = 0;
}

abbrev pub table : ℕ → Proc
table i =
    if i == 0
    then process running 1 100 none null
    else if i == 1
    then process runnable 2 200 (some 0) null
    else if i == 2
    then process sleeping 3 300 (some 0) (at_object 7)
    else if i == 3
    then process zombie 4 400 (some 0) null
    else process unused 0 0 none null

abbrev pub four : Kernel ℕ
four = record {
  procs = table;
  next_pid = 5;
  next_tgid = 5;
  initproc = some 0;
  slot = λ q j. 1;
  len = λ q. if q == 0 then 1 else 0;
  ticks = 3;
  world = 0;
}

-- The state with process 1 off its queue, as after `yield`.
abbrev pub yielded : Kernel ℕ
yielded = record four { len = λ q. 0 }

pub four-IsValid : IsValid four
four-IsValid = record {
  low = λ i li u. ground arith;
  unique = λ i j li lj ui uj e. ground arith;
  level = λ i li u. (0, ground arith, omega arith);
  member = λ q j lj. ground arith;
  nodup = λ q a b la lb e. ground arith;
  complete = λ i li s ne. (0, 0, omega arith, ground arith);
}

pub yielded-Inv : Inv 1 yielded
yielded-Inv = record {
  low = λ i li u. ground arith;
  unique = λ i j li lj ui uj e. ground arith;
  level = λ i li u. (0, ground arith, omega arith);
  member = λ q j lj. absurd (omega arith);
  nodup = λ q a b la lb e. absurd (omega arith);
  complete = λ i li s ne. ground arith;
}

-- Services that find a free page and can copy every address space.
abbrev pub plain : Services ℕ
plain = record {
  kalloc = λ w. (8192 + w, w + 1);
  kfree = λ page w. w;
  frame_in = λ page w. some_frame;
  copyuvm = λ dir size w. (500 + w, w + 1);
  freevm = λ dir w. w;
  allocuvm = λ dir old new w. (new, w);
  deallocuvm = λ dir old new w. (new, w);
  filedup = λ f w. w;
  fileclose = λ f w. w;
  idup = λ ip w. w;
  put_cwd = λ ip w. w;
  store_word = λ dir addr word w. w;
}
