-- ===== src/Proc/Create.antt =====
-- allocproc, userinit's queueing, growproc, fork and clone of xv6/proc.c. `cur` is `myproc()`.
pub mod Inv
pub mod Publish
pub mod Fork
pub mod Clone
use a4team_os.Base.{
  ℕ, zero, suc, ◌+◌, ◌-◌, ◌*◌, ◌%◌, ◌^◌, ◌≤◌, ◌<◌, Bool, true, false, not, ◌&&◌, ◌||◌, ◌==◌, ltb,
  leb, if◌then◌else◌, update, Option, none, some, ℤ, pos, negsuc, sub_ℕ,
}
use a4team_os.Proc.{
  TrapFrame, Proc, ProcState, unused, embryo, runnable, Kernel, nproc, nofile, is_state, set_proc,
  find_from, for_each,
}
use a4team_os.Proc.Services.{Services}
use a4team_os.Proc.Queue.{add_proc_to_q}

module _ {W : Type 0} (sv : Services W) where
  -- The part of `allocproc` under the lock, for the free slot `i`.
  pub claim : ℕ → Kernel W → Kernel W
  claim i k = record k {
    procs =
        update k.procs i
          (record (k.procs i) { state = embryo; pid = k.next_pid; tgid = k.next_tgid });
    next_pid = k.next_pid + 1;
    next_tgid = k.next_tgid + 1;
  }

  -- The fields that `allocproc` sets once it has a kernel stack, the ones of MLFQ included. The
  -- kernel context is left out.
  pub prepared : (kstack ticks : ℕ) → TrapFrame → Proc → Proc
  prepared kstack ticks tf p = record p {
    kstack = kstack;
    tf = tf;
    ctime = ticks;
    etime = 0;
    rtime = 0;
    iotime = 0;
    waitshh = negsuc 1282127;
    num_run = 0;
    priority = 50;
    curr_ticks = 0;
    queue = pos 0;
    enter = 0;
    qticks = λ _. 0;
  }

  -- The rest of `allocproc` without a page for the kernel stack, and with one.
  pub alloc_failed : ℕ → Kernel W → W → Kernel W
  unfolding claim
  alloc_failed i k w =
      set_proc (record (claim i k) { world = w }) i
        (record ((claim i k).procs i) { state = unused })

  pub alloc_done : ℕ → Kernel W → (page : ℕ) → W → Kernel W
  unfolding claim prepared
  alloc_done i k page w =
      set_proc (record (claim i k) { world = w }) i
        (prepared page k.ticks (sv.frame_in page w) ((claim i k).procs i))

  -- The new process, or none.
  pub allocproc : Kernel W → Option ℕ × Kernel W
  unfolding find_from alloc_failed alloc_done
  allocproc k = elim (find_from nproc 0 (λ i. is_state unused (k.procs i).state)) [
    | none ↦ (none, k)
    | some i ↦
        let (page, w) = sv.kalloc k.world in
        if page == 0 then (none, alloc_failed i k w) else (some i, alloc_done i k page w)
  ]

  -- `for(i = 0; i < NOFILE; i++) if(curproc->ofile[i]) np->ofile[i] = filedup(curproc->ofile[i]);`
  pub dup_files : (from : ℕ → ℕ) → (ℕ → ℕ) × W → (ℕ → ℕ) × W
  unfolding for_each
  dup_files from = for_each nofile 0 λ j (files, w).
      if from j == 0 then (files, w) else (update files j (from j), sv.filedup (from j) w)

  -- The new process as the common end of `fork` and `clone` leaves it.
  pub published : (cur i : ℕ) → Kernel W → Proc × W
  unfolding dup_files
  published cur i k =
      let (files, w) = dup_files (k.procs cur).ofile ((k.procs i).ofile, k.world) in
      (
        record (k.procs i) {
          ofile = files;
          cwd = (k.procs cur).cwd;
          name = (k.procs cur).name;
          state = runnable;
        },
        sv.idup (k.procs cur).cwd w,
      )

  -- The common end of `fork` and `clone`, from the copying of the open files on: the new process
  -- `i` becomes runnable on the first queue, and its pid is returned.
  pub publish : (cur i : ℕ) → Kernel W → Kernel W × ℤ
  unfolding published
  publish cur i k =
      let (p, w) = published cur i k in
      let k' = set_proc (record k { world = w }) i p in
      ((add_proc_to_q i 0 k').0, pos (k.procs i).pid)

  -- The child of `fork` with the copied page directory `pd`, and the state if there is none.
  pub forked : (cur i pd : ℕ) → Kernel W → W → Kernel W
  forked cur i pd k w =
      set_proc (record k { world = w }) i
        (record (k.procs i) {
          pgdir = pd;
          sz = (k.procs cur).sz;
          parent = some cur;
          tf = record ((k.procs cur).tf) { eax = 0 };
        })

  pub fork_failed : (i : ℕ) → Kernel W → W → Kernel W
  fork_failed i k w =
      set_proc (record k { world = sv.kfree (k.procs i).kstack w }) i
        (record (k.procs i) { pgdir = 0; kstack = 0; state = unused })

  -- `fork` from the answer of `allocproc` on.
  pub fork_from : (cur : ℕ) → Option ℕ × Kernel W → Kernel W × ℤ
  unfolding publish forked fork_failed
  fork_from cur (none, k) = (k, negsuc 0)
  fork_from cur (some i, k) =
      let (pd, w) = sv.copyuvm (k.procs cur).pgdir (k.procs cur).sz k.world in
      if pd == 0 then (fork_failed i k w, negsuc 0) else publish cur i (forked cur i pd k w)

  pub fork : (cur : ℕ) → Kernel W → Kernel W × ℤ
  unfolding allocproc fork_from
  fork cur k = fork_from cur (allocproc k)

  -- The new thread of `clone`, with the argument and a false return address on its stack.
  pub cloned : (cur i function arg stack : ℕ) → Kernel W → Kernel W
  cloned cur i function arg stack k =
      let c = k.procs cur in
      let w = sv.store_word c.pgdir ((stack + 4096 - 4) % 2 ^ 32) arg k.world in
      let w' = sv.store_word c.pgdir ((stack + 4096 - 8) % 2 ^ 32) 0xffffffff w in
      set_proc (record k { world = w' }) i
        (record (k.procs i) {
          sz = c.sz;
          pgdir = c.pgdir;
          parent = some cur;
          tgid = c.tgid;
          function = function;
          tf = record {
            eax = 0;
            eip = function;
            esp = (stack + 4096 - 8) % 2 ^ 32;
            ebp = (stack + 4096 - 8) % 2 ^ 32;
          };
          tstack = stack;
        })

  -- `clone` from the answer of `allocproc` on; `printinfo` only prints.
  pub clone_from : (cur function arg stack : ℕ) → Option ℕ × Kernel W → Kernel W × ℤ
  unfolding publish cloned
  clone_from cur function arg stack (none, k) = (k, negsuc 0)
  clone_from cur function arg stack (some i, k) = publish cur i (cloned cur i function arg stack k)

  pub clone : (cur function arg stack : ℕ) → Kernel W → Kernel W × ℤ
  unfolding allocproc clone_from
  clone cur function arg stack k = clone_from cur function arg stack (allocproc k)
