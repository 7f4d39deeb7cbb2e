-- ===== src/Lib.antt =====
-- A verification library for the xv6-based kernel of this repository (directory xv6): a small Unix
-- for the x86 with a multi-level feedback queue scheduler, threads (clone and join) and process
-- times (waitx).
--
-- Parts and files. Base holds the shared Boolean tests, lists, integers and maps.
-- Str models xv6/string.c (memset, memcmp, memmove, strncmp, strncpy, safestrcpy, strlen) with the
-- string instructions of xv6/x86.h, on a memory that is a function from addresses to bytes.
-- Print models printint of xv6/printf.c and atoi of xv6/ulib.c.
-- Pipe models xv6/pipe.c: a ring of 512 bytes with free-running counters.
-- Alloc models xv6/kalloc.c: the free list of physical pages, threaded through the pages.
-- Proc models xv6/proc.h and xv6/proc.c, and the timer branch of xv6/trap.c. Its record Kernel
-- holds the process table, the five run queues and the counters. Proc/Queue has add_proc_to_q and
-- remove_proc_from_q and the invariant of table and queues; Proc/Life has sleep, wakeup, kill, yield
-- and ticking; Proc/Create has allocproc, fork and clone; Proc/Finish has exit, wait, waitx and
-- join; Proc/Sched has the scheduler in the build that the Makefile chooses (MLFQ).
-- Log models xv6/log.c: begin_op, end_op, log_write, commit and recovery, on a disk that may stop
-- at any write (the field `power` counts the writes that still reach it).
-- Grep models the matcher of xv6/grep.c, on the lists of characters of C strings.
-- Lock models xv6/spinlock.c and xv6/sleeplock.c.
-- Syscall models the argument checks of xv6/syscall.c.
-- Fs models xv6/fs.c, on one device whose blocks are read and written at once: Fs/Alloc balloc and
-- bfree, Fs/Content bmap, itrunc, readi and writei, Fs/Cache the inode cache, Fs/Dir directories
-- and namex. The loops of readi and writei run on as much fuel as there are bytes, the walk along a
-- path on one more than its characters. Path models skipelem.
-- Bio models xv6/bio.c: the buffers and the links of their list, as functions from indices, where
-- 30 is the head; each call runs as a whole,
-- and a sleep lock is a flag and the pid of its holder, here as in Fs/Cache. The loops along the list run on fuel for 30 buffers.
-- File models the file table of xv6/file.c, Ulib the string functions of xv6/ulib.c, and
-- Proc/Grow growproc and the clock interrupt; these three hold definitions only.
-- Ide models xv6/ide.c: the queue of buffers that wait for the disk, and what is sent to the ports.
-- Vm models xv6/vm.c: a page, named by its kernel address, is a table of entries or 4096 bytes, and
-- kalloc and kfree are those of Alloc. Vm has walkpgdir and mappages, Vm/Space setupkvm, allocuvm,
-- deallocuvm, freevm and copyuvm, Vm/Copy inituvm, loaduvm and copyout. Its loops over pages run
-- on fuel for the pages of the range, mappages on their number.
-- Console models xv6/console.c: consoleintr, consoleread and consolewrite on the ring buffer
-- `input`, where a sleep is a burst of what is typed meanwhile, and in Console/Screen cgaputc.
-- Console/Line describes the buffer as a line that is edited.
-- Shell models the parser of xv6/sh.c on fuel, one more than the characters of the command line.
-- Tests has concrete inputs for the theorems.
--
-- How the parts interact. proc.c calls the page allocator, the page tables and the file system; in
-- the model these calls are the fields of the record Services (Proc/Services), and the theorems
-- hold for any such functions. The pipe's `wakeup` is returned as the channel that is woken.
--
-- Machine words. The pipe's counters wrap at 2 ^ 32, and so do the age of a queued process, the
-- argument of printint, the int of atoi, V2P in kfree, the stack addresses of clone, the addresses
-- of Vm, the counters of the console, the ticks and the addresses of Syscall. Pids and times are
-- unbounded numbers. The index q_tail[q] is kept as the length q_tail[q] + 1.
--
-- Fuel. Loops over a bounded range are recursion on their number of rounds. strlen, atoi, printint,
-- freerange, the aging loop and the parser of Shell run on fuel, with theorems that say how much is
-- enough.
--
-- Locks. A stretch of code under one lock is one step, so locks are left out of the states; sleep,
-- sched and swtch end a stretch, and the code after them is a definition of its own.
--
-- Not modelled: the other drivers, boot code, assembly and the loading of segments and of page
-- table registers, which work on the hardware; the commands of the shell once they are parsed, and
-- the small programs, which only make system calls; the code that only prints.
pub mod Base
pub mod Str
pub mod Print
pub mod Pipe
pub mod Alloc
pub mod Proc
pub mod Log
pub mod Grep
pub mod Lock
pub mod Syscall
pub mod File
pub mod Path
pub mod Fs
pub mod Bio
pub mod Ide
pub mod Vm
pub mod Console
pub mod Shell
pub mod Ulib
pub mod Tests
