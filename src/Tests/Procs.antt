-- ===== src/Tests/Procs.antt =====
-- The theorems on the life of a process, at the state `four`.
use a4team_os.Base.{ℕ, ◌<◌, refl, ◌≢◌, arith}
use a4team_os.Proc.{at_object, nproc}
use a4team_os.Proc.Queue.Inv.{IsValid}
use a4team_os.Proc.Life.{wakeup1, kill}
use a4team_os.Proc.Life.Wake.{Woken, wakeup1-Woken}
use a4team_os.Proc.Life.Kill.{Killed, kill-Killed}
use a4team_os.Proc.Create.{fork, clone}
use a4team_os.Proc.Create.Fork.{Spawned, fork-Spawned}
use a4team_os.Proc.Create.Clone.{Threaded, clone-Threaded}
use a4team_os.Proc.Finish.Exit.{Exited, exit-Exited}
use a4team_os.Base.{some}
use a4team_os.Proc.{Kernel}
use a4team_os.Proc.Finish.{exit, wait, no_kids, wait_relevant, child_of, waitx, join_relevant, join}
use a4team_os.Proc.Finish.Reap.{Waited, wait-Waited, join-Waited, wait-ne-no_kids}
use a4team_os.Tests.Kernels.{four, four-IsValid, plain}

wakeup1-Woken_example :
    IsValid (wakeup1 (at_object 7) four)
    × ((i : ℕ)
        → i < nproc
        → Woken (at_object 7) (four.procs i) ((wakeup1 (at_object 7) four).procs i))
wakeup1-Woken_example = wakeup1-Woken (at_object 7) four four-IsValid

kill-Killed_example : Killed 3 four (kill 3 four)
kill-Killed_example = kill-Killed 3 four four-IsValid

fork-Spawned_example : Spawned plain 0 four (fork plain 0 four)
fork-Spawned_example = fork-Spawned plain 0 four four-IsValid (λ e. cc)

clone-Threaded_example : Threaded plain 0 4096 8192 four (clone plain 0 4096 5 8192 four)
clone-Threaded_example = clone-Threaded plain 0 4096 5 8192 four four-IsValid (λ e. cc)

wait-Waited_example : Waited 0 (wait_relevant 0 four) four (wait plain 0 four)
wait-Waited_example = wait-Waited plain 0 four four-IsValid (omega arith) refl

join-Waited_example :
    Waited 0 (child_of 0 four) four (waitx plain 0 four)
    × Waited 0 (join_relevant 0 4 four) four (join plain 0 4 four)
join-Waited_example = join-Waited plain 0 4 four four-IsValid (omega arith) refl

wait-ne-no_kids_example : wait plain 0 four ≢ no_kids four
wait-ne-no_kids_example = wait-ne-no_kids plain 0 four four four-IsValid (omega arith) refl refl

-- The state `four` with another first process.
abbrev not_first : Kernel ℕ
not_first = record four { initproc = some 1 }

not_first-IsValid : IsValid not_first
not_first-IsValid = record {
  low = four-IsValid.low;
  unique = four-IsValid.unique;
  level = four-IsValid.level;
  member = four-IsValid.member;
  nodup = four-IsValid.nodup;
  complete = four-IsValid.complete;
}

exit-Exited_example : Exited 0 not_first (exit plain 0 not_first)
exit-Exited_example = exit-Exited plain 0 not_first not_first-IsValid (omega arith) refl
