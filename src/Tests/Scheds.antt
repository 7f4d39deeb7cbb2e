-- ===== src/Tests/Scheds.antt =====
-- The theorems on the scheduler and its queues, at concrete states.
use a4team_os.Base.{◌≡◌, arith}
use a4team_os.Proc.{runnable}
use a4team_os.Proc.Queue.Inv.{IsValid}
use a4team_os.Proc.Sched.{dispatch, after_run}
use a4team_os.Proc.Sched.Return.{NextRow, after_run-IsValid}
use a4team_os.Proc.Sched.Choice.{Dispatched, dispatch-Dispatched}
use a4team_os.Tests.Kernels.{four, four-IsValid, yielded, yielded-Inv}

dispatch-Dispatched_example : Dispatched four (dispatch four)
dispatch-Dispatched_example = dispatch-Dispatched four four-IsValid

after_run-IsValid_example :
    IsValid (after_run 1 yielded)
    × ((yielded.procs 1).state ≡ runnable
        → (((after_run 1 yielded).procs 1).state ≡ runnable)
          × NextRow
              (yielded.procs 1).change_q
              (yielded.procs 1).queue
              ((after_run 1 yielded).procs 1).queue)
after_run-IsValid_example = after_run-IsValid 1 yielded yielded-Inv (omega arith)
