-- ===== src/Tests/Syscalls.antt =====
-- The theorems on the arguments of system calls, at a small process.
use a4team_os.Base.{◌+◌, ◌≤◌, ◌<◌, ◌≡◌, refl, ◌==◌, if◌then◌else◌, arith, some, pos}
use a4team_os.Str.{Memory}
use a4team_os.Syscall.{word_at, fetchint, fetchstr_loop, fetchstr, argint, argptr}
use a4team_os.Syscall.Bounds.{argptr_bounds}

-- The word at 8 is 16, and the byte at 17 is 5.
abbrev stack : Memory
stack a = if a == 8 then 16 else if a == 17 then 5 else 0

pointer : argptr 64 4 stack 0 (pos 8) ≡ some 16
unfolding argptr argint fetchint word_at
pointer = refl

argptr_bounds_example : (argint 64 4 stack 0 ≡ some 16) × (16 < 64) × (16 + 8 ≤ 64)
argptr_bounds_example = argptr_bounds 64 4 stack 0 8 16 (omega arith) (omega arith) pointer

short : fetchstr 64 stack 17 ≡ some 1
unfolding fetchstr fetchstr_loop
short = refl
