-- ===== src/Lock.antt =====
-- Model of xv6/spinlock.c and xv6/sleeplock.c. Processors are numbered; each has its interrupt
-- flag and its count of pushcli.
pub mod Nesting
use a4team_os.Base.{
  ℕ, zero, suc, ◌+◌, ◌-◌, Bool, true, false, not, ◌&&◌, ◌||◌, ◌==◌, if◌then◌else◌, Option, none,
  some,
}

-- The part of `struct cpu` that pushcli and popcli use, with the interrupt flag of the processor.
pub record Cpu : Type 0 where
  pub enabled : Bool
  pub ncli : ℕ
  pub intena : Bool

-- `struct spinlock`, without what is for debugging; `cpu` is the processor that holds it.
pub record Spinlock : Type 0 where
  pub locked : Bool
  pub cpu : Option ℕ

abbrev pub same_cpu : ℕ → Option ℕ → Bool
same_cpu c none = false
same_cpu c (some d) = c == d

pub initlock : Spinlock
initlock = record { locked = false; cpu = none }

pub pushcli : Cpu → Cpu
pushcli c = record {
  enabled = false;
  ncli = c.ncli + 1;
  intena = if c.ncli == 0 then c.enabled else c.intena;
}

-- `popcli`; none is a panic.
pub popcli : Cpu → Option Cpu
popcli c =
    if c.enabled || (c.ncli == 0)
    then none
    else some (record c { ncli = c.ncli - 1; enabled = (c.ncli == 1) && c.intena })

-- What `holding` answers; its pushcli and popcli cancel out.
pub holds : (me : ℕ) → Spinlock → Bool
holds me lk = lk.locked && same_cpu me lk.cpu

-- How a round of `acquire` ends, with interrupts off since its first line.
pub data Acquire : Type 0 where
  panics spins : Cpu → Acquire
  acquired : Cpu → Spinlock → Acquire

pub acquire : (me : ℕ) → Cpu → Spinlock → Acquire
unfolding pushcli holds
acquire me c lk =
    if holds me lk
    then panics (pushcli c)
    else if lk.locked
    then spins (pushcli c)
    else acquired (pushcli c) (record { locked = true; cpu = some me })

-- `release`; none is a panic.
pub release : (me : ℕ) → Cpu → Spinlock → Option (Cpu × Spinlock)
unfolding holds popcli
release me c lk =
    if holds me lk
    then elim (popcli c) [
      | none ↦ none
      | some c' ↦ some (c', record { locked = false; cpu = none })
    ]
    else none

-- `struct sleeplock`; `pid` is 0 if no one holds it.
pub record Sleeplock : Type 0 where
  pub held : Bool
  pub pid : ℕ

pub initsleeplock : Sleeplock
initsleeplock = record { held = false; pid = 0 }

-- `acquiresleep`: none if the caller goes to sleep.
pub acquiresleep : (pid : ℕ) → Sleeplock → Option Sleeplock
acquiresleep pid lk = if lk.held then none else some (record { held = true; pid = pid })

pub releasesleep : Sleeplock → Sleeplock
releasesleep lk = record { held = false; pid = 0 }

pub holdingsleep : (pid : ℕ) → Sleeplock → Bool
holdingsleep pid lk = lk.held && (lk.pid == pid)
