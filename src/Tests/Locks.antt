-- ===== src/Tests/Locks.antt =====
-- The theorems on locks, at a processor with interrupts on.
use a4team_os.Base.{ℕ, ◌≡◌, refl, ◌≢◌, true, false, none, some}
use a4team_os.Lock.{
  Cpu, Spinlock, pushcli, holds, acquired, panics, spins, acquire, release, initlock,
}
use a4team_os.Lock.Nesting.{SameFlags, acquire-release}

abbrev idle_cpu : Cpu
idle_cpu = record { enabled = true; ncli = 0; intena = false }

abbrev free_lock : Spinlock
free_lock = record { locked = false; cpu = none }

acquire-release_example :
    (c1 : Cpu) × (lk1 : Spinlock) × (acquire 1 idle_cpu free_lock ≡ acquired c1 lk1)
    × (holds 1 lk1 ≡ true)
    × ((other : ℕ) (d : Cpu) → other ≢ 1 → acquire other d lk1 ≡ spins (pushcli d))
    × ((d : Cpu) → acquire 1 d lk1 ≡ panics (pushcli d))
    × ((c2 : Cpu) × (release 1 c1 lk1 ≡ some (c2, initlock)) × SameFlags idle_cpu c2)
acquire-release_example = acquire-release 1 idle_cpu free_lock (λ ne. absurd (ne refl)) refl
