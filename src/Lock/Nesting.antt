-- ===== src/Lock/Nesting.antt =====
-- pushcli and popcli of xv6/spinlock.c nest, and a spin lock excludes.
use a4team_os.Base.{
  ℕ, zero, suc, ◌-◌, ◌≡◌, refl, ◌≢◌, true, false, ◌&&◌, ◌==◌, if◌then◌else◌, arith, Option, none,
  some, Bool-cases, ==_refl, inl, inr,
}
use a4team_os.Lock.{
  Cpu, Spinlock, pushcli, popcli, holds, acquired, panics, spins, acquire, release, initlock,
}

-- Interrupts are off while the count is not 0.
abbrev pub IsNested : Cpu → Type 0
IsNested c = c.ncli ≢ 0 → c.enabled ≡ false

-- The same flag and count, and inside a nest the same flag to come back to.
abbrev pub SameFlags : Cpu → Cpu → Type 0
SameFlags c c' = (c'.enabled ≡ c.enabled) × (c'.ncli ≡ c.ncli) × (c.ncli ≢ 0 → c'.intena ≡ c.intena)

-- That many calls of `pushcli`, and of `popcli`.
pub pushes : ℕ → Cpu → Cpu
pushes zero c = c
pushes (suc n) c = pushes n (pushcli c)

pub pops : ℕ → Cpu → Option Cpu
pops zero c = some c
pops (suc n) c = elim (pops n c) [ none ↦ none | some c' ↦ popcli c' ]

pushcli-IsNested : (c : Cpu) → IsNested (pushcli c)
unfolding pushcli
pushcli-IsNested c ne = refl

popcli_lem :
    (c c1 : Cpu)
    → IsNested c
    → SameFlags (pushcli c) c1
    → (c' : Cpu) × (popcli c1 ≡ some c') × SameFlags c c'
unfolding pushcli popcli
popcli_lem c c1 v (e, n, i) =
    let same : c1.intena ≡ (if c.ncli == 0 then c.enabled else c.intena) = i (omega arith) in
    (
      record c1 { ncli = c1.ncli - 1; enabled = (c1.ncli == 1) && c1.intena },
      ground arith,
      (
        elim (Bool-cases (c.ncli == 0)) [
          | inl outer ↦ ground arith
          | inr inner ↦ let off : c.enabled ≡ false = v (ground arith) in ground arith
        ],
        omega arith,
        λ ne. ground arith,
      ),
    )

-- On a processor whose interrupts are off inside a nest, `n` calls of `pushcli` and then `n` of
-- `popcli` do not panic, and leave the interrupt flag and the count as they were.
pub pops-pushes :
    (n : ℕ) (c : Cpu) → IsNested c → (c' : Cpu) × (pops n (pushes n c) ≡ some c') × SameFlags c c'
unfolding pops pushes
pops-pushes zero c v = (c, refl, (refl, refl, λ ne. refl))
pops-pushes (suc n) c v =
    let (c1, e, same) = pops-pushes n (pushcli c) (pushcli-IsNested c) in
    let (c', e', same') = popcli_lem c c1 v same in (c', rw (e, pops) e', same')

-- `acquire` of a free lock takes it: the caller holds it, any other processor spins and the caller
-- itself panics if it tries again; `release` by the caller frees the lock, and leaves the
-- interrupt flag and the count as they were before.
pub acquire-release :
    (me : ℕ) (c : Cpu) (lk : Spinlock)
    → IsNested c
    → lk.locked ≡ false
    → (c1 : Cpu) × (lk1 : Spinlock) × (acquire me c lk ≡ acquired c1 lk1)
      × (holds me lk1 ≡ true)
      × ((other : ℕ) (d : Cpu) → other ≢ me → acquire other d lk1 ≡ spins (pushcli d))
      × ((d : Cpu) → acquire me d lk1 ≡ panics (pushcli d))
      × ((c2 : Cpu) × (release me c1 lk1 ≡ some (c2, initlock)) × SameFlags c c2)
unfolding acquire release holds initlock
acquire-release me c lk v free =
    let (c2, e, same) = popcli_lem c (pushcli c) v (refl, refl, λ ne. refl) in
    (
      pushcli c,
      record { locked = true; cpu = some me },
      ground arith,
      ==_refl me,
      λ other d ne. ground arith,
      λ d. ground (arith, ==_refl me),
      (c2, rw (==_refl me, e) refl, same),
    )
