-- ===== src/Proc/Finish/Reap.antt =====
-- wait, waitx and join of xv6/proc.c: what they find, what they free, and when they sleep.
use a4team_os.Base.{
  ℕ, zero, suc, ◌+◌, ◌≤◌, ◌<◌, ◌≡◌, refl, ◌∙◌, ◌≢◌, ◌⊎◌, Bool, true, false, ◌&&◌, ◌||◌, ◌==◌,
  update_ne, arith, Option, none, some, Bool-cases, ==_refl, inl, inr,
}
use a4team_os.Proc.{
  ProcState, unused, zombie, sleeping, running, at_proc, Kernel, nproc, is_state, set_proc,
}
use a4team_os.Proc.Services.{Services}
use a4team_os.Proc.Queue.{unqueue}
use a4team_os.Proc.Queue.Inv.{IsValid}
use a4team_os.Proc.Queue.Change.{touch-Inv, SameQueues, unqueue_absent}
use a4team_os.Proc.Create.Inv.{same_queues, swap-IsValid}
use a4team_os.Proc.Life.{sleep_start}
use a4team_os.Proc.Life.Kill.{sleep-IsValid}
use a4team_os.Proc.Finish.{
  scan, WaitResult, reaped, no_kids, sleeps, wait_reap, waitx_reap, join_reap, settle, is_zombie,
  wait_relevant, wait, child_of, waitx, join_relevant, join,
}

-- What the loop over `n` indices from `i` on answers, when it starts with `b`.
pub data Scanned (relevant ready : ℕ → Bool) (n i : ℕ) (b : Bool) : Bool × Option ℕ → Type 0 where
  found :
      (j : ℕ)
      → i ≤ j
      → j < i + n
      → relevant j ≡ true
      → ready j ≡ true
      → Scanned relevant ready n i b (true, some j)
  not_ready :
      (b' : Bool)
      → ((j : ℕ) → i ≤ j → j < i + n → (relevant j && ready j) ≡ false)
      → (b ≡ true → b' ≡ true)
      → ((j : ℕ) → i ≤ j → j < i + n → relevant j ≡ true → b' ≡ true)
      → (b' ≡ true → (b ≡ true) ⊎ ((j : ℕ) × (j < i + n) × (relevant j ≡ true)))
      → Scanned relevant ready n i b (b', none)

scan_next :
    (relevant ready : ℕ → Bool) (n i : ℕ) (b : Bool) {r : Bool × Option ℕ}
    → (relevant i && ready i) ≡ false
    → Scanned relevant ready n (i + 1) (relevant i || b) r
    → Scanned relevant ready (suc n) i b r
scan_next relevant ready n i b miss (found j lo hi a c) = found j (omega arith) (omega arith) a c
scan_next relevant ready n i b miss (not_ready b' none_fit kept seen why) =
    not_ready b' (λ j lo hi. ground (arith, none_fit j)) (λ e. kept (ground arith))
      (λ j lo hi e. elim (Bool-cases (j == i)) [
        | inl same ↦ let s : j ≡ i = ground arith in kept (let e' = rw s at e in ground arith)
        | inr other ↦ seen j (ground arith) (omega arith) e
      ])
      (λ e. elim (why e) [
        | inl s ↦ elim (Bool-cases (relevant i)) [
          | inl rel ↦ inr (i, omega arith, rel)
          | inr other ↦ inl (ground arith)
        ]
        | inr (j, lt, rel) ↦ inr (j, omega arith, rel)
      ])

pub scan-Scanned :
    (relevant ready : ℕ → Bool) (n i : ℕ) (b : Bool)
    → Scanned relevant ready n i b (scan relevant ready n i b)
unfolding scan
scan-Scanned relevant ready zero i b =
    not_ready b (λ j lo hi. absurd (omega arith)) (λ e. e) (λ j lo hi. absurd (omega arith)) inl
scan-Scanned relevant ready (suc n) i b = elim (Bool-cases (relevant i && ready i)) [
  | inl hit ↦ rw hit (found i (omega arith) (omega arith) (ground arith) (ground arith))
  | inr miss ↦ rw miss (
      scan_next relevant ready n i b miss (scan-Scanned relevant ready n (i + 1) (relevant i || b)))
]

zombie_of_is : (s : ProcState) → is_state zombie s ≡ true → s ≡ zombie
zombie_of_is s h = ground arith

module _ {W : Type 0} where
  -- The slot of the zombie `i` has been freed, and no other process is touched.
  pub record Reaped (i : ℕ) (k k' : Kernel W) : Type 0 where
    pub valid : IsValid k'
    pub freed : (k'.procs i).state ≡ unused
    pub others : (j : ℕ) → j ≢ i → k'.procs j ≡ k.procs j

  -- What one round of `wait`, `waitx` or `join` has done, by its result: a relevant zombie is
  -- reaped and its pid returned; or -1 is returned, with no relevant process or with the caller
  -- killed; or the caller sleeps, and there is a relevant process, but none that is a zombie.
  pub data Waited (cur : ℕ) (relevant : ℕ → Bool) (k : Kernel W) : WaitResult W → Type 0 where
    reaps :
        (i : ℕ) {k' : Kernel W}
        → i < nproc
        → relevant i ≡ true
        → (k.procs i).state ≡ zombie
        → Reaped i k k'
        → Waited cur relevant k (reaped (k.procs i).pid k')
    gives_up :
        ((j : ℕ) → j < nproc → relevant j ≡ false) ⊎ ((k.procs cur).killed ≡ true)
        → Waited cur relevant k (no_kids k)
    blocks :
        (j : ℕ) {k' : Kernel W}
        → j < nproc
        → relevant j ≡ true
        → ((i : ℕ) → i < nproc → relevant i ≡ true → (k.procs i).state ≢ zombie)
        → (k.procs cur).killed ≡ false
        → IsValid k'
        → (k'.procs cur).state ≡ sleeping
        → Waited cur relevant k (sleeps k')

  asleep : (cur : ℕ) (k : Kernel W) → ((sleep_start cur (at_proc cur) k).procs cur).state ≡ sleeping
  unfolding sleep_start
  asleep cur k = ground arith

  settle-Waited :
      (cur : ℕ) (relevant : ℕ → Bool) (reap : ℕ → Kernel W → Kernel W) (k : Kernel W)
      → ((i : ℕ) → i < nproc → (k.procs i).state ≡ zombie → Reaped i k (reap i k))
      → IsValid k
      → cur < nproc
      → (k.procs cur).state ≡ running
      → {r : Bool × Option ℕ} → Scanned relevant (is_zombie k) nproc 0 false r
      → Waited cur relevant k (settle cur reap k r)
  unfolding settle
  settle-Waited cur relevant reap k ok v lt run (found j lo hi rel z) =
      let st = zombie_of_is (k.procs j).state z in
      reaps j (omega arith) rel st (ok j (omega arith) st)
  settle-Waited cur relevant reap k ok v lt run (not_ready false fit kept seen why) = gives_up (
      inl (λ j lj. elim (Bool-cases (relevant j)) [
        | inl rel ↦ cc (seen j (omega arith) (omega arith) rel)
        | inr other ↦ other
      ]))
  settle-Waited cur relevant reap k ok v lt run (not_ready true fit kept seen why) =
      elim (Bool-cases (k.procs cur).killed) [
        | inl dead ↦ rw dead (gives_up (inr dead))
        | inr alive ↦ elim (why refl) [
          | inl e ↦ cc
          | inr (j, hi, rel) ↦ rw alive (
              blocks j (omega arith) rel (λ i li a z. ground (arith, fit i)) alive
                (sleep-IsValid cur (at_proc cur) k v lt run).0 (asleep cur k))
        ]
      ]

module _ {W : Type 0} (sv : Services W) where
  -- The zombie `i`, its kernel stack given back, is still on no queue.
  stackless-IsValid :
      (i : ℕ) (w : W) (k : Kernel W)
      → IsValid k
      → (k.procs i).state ≡ zombie
      → let k1 : Kernel W =
          set_proc (record k { world = w }) i (record (k.procs i) { kstack = 0 }) in
        IsValid k1 × ((k1.procs i).state ≡ zombie)
  stackless-IsValid i w k v z =
      (touch-Inv v (same_queues sv refl refl (omega arith)) (λ j. ground arith), ground arith)

  freed-Reaped :
      (i : ℕ) (k k1 k' : Kernel W)
      → IsValid k1
      → (k1.procs i).state ≡ zombie
      → ((j : ℕ) → j ≢ i → k1.procs j ≡ k.procs j)
      → SameQueues k1 k'
      → ((j : ℕ) → j ≢ i → k'.procs j ≡ k1.procs j)
      → (k'.procs i).state ≡ unused
      → Reaped i k k'
  freed-Reaped i k k1 k' v z before sq same st = record {
    valid = swap-IsValid sv i v (λ e. cc) sq same (λ u. ground arith) (λ e. cc);
    freed = st;
    others = λ j ne. same j ne ∙ before j ne;
  }

  wait_reap-Reaped :
      (i : ℕ) (k : Kernel W)
      → IsValid k
      → i < nproc
      → (k.procs i).state ≡ zombie
      → Reaped i k (wait_reap sv i k)
  unfolding wait_reap
  wait_reap-Reaped i k v lt z =
      let w = sv.freevm (k.procs i).pgdir (sv.kfree (k.procs i).kstack k.world) in
      let k1 : Kernel W = set_proc (record k { world = w }) i (record (k.procs i) { kstack = 0 }) in
      let (v1, z1) = stackless-IsValid i w k v z in
      let e : unqueue i k1 ≡ k1 = unqueue_absent i v1 lt (ground arith) (λ e. cc) in
      rw e (
        freed-Reaped i k k1 _ v1 z1 (update_ne k.procs i _) (same_queues sv refl refl (omega arith))
          (update_ne k1.procs i _) (ground arith))

  waitx_reap-Reaped :
      (i : ℕ) (k : Kernel W)
      → IsValid k
      → i < nproc
      → (k.procs i).state ≡ zombie
      → Reaped i k (waitx_reap sv i k)
  unfolding waitx_reap
  waitx_reap-Reaped i k v lt z =
      let w = sv.freevm (k.procs i).pgdir (sv.kfree (k.procs i).kstack k.world) in
      let k1 : Kernel W = set_proc (record k { world = w }) i (record (k.procs i) { kstack = 0 }) in
      let (v1, z1) = stackless-IsValid i w k v z in
      let e : unqueue i k1 ≡ k1 = unqueue_absent i v1 lt (ground arith) (λ e. cc) in
      rw e (
        freed-Reaped i k k1 _ v1 z1 (update_ne k.procs i _) (same_queues sv refl refl (omega arith))
          (update_ne k1.procs i _) (ground arith))

  join_reap-Reaped :
      (i : ℕ) (k : Kernel W)
      → IsValid k
      → i < nproc
      → (k.procs i).state ≡ zombie
      → Reaped i k (join_reap sv i k)
  unfolding join_reap
  join_reap-Reaped i k v lt z =
      let k1 : Kernel W = record k { world = sv.kfree (k.procs i).kstack k.world } in
      freed-Reaped i k k _ v z (λ j ne. refl) (same_queues sv refl refl (omega arith))
        (update_ne k1.procs i _) (ground arith)

  -- On a valid state, with a running caller, one round of `wait` does what `Waited` says for the
  -- processes that are children of the caller or have its page directory.
  pub wait-Waited :
      (cur : ℕ) (k : Kernel W)
      → IsValid k
      → cur < nproc
      → (k.procs cur).state ≡ running
      → Waited cur (wait_relevant cur k) k (wait sv cur k)
  unfolding wait
  wait-Waited cur k v lt run =
      settle-Waited cur (wait_relevant cur k) (wait_reap sv) k
        (λ i li z. wait_reap-Reaped i k v li z) v lt run
        (scan-Scanned (wait_relevant cur k) (is_zombie k) nproc 0 false)

  -- On a valid state, with a running caller, one round of `waitx` and of `join` does what `Waited`
  -- says: for the children of the caller, and for the children with its page directory and the
  -- given pid.
  pub join-Waited :
      (cur tid : ℕ) (k : Kernel W)
      → IsValid k
      → cur < nproc
      → (k.procs cur).state ≡ running
      → Waited cur (child_of cur k) k (waitx sv cur k)
        × Waited cur (join_relevant cur tid k) k (join sv cur tid k)
  unfolding waitx join
  join-Waited cur tid k v lt run = (
    settle-Waited cur (child_of cur k) (waitx_reap sv) k (λ i li z. waitx_reap-Reaped i k v li z) v
        lt run (scan-Scanned (child_of cur k) (is_zombie k) nproc 0 false),
    settle-Waited cur (join_relevant cur tid k) (join_reap sv) k
        (λ i li z. join_reap-Reaped i k v li z) v lt run
        (scan-Scanned (join_relevant cur tid k) (is_zombie k) nproc 0 false),
  )

  -- The result is -1.
  gave_up : WaitResult W → Bool
  gave_up (no_kids k) = true
  gave_up _ = false

  self_relevant : (cur : ℕ) (k : Kernel W) → wait_relevant cur k cur ≡ true
  self_relevant cur k = ground (arith, ==_refl (k.procs cur).pgdir)

  stays :
      (cur : ℕ) (k : Kernel W)
      → cur < nproc
      → (k.procs cur).killed ≡ false
      → {r : WaitResult W} → Waited cur (wait_relevant cur k) k r
      → gave_up r ≡ false
  unfolding gave_up
  stays cur k lt alive (reaps i li rel z d) = refl
  stays cur k lt alive (gives_up (inl none_rel)) =
      let self = self_relevant cur k in let miss = none_rel cur lt in cc
  stays cur k lt alive (gives_up (inr dead)) = cc
  stays cur k lt alive (blocks j lj rel none_z al v st) = refl

  -- `wait` in a running caller that was not killed never answers -1, whatever children it has:
  -- the caller has its own page directory, so the loop always finds a relevant process.
  pub wait-ne-no_kids :
      (cur : ℕ) (k k' : Kernel W)
      → IsValid k
      → cur < nproc
      → (k.procs cur).state ≡ running
      → (k.procs cur).killed ≡ false
      → wait sv cur k ≢ no_kids k'
  unfolding gave_up
  wait-ne-no_kids cur k k' v lt run alive e =
      let up : gave_up (wait sv cur k) ≡ true = rw e refl in
      let down = stays cur k lt alive (wait-Waited cur k v lt run) in cc
