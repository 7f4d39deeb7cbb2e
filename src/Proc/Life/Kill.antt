-- ===== src/Proc/Life/Kill.antt =====
-- kill, sleep and ticking of xv6/proc.c.
use a4team_os.Base.{
  ℕ, ◌<◌, ◌≡◌, refl, ◌≢◌, true, ◌==◌, if◌then◌else◌, update, update_self, update_ne, arith, ℤ, pos,
  negsuc, Bool-cases, Option-cases, inl, inr,
}
use a4team_os.Proc.{
  ProcState, sleeping, runnable, running, Chan, Kernel, nproc, is_state, set_proc, find_from,
}
use a4team_os.Proc.Loops.{find_from-some, find_from-none, FirstFrom}
use a4team_os.Proc.Queue.Inv.{used, Inv, IsValid}
use a4team_os.Proc.Queue.Change.{leave-Inv, join-Inv, replace-Inv, touch-Inv}
use a4team_os.Proc.Life.{in_state, kill_at, kill, sleep_start, sleep_end, yield_start}
use a4team_os.Proc.Life.Wake.{waken, sleeping_of_is}

abbrev woken_state : ProcState → ProcState
woken_state s = if is_state sleeping s then runnable else s

module _ {W : Type 0} where
  -- What `kill` has done: no process has the pid and nothing is changed, or the first process
  -- with the pid has its flag set, is runnable if it slept, and no other process is changed.
  pub data Killed (pid : ℕ) (k : Kernel W) : Kernel W × ℤ → Type 0 where
    missing : ((j : ℕ) → j < nproc → (k.procs j).pid ≢ pid) → Killed pid k (k, negsuc 0)
    hit :
        {k' : Kernel W} (i : ℕ)
        → i < nproc
        → (k.procs i).pid ≡ pid
        → ((j : ℕ) → j < i → (k.procs j).pid ≢ pid)
        → IsValid k'
        → (k'.procs i).killed ≡ true
        → (k'.procs i).state ≡ woken_state (k.procs i).state
        → ((j : ℕ) → j ≢ i → k'.procs j ≡ k.procs j)
        → Killed pid k (k', pos 0)

  kill_at_lem :
      (i pid : ℕ) (k : Kernel W)
      → IsValid k
      → i < nproc
      → (k.procs i).pid ≡ pid
      → ((j : ℕ) → j < i → (k.procs j).pid ≢ pid)
      → Killed pid k (kill_at i k, pos 0)
  unfolding kill_at
  kill_at_lem i pid k v lt id first =
      let k1 : Kernel W = set_proc k i (record (k.procs i) { killed = true }) in
      let here : k1.procs i ≡ record (k.procs i) { killed = true } =
        update_self k.procs i (record (k.procs i) { killed = true }) in
      let v1 : IsValid k1 =
        touch-Inv v (record { same_len = λ q. refl; same_slot = λ q j. refl; later = omega arith })
          (λ j. ground arith) in
      elim (Bool-cases (in_state sleeping k1 i)) [
        | inl sl ↦
            let st = sleeping_of_is (k1.procs i).state sl in
            let p' = record (k1.procs i) { state = runnable; curr_ticks = 0 } in
            let (q, e, lq, eq, v2) = waken i p' v1 lt st refl refl refl in
            rw sl (
              hit i lt id first v2 (rw eq (ground arith)) (rw eq (ground arith))
                (λ j ne. rw eq (ground arith)))
        | inr up ↦
            rw up (hit i lt id first v1 (ground arith) (ground arith) (update_ne k.procs i _))
      ]

  -- `kill` on a valid state does what `Killed` says: it returns -1 and changes nothing if no process
  -- has the pid, or else kills the first process that has it, wakes that up if it slept, and changes
  -- no other process; the state stays valid.
  pub kill-Killed : (pid : ℕ) (k : Kernel W) → IsValid k → Killed pid k (kill pid k)
  unfolding kill
  kill-Killed pid k v = elim (Option-cases (find_from nproc 0 (λ i. (k.procs i).pid == pid))) [
    | inl none_has ↦
        let miss = find_from-none nproc 0 (λ i. (k.procs i).pid == pid) none_has in
        rw (none_has, kill) (missing (λ j lt e. ground (arith, miss j (omega arith) (omega arith))))
    | inr (i, found) ↦
        let f : FirstFrom nproc 0 (λ i. (k.procs i).pid == pid) i =
          find_from-some nproc 0 (λ i. (k.procs i).pid == pid) found in
        rw (found, kill)
          (kill_at_lem i pid k v (omega (arith, f.to)) (ground (arith, f.hit))
            (λ j lj e. ground (arith, f.earlier j (omega arith) lj)))
  ]

  -- A state stays valid when a running process goes to sleep, and when a process that was woken
  -- leaves its channel.
  pub sleep-IsValid :
      (cur : ℕ) (chan : Chan) (k : Kernel W)
      → IsValid k
      → cur < nproc
      → (k.procs cur).state ≡ running
      → IsValid (sleep_start cur chan k)
        × ((k' : Kernel W) → IsValid k' → IsValid (sleep_end cur k'))
  unfolding sleep_start sleep_end
  sleep-IsValid cur chan k v lt r =
      let p = record (k.procs cur) { chan = chan; state = sleeping } in
      let here : update k.procs cur p cur ≡ p = update_self k.procs cur p in
      (
        join-Inv cur
            (replace-Inv (leave-Inv cur v (λ e. cc))
              (record { same_len = λ q. refl; same_slot = λ q j. refl; later = omega arith })
              (update_ne k.procs cur p)
              (rw here (λ _.
                let u : used (k.procs cur) ≡ true = ground arith in
                (
                  v.low cur lt u,
                  v.level cur lt u,
                  λ j lj uj ne e. ne (v.unique j cur lj lt uj u e),
                ))))
            (rw here (λ e. cc)),
        λ k' v'.
            touch-Inv v'
              (record { same_len = λ q. refl; same_slot = λ q j. refl; later = omega arith })
              (λ j. ground arith),
      )

  -- A process that calls `yield` becomes the exception: runnable, and on no queue.
  yield-Inv :
      (p : ℕ) (k : Kernel W)
      → IsValid k
      → p < nproc
      → (k.procs p).state ≡ running
      → Inv p (yield_start p k) × (((yield_start p k).procs p).state ≡ runnable)
  unfolding yield_start
  yield-Inv p k v lt r =
      let q = record (k.procs p) { state = runnable } in
      let here : update k.procs p q p ≡ q = update_self k.procs p q in
      let u : used (k.procs p) ≡ true = ground arith in
      (
        replace-Inv (leave-Inv p v (λ e. cc))
            (record { same_len = λ q. refl; same_slot = λ q j. refl; later = omega arith })
            (update_ne k.procs p q)
            (rw here (λ _.
              (v.low p lt u, v.level p lt u, λ j lj uj ne e. ne (v.unique j p lj lt uj u e)))),
        rw here refl,
      )
