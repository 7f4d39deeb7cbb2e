-- ===== src/Proc/Life/Wake.antt =====
-- wakeup of xv6/proc.c makes exactly the sleepers on the channel runnable, and queues them.
use a4team_os.Base.{
  ℕ, zero, suc, ◌+◌, ◌≤◌, ◌<◌, ◌≡◌, refl, ◌∙◌, ◌≢◌, ◌⊎◌, true, ◌&&◌, ◌==◌, if◌then◌else◌,
  update_self, update_ne, arith, pos, Bool-cases, inl, inr,
}
use a4team_os.Proc.{
  Proc, ProcState, sleeping, runnable, Chan, same_chan, Kernel, nproc, is_state, set_proc, for_each,
}
use a4team_os.Proc.Loops.{for_each_inv}
use a4team_os.Proc.Queue.{requeue}
use a4team_os.Proc.Queue.Inv.{used, Inv, IsValid, added}
use a4team_os.Proc.Queue.Change.{leave-Inv, replace-Inv, requeue-eq-added, requeue-IsValid}
use a4team_os.Proc.Life.{in_state, wake_one, wakeup1}

pub sleeping_of_is : (s : ProcState) → is_state sleeping s ≡ true → s ≡ sleeping
sleeping_of_is s h = ground arith

-- The process is made runnable with a full share of ticks, all else kept.
abbrev pub awake : Proc → Proc
awake p = record p { state = runnable; curr_ticks = 0 }

-- What `wakeup1(chan)` has made of the process `p`.
abbrev pub Woken : Chan → (p p' : Proc) → Type 0
Woken chan p p' =
    (p'.pid ≡ p.pid)
    × (p'.parent ≡ p.parent)
    × (p'.killed ≡ p.killed)
    × (p'.pgdir ≡ p.pgdir)
    × (p'.chan ≡ p.chan)
    × (p'.state
        ≡ (if is_state sleeping p.state && same_chan p.chan chan then runnable else p.state))

module _ {W : Type 0} where
  -- A sleeping process of a valid state that is made runnable and queued, as `wakeup1` and `kill`
  -- do. `p'` differs from the sleeping process in no field that the queues read.
  pub waken :
      {k : Kernel W} (i : ℕ) (p' : Proc)
      → IsValid k
      → i < nproc
      → (k.procs i).state ≡ sleeping
      → p'.state ≡ runnable
      → p'.pid ≡ (k.procs i).pid
      → p'.queue ≡ (k.procs i).queue
      → (q : ℕ) × (p'.queue ≡ pos q)
        × (q < 5)
        × (requeue i (set_proc k i p') ≡ added i q (set_proc k i p'))
        × IsValid (requeue i (set_proc k i p'))
  waken {k} i p' v lt sl st id qu =
      let k1 : Kernel W = set_proc k i p' in
      let here : k1.procs i ≡ p' = update_self k.procs i p' in
      let u : used (k.procs i) ≡ true = ground arith in
      let inv : Inv i k1 =
        replace-Inv (leave-Inv i v (λ r. cc))
          (record { same_len = λ q. refl; same_slot = λ q j. refl; later = omega arith })
          (update_ne k.procs i p')
          (rw here (λ _. (
            omega (arith, v.low i lt u, id),
            rw qu (v.level i lt u),
            λ j lj uj ne e. ne (v.unique j i lj lt uj u (e ∙ id)),
          ))) in
      let run : (k1.procs i).state ≡ runnable = rw here st in
      let (q, e, lq, eq) = requeue-eq-added inv lt run in
      (q, rw here at e, lq, eq, requeue-IsValid inv lt run)

  wake_one-IsValid :
      (chan : Chan) (i : ℕ) (k : Kernel W) → i < nproc → IsValid k → IsValid (wake_one chan i k)
  unfolding wake_one
  wake_one-IsValid chan i k lt v =
      elim (Bool-cases (in_state sleeping k i && same_chan (k.procs i).chan chan)) [
        | inl hit ↦
            let sl = sleeping_of_is (k.procs i).state (ground arith) in
            rw hit (waken i (awake (k.procs i)) v lt sl refl refl refl).4
        | inr miss ↦ rw miss v
      ]

  wake_one-Woken :
      (chan : Chan) (i : ℕ) (k : Kernel W)
      → i < nproc
      → IsValid k
      → Woken chan (k.procs i) ((wake_one chan i k).procs i)
        × ((j : ℕ) → j ≢ i → (wake_one chan i k).procs j ≡ k.procs j)
  unfolding wake_one
  wake_one-Woken chan i k lt v =
      elim (Bool-cases (in_state sleeping k i && same_chan (k.procs i).chan chan)) [
        | inl hit ↦
            let sl = sleeping_of_is (k.procs i).state (ground arith) in
            let (q, e, lq, eq, _) = waken i (awake (k.procs i)) v lt sl refl refl refl in
            rw (hit, eq) (ground arith, λ j ne. ground arith)
        | inr miss ↦ rw (miss) ((refl, refl, refl, refl, refl, refl), λ j ne. refl)
      ]

  wake_each_lem :
      (chan : Chan) (n i : ℕ) (k : Kernel W)
      → i + n ≤ nproc
      → IsValid k
      → let k' = for_each n i (wake_one chan) k in
        IsValid k'
        × ((j : ℕ) → i ≤ j → j < i + n → Woken chan (k.procs j) (k'.procs j))
        × ((j : ℕ) → (j < i) ⊎ (i + n ≤ j) → k'.procs j ≡ k.procs j)
  unfolding for_each
  wake_each_lem chan zero i k h v = (v, λ j a b. absurd (omega arith), λ j out. refl)
  wake_each_lem chan (suc n) i k h v =
      let k1 : Kernel W = wake_one chan i k in
      let (v', inside, outside) =
        wake_each_lem chan n (i + 1) k1 (omega arith) (wake_one-IsValid chan i k (omega arith) v) in
      let (here, others) = wake_one-Woken chan i k (omega arith) v in
      (
        v',
        λ j a b. elim (Bool-cases (j == i)) [
          | inl same ↦ let e : j ≡ i = ground arith in rw (e, outside i (inl (omega arith))) here
          | inr ne ↦ rw (← others j (ground arith)) (inside j (ground arith) (omega arith))
        ],
        λ j out. outside j (ground arith) ∙ others j (ground arith),
      )

  -- `wakeup1` on a valid state leaves a valid state, in which exactly the processes that slept on
  -- the channel have become runnable; it changes no pid, parent, channel or kill flag.
  pub wakeup1-Woken :
      (chan : Chan) (k : Kernel W)
      → IsValid k
      → IsValid (wakeup1 chan k)
        × ((i : ℕ) → i < nproc → Woken chan (k.procs i) ((wakeup1 chan k).procs i))
  unfolding wakeup1
  wakeup1-Woken chan k v =
      let (v', inside, outside) = wake_each_lem chan nproc 0 k (omega arith) v in
      (v', λ i lt. inside i (omega arith) (omega arith))

  wake_one_initproc :
      (chan : Chan) (i : ℕ) (k : Kernel W)
      → i < nproc
      → IsValid k
      → (wake_one chan i k).initproc ≡ k.initproc
  unfolding wake_one
  wake_one_initproc chan i k lt v =
      elim (Bool-cases (in_state sleeping k i && same_chan (k.procs i).chan chan)) [
        | inl hit ↦
            let sl = sleeping_of_is (k.procs i).state (ground arith) in
            let (q, e, lq, eq, _) = waken i (awake (k.procs i)) v lt sl refl refl refl in
            rw (hit, eq) refl
        | inr miss ↦ rw miss refl
      ]

  -- `wakeup1` does not touch `initproc`.
  pub wakeup1_initproc :
      (chan : Chan) (k : Kernel W) → IsValid k → (wakeup1 chan k).initproc ≡ k.initproc
  unfolding wakeup1
  wakeup1_initproc chan k v =
      (for_each_inv (λ (s : Kernel W). IsValid s × (s.initproc ≡ k.initproc)) (wake_one chan) nproc
        (λ i s lt (vs, e). (wake_one-IsValid chan i s lt vs, wake_one_initproc chan i s lt vs ∙ e))
        nproc 0 k (omega arith) (v, refl)).1
