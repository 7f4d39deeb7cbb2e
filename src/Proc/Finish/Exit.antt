-- ===== src/Proc/Finish/Exit.antt =====
-- exit of xv6/proc.c: the caller becomes a zombie, and its children go to the first process.
use a4team_os.Base.{
  ℕ, ◌<◌, ◌≡◌, refl, sym, ◌∙◌, ◌≢◌, ◌⊎◌, true, false, ◌==◌, update, update_self, update_ne, arith,
  Option, none, some, Bool-cases, inl, inr,
}
use a4team_os.Proc.{Proc, sleeping, runnable, running, zombie, Kernel, nproc, set_proc}
use a4team_os.Proc.Services.{Services}
use a4team_os.Proc.Queue.Inv.{used, IsValid}
use a4team_os.Proc.Queue.Change.{leave-Inv, join-Inv, replace-Inv, touch-Inv}
use a4team_os.Proc.Finish.{same_ptr, chan_of, become_zombie, let_go, exit}
use a4team_os.Proc.Finish.Adopt.{Leaving, Gone, wake-Leaving, adopt_all}

module _ {W : Type 0} where
  -- What `exit` answers: it panics in the first process; in any other, the caller is a zombie, no process is
  -- its child any more, its children have the first process as parent, and the others have changed
  -- their state only by waking up.
  pub data Exited (cur : ℕ) (k : Kernel W) : Option (Kernel W) → Type 0 where
    init_exits : same_ptr (some cur) k.initproc ≡ true → Exited cur k none
    exited :
        {k' : Kernel W}
        → same_ptr (some cur) k.initproc ≡ false
        → IsValid k'
        → (k'.procs cur).state ≡ zombie
        → ((i : ℕ) → i < nproc → same_ptr (k'.procs i).parent (some cur) ≡ false)
        → ((i : ℕ) → i < nproc → (k'.procs i).pid ≡ (k.procs i).pid)
        → ((i : ℕ)
            → i < nproc
            → ((k'.procs i).parent ≡ (k.procs i).parent)
              ⊎ ((same_ptr (k.procs i).parent (some cur) ≡ true)
                  × ((k'.procs i).parent ≡ k.initproc)))
        → ((i : ℕ)
            → i < nproc
            → i ≢ cur
            → ((k'.procs i).state ≡ (k.procs i).state)
              ⊎ (((k.procs i).state ≡ sleeping) × ((k'.procs i).state ≡ runnable)))
        → Exited cur k (some k')

  -- A running process that is given the fields `p` of a zombie.
  zombie-Exited :
      (cur : ℕ) (p : Proc) (k k1 : Kernel W)
      → cur < nproc
      → same_ptr (some cur) k.initproc ≡ false
      → Leaving cur k k1
      → Gone cur nproc k1
      → p.state ≡ zombie
      → p.pid ≡ (k1.procs cur).pid
      → p.parent ≡ (k1.procs cur).parent
      → p.queue ≡ (k1.procs cur).queue
      → Exited cur k (some (set_proc k1 cur p))
  zombie-Exited cur p k k1 lt other l gone st id pa qu =
      let here : update k1.procs cur p cur ≡ p = update_self k1.procs cur p in
      let u : used (k1.procs cur) ≡ true = ground (arith, l.runs) in
      exited other
        (join-Inv cur
          (replace-Inv (leave-Inv cur l.valid (λ e. runs_not_runnable (sym l.runs ∙ e)))
            (record { same_len = λ q. refl; same_slot = λ q j. refl; later = omega arith })
            (update_ne k1.procs cur p)
            (rw here (λ _. (
              omega (arith, l.valid.low cur lt u, id),
              rw qu (l.valid.level cur lt u),
              λ j lj uj ne e. ne (l.valid.unique j cur lj lt uj u (e ∙ id)),
            ))))
          (rw here (λ e. zombie_not_runnable (sym st ∙ e))))
        (rw here st)
        (λ i li. elim (Bool-cases (i == cur)) [
          | inl e ↦ let same : i ≡ cur = ground arith in rw (same, here, pa) (gone cur lt)
          | inr ne ↦ rw (update_ne k1.procs cur p i (ground arith)) (gone i li)
        ])
        (λ i li. elim (Bool-cases (i == cur)) [
          | inl e ↦ let same : i ≡ cur = ground arith in rw (same, here) (id ∙ l.pid cur lt)
          | inr ne ↦ rw (update_ne k1.procs cur p i (ground arith)) (l.pid i li)
        ])
        (λ i li. elim (Bool-cases (i == cur)) [
          | inl e ↦ let same : i ≡ cur = ground arith in rw (same, here, pa) (l.parent cur lt)
          | inr ne ↦ rw (update_ne k1.procs cur p i (ground arith)) (l.parent i li)
        ])
        (λ i li ne. rw (update_ne k1.procs cur p i ne) (l.state i li))
    where
      runs_not_runnable : running ≢ runnable
      runs_not_runnable e = cc

      zombie_not_runnable : zombie ≢ runnable
      zombie_not_runnable e = cc

  -- The files of the caller and the rest of the kernel are changed.
  files_gone :
      (cur : ℕ) (files : ℕ → ℕ) (w : W) (k : Kernel W)
      → IsValid k
      → (k.procs cur).state ≡ running
      → Leaving cur k
          (set_proc (record k { world = w }) cur (record (k.procs cur) { ofile = files; cwd = 0 }))
  files_gone cur files w k v r = record {
    valid =
        touch-Inv v (record { same_len = λ q. refl; same_slot = λ q j. refl; later = omega arith })
          (λ j. ground arith);
    initproc = refl;
    runs = ground arith;
    pid = λ j lj. ground arith;
    parent = λ j lj. inl (ground arith);
    state = λ j lj. inl (ground arith);
  }

module _ {W : Type 0} (sv : Services W) where
  let_go-Leaving :
      (cur : ℕ) (k : Kernel W)
      → IsValid k
      → (k.procs cur).state ≡ running
      → Leaving cur k (let_go sv cur k)
  unfolding let_go
  let_go-Leaving cur k v r = files_gone cur _ _ k v r

  -- From a valid state with a running caller, `exit` panics exactly in the first process.
  -- Otherwise the state stays valid, the caller is a zombie and nobody's parent, its children have
  -- the first process as parent, and pids and all other states are kept, but for sleepers that
  -- wake up.
  pub exit-Exited :
      (cur : ℕ) (k : Kernel W)
      → IsValid k
      → cur < nproc
      → (k.procs cur).state ≡ running
      → Exited cur k (exit sv cur k)
  unfolding exit become_zombie
  exit-Exited cur k v lt r = elim (Bool-cases (same_ptr (some cur) k.initproc)) [
    | inl first ↦ simp first (init_exits first)
    | inr other ↦
        let gone_files = let_go-Leaving cur k v r in
        let k1 : Kernel W = let_go sv cur k in
        let (l, parents) = wake-Leaving (chan_of (k1.procs cur).parent) lt gone_files in
        let (l3, gone) = adopt_all lt other l in
        simp other (zombie-Exited cur _ k _ lt other l3 gone refl refl refl refl)
  ]
