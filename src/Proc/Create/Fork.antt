-- ===== src/Proc/Create/Fork.antt =====
-- What fork of xv6/proc.c makes.
use a4team_os.Base.{
  ℕ, ◌<◌, ◌≡◌, refl, ap, ◌∙◌, ◌≢◌, ◌==◌, if◌then◌else◌, arith, Option, some, ℤ, pos, negsuc,
  Bool-cases, inl, inr,
}
use a4team_os.Proc.{unused, embryo, Kernel, nproc}
use a4team_os.Proc.Services.{Services}
use a4team_os.Proc.Queue.Inv.{IsValid}
use a4team_os.Proc.Queue.Change.{touch-Inv}
use a4team_os.Proc.Create.{publish, forked, fork_failed, fork_from, fork}
use a4team_os.Proc.Create.Inv.{
  Allocated, failed, fresh, allocproc-Allocated, swap-IsValid, same_queues,
}
use a4team_os.Proc.Create.Publish.{IsChild, publish_lem}

module _ {W : Type 0} (sv : Services W) where
  -- What `fork` may leave and return, from the state `k`. It fails with -1, every
  -- process in the state that it was in; or it returns the pid of a new runnable process, a child
  -- of `cur` that was a free slot, and no other process is changed.
  pub data Spawned (cur : ℕ) (k : Kernel W) : Kernel W × ℤ → Type 0 where
    no_child :
        {k' : Kernel W}
        → IsValid k'
        → ((j : ℕ) → (k'.procs j).state ≡ (k.procs j).state)
        → Spawned cur k (k', negsuc 0)
    child :
        {k' : Kernel W} (i : ℕ)
        → i < nproc
        → (k.procs i).state ≡ unused
        → IsValid k'
        → IsChild cur (k.procs cur) (k'.procs i) k.next_pid
        → ((j : ℕ) → j ≢ i → k'.procs j ≡ k.procs j)
        → Spawned cur k (k', pos k.next_pid)

  fork_failed-IsValid :
      (i : ℕ) (k : Kernel W) (w : W)
      → IsValid k
      → (k.procs i).state ≡ embryo
      → IsValid (fork_failed sv i k w)
  unfolding fork_failed
  fork_failed-IsValid i k w v e =
      swap-IsValid sv i v (λ r. cc) (same_queues sv refl refl (omega arith)) (λ j ne. ground arith)
        (λ u. absurd (ground arith)) (ground arith)

  fork_failed_state :
      (i : ℕ) (k : Kernel W) (w : W) (j : ℕ)
      → ((fork_failed sv i k w).procs j).state ≡ (if j == i then unused else (k.procs j).state)
  unfolding fork_failed
  fork_failed_state i k w j = ground arith

  forked-IsValid :
      (cur i pd : ℕ) (k : Kernel W) (w : W) → IsValid k → IsValid (forked sv cur i pd k w)
  unfolding forked
  forked-IsValid cur i pd k w v =
      touch-Inv v (same_queues sv refl refl (omega arith)) (λ j. ground arith)

  forked_at :
      (cur i pd : ℕ) (k : Kernel W) (w : W) (j : ℕ)
      → let p = (forked sv cur i pd k w).procs j in
        (j ≡ i
          → (p.state ≡ (k.procs i).state)
            × (p.pid ≡ (k.procs i).pid)
            × (p.parent ≡ some cur)
            × (p.tf.eax ≡ 0)
            × (p.sz ≡ (k.procs cur).sz))
        × (j ≢ i → p ≡ k.procs j)
  unfolding forked
  forked_at cur i pd k w j = ground arith

  forked_lem :
      (cur : ℕ) (k k1 : Kernel W) (i pd : ℕ) (w : W)
      → cur ≢ i
      → i < nproc
      → (k.procs i).state ≡ unused
      → IsValid k1
      → (k1.procs i).state ≡ embryo
      → (k1.procs i).pid ≡ k.next_pid
      → ((j : ℕ) → j ≢ i → k1.procs j ≡ k.procs j)
      → Spawned cur k (publish sv cur i (forked sv cur i pd k1 w))
  forked_lem cur k k1 i pd w ne lt free v e id same =
      let k2 : Kernel W = forked sv cur i pd k1 w in
      let (st, id', pa, ax, sz) = (forked_at cur i pd k1 w i).0 refl in
      let (k', eq, d) = publish_lem sv cur i k2 (forked-IsValid cur i pd k1 w v) lt (st ∙ e) in
      let at_cur : k2.procs cur ≡ k.procs cur = (forked_at cur i pd k1 w cur).1 ne ∙ same cur ne in
      rw (eq, id' ∙ id)
        (child i lt free d.valid
          (record {
            ready = d.ready;
            named = d.pid ∙ id' ∙ id;
            owned = d.parent ∙ pa;
            first_row = d.row;
            sees_zero = ap (λ t. t.eax) d.tf ∙ ax;
            same_size = d.sz ∙ sz ∙ ap (λ p. p.sz) (same cur ne);
            same_cwd = d.cwd ∙ ap (λ p. p.cwd) at_cur;
          })
          (λ j nj. d.others j nj ∙ (forked_at cur i pd k1 w j).1 nj ∙ same j nj))

  fork_from-Spawned :
      (cur : ℕ) (k : Kernel W) {r : Option ℕ × Kernel W}
      → (k.procs cur).state ≢ unused
      → Allocated sv k r
      → Spawned cur k (fork_from sv cur r)
  unfolding fork_from
  fork_from-Spawned cur k live (failed v same) = no_child v same
  fork_from-Spawned cur k live (fresh {i} {k' = k1} lt free v e id same) =
      let (pd, w) = sv.copyuvm (k1.procs cur).pgdir (k1.procs cur).sz k1.world in
      elim (Bool-cases (pd == 0)) [
        | inl no_pages ↦ rw no_pages (
            no_child (fork_failed-IsValid i k1 w v e)
              (λ j. ground (arith, fork_failed_state i k1 w j, same j)))
        | inr pages ↦
            rw pages
              (forked_lem cur k k1 i pd w (λ at. live (rw (← at) at free)) lt free v e id same)
      ]

  -- From a valid state with a process `cur` in use, `fork` does what `Spawned` says, whatever the
  -- page allocator and `copyuvm` answer: it fails with -1 and leaves every process in its state, or
  -- returns the pid of one new runnable child of `cur`, which sees 0, on the first queue.
  pub fork-Spawned :
      (cur : ℕ) (k : Kernel W)
      → IsValid k
      → (k.procs cur).state ≢ unused
      → Spawned cur k (fork sv cur k)
  unfolding fork
  fork-Spawned cur k v live = fork_from-Spawned cur k live (allocproc-Allocated sv k v)
