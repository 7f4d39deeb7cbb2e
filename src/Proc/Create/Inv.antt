-- ===== src/Proc/Create/Inv.antt =====
-- allocproc, fork and clone keep the invariant of the process table and the run queues.
use a4team_os.Base.{
  ℕ, ◌≤◌, ◌<◌, ◌≡◌, refl, ◌≢◌, Bool, true, ◌==◌, update, update_self, arith, Option, none, some,
  pos, Bool-cases, Option-cases, inl, inr,
}
use a4team_os.Proc.{ProcState, unused, embryo, runnable, Kernel, nproc, is_state, find_from}
use a4team_os.Proc.Loops.{find_from-some}
use a4team_os.Proc.Services.{Services}
use a4team_os.Proc.Queue.Inv.{IsValid}
use a4team_os.Proc.Queue.Change.{leave-Inv, join-Inv, SameQueues, replace-Inv, Fits}
use a4team_os.Proc.Create.{claim, prepared, alloc_failed, alloc_done, allocproc}

module _ {W : Type 0} (sv : Services W) where
  -- What `allocproc` leaves: nothing changed but for the world and a used-up pid, or a new process
  -- in state EMBRYO with a pid that no other process has.
  pub data Allocated (k : Kernel W) : Option ℕ × Kernel W → Type 0 where
    failed :
        {k' : Kernel W}
        → IsValid k'
        → ((j : ℕ) → (k'.procs j).state ≡ (k.procs j).state)
        → Allocated k (none, k')
    fresh :
        {i : ℕ} {k' : Kernel W}
        → i < nproc
        → (k.procs i).state ≡ unused
        → IsValid k'
        → (k'.procs i).state ≡ embryo
        → (k'.procs i).pid ≡ k.next_pid
        → ((j : ℕ) → j ≢ i → k'.procs j ≡ k.procs j)
        → Allocated k (some i, k')

  pub same_queues :
      {k k' : Kernel W}
      → k'.len ≡ k.len
      → k'.slot ≡ k.slot
      → k.next_pid ≤ k'.next_pid
      → SameQueues k k'
  same_queues a b c = record { same_len = λ q. rw a; same_slot = λ q j. rw b; later = c }

  -- Replacing a process that is not runnable by another one that is not.
  pub swap-IsValid :
      {k k' : Kernel W} (h : ℕ)
      → IsValid k
      → (k.procs h).state ≢ runnable
      → SameQueues k k'
      → ((j : ℕ) → j ≢ h → k'.procs j ≡ k.procs j)
      → Fits h (k'.procs h) k'.next_pid k
      → (k'.procs h).state ≢ runnable
      → IsValid k'
  swap-IsValid h v nr sq same fit nr' = join-Inv h (replace-Inv (leave-Inv h v nr) sq same fit) nr'

  abbrev is_free : Kernel W → ℕ → Bool
  is_free k i = is_state unused (k.procs i).state

  unused_of_is : (s : ProcState) → is_state unused s ≡ true → s ≡ unused
  unused_of_is s h = ground arith

  alloc_failed-IsValid :
      (k : Kernel W) (i : ℕ) (w : W)
      → IsValid k
      → (k.procs i).state ≡ unused
      → IsValid (alloc_failed sv i k w)
  unfolding alloc_failed claim
  alloc_failed-IsValid k i w v free =
      let p =
        record (update k.procs i
          (record (k.procs i) { state = embryo; pid = k.next_pid; tgid = k.next_tgid }) i) {
            state = unused;
          } in
      let here =
        update_self
          (update k.procs i
            (record (k.procs i) { state = embryo; pid = k.next_pid; tgid = k.next_tgid }))
          i p in
      swap-IsValid i v (ground arith) (same_queues refl refl (omega arith)) (λ j ne. ground arith)
        (rw here (λ u. cc)) (rw here (λ e. cc))

  alloc_failed_state :
      (k : Kernel W) (i : ℕ) (w : W)
      → (k.procs i).state ≡ unused
      → (j : ℕ) → ((alloc_failed sv i k w).procs j).state ≡ (k.procs j).state
  unfolding alloc_failed claim
  alloc_failed_state k i w free j = ground arith

  alloc_done_at :
      (k : Kernel W) (i page : ℕ) (w : W)
      → let p = (alloc_done sv i k page w).procs i in
        (p.state ≡ embryo) × (p.pid ≡ k.next_pid) × (p.queue ≡ pos 0)
  unfolding alloc_done claim prepared
  alloc_done_at k i page w = ground arith

  alloc_done_other :
      (k : Kernel W) (i page : ℕ) (w : W) (j : ℕ)
      → j ≢ i
      → (alloc_done sv i k page w).procs j ≡ k.procs j
  unfolding alloc_done claim
  alloc_done_other k i page w j ne = ground arith

  alloc_done-IsValid :
      (k : Kernel W) (i page : ℕ) (w : W)
      → IsValid k
      → (k.procs i).state ≡ unused
      → IsValid (alloc_done sv i k page w)
  unfolding alloc_done claim
  alloc_done-IsValid k i page w v free =
      let (st, id, row) = alloc_done_at k i page w in
      swap-IsValid i v (ground arith) (same_queues refl refl (omega arith))
        (alloc_done_other k i page w)
        (λ u.
          (omega (arith, id), (0, row, omega arith), λ j lj uj ne e. omega (arith, v.low j lj uj)))
        (λ e. cc)

  pub allocproc-Allocated : (k : Kernel W) → IsValid k → Allocated k (allocproc sv k)
  unfolding allocproc
  allocproc-Allocated k v = elim (Option-cases (find_from nproc 0 (is_free k))) [
    | inl full ↦ rw (full, allocproc) (failed v (λ j. refl))
    | inr (i, found) ↦
        let f = find_from-some nproc 0 (is_free k) found in
        let free : (k.procs i).state ≡ unused = unused_of_is (k.procs i).state f.hit in
        let (page, w) = sv.kalloc k.world in
        elim (Bool-cases (page == 0)) [
          | inl no_page ↦
              rw (found, allocproc, no_page)
                (failed (alloc_failed-IsValid k i w v free) (alloc_failed_state k i w free))
          | inr has_page ↦
              let (st, id, row) = alloc_done_at k i page w in
              rw (found, allocproc, has_page)
                (fresh (omega (arith, f.to)) free (alloc_done-IsValid k i page w v free) st id
                  (alloc_done_other k i page w))
        ]
  ]
