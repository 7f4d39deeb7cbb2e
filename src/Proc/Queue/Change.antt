-- ===== src/Proc/Queue/Change.antt =====
-- Changes of one process that keep the invariant of the run queues.
use a4team_os.Base.{ℕ, ◌≤◌, ◌<◌, ◌≡◌, sym, ◌≢◌, true, arith, pos}
use native.Mathlib.Decide.{ℕ_discrete}
use native.Mathlib.Nat.{le_trans}
use a4team_os.Proc.{Proc, runnable, Kernel, nproc}
use a4team_os.Proc.Queue.{add_proc_to_q, requeue, unqueue}
use a4team_os.Proc.Queue.Inv.{used, Level, Inv, IsValid, added, add-eq-added, added-Inv}
use a4team_os.Proc.Queue.Removal.{remove_absent}

module _ {W : Type 0} where
  -- A process that is not runnable is no exception, and may be named as one.
  pub leave-Inv : {k : Kernel W} (h : ℕ) → IsValid k → (k.procs h).state ≢ runnable → Inv h k
  leave-Inv {k} h v nr = record {
    low = v.low;
    unique = v.unique;
    level = v.level;
    member = λ q j lj. let (a, b, c, d) = v.member q j lj in (a, b, c, λ e. nr (rw e at b));
    nodup = v.nodup;
    complete = λ i li s ne. v.complete i li s (omega arith);
  }

  pub join-Inv : {k : Kernel W} (h : ℕ) → Inv h k → (k.procs h).state ≢ runnable → IsValid k
  join-Inv {k} h v nr = record {
    low = v.low;
    unique = v.unique;
    level = v.level;
    member = λ q j lj. let (a, b, c, d) = v.member q j lj in (a, b, c, omega arith);
    nodup = v.nodup;
    complete = λ i li s ne. v.complete i li s (λ e. nr (rw e at s));
  }

  -- What the exception may be changed to: a free slot, or a process with its pid and a queue
  -- index that are fit for it.
  abbrev pub Fits : (h : ℕ) (p : Proc) (next : ℕ) → Kernel W → Type 0
  Fits h p next k =
      used p ≡ true
      → (p.pid < next)
        × Level p.queue
        × ((i : ℕ) → i < nproc → used (k.procs i) ≡ true → i ≢ h → (k.procs i).pid ≢ p.pid)

  -- The queues are the same, and no pid is taken back.
  pub record SameQueues (k k' : Kernel W) : Type 0 where
    pub same_len : (q : ℕ) → k'.len q ≡ k.len q
    pub same_slot : (q j : ℕ) → k'.slot q j ≡ k.slot q j
    pub later : k.next_pid ≤ k'.next_pid

  replace_unique :
      {k : Kernel W} (k' : Kernel W) {h : ℕ}
      → Inv h k
      → ((j : ℕ) → j ≢ h → k'.procs j ≡ k.procs j)
      → Fits h (k'.procs h) k'.next_pid k
      → (i j : ℕ) → i < nproc
      → j < nproc
      → used (k'.procs i) ≡ true
      → used (k'.procs j) ≡ true
      → (k'.procs i).pid ≡ (k'.procs j).pid
      → i ≡ j
  replace_unique {k} k' {h} v same fit i j li lj ui uj e = elim (ℕ_discrete i h) [
    | yes si ↦ elim (ℕ_discrete j h) [
      | yes sj ↦ omega arith
      | no oj ↦
          absurd
            ((fit (rw si at ui)).2 j lj (rw (same j oj) at uj) oj (rw (same j oj, si) at (sym e)))
    ]
    | no oi ↦ elim (ℕ_discrete j h) [
      | yes sj ↦
          absurd ((fit (rw sj at uj)).2 i li (rw (same i oi) at ui) oi (rw (same i oi, sj) at e))
      | no oj ↦
          v.unique i j li lj (rw (same i oi) at ui) (rw (same j oj) at uj)
            (rw (same i oi, same j oj) at e)
    ]
  ]

  -- Changing the exception keeps the invariant.
  pub replace-Inv :
      {k k' : Kernel W} {h : ℕ}
      → Inv h k
      → SameQueues k k'
      → ((j : ℕ) → j ≢ h → k'.procs j ≡ k.procs j)
      → Fits h (k'.procs h) k'.next_pid k
      → Inv h k'
  replace-Inv {k} {k'} {h} v sq same fit = record {
    low = λ i li u. elim (ℕ_discrete i h) [
      | yes si ↦ rw si (fit (rw si at u)).0
      | no oi ↦ rw (same i oi) (le_trans (v.low i li (rw (same i oi) at u)) sq.later)
    ];
    unique = replace_unique k' v same fit;
    level = λ i li u. elim (ℕ_discrete i h) [
      | yes si ↦ rw si (fit (rw si at u)).1
      | no oi ↦ rw (same i oi) (v.level i li (rw (same i oi) at u))
    ];
    member = λ q j lj.
        let (a, b, c, d) = v.member q j (rw (sq.same_len q) at lj) in
        rw (sq.same_slot q j, same (k.slot q j) d) (a, b, c, d);
    nodup = λ q a b la lb e.
        v.nodup q a b (rw (sq.same_len q) at la) (rw (sq.same_len q) at lb)
          (rw (sq.same_slot q a, sq.same_slot q b) at e);
    complete = λ i li s ne.
        let (q, j, lj, e) = v.complete i li (rw (same i ne) at s) ne in
        (q, j, rw (sq.same_len q) lj, rw (sq.same_slot q j) e);
  }

  -- Changes that leave every state, pid and queue index alone keep the invariant.
  pub touch-Inv :
      {k k' : Kernel W} {out : ℕ}
      → Inv out k
      → SameQueues k k'
      → ((j : ℕ)
          → ((k'.procs j).state ≡ (k.procs j).state)
            × ((k'.procs j).pid ≡ (k.procs j).pid)
            × ((k'.procs j).queue ≡ (k.procs j).queue))
      → Inv out k'
  touch-Inv {k} {k'} v sq same = record {
    low = λ i li u. ground (arith, v.low i, same i, sq.later);
    unique = λ i j li lj ui uj e. ground (arith, v.unique i j, same i, same j);
    level = λ i li u. rw ((same i).2) (v.level i li (rw ((same i).0) at u));
    member = λ q j lj.
        let (a, b, c, d) = v.member q j (rw (sq.same_len q) at lj) in
        rw (sq.same_slot q j, (same (k.slot q j)).0, (same (k.slot q j)).2) (a, b, c, d);
    nodup = λ q a b la lb e.
        v.nodup q a b (rw (sq.same_len q) at la) (rw (sq.same_len q) at lb)
          (rw (sq.same_slot q a, sq.same_slot q b) at e);
    complete = λ i li s ne.
        let (q, j, lj, e) = v.complete i li (rw ((same i).0) at s) ne in
        (q, j, rw (sq.same_len q) lj, rw (sq.same_slot q j) e);
  }

  -- `add_proc_to_q` on the exception, once it is runnable, removes the exception.
  pub add-IsValid :
      {k : Kernel W} {p : ℕ} (q : ℕ)
      → Inv p k
      → p < nproc
      → q < 5
      → (k.procs p).state ≡ runnable
      → IsValid (add_proc_to_q p q k).0
  add-IsValid {k} {p} q v lt lq r = rw (add-eq-added q v lt r) (added-Inv q v lt lq r)

  pub requeue-eq-added :
      {k : Kernel W} {p : ℕ}
      → Inv p k
      → p < nproc
      → (k.procs p).state ≡ runnable
      → (q : ℕ) × ((k.procs p).queue ≡ pos q) × (q < 5) × (requeue p k ≡ added p q k)
  unfolding requeue
  requeue-eq-added {k} {p} v lt r =
      let (q, e, lq) = v.level p lt (ground arith) in
      (q, e, lq, ground (arith, add-eq-added q v lt r))

  pub requeue-IsValid :
      {k : Kernel W} {p : ℕ}
      → Inv p k
      → p < nproc
      → (k.procs p).state ≡ runnable
      → IsValid (requeue p k)
  requeue-IsValid v lt r =
      let (q, e, lq, eq) = requeue-eq-added v lt r in rw eq (added-Inv q v lt lq r)

  -- `remove_proc_from_q(p, p->queue)` does nothing to a process that is in use and not runnable.
  pub unqueue_absent :
      {k : Kernel W} (p : ℕ)
      → IsValid k
      → p < nproc
      → used (k.procs p) ≡ true
      → (k.procs p).state ≢ runnable
      → unqueue p k ≡ k
  unfolding unqueue
  unqueue_absent {k} p v lt u nr =
      let (q, e, lq) = v.level p lt u in ground (arith, remove_absent p q v lt u nr)
