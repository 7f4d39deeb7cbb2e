-- ===== src/Proc/Create/Publish.antt =====
-- The common end of fork and clone of xv6/proc.c.
use a4team_os.Base.{ℕ, ◌<◌, ◌≡◌, refl, ◌∙◌, ◌≢◌, true, update_self, update_ne, arith, some, pos}
use a4team_os.Proc.{Proc, embryo, runnable, Kernel, nproc, set_proc}
use a4team_os.Proc.Services.{Services}
use a4team_os.Proc.Queue.Inv.{used, Inv, IsValid, added, add-eq-added, added-Inv}
use a4team_os.Proc.Queue.Change.{leave-Inv, replace-Inv}
use a4team_os.Proc.Create.{published, publish}
use a4team_os.Proc.Create.Inv.{same_queues}

-- The fields by which a process and its parent know each other.
pub record IsChild (cur : ℕ) (c p : Proc) (pid : ℕ) : Type 0 where
  pub ready : p.state ≡ runnable
  pub named : p.pid ≡ pid
  pub owned : p.parent ≡ some cur
  pub first_row : p.queue ≡ pos 0
  pub sees_zero : p.tf.eax ≡ 0
  pub same_size : p.sz ≡ c.sz
  pub same_cwd : p.cwd ≡ c.cwd

module _ {W : Type 0} (sv : Services W) where
  publish_at :
      (cur i : ℕ) (k : Kernel W)
      → let p = (published sv cur i k).0 in
        (p.state ≡ runnable)
        × (p.pid ≡ (k.procs i).pid)
        × (p.queue ≡ (k.procs i).queue)
        × (p.parent ≡ (k.procs i).parent)
        × (p.tf ≡ (k.procs i).tf)
        × (p.sz ≡ (k.procs i).sz)
        × (p.cwd ≡ (k.procs cur).cwd)
        × (p.tgid ≡ (k.procs i).tgid)
        × (p.pgdir ≡ (k.procs i).pgdir)
        × (p.tstack ≡ (k.procs i).tstack)
  unfolding published
  publish_at cur i k = (refl, refl, refl, refl, refl, refl, refl, refl, refl, refl)

  -- What `publish` leaves of the new process `i` and of the others.
  pub record Published (cur i : ℕ) (k k' : Kernel W) : Type 0 where
    pub valid : IsValid k'
    pub others : (j : ℕ) → j ≢ i → k'.procs j ≡ k.procs j
    pub ready : (k'.procs i).state ≡ runnable
    pub pid : (k'.procs i).pid ≡ (k.procs i).pid
    pub row : (k'.procs i).queue ≡ pos 0
    pub parent : (k'.procs i).parent ≡ (k.procs i).parent
    pub tf : (k'.procs i).tf ≡ (k.procs i).tf
    pub sz : (k'.procs i).sz ≡ (k.procs i).sz
    pub cwd : (k'.procs i).cwd ≡ (k.procs cur).cwd
    pub tgid : (k'.procs i).tgid ≡ (k.procs i).tgid
    pub pgdir : (k'.procs i).pgdir ≡ (k.procs i).pgdir
    pub tstack : (k'.procs i).tstack ≡ (k.procs i).tstack

  pub publish_lem :
      (cur i : ℕ) (k : Kernel W)
      → IsValid k
      → i < nproc
      → (k.procs i).state ≡ embryo
      → (k' : Kernel W) × (publish sv cur i k ≡ (k', pos (k.procs i).pid)) × Published cur i k k'
  unfolding publish
  publish_lem cur i k v lt e =
      let p = (published sv cur i k).0 in
      let w = (published sv cur i k).1 in
      let k1 : Kernel W = set_proc (record k { world = w }) i p in
      let (st, id, qu, pa, tf, sz, cwd, tg, pd, ts) = publish_at cur i k in
      let here : k1.procs i ≡ p = update_self k.procs i p in
      let others : ((j : ℕ) → j ≢ i → k1.procs j ≡ k.procs j) = update_ne k.procs i p in
      let u : used (k.procs i) ≡ true = ground arith in
      let inv : Inv i k1 =
        replace-Inv (leave-Inv i v (λ r. cc)) (same_queues sv refl refl (omega arith)) others (
          rw here (λ _. (
            omega (arith, v.low i lt u, id),
            rw qu (v.level i lt u),
            λ j lj uj ne e'. ne (v.unique j i lj lt uj u (e' ∙ id)),
          ))) in
      let run : (k1.procs i).state ≡ runnable = rw here st in
      (
        added i 0 k1,
        ground (arith, add-eq-added 0 inv lt run),
        record {
          valid = added-Inv 0 inv lt (omega arith) run;
          others = λ j ne. ground arith;
          ready = ground arith;
          pid = ground arith;
          row = ground arith;
          parent = ground arith;
          tf = ground arith;
          sz = ground arith;
          cwd = ground arith;
          tgid = ground arith;
          pgdir = ground arith;
          tstack = ground arith;
        },
      )
