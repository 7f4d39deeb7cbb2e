-- ===== src/Proc/Create/Clone.antt =====
-- What clone of xv6/proc.c makes.
use a4team_os.Base.{
  ℕ, ◌+◌, ◌-◌, ◌%◌, ◌^◌, ◌<◌, ◌≡◌, refl, ap, ◌∙◌, ◌≢◌, arith, Option, some, ℤ, pos, negsuc,
}
use a4team_os.Proc.{Proc, unused, Kernel, nproc}
use a4team_os.Proc.Services.{Services}
use a4team_os.Proc.Queue.Inv.{IsValid}
use a4team_os.Proc.Queue.Change.{touch-Inv}
use a4team_os.Proc.Create.{cloned, clone_from, clone}
use a4team_os.Proc.Create.Inv.{Allocated, failed, fresh, allocproc-Allocated, same_queues}
use a4team_os.Proc.Create.Publish.{IsChild, publish_lem}

module _ {W : Type 0} (sv : Services W) where
  -- What the new thread shares with the caller of `clone`, and where it starts.
  pub record IsThread (c p : Proc) (function stack : ℕ) : Type 0 where
    pub same_group : p.tgid ≡ c.tgid
    pub same_space : p.pgdir ≡ c.pgdir
    pub starts : p.tf.eip ≡ function
    pub on_stack : p.tf.esp ≡ (stack + 4096 - 8) % 2 ^ 32
    pub own_stack : p.tstack ≡ stack

  pub data Threaded (cur function stack : ℕ) (k : Kernel W) : Kernel W × ℤ → Type 0 where
    no_thread :
        {k' : Kernel W}
        → IsValid k'
        → ((j : ℕ) → (k'.procs j).state ≡ (k.procs j).state)
        → Threaded cur function stack k (k', negsuc 0)
    thread :
        {k' : Kernel W} (i : ℕ)
        → i < nproc
        → (k.procs i).state ≡ unused
        → IsValid k'
        → IsChild cur (k.procs cur) (k'.procs i) k.next_pid
        → IsThread (k.procs cur) (k'.procs i) function stack
        → ((j : ℕ) → j ≢ i → k'.procs j ≡ k.procs j)
        → Threaded cur function stack k (k', pos k.next_pid)

  cloned-IsValid : (cur i f a s : ℕ) (k : Kernel W) → IsValid k → IsValid (cloned sv cur i f a s k)
  unfolding cloned
  cloned-IsValid cur i f a s k v =
      touch-Inv v (same_queues sv refl refl (omega arith)) (λ j. ground arith)

  cloned_at :
      (cur i f a s : ℕ) (k : Kernel W) (j : ℕ)
      → let p = (cloned sv cur i f a s k).procs j in
        (j ≡ i
          → (p.state ≡ (k.procs i).state)
            × (p.pid ≡ (k.procs i).pid)
            × (p.parent ≡ some cur)
            × (p.tf ≡ record {
              eax = 0;
              eip = f;
              esp = (s + 4096 - 8) % 2 ^ 32;
              ebp = (s + 4096 - 8) % 2 ^ 32;
            })
            × (p.sz ≡ (k.procs cur).sz)
            × (p.tgid ≡ (k.procs cur).tgid)
            × (p.pgdir ≡ (k.procs cur).pgdir)
            × (p.tstack ≡ s))
        × (j ≢ i → p ≡ k.procs j)
  unfolding cloned
  cloned_at cur i f a s k j = ground arith

  clone_from-Threaded :
      (cur f a s : ℕ) (k : Kernel W) {r : Option ℕ × Kernel W}
      → (k.procs cur).state ≢ unused
      → Allocated sv k r
      → Threaded cur f s k (clone_from sv cur f a s r)
  unfolding clone_from
  clone_from-Threaded cur f a s k live (failed v same) = no_thread v same
  clone_from-Threaded cur f a s k live (fresh {i} {k' = k1} lt free v e id same) =
      let k2 : Kernel W = cloned sv cur i f a s k1 in
      let ne : cur ≢ i = λ at. live (rw (← at) at free) in
      let (st, id', pa, tf, sz, tg, pd, ts) = (cloned_at cur i f a s k1 i).0 refl in
      let (k', eq, d) = publish_lem sv cur i k2 (cloned-IsValid cur i f a s k1 v) lt (st ∙ e) in
      let before : k1.procs cur ≡ k.procs cur = same cur ne in
      let at_cur : k2.procs cur ≡ k.procs cur = (cloned_at cur i f a s k1 cur).1 ne ∙ before in
      rw (eq, id' ∙ id)
        (thread i lt free d.valid
          (record {
            ready = d.ready;
            named = d.pid ∙ id' ∙ id;
            owned = d.parent ∙ pa;
            first_row = d.row;
            sees_zero = ap (λ t. t.eax) (d.tf ∙ tf);
            same_size = d.sz ∙ sz ∙ ap (λ p. p.sz) before;
            same_cwd = d.cwd ∙ ap (λ p. p.cwd) at_cur;
          })
          (record {
            same_group = d.tgid ∙ tg ∙ ap (λ p. p.tgid) before;
            same_space = d.pgdir ∙ pd ∙ ap (λ p. p.pgdir) before;
            starts = ap (λ t. t.eip) (d.tf ∙ tf);
            on_stack = ap (λ t. t.esp) (d.tf ∙ tf);
            own_stack = d.tstack ∙ ts;
          })
          (λ j nj. d.others j nj ∙ (cloned_at cur i f a s k1 j).1 nj ∙ same j nj))

  -- From a valid state with a process `cur` in use, `clone` does what `Threaded` says: it fails
  -- with -1 and leaves every process in its state, or returns the pid of one new runnable thread in
  -- the caller's group and address space, which starts at the function, with the two words below the end of the page on top of its stack,
  -- where addresses wrap at 2 ^ 32.
  pub clone-Threaded :
      (cur f a s : ℕ) (k : Kernel W)
      → IsValid k
      → (k.procs cur).state ≢ unused
      → Threaded cur f s k (clone sv cur f a s k)
  unfolding clone
  clone-Threaded cur f a s k v live =
      clone_from-Threaded cur f a s k live (allocproc-Allocated sv k v)
