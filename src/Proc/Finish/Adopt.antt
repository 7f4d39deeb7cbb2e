-- ===== src/Proc/Finish/Adopt.antt =====
-- What exit of xv6/proc.c does to the table before the caller is a zombie.
use a4team_os.Base.{
  ℕ, ◌+◌, ◌≤◌, ◌<◌, ◌≡◌, refl, sym, ap, ◌∙◌, ◌⊎◌, Bool, true, false, ◌&&◌, ◌==◌, if◌then◌else◌,
  update_self, update_ne, arith, Option, none, some, Bool-cases, inl, inr,
}
use a4team_os.Proc.{
  Proc, ProcState, sleeping, runnable, running, zombie, Chan, same_chan, Kernel, nproc, is_state,
  set_proc, for_each,
}
use a4team_os.Proc.Loops.{for_each_at}
use a4team_os.Proc.Queue.Inv.{IsValid}
use a4team_os.Proc.Queue.Change.{touch-Inv}
use a4team_os.Proc.Life.{wakeup1}
use a4team_os.Proc.Life.Wake.{wakeup1-Woken, wakeup1_initproc}
use a4team_os.Proc.Finish.{same_ptr, chan_of, adopt_one}

-- What `exit` has done to the table before the caller is made a zombie: the state is valid, the
-- caller still runs, pids are kept, a process keeps its parent or has the first process, and a
-- process has changed its state only by waking up.
pub record Leaving {W : Type 0} (cur : ℕ) (k k' : Kernel W) : Type 0 where
  pub valid : IsValid k'
  pub initproc : k'.initproc ≡ k.initproc
  pub runs : (k'.procs cur).state ≡ running
  pub pid : (i : ℕ) → i < nproc → (k'.procs i).pid ≡ (k.procs i).pid
  pub parent :
      (i : ℕ)
      → i < nproc
      → (k'.procs i).parent ≡ (k.procs i).parent
        ⊎ ((same_ptr (k.procs i).parent (some cur) ≡ true) × ((k'.procs i).parent ≡ k.initproc))
  pub state :
      (i : ℕ)
      → i < nproc
      → ((k'.procs i).state ≡ (k.procs i).state)
        ⊎ (((k.procs i).state ≡ sleeping) × ((k'.procs i).state ≡ runnable))

-- Waking up after a change that may have been waking up.
woken_state :
    (a b c : ProcState) (here : Bool)
    → (b ≡ a) ⊎ ((a ≡ sleeping) × (b ≡ runnable))
    → c ≡ (if is_state sleeping b && here then runnable else b)
    → (c ≡ a) ⊎ ((a ≡ sleeping) × (c ≡ runnable))
woken_state a b c here before e = elim (Bool-cases (is_state sleeping b && here)) [
  | inr stays ↦ let same : c ≡ b = e ∙ rw stays refl in rw same before
  | inl wakes ↦
      let now : c ≡ runnable = e ∙ rw wakes refl in
      let slept : b ≡ sleeping = ground arith in
      elim before [ inl same ↦ inr (sym same ∙ slept, now) | inr (f, g) ↦ inr (f, now) ]
]

same_ptr_sym : (x y : Option ℕ) → same_ptr x y ≡ same_ptr y x
same_ptr_sym none none = refl
same_ptr_sym none (some j) = refl
same_ptr_sym (some i) none = refl
same_ptr_sym (some i) (some j) = ground arith

-- A process that is a child now was one at the start.
was_child :
    {x x' : Option ℕ} (c : Option ℕ) {init : Option ℕ}
    → (x' ≡ x) ⊎ ((same_ptr x c ≡ true) × (x' ≡ init))
    → same_ptr x' c ≡ true
    → same_ptr x c ≡ true
was_child c (inl same) h = rw same at h
was_child c (inr (e, f)) h = e

module _ {W : Type 0} where
  pub wake-Leaving :
      {cur : ℕ} {k k1 : Kernel W} (chan : Chan)
      → cur < nproc
      → Leaving cur k k1
      → Leaving cur k (wakeup1 chan k1)
        × ((i : ℕ) → i < nproc → ((wakeup1 chan k1).procs i).parent ≡ (k1.procs i).parent)
  wake-Leaving {cur} {k} {k1} chan lt l =
      let (v, w) = wakeup1-Woken chan k1 l.valid in
      (
        record {
          valid = v;
          initproc = wakeup1_initproc chan k1 l.valid ∙ l.initproc;
          runs = (w cur lt).5 ∙ rw l.runs refl;
          pid = λ i li. (w i li).0 ∙ l.pid i li;
          parent = λ i li. rw ((w i li).1) (l.parent i li);
          state = λ i li.
              woken_state (k.procs i).state (k1.procs i).state ((wakeup1 chan k1).procs i).state
                (same_chan (k1.procs i).chan chan) (l.state i li) (w i li).5;
        },
        λ i li. (w i li).1,
      )

  -- The caller's parent field, or another field that no queue reads, of one process is set.
  adopt-Leaving :
      {cur : ℕ} {k k1 : Kernel W} (i : ℕ)
      → Leaving cur k k1
      → same_ptr (k.procs i).parent (some cur) ≡ true
      → Leaving cur k (set_proc k1 i (record (k1.procs i) { parent = k1.initproc }))
  adopt-Leaving {cur} {k} {k1} i l child = record {
    valid =
        touch-Inv l.valid
          (record { same_len = λ q. refl; same_slot = λ q j. refl; later = omega arith })
          (λ j. ground arith);
    initproc = l.initproc;
    runs = ground (arith, l.runs);
    pid = λ j lj. ground (arith, l.pid j);
    parent = λ j lj. elim (Bool-cases (j == i)) [
      | inl e ↦
          let same : j ≡ i = ground arith in
          rw (same, update_self k1.procs i (record (k1.procs i) { parent = k1.initproc }))
            (inr (child, l.initproc))
      | inr ne ↦
          rw (update_ne k1.procs i (record (k1.procs i) { parent = k1.initproc }) j (ground arith))
            (l.parent j lj)
    ];
    state = λ j lj. elim (Bool-cases (j == i)) [
      | inl e ↦
          let same : j ≡ i = ground arith in
          rw (same, update_self k1.procs i (record (k1.procs i) { parent = k1.initproc }))
            (l.state i (omega arith))
      | inr ne ↦
          rw (update_ne k1.procs i (record (k1.procs i) { parent = k1.initproc }) j (ground arith))
            (l.state j lj)
    ];
  }

  -- None of the processes below `n` is a child of the caller.
  abbrev pub Gone : (cur n : ℕ) → Kernel W → Type 0
  Gone cur n k = (j : ℕ) → j < n → same_ptr (k.procs j).parent (some cur) ≡ false

  -- The `wakeup1` of a round, if there is one.
  wake_if :
      {cur n : ℕ} {k k1 : Kernel W} (wakes : Bool) (chan : Chan)
      → cur < nproc
      → n ≤ nproc
      → Leaving cur k k1
      → Gone cur n k1
      → let k2 : Kernel W = if wakes then wakeup1 chan k1 else k1 in
        Leaving cur k k2 × Gone cur n k2
  wake_if false chan lt ln l gone = (l, gone)
  wake_if true chan lt ln l gone =
      let (w, parents) = wake-Leaving chan lt l in
      (w, λ j lj. rw (parents j (omega arith)) (gone j lj))

  -- One round of the loop: the process `i` is no longer a child.
  adopt_one-Leaving :
      {cur : ℕ} {k k1 : Kernel W} (i : ℕ)
      → cur < nproc
      → i < nproc
      → same_ptr (some cur) k.initproc ≡ false
      → Leaving cur k k1
      → Gone cur i k1
      → Leaving cur k (adopt_one cur i k1) × Gone cur (i + 1) (adopt_one cur i k1)
  unfolding adopt_one
  adopt_one-Leaving {cur} {k} {k1} i lt li init l gone =
      elim (Bool-cases (same_ptr (k1.procs i).parent (some cur))) [
        | inr other ↦ simp other (
          l,
          λ j lj. elim (Bool-cases (j == i)) [
            | inl e ↦ let same : j ≡ i = ground arith in rw same other
            | inr ne ↦ gone j (ground arith)
          ],
        )
        | inl child ↦
            let p : Proc = record (k1.procs i) { parent = k1.initproc } in
            let not_self : same_ptr k1.initproc (some cur) ≡ false =
              same_ptr_sym k1.initproc (some cur) ∙ ap (same_ptr (some cur)) l.initproc ∙ init in
            let adopted = adopt-Leaving i l (was_child (some cur) (l.parent i li) child) in
            simp child (
              wake_if (is_state zombie ((set_proc k1 i p).procs i).state) (chan_of k1.initproc) lt
                (omega arith) adopted
                (λ j lj. elim (Bool-cases (j == i)) [
                  | inl e ↦
                      let same : j ≡ i = ground arith in
                      rw (same, update_self k1.procs i p) not_self
                  | inr ne ↦ rw (update_ne k1.procs i p j (ground arith)) (gone j (ground arith))
                ]))
      ]

  -- All rounds of the loop.
  pub adopt_all :
      {cur : ℕ} {k k1 : Kernel W}
      → cur < nproc
      → same_ptr (some cur) k.initproc ≡ false
      → Leaving cur k k1
      → let k2 : Kernel W = for_each nproc 0 (adopt_one cur) k1 in
        Leaving cur k k2 × Gone cur nproc k2
  adopt_all {cur} {k} {k1} lt init l =
      for_each_at (λ i (s : Kernel W). Leaving cur k s × Gone cur i s) (adopt_one cur) nproc
        (λ i s li (ls, gone). adopt_one-Leaving i lt li init ls gone) nproc 0 k1 (omega arith)
        (l, λ j lj. absurd (omega arith))
