-- ===== src/Proc/Sched/Choice.antt =====
-- Which process the scheduler of xv6/proc.c starts.
use a4team_os.Base.{
  ℕ, zero, suc, ◌+◌, ◌≤◌, ◌<◌, ◌≡◌, refl, sym, ap, ◌∙◌, ◌≢◌, true, ltb, update, update_self,
  update_ne, arith, Option, none, some, Bool-cases, inl, inr,
}
use a4team_os.Proc.{runnable, running, Kernel, nproc, is_state}
use a4team_os.Proc.Queue.Inv.{used, Inv, IsValid}
use a4team_os.Proc.Queue.Removal.{removed, removed-Inv, remove-eq-removed}
use a4team_os.Proc.Queue.Change.{join-Inv, replace-Inv}
use a4team_os.Proc.Sched.{age_rows, pick, start_running, launch, dispatch}
use a4team_os.Proc.Sched.Pass.{SameStates, aging-IsValid}

module _ {W : Type 0} where
  -- What `pick` answers on a valid state, looking at the rows from `i` on: all those are empty; or
  -- the head of a row, the rows before it from `i` on being empty, is taken off.
  data Picked (n i : ℕ) (k : Kernel W) : Option ℕ × Kernel W → Type 0 where
    idle : ((q : ℕ) → i ≤ q → q < i + n → k.len q ≡ 0) → Picked n i k (none, k)
    head :
        (q : ℕ)
        → i ≤ q
        → q < i + n
        → 0 < k.len q
        → ((h : ℕ) → i ≤ h → h < q → k.len h ≡ 0)
        → Picked n i k (some (k.slot q 0), removed q 0 k)

  pick-Picked : (n i : ℕ) (k : Kernel W) → IsValid k → Picked n i k (pick n i k)
  unfolding pick
  pick-Picked zero i k v = idle (λ q a b. absurd (omega arith))
  pick-Picked (suc n) i k v = elim (Bool-cases (ltb 0 (k.len i))) [
    | inl full ↦
        rw (full, pick, remove-eq-removed i 0 v (ground arith))
          (head i (omega arith) (omega arith) (ground arith) (λ h a b. absurd (omega arith)))
    | inr empty ↦
        let e : k.len i ≡ 0 = ground arith in rw (empty, pick) (later e (pick-Picked n (i + 1) k v))
  ]
    where
      later : k.len i ≡ 0 → {r : Option ℕ × Kernel W} → Picked n (i + 1) k r → Picked (suc n) i k r
      later e (idle none_full) = idle (λ q a b. ground (arith, none_full q))
      later e (head q a b full first) =
          head q (omega arith) (omega arith) full (λ h c d. ground (arith, first h))

  -- On a valid state, queue rows from 5 on are empty.
  row_small : (k : Kernel W) (q j : ℕ) → IsValid k → j < k.len q → q < 5
  row_small k q j v lj =
      let (lt, st, qu, _) = v.member q j lj in
      let (q', e, small) = v.level (k.slot q j) lt (ground arith) in ground arith

  start_running-IsValid :
      (p : ℕ) (k : Kernel W)
      → Inv p k
      → p < nproc
      → (k.procs p).state ≡ runnable
      → IsValid (start_running p k)
        × (((start_running p k).procs p).state ≡ running)
        × ((j : ℕ) → j ≢ p → (start_running p k).procs j ≡ k.procs j)
  unfolding start_running
  start_running-IsValid p k v lt st =
      let r = record (k.procs p) { num_run = (k.procs p).num_run + 1; state = running } in
      let here : update k.procs p r p ≡ r = update_self k.procs p r in
      let u : used (k.procs p) ≡ true = ground arith in
      let go : is_state runnable (k.procs p).state ≡ true = ground arith in
      rw go (
        join-Inv p
            (replace-Inv v
              (record { same_len = λ q. refl; same_slot = λ q j. refl; later = omega arith })
              (update_ne k.procs p r)
              (rw here (λ _.
                (v.low p lt u, v.level p lt u, λ j lj uj ne e. ne (v.unique j p lj lt uj u e)))))
            (rw here (λ e. cc)),
        rw here refl,
        update_ne k.procs p r,
      )

  -- What a pass of the scheduler may answer from the state `k`. No process is runnable, and none
  -- is started; or the process at the head of the first row that is not empty after the aging is
  -- started: it was runnable, it runs, and no other process has another state than before.
  pub data Dispatched (k : Kernel W) : Option ℕ × Kernel W → Type 0 where
    idle :
        {k' : Kernel W}
        → IsValid k'
        → ((i : ℕ) → i < nproc → (k.procs i).state ≢ runnable)
        → Dispatched k (none, k')
    starts :
        {k' : Kernel W} (p q : ℕ)
        → p < nproc
        → (age_rows 4 1 k).slot q 0 ≡ p
        → 0 < (age_rows 4 1 k).len q
        → ((h : ℕ) → h < q → (age_rows 4 1 k).len h ≡ 0)
        → IsValid k'
        → (k.procs p).state ≡ runnable
        → (k'.procs p).state ≡ running
        → ((j : ℕ) → j ≢ p → (k'.procs j).state ≡ (k.procs j).state)
        → Dispatched k (some p, k')

  chosen :
      (k a : Kernel W)
      → a ≡ age_rows 4 1 k
      → IsValid a
      → SameStates k a
      → {r : Option ℕ × Kernel W} → Picked 5 0 a r
      → Dispatched k (launch r)
  unfolding launch
  chosen k a e v same (idle none_full) = idle v (λ i lt st.
      let (q, j, lj, at) = v.complete i lt ((same i).0 ∙ st) (omega arith) in
      absurd (omega (arith, none_full q (omega arith) (row_small a q j v lj))))
  chosen k a e v same (head q lo hi full first) =
      let p = a.slot q 0 in
      let (lt, st, qu, _) = v.member q 0 full in
      let (v', runs, others) =
        start_running-IsValid p (removed q 0 a) (removed-Inv q 0 v full) lt st in
      let go : is_state runnable (a.procs p).state ≡ true = ground arith in
      rw go (
        starts p q lt (rw (← e) refl) (rw (← e) full) (λ h c. rw (← e) (first h (omega arith) c)) v'
          (sym (same p).0 ∙ st) runs (λ j ne. ap (λ r. r.state) (others j ne) ∙ (same j).0))

  -- A pass of the scheduler on a valid state does what `Dispatched` says: it idles only if no
  -- process is runnable, and otherwise starts the head of the first row that is not empty.
  pub dispatch-Dispatched : (k : Kernel W) → IsValid k → Dispatched k (dispatch k)
  unfolding dispatch
  dispatch-Dispatched k v =
      let (va, same) = aging-IsValid k v in
      chosen k (age_rows 4 1 k) refl va same (pick-Picked 5 0 (age_rows 4 1 k) va)
