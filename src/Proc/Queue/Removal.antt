-- ===== src/Proc/Queue/Removal.antt =====
-- remove_proc_from_q of xv6/proc.c keeps the invariant of the run queues.
use a4team_os.Base.{
  ℕ, ◌+◌, ◌-◌, ◌<◌, ◌≡◌, refl, sym, ap, ◌∙◌, ◌≢◌, true, ◌&&◌, ◌==◌, ltb, leb, if◌then◌else◌, update,
  arith, pos, negsuc, Bool-cases, Option-cases, inl, inr,
}
use a4team_os.Proc.{runnable, Kernel, nproc}
use a4team_os.Proc.Queue.{find_pid, shift_down, remove_proc_from_q}
use a4team_os.Proc.Queue.Rows.{find_pid-some, find_pid-none, shift_down_lem}
use a4team_os.Proc.Queue.Inv.{used, Inv, IsValid}

-- The index before the removal of the entry that stands at `j` after it.
abbrev old_index : (q r q' j : ℕ) → ℕ
old_index q r q' j = if (q' == q) && leb r j then j + 1 else j

module _ {W : Type 0} where
  -- The state after `remove_proc_from_q` where the loop finds the entry `r`.
  abbrev pub removed : (q r : ℕ) → Kernel W → Kernel W
  removed q r k = record k {
    slot = update k.slot q (shift_down (k.len q - 1 - r) r (k.slot q));
    len = update k.len q (k.len q - 1);
  }

  -- In a valid state a process stands at most once on all queues together.
  pub unique_place :
      {k : Kernel W} (q a q' b : ℕ)
      → IsValid k
      → a < k.len q
      → b < k.len q'
      → k.slot q a ≡ k.slot q' b
      → (q ≡ q') × (a ≡ b)
  unique_place {k} q a q' b v la lb e =
      let same_row : q ≡ q' = ground (arith, v.member q a la, v.member q' b lb) in
      (same_row, ground (arith, v.nodup q a b))

  old_index_lem :
      (k : Kernel W) (q r q' j : ℕ)
      → r < k.len q
      → j < (removed q r k).len q'
      → ((removed q r k).slot q' j ≡ k.slot q' (old_index q r q' j))
        × (old_index q r q' j < k.len q')
        × (q' ≡ q → old_index q r q' j ≢ r)
  old_index_lem k q r q' j lr lj = ground (arith, shift_down_lem (k.len q - 1 - r) r (k.slot q) j)

  -- Taking the entry `r` of row `q` off makes its process the exception.
  pub removed-Inv :
      {k : Kernel W} (q r : ℕ) → IsValid k → r < k.len q → Inv (k.slot q r) (removed q r k)
  removed-Inv {k} q r v lr = record {
    low = v.low;
    unique = v.unique;
    level = v.level;
    member = λ q' j lj.
        let (e, below, ne) = old_index_lem k q r q' j lr lj in
        let (a, b, c, d) = v.member q' (old_index q r q' j) below in
        let other : k.slot q' (old_index q r q' j) ≢ k.slot q r = λ same.
          let (row, place) = unique_place q' (old_index q r q' j) q r v below lr same in
          ne row place in
        rw e (a, b, c, other);
    nodup = λ q' a b la lb e.
        let (ea, ba, na) = old_index_lem k q r q' a lr la in
        let (eb, bb, nb) = old_index_lem k q r q' b lr lb in
        let same : old_index q r q' a ≡ old_index q r q' b =
          v.nodup q' (old_index q r q' a) (old_index q r q' b) ba bb (sym ea ∙ e ∙ eb) in
        ground arith;
    complete = λ i li s ne.
        let (q', j, lj, e) = v.complete i li s (ground arith) in
        let ne_r : (q' ≡ q → j ≢ r) = λ row place. ne (ground arith) in
        elim (Bool-cases ((q' == q) && ltb r j)) [
          | inl behind ↦ (
            q',
            j - 1,
            ground arith,
            let lt : j - 1 < (removed q r k).len q' = ground arith in
                let (e', below, _) = old_index_lem k q r q' (j - 1) lr lt in
                let back : old_index q r q' (j - 1) ≡ j = ground arith in
                e' ∙ ap (k.slot q') back ∙ e,
          )
          | inr before ↦
              let lt : j < (removed q r k).len q' = ground (arith, ne_r) in
              let (e', below, _) = old_index_lem k q r q' j lr lt in
              let back : old_index q r q' j ≡ j = ground (arith, ne_r) in
              (q', j, lt, e' ∙ ap (k.slot q') back ∙ e)
        ];
  }

  -- A process of the queues is found by its pid, and taken off.
  pub remove-eq-removed :
      {k : Kernel W} (q r : ℕ)
      → IsValid k
      → r < k.len q
      → remove_proc_from_q (k.slot q r) q k ≡ (removed q r k, pos 1)
  unfolding remove_proc_from_q
  remove-eq-removed {k} q r v lr =
      let (a, b, _, _) = v.member q r lr in
      elim (Option-cases (find_pid k (k.procs (k.slot q r)).pid q (k.len q) 0)) [
        | inl free ↦ absurd (
            find_pid-none k (k.procs (k.slot q r)).pid q (k.len q) 0 free r (omega arith)
              (omega arith) refl)
        | inr (j, found) ↦
            let f = find_pid-some k (k.procs (k.slot q r)).pid q (k.len q) 0 found in
            let lj : j < k.len q = omega (arith, f.to) in
            let (a', b', _, _) = v.member q j lj in
            let same : j ≡ r =
              v.nodup q j r lj lr
                (v.unique (k.slot q j) (k.slot q r) a' a (ground arith) (ground arith) f.hit) in
            ground arith
      ]

  -- For a process in use that is not runnable the loop finds nothing.
  pub remove_absent :
      {k : Kernel W} (p q : ℕ)
      → IsValid k
      → p < nproc
      → used (k.procs p) ≡ true
      → (k.procs p).state ≢ runnable
      → remove_proc_from_q p q k ≡ (k, negsuc 0)
  unfolding remove_proc_from_q
  remove_absent {k} p q v lt u nr = elim (Option-cases (find_pid k (k.procs p).pid q (k.len q) 0)) [
    | inl free ↦ ground arith
    | inr (j, found) ↦
        let f = find_pid-some k (k.procs p).pid q (k.len q) 0 found in
        let (in_table, is_runnable, at_level, ne) = v.member q j (omega (arith, f.to)) in
        let same : k.slot q j ≡ p = v.unique (k.slot q j) p in_table lt (ground arith) u f.hit in
        absurd (nr (rw same at is_runnable))
  ]
