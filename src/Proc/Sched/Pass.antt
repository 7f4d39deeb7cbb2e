-- ===== src/Proc/Sched/Pass.antt =====
-- The aging loops of the scheduler in xv6/proc.c.
use a4team_os.Base.{
  ℕ, zero, suc, ◌+◌, ◌-◌, ◌≤◌, ◌<◌, ◌≡◌, refl, ◌∙◌, false, ltb, arith, Bool-cases, inl, inr,
}
use a4team_os.Proc.{Kernel}
use a4team_os.Proc.Queue.Inv.{Inv, IsValid, add-eq-added, added-Inv}
use a4team_os.Proc.Queue.Removal.{removed, removed-Inv, remove-eq-removed}
use a4team_os.Proc.Sched.{is_old, age_entry, age_row, age_rows}

module _ {W : Type 0} where
  -- No process has another state or pid than before.
  abbrev pub SameStates : Kernel W → Kernel W → Type 0
  SameStates k k' =
      (i : ℕ) → ((k'.procs i).state ≡ (k.procs i).state) × ((k'.procs i).pid ≡ (k.procs i).pid)

  -- One entry is moved up a row, or stays.
  record Aged (i : ℕ) (k k' : Kernel W) : Type 0 where
    valid : IsValid k'
    same : SameStates k k'
    shorter : k'.len i ≤ k.len i

  age_entry-Aged :
      (i j : ℕ) (k : Kernel W)
      → IsValid k
      → 0 < i
      → i < 5
      → j < k.len i
      → Aged i k (age_entry i j k)
  unfolding age_entry
  age_entry-Aged i j k v lo hi lj =
      elim (Bool-cases (is_old k.ticks (k.procs (k.slot i j)).enter)) [
        | inl old ↦
            let p = k.slot i j in
            let (lt, st, qu, _) = v.member i j lj in
            let inv : Inv p (removed i j k) = removed-Inv i j v lj in
            let eq = add-eq-added (i - 1) inv lt st in
            rw (old, remove-eq-removed i j v lj, eq)
              (record {
                valid = added-Inv (i - 1) inv lt (omega arith) st;
                same = λ h. ground arith;
                shorter = ground arith;
              })
        | inr young ↦
            rw young (record { valid = v; same = λ h. (refl, refl); shorter = omega arith })
      ]

  age_row-Aged : (f i j : ℕ) (k : Kernel W) → IsValid k → 0 < i → i < 5 → Aged i k (age_row f i j k)
  unfolding age_row
  age_row-Aged zero i j k v lo hi = record {
    valid = v;
    same = λ h. (refl, refl);
    shorter = omega arith;
  }
  age_row-Aged (suc f) i j k v lo hi = elim (Bool-cases (ltb j (k.len i))) [
    | inl more ↦
        let a = age_entry-Aged i j k v lo hi (ground arith) in
        let b = age_row-Aged f i (j + 1) (age_entry i j k) a.valid lo hi in
        rw (more, age_row)
          (record {
            valid = b.valid;
            same = λ h. ((b.same h).0 ∙ (a.same h).0, (b.same h).1 ∙ (a.same h).1);
            shorter = omega (arith, a.shorter, b.shorter);
          })
    | inr done ↦
        rw (done, age_row) (record { valid = v; same = λ h. (refl, refl); shorter = omega arith })
  ]

  age_row_end : (g i j : ℕ) (k : Kernel W) → k.len i ≤ j → age_row g i j k ≡ k
  unfolding age_row
  age_row_end zero i j k h = refl
  age_row_end (suc g) i j k h =
      let stop : ltb j (k.len i) ≡ false = ground arith in rw (stop, age_row) refl

  -- The fuel that `age_rows` gives to the loop over a row is enough: on a valid state any larger
  -- amount gives the same result.
  pub age_row_fuel :
      (f g i j : ℕ) (k : Kernel W)
      → IsValid k
      → 0 < i
      → i < 5
      → k.len i ≤ f + j
      → f ≤ g
      → age_row g i j k ≡ age_row f i j k
  unfolding age_row
  age_row_fuel zero g i j k v lo hi h le = age_row_end g i j k (omega arith)
  age_row_fuel (suc f) zero i j k v lo hi h le = absurd (omega arith)
  age_row_fuel (suc f) (suc g) i j k v lo hi h le = elim (Bool-cases (ltb j (k.len i))) [
    | inl more ↦
        let a = age_entry-Aged i j k v lo hi (ground arith) in
        let ih =
          age_row_fuel f g i (j + 1) (age_entry i j k) a.valid lo hi (omega (arith, a.shorter))
            (omega arith) in
        rw (more, age_row) ih
    | inr done ↦ rw (done, age_row) refl
  ]

  age_rows-Valid :
      (n i : ℕ) (k : Kernel W)
      → IsValid k
      → 0 < i
      → i + n ≤ 5
      → IsValid (age_rows n i k) × SameStates k (age_rows n i k)
  unfolding age_rows
  age_rows-Valid zero i k v lo hi = (v, λ h. (refl, refl))
  age_rows-Valid (suc n) i k v lo hi =
      let a = age_row-Aged (k.len i) i 0 k v lo (omega arith) in
      let (w, same) =
        age_rows-Valid n (i + 1) (age_row (k.len i) i 0 k) a.valid (omega arith) (omega arith) in
      (w, λ h. ((same h).0 ∙ (a.same h).0, (same h).1 ∙ (a.same h).1))

  -- The aging loops of a pass keep the state valid and change no process's state or pid.
  pub aging-IsValid :
      (k : Kernel W) → IsValid k → IsValid (age_rows 4 1 k) × SameStates k (age_rows 4 1 k)
  aging-IsValid k v = age_rows-Valid 4 1 k v (omega arith) (omega arith)
