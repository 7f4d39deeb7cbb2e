-- ===== src/Proc/Queue/Rows.antt =====
-- The run queues as lists: adding appends, removing drops the first entry with the pid.
use a4team_os.Base.{
  ℕ, zero, suc, ◌+◌, ◌-◌, ◌≤◌, ◌<◌, ◌≡◌, refl, ap, ◌≢◌, Bool, true, false, ◌&&◌, ◌||◌, ◌==◌, ltb,
  leb, if◌then◌else◌, update, arith, none, some, pos, negsuc, List, [], ◌∷◌, ◌++◌, Bool-cases,
  ==_refl, Option-cases, ==_iff, ◌⊎◌, inl, inr,
}
use mathlib.Core.Path.{ap₂}
use a4team_os.Proc.{Kernel}
use a4team_os.Proc.Queue.{find_pid, add_proc_to_q, shift_down, remove_proc_from_q}

-- The entries `i`, …, `i + n - 1` of a row.
pub entries : (ℕ → ℕ) → ℕ → ℕ → List ℕ
entries row zero i = []
entries row (suc n) i = row i ∷ entries row n (i + 1)

pub shift_down_lem :
    (n i : ℕ) (row : ℕ → ℕ) (j : ℕ)
    → shift_down n i row j ≡ (if leb i j && ltb j (i + n) then row (j + 1) else row j)
unfolding shift_down
shift_down_lem zero i row j = ground arith
shift_down_lem (suc n) i row j =
    ground (arith, shift_down_lem n (i + 1) (update row i (row (i + 1))) j)

module _ {W : Type 0} (k : Kernel W) (pid q : ℕ) where
  abbrev pub pid_at : ℕ → ℕ
  pid_at j = (k.procs (k.slot q j)).pid

  -- `r` is the first of the `n` indices from `i` on whose entry has the pid.
  pub record IsFirst (n i r : ℕ) : Type 0 where
    pub from : i ≤ r
    pub to : r < i + n
    pub hit : pid_at r ≡ pid
    pub earlier : (j : ℕ) → i ≤ j → j < r → pid_at j ≢ pid

  pub find_pid-some : (n i : ℕ) {r : ℕ} → find_pid k pid q n i ≡ some r → IsFirst n i r
  unfolding find_pid
  find_pid-some zero i h = cc
  find_pid-some (suc n) i {r} h = elim (Bool-cases (pid_at i == pid)) [
    | inl hit ↦
        let e : r ≡ i = ground arith in
        record {
          from = omega arith;
          to = omega arith;
          hit = ground arith;
          earlier = λ j a b. absurd (omega arith);
        }
    | inr miss ↦
        let later : IsFirst n (i + 1) r = find_pid-some n (i + 1) (ground arith) in
        record {
          from = omega (arith, later.from);
          to = omega (arith, later.to);
          hit = later.hit;
          earlier = λ j a b e. ground (arith, later.earlier j);
        }
  ]

  pub find_pid-none :
      (n i : ℕ) → find_pid k pid q n i ≡ none → (j : ℕ) → i ≤ j → j < i + n → pid_at j ≢ pid
  unfolding find_pid
  find_pid-none zero i h j a b e = absurd (omega arith)
  find_pid-none (suc n) i h j a b e =
      let rest : find_pid k pid q n (i + 1) ≡ none = ground arith in
      let here : pid_at i ≢ pid = ground arith in
      let later : (i + 1 ≤ j → ⊥) = λ a'. find_pid-none n (i + 1) rest j a' (omega arith) e in
      here (let same : j ≡ i = omega arith in rw (← same) e)

entries-congr :
    (row row' : ℕ → ℕ) (n i i' : ℕ)
    → ((d : ℕ) → d < n → row (i + d) ≡ row' (i' + d))
    → entries row n i ≡ entries row' n i'
unfolding entries
entries-congr row row' zero i i' h = refl
entries-congr row row' (suc n) i i' h =
    ap₂ ◌∷◌
      (let e : i + 0 ≡ i = omega arith in
        let e' : i' + 0 ≡ i' = omega arith in rw (e, e') at (h 0 (omega arith)))
      (entries-congr row row' n (i + 1) (i' + 1) λ d lt.
        let e : i + 1 + d ≡ i + suc d = omega arith in
        let e' : i' + 1 + d ≡ i' + suc d = omega arith in rw (e, e') (h (suc d) (omega arith)))

entries-snoc :
    (row : ℕ → ℕ) (n i p : ℕ)
    → row (i + n) ≡ p
    → entries row (suc n) i ≡ entries row n i ++ (p ∷ [])
unfolding entries
entries-snoc row zero i p e = let z : i + 0 ≡ i = omega arith in ap (λ x. x ∷ []) (rw z at e)
entries-snoc row (suc n) i p e =
    ap (λ xs. row i ∷ xs)
      (entries-snoc row n (i + 1) p (let z : i + 1 + n ≡ i + suc n = omega arith in rw z e))

module _ {W : Type 0} where
  -- The row `q` of the run queues, first to run first.
  pub row : Kernel W → ℕ → List ℕ
  unfolding entries
  row k q = entries (k.slot q) (k.len q) 0

  -- The list without the first process that has the pid.
  pub drop_pid : Kernel W → (pid : ℕ) → List ℕ → List ℕ
  drop_pid k pid [] = []
  drop_pid k pid (p ∷ ps) = if (k.procs p).pid == pid then ps else p ∷ drop_pid k pid ps

  -- Some process of the list has the pid.
  pub has_pid : Kernel W → (pid : ℕ) → List ℕ → Bool
  has_pid k pid [] = false
  has_pid k pid (p ∷ ps) = ((k.procs p).pid == pid) || has_pid k pid ps

  has_pid-none :
      (k : Kernel W) (pid q n i : ℕ)
      → ((j : ℕ) → i ≤ j → j < i + n → (k.procs (k.slot q j)).pid ≢ pid)
      → has_pid k pid (entries (k.slot q) n i) ≡ false
  unfolding has_pid entries
  has_pid-none k pid q zero i h = refl
  has_pid-none k pid q (suc n) i h = ground (
    arith,
    h i (omega arith) (omega arith),
    has_pid-none k pid q n (i + 1) λ j a b. h j (omega arith) (omega arith),
  )

  drop_pid-none :
      (k : Kernel W) (pid : ℕ) (ps : List ℕ) → has_pid k pid ps ≡ false → drop_pid k pid ps ≡ ps
  unfolding drop_pid has_pid
  drop_pid-none k pid [] h = refl
  drop_pid-none k pid (p ∷ ps) h = ground (arith, drop_pid-none k pid ps)

  -- Row `q` with the entry `r` closed up.
  abbrev closed_up : Kernel W → (q r : ℕ) → ℕ → ℕ
  closed_up k q r j = if leb r j then k.slot q (j + 1) else k.slot q j

  drop_pid-first :
      (k : Kernel W) (pid q n i r : ℕ)
      → IsFirst k pid q (suc n) i r
      → drop_pid k pid (entries (k.slot q) (suc n) i) ≡ entries (closed_up k q r) n i
  unfolding drop_pid entries
  drop_pid-first k pid q zero i r f =
      let e : r ≡ i = omega (arith, f.from, f.to) in
      let hit : pid_at k pid q i ≡ pid = rw (← e) f.hit in ground arith
  drop_pid-first k pid q (suc n) i r f = elim (Bool-cases (pid_at k pid q i == pid)) [
    | inl hit ↦
        let e : r ≡ i = first_is hit in
        let same : entries (k.slot q) (suc n) (i + 1) ≡ entries (closed_up k q r) (suc n) i =
          entries-congr (k.slot q) (closed_up k q r) (suc n) (i + 1) i (λ d lt.
            let z : i + 1 + d ≡ i + d + 1 = omega arith in
            let t : leb r (i + d) ≡ true = ground arith in rw (t, z) refl) in
        rw hit same
    | inr miss ↦
        let ne : r ≢ i = λ e. ground (arith, f.hit) in
        let t : leb r i ≡ false = ground (arith, f.from) in
        rw (miss, t)
          (ap (λ xs. k.slot q i ∷ xs)
            (drop_pid-first k pid q n (i + 1) r (record {
              from = omega (arith, f.from);
              to = omega (arith, f.to);
              hit = f.hit;
              earlier = λ j a b. f.earlier j (omega arith) b;
            })))
  ]
    where
      first_is : (pid_at k pid q i == pid) ≡ true → r ≡ i
      first_is hit =
          omega (arith, f.from, λ (lt : i < r). f.earlier i (omega arith) lt ((==_iff _ _).0 hit))

  has_pid-first :
      (k : Kernel W) (pid q n i r : ℕ)
      → IsFirst k pid q n i r
      → has_pid k pid (entries (k.slot q) n i) ≡ true
  unfolding has_pid entries
  has_pid-first k pid q zero i r f = absurd (omega (arith, f.from, f.to))
  has_pid-first k pid q (suc n) i r f = elim (Bool-cases (pid_at k pid q i == pid)) [
    | inl hit ↦ rw hit refl
    | inr miss ↦
        let ne : r ≢ i = λ e. ground (arith, f.hit) in
        rw miss (
          has_pid-first k pid q n (i + 1) r (record {
            from = omega (arith, f.from);
            to = omega (arith, f.to);
            hit = f.hit;
            earlier = λ j a b. f.earlier j (omega arith) b;
          }))
  ]

  shift-closed_up :
      (k : Kernel W) (q r n : ℕ)
      → k.len q ≡ suc n
      → r < suc n
      → entries (closed_up k q r) n 0
        ≡ entries (shift_down (k.len q - 1 - r) r (k.slot q)) (k.len q - 1) 0
  shift-closed_up k q r n e lt =
      let m : k.len q - 1 ≡ n = omega arith in
      rw m (
        entries-congr (closed_up k q r) (shift_down (n - r) r (k.slot q)) n 0 0
          λ d below. ground (arith, shift_down_lem (n - r) r (k.slot q) (0 + d)))

  -- `add_proc_to_q` leaves the row alone if the process's pid is among the entries but the last,
  -- which the loop does not look at, and otherwise puts the process behind the row; it reports
  -- which, with -1 and 1.
  row-add_proc_to_q :
      (k : Kernel W) (p q : ℕ)
      → (((add_proc_to_q p q k).1 ≡ negsuc 0)
          × ((add_proc_to_q p q k).0 ≡ k)
          × (has_pid k (k.procs p).pid (entries (k.slot q) (k.len q - 1) 0) ≡ true))
        ⊎ (((add_proc_to_q p q k).1 ≡ pos 1)
            × (row (add_proc_to_q p q k).0 q ≡ row k q ++ (p ∷ []))
            × (has_pid k (k.procs p).pid (entries (k.slot q) (k.len q - 1) 0) ≡ false))
  unfolding add_proc_to_q row
  row-add_proc_to_q k p q = elim (Option-cases (find_pid k (k.procs p).pid q (k.len q - 1) 0)) [
    | inl free ↦
        let e : k.len q + 1 ≡ suc (k.len q) = omega arith in
        let new : update (k.slot q) (k.len q) p (0 + k.len q) ≡ p = ground arith in
        let kept : entries (update (k.slot q) (k.len q) p) (k.len q) 0
            ≡ entries (k.slot q) (k.len q) 0 =
          entries-congr (update (k.slot q) (k.len q) p) (k.slot q) (k.len q) 0 0
            (λ d lt. ground arith) in
        let snoc = entries-snoc (update (k.slot q) (k.len q) p) (k.len q) 0 p new in
        let none_there =
          has_pid-none k (k.procs p).pid q (k.len q - 1) 0
            (find_pid-none k (k.procs p).pid q (k.len q - 1) 0 free) in
        inr (ground (arith, ==_refl q))
    | inr (r, found) ↦
        let there =
          has_pid-first k (k.procs p).pid q (k.len q - 1) 0 r
            (find_pid-some k (k.procs p).pid q (k.len q - 1) 0 found) in
        inl (ground arith)
  ]

  -- `remove_proc_from_q` drops the first entry of the row with the process's pid and reports 1, or
  -- reports -1 and changes nothing if there is none.
  row-remove_proc_from_q :
      (k : Kernel W) (p q : ℕ)
      → (row (remove_proc_from_q p q k).0 q ≡ drop_pid k (k.procs p).pid (row k q))
        × ((remove_proc_from_q p q k).1
            ≡ (if has_pid k (k.procs p).pid (row k q) then pos 1 else negsuc 0))
  unfolding remove_proc_from_q row
  row-remove_proc_from_q k p q = elim (Option-cases (find_pid k (k.procs p).pid q (k.len q) 0)) [
    | inl free ↦
        let none_there =
          has_pid-none k (k.procs p).pid q (k.len q) 0
            (find_pid-none k (k.procs p).pid q (k.len q) 0 free) in
        let kept = drop_pid-none k (k.procs p).pid (entries (k.slot q) (k.len q) 0) none_there in
        ground arith
    | inr (r, found) ↦
        let first : IsFirst k (k.procs p).pid q (k.len q) 0 r =
          find_pid-some k (k.procs p).pid q (k.len q) 0 found in
        let there = has_pid-first k (k.procs p).pid q (k.len q) 0 r first in
        let size : k.len q ≡ suc (k.len q - 1) = omega (arith, first.to) in
        let dropped = drop_pid-first k (k.procs p).pid q (k.len q - 1) 0 r (rw size at first) in
        let moved = shift-closed_up k q r (k.len q - 1) size (omega (arith, first.to)) in
        ground arith
  ]
