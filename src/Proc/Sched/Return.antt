-- ===== src/Proc/Sched/Return.antt =====
-- What the scheduler of xv6/proc.c does with a process that has come back, and the timer.
use a4team_os.Base.{
  ℕ, ◌+◌, ◌<◌, ◌≡◌, refl, sym, ◌∙◌, Bool, true, false, ◌==◌, if◌then◌else◌, update_self, update_ne,
  arith, ℤ, pos, negsuc, Bool-cases, inl, inr,
}
use mathlib.Core.Path.{subst}
use a4team_os.Proc.{Proc, runnable, Kernel, nproc, is_state, set_proc}
use a4team_os.Proc.Queue.{requeue}
use a4team_os.Proc.Queue.Inv.{used, Level, Inv, IsValid}
use a4team_os.Proc.Queue.Change.{join-Inv, replace-Inv, requeue-eq-added, requeue-IsValid}
use a4team_os.Proc.Sched.{lower, charged, after_run}

-- The row that a process is queued on after its run: one further down, of the five, if it used up
-- its share, the last row kept.
pub data NextRow : (used_up : Bool) → ℤ → ℤ → Type 0 where
  stays : {n : ℤ} → NextRow false n n
  goes_down : {q : ℕ} → q < 4 → NextRow true (pos q) (pos (q + 1))
  at_bottom : NextRow true (pos 4) (pos 4)

lower-NextRow : (z : ℤ) → Level z → NextRow true z (lower z)
lower-NextRow (pos n) (q, e, lq) = elim (Bool-cases (n == 4)) [
  | inl last ↦ let b : n ≡ 4 = ground arith in rw b at_bottom
  | inr up ↦ rw up (goes_down (ground arith))
]
lower-NextRow (negsuc n) (q, e, lq) = cc

-- The row that the code gives it.
abbrev next_row : Proc → ℤ
next_row r = if r.change_q then lower r.queue else r.queue

next_row-NextRow : (r : Proc) → Level r.queue → NextRow r.change_q r.queue (next_row r)
next_row-NextRow r l = elim (Bool-cases r.change_q) [
  | inl c ↦ rw c (lower-NextRow r.queue l)
  | inr c ↦ rw c stays
]

Level-lower : (z : ℤ) → Level z → Level (lower z)
Level-lower (pos n) (q, e, lq) = elim (Bool-cases (n == 4)) [
  | inl last ↦ rw last (q, e, lq)
  | inr up ↦ rw up (n + 1, refl, ground arith)
]
Level-lower (negsuc n) (q, e, lq) = cc

Level-next_row : (r : Proc) → Level r.queue → Level (next_row r)
Level-next_row r l = elim (Bool-cases r.change_q) [
  | inl c ↦ simp c (Level-lower r.queue l)
  | inr c ↦ simp c l
]

charged_lem :
    (r : Proc)
    → ((charged r).state ≡ r.state) × ((charged r).pid ≡ r.pid) × ((charged r).queue ≡ next_row r)
unfolding charged
charged_lem r = ground arith

module _ {W : Type 0} where
  requeue_run :
      (p : ℕ) (r' : Proc) (k : Kernel W)
      → Inv p k
      → p < nproc
      → (k.procs p).state ≡ runnable
      → r'.state ≡ runnable
      → r'.pid ≡ (k.procs p).pid
      → Level r'.queue
      → IsValid (requeue p (set_proc k p r'))
        × (((requeue p (set_proc k p r')).procs p).queue ≡ r'.queue)
        × (((requeue p (set_proc k p r')).procs p).state ≡ runnable)
  requeue_run p r' k v lt st st' id l =
      let k1 : Kernel W = set_proc k p r' in
      let here : k1.procs p ≡ r' = update_self k.procs p r' in
      let u : used (k.procs p) ≡ true = ground arith in
      let inv : Inv p k1 =
        replace-Inv v
          (record { same_len = λ q. refl; same_slot = λ q j. refl; later = omega arith })
          (update_ne k.procs p r')
          (rw here (λ _. (
            omega (arith, v.low p lt u, id),
            l,
            λ j lj uj ne e. ne (v.unique j p lj lt uj u (e ∙ id)),
          ))) in
      let run : (k1.procs p).state ≡ runnable = rw here st' in
      let (q, e, lq, eq) = requeue-eq-added inv lt run in
      (requeue-IsValid inv lt run, rw eq (ground arith), rw eq (ground arith))

  -- After a run: a process that has come back runnable is queued again, one of the five rows
  -- further down if it used up its share, but for the last, and on its own row if not; any other is
  -- left off the queues. The state is valid again.
  pub after_run-IsValid :
      (p : ℕ) (k : Kernel W)
      → Inv p k
      → p < nproc
      → IsValid (after_run p k)
        × ((k.procs p).state ≡ runnable
            → (((after_run p k).procs p).state ≡ runnable)
              × NextRow (k.procs p).change_q (k.procs p).queue ((after_run p k).procs p).queue)
  unfolding after_run
  after_run-IsValid p k v lt = elim (Bool-cases (is_state runnable (k.procs p).state)) [
    | inl r ↦
        let c = k.procs p in
        let st : c.state ≡ runnable = ground arith in
        let (same_state, same_pid, row) = charged_lem c in
        let l : Level (charged c).queue = rw row (Level-next_row c (v.level p lt (ground arith))) in
        let (a, b, d) = requeue_run p (charged c) k v lt st (same_state ∙ st) same_pid l in
        rw (r, after_run)
          (
            a,
            λ _. (
              d,
              subst (NextRow c.change_q c.queue) (sym (b ∙ row))
                  (next_row-NextRow c (v.level p lt (ground arith))),
            ),
          )
    | inr nr ↦ rw (nr, after_run) (join-Inv p v (λ e. ground arith), λ e. absurd (ground arith))
  ]
