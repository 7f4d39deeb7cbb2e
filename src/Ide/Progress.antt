-- ===== src/Ide/Progress.antt =====
-- The requests in the queue of xv6/ide.c are finished, one by each interrupt.
use a4team_os.Base.{
  ℕ, ◌≡◌, refl, sym, ap, ◌∙◌, Bool, true, false, ◌==◌, leb, update, arith, List, [], ◌∷◌, ◌++◌,
  length, Option, none, some, Bool-cases, inl, inr,
}
use a4team_os.Alloc.FreeList.{has}
use a4team_os.Ide.{fs_size, Ide, PortOut, start_ports, idestart, finished, ideintr, is_done}
use a4team_os.Ide.Queue.{take_apart, end_of_chain, IsIde}

abbrev after_intr : (failed : Bool) (from_disk : ℕ → ℕ) (b : ℕ) → Ide → List PortOut → Ide
after_intr failed from_disk b s out = record s {
  idequeue = s.qnext b;
  reqs = update s.reqs b (finished failed from_disk (s.reqs b));
  ports = out;
}

finished_block :
    (failed : Bool) (from_disk : ℕ → ℕ) (s : Ide) (b a : ℕ)
    → (update s.reqs b (finished failed from_disk (s.reqs b)) a).block ≡ (s.reqs a).block
unfolding finished
finished_block failed from_disk s b a = elim (Bool-cases (a == b)) [
  | inl y ↦ let e : a ≡ b = ground arith in rw y (ap (λ x. (s.reqs x).block) (sym e))
  | inr n ↦ rw n refl
]

rest_in_range :
    (failed : Bool) (from_disk : ℕ → ℕ) (s : Ide) (b : ℕ) (qs : List ℕ)
    → IsIde s (b ∷ qs)
    → (a : ℕ) → has a qs ≡ true
    → leb fs_size (update s.reqs b (finished failed from_disk (s.reqs b)) a).block ≡ false
rest_in_range failed from_disk s b qs ok a h =
    rw (finished_block failed from_disk s b a) (ok.in_range a (ground arith))

-- The interrupt for the first request of the queue.
ideintr-IsIde :
    (failed : Bool) (from_disk : ℕ → ℕ) (s : Ide) (b : ℕ) (qs : List ℕ)
    → IsIde s (b ∷ qs)
    → (out : List PortOut) × (ideintr failed from_disk s
        ≡ some (b, after_intr failed from_disk b s out))
      × IsIde (after_intr failed from_disk b s out) qs
unfolding ideintr idestart
ideintr-IsIde failed from_disk s b [] ok =
    let (first, pos_b, new, rest) = take_apart ok.queue in
    let nz : (b == 0) ≡ false = ground arith in
    let last = end_of_chain rest in
    let z : (s.qnext b == 0) ≡ true = ground arith in
    (
      s.ports,
      rw (first, nz, z) refl,
      record { queue = rest; in_range = λ a h. absurd (ground arith) },
    )
ideintr-IsIde failed from_disk s b (q ∷ qs) ok =
    let (first, pos_b, new, rest) = take_apart ok.queue in
    let (next, pos_q, new', rest') = take_apart rest in
    let nz : (b == 0) ≡ false = ground arith in
    let nz' : (s.qnext b == 0) ≡ false = ground arith in
    let reqs' = update s.reqs b (finished failed from_disk (s.reqs b)) in
    let range : leb fs_size (reqs' (s.qnext b)).block ≡ false =
      rw (finished_block failed from_disk s b (s.qnext b))
        (ok.in_range (s.qnext b) (ground arith)) in
    (
      s.ports ++ start_ports (reqs' (s.qnext b)),
      rw (first, nz, nz', range, first) refl,
      record { queue = rest; in_range = rest_in_range failed from_disk s b (q ∷ qs) ok },
    )

pub interrupts : List (Bool × (ℕ → ℕ)) → Ide → Option Ide
interrupts [] s = some s
interrupts ((failed, from_disk) ∷ es) s = elim (ideintr failed from_disk s) [
  | none ↦ none
  | some (b, s') ↦ interrupts es s'
]

-- The requests `qs` are finished; what no request is for is as it was.
abbrev pub AllDone : Ide → List ℕ → Ide → Type 0
AllDone s qs s' =
    ((b : ℕ) → has b qs ≡ true → is_done (s'.reqs b) ≡ true)
    × ((b : ℕ) → has b qs ≡ false → s'.reqs b ≡ s.reqs b)

done_next :
    (failed : Bool) (from_disk : ℕ → ℕ) (b : ℕ) (qs : List ℕ) (out : List PortOut) (s s' : Ide)
    → has b qs ≡ false
    → AllDone (after_intr failed from_disk b s out) qs s'
    → AllDone s (b ∷ qs) s'
unfolding is_done finished
done_next failed from_disk b qs out s s' new (done, kept) = (
  (λ a h. elim (Bool-cases (has a qs)) [
    | inl later ↦ done a later
    | inr now ↦
        let e : a ≡ b = ground arith in
        let self : (b == b) ≡ true = ground arith in rw (e, kept b new, self) refl
  ]),
  λ a h. let n : (a == b) ≡ false = ground arith in kept a (ground arith) ∙ rw n refl,
)

-- After as many interrupts as buffers wait, whether the disk fails or not, no panic has come, the
-- queue is empty, and every buffer that has waited passes the test that ends the sleeps of
-- `iderw`; the other buffers are what they were.
pub ideintr-AllDone :
    (es : List (Bool × (ℕ → ℕ))) (qs : List ℕ) (s : Ide)
    → length es ≡ length qs
    → IsIde s qs
    → (s' : Ide) × (interrupts es s ≡ some s') × IsIde s' [] × AllDone s qs s'
unfolding interrupts
ideintr-AllDone [] [] s len ok = (s, refl, ok, ((λ b h. absurd (ground arith)), λ b h. refl))
ideintr-AllDone [] (b ∷ qs) s len ok = absurd (omega arith)
ideintr-AllDone (e ∷ es) [] s len ok = absurd (omega arith)
ideintr-AllDone ((failed, from_disk) ∷ es) (b ∷ qs) s len ok =
    let (first, pos_b, new, rest) = take_apart ok.queue in
    let (out, e, ok') = ideintr-IsIde failed from_disk s b qs ok in
    let (s', e', ok'', done) =
      ideintr-AllDone es qs (after_intr failed from_disk b s out) (omega arith) ok' in
    (s', rw (e, interrupts) e', ok'', done_next failed from_disk b qs out s s' new done)
