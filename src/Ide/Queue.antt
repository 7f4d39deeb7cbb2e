-- ===== src/Ide/Queue.antt =====
-- The queue of xv6/ide.c as a list.
use a4team_os.Base.{
  ℕ, zero, suc, ◌≤◌, ◌<◌, ◌≡◌, refl, sym, ap, ◌∙◌, Bool, true, false, not, ◌&&◌, ◌||◌, ◌==◌, leb,
  if◌then◌else◌, update, arith, List, [], ◌∷◌, ◌++◌, length, some, Bool-cases, inl, inr,
}
use mathlib.Core.Path.{subst}
use a4team_os.Alloc.FreeList.{has}
use a4team_os.Ide.{fs_size, Ide, start_ports, idestart, queue_end, enqueue, iderw, is_done}

-- From `p` the `qnext` fields lead through the distinct buffers of the list to the null pointer.
pub data IsChain (next : ℕ → ℕ) : ℕ → List ℕ → Type 0 where
  chain_end : IsChain next 0 []
  chain_cons :
      {p : ℕ} {ps : List ℕ}
      → 0 < p
      → has p ps ≡ false
      → IsChain next (next p) ps
      → IsChain next p (p ∷ ps)

pub IsChain-frame :
    {next : ℕ → ℕ} {p : ℕ} {ps : List ℕ} (b q : ℕ)
    → IsChain next p ps
    → has b ps ≡ false
    → IsChain (update next b q) p ps
IsChain-frame b q chain_end out = chain_end
IsChain-frame {next} b q (chain_cons {p} {ps} pos_p new c) out =
    let e : update next b q p ≡ next p = ground arith in
    chain_cons pos_p new (rw e (IsChain-frame b q c (ground arith)))

pub take_apart :
    {next : ℕ → ℕ} {p p' : ℕ} {ps : List ℕ}
    → IsChain next p' (p ∷ ps)
    → (p' ≡ p) × (0 < p) × (has p ps ≡ false) × IsChain next (next p) ps
take_apart (chain_cons pos_p new c) = (refl, pos_p, new, c)

pub end_of_chain : {next : ℕ → ℕ} {p : ℕ} → IsChain next p [] → p ≡ 0
end_of_chain chain_end = refl

has-append : (a b : ℕ) (ps : List ℕ) → has a (ps ++ (b ∷ [])) ≡ has a ps || (a == b)
has-append a b [] = ground arith
has-append a b (p ∷ ps) = let e = has-append a b ps in ground arith

-- The buffer `b` is put behind the last one.
IsChain-snoc :
    (f b p : ℕ) (next : ℕ → ℕ) (ps : List ℕ)
    → length ps < f
    → 0 < b
    → next b ≡ 0
    → has b (p ∷ ps) ≡ false
    → IsChain next p (p ∷ ps)
    → let l = queue_end f next p in
      (has l (p ∷ ps) ≡ true) × IsChain (update next l b) p ((p ∷ ps) ++ (b ∷ []))
unfolding queue_end
IsChain-snoc zero b p next ps lt pos_b nb out c = absurd (omega arith)
IsChain-snoc (suc f) b p next [] lt pos_b nb out c =
    let (e, pos_p, new, rest) = take_apart c in
    let z : next p ≡ 0 = end_of_chain rest in
    let at_p : update next p b p ≡ b = ground arith in
    let at_b : update next p b b ≡ 0 = ground arith in
    rw (z, queue_end)
      (
        ground arith,
        chain_cons pos_p (ground arith) (rw at_p (chain_cons pos_b refl (rw at_b chain_end))),
      )
IsChain-snoc (suc f) b p next (q ∷ qs) lt pos_b nb out c =
    let (e, pos_p, new, rest) = take_apart c in
    let (e', pos_q, new', rest') = take_apart rest in
    let c' : IsChain next q (q ∷ qs) = subst (λ x. IsChain next x (q ∷ qs)) e' rest in
    let (inside, chain) = IsChain-snoc f b q next qs (omega arith) pos_b nb (ground arith) c' in
    let l = queue_end f next q in
    let nz : (next p == 0) ≡ false = ground arith in
    let h = has-append p b (q ∷ qs) in
    let ne : (p == l) ≡ false = elim (Bool-cases (p == l)) [
      | inr n ↦ n
      | inl y ↦
          let same : p ≡ l = ground arith in
          let i : has p (q ∷ qs) ≡ true = ap (λ x. has x (q ∷ qs)) same ∙ inside in
          absurd (ground arith)
    ] in
    let at_p : update next l b p ≡ q = ground arith in
    let el : queue_end (suc f) next p ≡ l = rw (nz, queue_end) (ap (queue_end f next) e') in
    subst
      (λ l.
        (has l (p ∷ (q ∷ qs)) ≡ true) × IsChain (update next l b) p ((p ∷ (q ∷ qs)) ++ (b ∷ [])))
      (sym el) (rw inside (ground arith), chain_cons pos_p (ground arith) (rw at_p chain))

-- What is not in the longer list is not its last two.
other_place :
    (a l b : ℕ) (ps : List ℕ)
    → has l ps ≡ true
    → has a (ps ++ (b ∷ [])) ≡ false
    → ((a == l) ≡ false) × ((a == b) ≡ false)
other_place a l b ps inside out =
    let e = has-append a b ps in
    let gone : has a ps ≡ false = ground arith in
    (
      elim (Bool-cases (a == l)) [
        | inr n ↦ n
        | inl y ↦
            let same : a ≡ l = ground arith in
            let i : has a ps ≡ true = ap (λ x. has x ps) same ∙ inside in absurd (ground arith)
      ],
      ground arith,
    )

-- The buffers of the list wait for the disk, in this order, and the blocks they are for exist.
pub record IsIde (s : Ide) (qs : List ℕ) : Type 0 where
  pub queue : IsChain s.qnext s.idequeue qs
  pub in_range : (b : ℕ) → has b qs ≡ true → leb fs_size (s.reqs b).block ≡ false

-- A buffer may be passed to `iderw`.
abbrev pub IsRequest : Ide → ℕ → Type 0
IsRequest s b =
    let q = s.reqs b in
    (q.is_held ≡ true)
    × (is_done q ≡ false)
    × ((q.disk == 0) || s.havedisk1 ≡ true)
    × (leb fs_size q.block ≡ false)

abbrev pub is_none : List ℕ → Bool
is_none [] = true
is_none (b ∷ bs) = false

-- `iderw`, for a buffer that does not wait yet, is locked and has something to do, on a disk that is
-- there and for a block that exists, and on fuel for the buffers that wait, does not panic: it puts
-- the buffer behind those that wait and starts the disk on it exactly if there were none. No
-- buffer, and no `qnext` field but those of the queue, is changed otherwise.
pub iderw-IsIde :
    (f b : ℕ) (s : Ide) (qs : List ℕ)
    → length qs ≤ f
    → 0 < b
    → has b qs ≡ false
    → IsIde s qs
    → IsRequest s b
    → (s' : Ide) × (iderw f b s ≡ some s')
      × IsIde s' (qs ++ (b ∷ []))
      × (s'.reqs ≡ s.reqs)
      × (s'.ports ≡ (if is_none qs then s.ports ++ start_ports (s.reqs b) else s.ports))
      × (s'.havedisk1 ≡ s.havedisk1)
      × ((a : ℕ) → has a (qs ++ (b ∷ [])) ≡ false → s'.qnext a ≡ s.qnext a)
unfolding iderw idestart enqueue is_done start_ports
iderw-IsIde f b s [] lt pos_b out ok (held, todo, dk, range) =
    let idle = end_of_chain ok.queue in
    let d : not ((s.reqs b).disk == 0) && not s.havedisk1 ≡ false = ground arith in
    let nz : (b == 0) ≡ false = ground arith in
    let self : (b == b) ≡ true = ground arith in
    let at_b : update s.qnext b 0 b ≡ 0 = ground arith in
    (
      record s {
        qnext = update s.qnext b 0;
        idequeue = b;
        ports = s.ports ++ start_ports (s.reqs b);
      },
      rw (held, todo, d, idle, self, nz, range) refl,
      record {
        queue = chain_cons pos_b refl (rw at_b chain_end);
        in_range = λ a h. let e : a ≡ b = ground arith in rw e range;
      },
      refl,
      refl,
      refl,
      λ a out'. ground arith,
    )
iderw-IsIde f b s (q ∷ qs) lt pos_b out ok (held, todo, dk, range) =
    let (first, pos_q, new, rest) = take_apart ok.queue in
    let d : not ((s.reqs b).disk == 0) && not s.havedisk1 ≡ false = ground arith in
    let busy : (s.idequeue == 0) ≡ false = ground arith in
    let other : (s.idequeue == b) ≡ false = ground arith in
    let next = update s.qnext b 0 in
    let at_b : next b ≡ 0 = ground arith in
    let c : IsChain next q (q ∷ qs) =
      subst (λ x. IsChain next x (q ∷ qs)) first (IsChain-frame b 0 ok.queue out) in
    let (inside, chain) = IsChain-snoc f b q next qs (omega arith) pos_b at_b out c in
    (
      record s { qnext = update next (queue_end f next s.idequeue) b },
      rw (held, todo, d, busy, other) refl,
      record {
        queue = rw first chain;
        in_range = λ a h. elim (Bool-cases (a == b)) [
          | inl y ↦ let e : a ≡ b = ground arith in rw e range
          | inr n ↦ ok.in_range a (let e = has-append a b (q ∷ qs) in ground arith)
        ];
      },
      refl,
      refl,
      refl,
      λ a out'.
          let (not_last, not_new) = other_place a (queue_end f next q) b (q ∷ qs) inside out' in
          rw (first, not_last, not_new) refl,
    )
