-- ===== src/Bio/Get.antt =====
-- bget of xv6/bio.c: at most one buffer for a block, and the least recently used one for a new one.
use a4team_os.Base.{
  ℕ, ◌+◌, ◌%◌, ◌^◌, ◌≡◌, refl, ap, ◌∙◌, ◌≢◌, ◌⊎◌, Bool, true, false, ◌==◌, arith, List, [], ◌∷◌,
  none, some, length, Bool-cases, Option-cases, inl, inr,
}
use a4team_os.Bio.{
  Buf, Bcache, GotBuf, panics, waits, holds, walk_from, set_buf, holds_block, is_unused, lock_buf,
  recycle_buf, bget,
}
use a4team_os.Bio.Ring.{lacks, IsRing, first_of, last_of, walk_forward, walk_backward}

-- All of the list fail the test.
abbrev pub None : (ℕ → Bool) → List ℕ → Type 0
None test xs = (i : ℕ) → lacks i xs ≡ false → test i ≡ false

first_of-some :
    (test : ℕ → Bool) (xs : List ℕ) {b : ℕ}
    → first_of test xs ≡ some b
    → (lacks b xs ≡ false) × (test b ≡ true)
first_of-some test [] h = absurd cc
first_of-some test (x ∷ xs) {b} h = elim (Bool-cases (test x)) [
  | inl t ↦ let e : b ≡ x = ground arith in rw e (ground arith, t)
  | inr n ↦
      let rest : first_of test xs ≡ some b = ground arith in
      let (l, t) = first_of-some test xs rest in (ground arith, t)
]

first_of-none : (test : ℕ → Bool) (xs : List ℕ) → first_of test xs ≡ none → None test xs
first_of-none test [] h i l = absurd cc
first_of-none test (x ∷ xs) h i l = elim (Bool-cases (i == x)) [
  | inl e ↦ let same : i ≡ x = ground arith in rw same (ground arith)
  | inr ne ↦ first_of-none test xs (ground arith) i (ground arith)
]

last_of-some :
    (test : ℕ → Bool) (xs : List ℕ) {b : ℕ}
    → last_of test xs ≡ some b
    → (lacks b xs ≡ false) × (test b ≡ true)
last_of-some test [] h = absurd cc
last_of-some test (x ∷ xs) {b} h = elim (Option-cases (last_of test xs)) [
  | inl n ↦ let e : (b ≡ x) × (test x ≡ true) = ground arith in rw (e.0) (ground arith, e.1)
  | inr (y, e) ↦
      let same : b ≡ y = ground arith in
      let (l, t) = last_of-some test xs e in rw same (ground arith, t)
]

last_of-none : (test : ℕ → Bool) (xs : List ℕ) → last_of test xs ≡ none → None test xs
last_of-none test [] h i l = absurd cc
last_of-none test (x ∷ xs) h i l = elim (Option-cases (last_of test xs)) [
  | inl n ↦ elim (Bool-cases (i == x)) [
    | inl e ↦ let same : i ≡ x = ground arith in rw same (ground arith)
    | inr ne ↦ last_of-none test xs n i (ground arith)
  ]
  | inr (y, e) ↦ absurd (ground arith)
]

module _ {A : Type 0} where
  -- No two buffers of the list are of the same block. A buffer that was never used has device 0.
  abbrev pub Unique : Bcache A → List ℕ → Type 0
  Unique s xs =
      (i j d n : ℕ)
      → d ≢ 0
      → lacks i xs ≡ false
      → lacks j xs ≡ false
      → holds_block d n (s.buf i) ≡ true
      → holds_block d n (s.buf j) ≡ true
      → i ≡ j

  -- Where the buffer `x` in place `b` comes from: it was of the block before, and has one more
  -- reference, or it is the last unused one of the list and is recycled.
  abbrev pub Origin : (d n : ℕ) → Bcache A → (xs : List ℕ) (b : ℕ) → Buf A → Type 0
  Origin d n s xs b x =
      ((first_of (λ i. holds_block d n (s.buf i)) xs ≡ some b)
        × (x.refcnt ≡ ((s.buf b).refcnt + 1) % 2 ^ 32)
        × (x.valid ≡ (s.buf b).valid)
        × (x.dirty ≡ (s.buf b).dirty)
        × (x.data_of ≡ (s.buf b).data_of))
      ⊎ (None (λ i. holds_block d n (s.buf i)) xs
          × (last_of (λ i. is_unused (s.buf i)) xs ≡ some b)
          × (x.refcnt ≡ 1)
          × (x.valid ≡ false)
          × (x.dirty ≡ false))

  -- The buffer `b` of the list is now of the block, and its lock is held; the list and the other
  -- buffers are as before.
  pub record Got (d n : ℕ) (s : Bcache A) (xs : List ℕ) (b : ℕ) (s' : Bcache A) : Type 0 where
    pub inside : lacks b xs ≡ false
    pub block : holds_block d n (s'.buf b) ≡ true
    pub locked : (s'.buf b).locked ≡ true
    pub origin : Origin d n s xs b (s'.buf b)
    pub others : (i : ℕ) → i ≢ b → s'.buf i ≡ s.buf i
    pub links : (s'.next ≡ s.next) × (s'.prev ≡ s.prev) × (s'.caller ≡ s.caller)
    pub unique : Unique s' xs

  -- What `bget` answers: it panics, with no buffer of the block and none that could be recycled, or
  -- it gets a buffer, at once and held by the caller, or when another process unlocks it.
  pub data IsGotBuf (d n : ℕ) (s : Bcache A) (xs : List ℕ) : GotBuf A → Type 0 where
    no_buffer :
        None (λ i. holds_block d n (s.buf i)) xs
        → None (λ i. is_unused (s.buf i)) xs
        → IsGotBuf d n s xs panics
    at_once :
        {b : ℕ} {s' : Bcache A}
        → Got d n s xs b s'
        → (s'.buf b).owner ≡ s.caller
        → IsGotBuf d n s xs (holds b s')
    later : {b : ℕ} {s' : Bcache A} → Got d n s xs b s' → IsGotBuf d n s xs (waits b s')

  Got-of :
      (d n : ℕ) (s : Bcache A) (xs : List ℕ) (b : ℕ) (x : Buf A)
      → Unique s xs
      → lacks b xs ≡ false
      → holds_block d n x ≡ true
      → ((j : ℕ) → lacks j xs ≡ false → d ≢ 0 → holds_block d n (s.buf j) ≡ true → j ≡ b)
      → Origin d n s xs b x
      → x.locked ≡ true
      → (s' : Bcache A) → s'.buf b ≡ x
      → ((i : ℕ) → i ≢ b → s'.buf i ≡ s.buf i)
      → (s'.next ≡ s.next) × (s'.prev ≡ s.prev) × (s'.caller ≡ s.caller)
      → Got d n s xs b s'
  unfolding holds_block
  Got-of d n s xs b x u l h alone o held s' here others links = record {
    inside = l;
    block = rw here h;
    locked = rw here held;
    origin = rw here o;
    others = others;
    links = links;
    unique = λ i j d' n' ne li lj hi hj.
        ground (arith, u i j d' n', alone i, alone j, others i, others j);
  }

  -- `acquiresleep` on the buffer that was found.
  lock_buf-IsGotBuf :
      (d n : ℕ) (s : Bcache A) (xs : List ℕ) (b : ℕ) (s1 : Bcache A)
      → Unique s xs
      → lacks b xs ≡ false
      → holds_block d n (s1.buf b) ≡ true
      → ((j : ℕ) → lacks j xs ≡ false → d ≢ 0 → holds_block d n (s.buf j) ≡ true → j ≡ b)
      → Origin d n s xs b (s1.buf b)
      → ((i : ℕ) → i ≢ b → s1.buf i ≡ s.buf i)
      → (s1.next ≡ s.next) × (s1.prev ≡ s.prev) × (s1.caller ≡ s.caller)
      → IsGotBuf d n s xs (lock_buf b s1)
  unfolding lock_buf set_buf holds_block
  lock_buf-IsGotBuf d n s xs b s1 u l h alone o others links =
      elim (Bool-cases ((s1.buf b).locked)) [
        | inl held ↦
            simp held (later (Got-of d n s xs b (s1.buf b) u l h alone o held s1 refl others links))
        | inr free ↦ simp free (
            at_once
              (Got-of d n s xs b (record (s1.buf b) { locked = true; owner = s1.caller }) u l h
                alone o refl (set_buf b (record (s1.buf b) { locked = true; owner = s1.caller }) s1)
                (ground arith) (λ i ne. set_other i ne ∙ others i ne) links)
              (own ∙ links.2))
      ]
    where
      own :
          ((set_buf b (record (s1.buf b) { locked = true; owner = s1.caller }) s1).buf b).owner
          ≡ s1.caller
      own = unfold set_buf in ground arith

      set_other :
          (i : ℕ)
          → i ≢ b
          → (set_buf b (record (s1.buf b) { locked = true; owner = s1.caller }) s1).buf i ≡ s1.buf i
      set_other i ne = unfold set_buf in ground arith

  found_at :
      (d n : ℕ) (s : Bcache A) (xs : List ℕ) (b : ℕ) (x : Buf A)
      → Unique s xs
      → lacks b xs ≡ false
      → holds_block d n x ≡ true
      → ((j : ℕ) → lacks j xs ≡ false → d ≢ 0 → holds_block d n (s.buf j) ≡ true → j ≡ b)
      → Origin d n s xs b x
      → IsGotBuf d n s xs (lock_buf b (set_buf b x s))
  unfolding set_buf
  found_at d n s xs b x u l h alone o =
      let this : (set_buf b x s).buf b ≡ x = ground arith in
      lock_buf-IsGotBuf d n s xs b (set_buf b x s) u l (ap (holds_block d n) this ∙ h) alone
        (rw this o) (λ i ne. ground arith) (refl, refl, refl)

  recycle_buf-IsGotBuf :
      (d n : ℕ) (s : Bcache A) (xs : List ℕ)
      → IsRing s.next s.prev xs
      → length xs ≡ 30
      → Unique s xs
      → None (λ i. holds_block d n (s.buf i)) xs
      → IsGotBuf d n s xs (recycle_buf d n s)
  unfolding recycle_buf holds_block
  recycle_buf-IsGotBuf d n s xs r len u miss =
      let walk = walk_backward 0 s.next s.prev (λ i. is_unused (s.buf i)) xs r in
      let fuel : 1 + length xs ≡ 31 = omega (arith, len) in
      let back : walk_from 31 s.prev (s.prev 30) (λ i. is_unused (s.buf i))
          ≡ last_of (λ i. is_unused (s.buf i)) xs =
        rw fuel at walk in
      elim (Option-cases (last_of (λ i. is_unused (s.buf i)) xs)) [
        | inl e ↦
            let stop = back ∙ e in
            rw (stop, recycle_buf) (no_buffer miss (last_of-none (λ i. is_unused (s.buf i)) xs e))
        | inr (b, e) ↦
            let hit = back ∙ e in
            let (l, t) = last_of-some (λ i. is_unused (s.buf i)) xs e in
            rw (hit, recycle_buf)
              (found_at d n s xs b
                (record (s.buf b) {
                  dev_no = d;
                  blockno = n;
                  valid = false;
                  dirty = false;
                  refcnt = 1;
                })
                u l (ground arith) (λ j lj ne h. absurd (clash (miss j lj) h))
                (inr (miss, e, refl, refl, refl)))
      ]
    where
      clash : {x : Bool} → x ≡ false → x ≢ true
      clash e h = cc

  -- On a list of the 30 buffers, with no two of the same block, `bget` gets the buffer of the block
  -- with one more reference, or else recycles the least recently used one that has no reference and
  -- is not dirty, and no two buffers are of the same block. It panics only if there is neither.
  pub bget-IsGotBuf :
      (d n : ℕ) (s : Bcache A) (xs : List ℕ)
      → IsRing s.next s.prev xs
      → length xs ≡ 30
      → Unique s xs
      → IsGotBuf d n s xs (bget d n s)
  unfolding bget holds_block
  bget-IsGotBuf d n s xs r len u =
      let walk =
        walk_forward 31 s.next s.prev (λ i. holds_block d n (s.buf i)) xs r (omega (arith, len)) in
      elim (Option-cases (first_of (λ i. holds_block d n (s.buf i)) xs)) [
        | inl e ↦
            let miss = walk ∙ e in
            rw (miss, bget)
              (recycle_buf-IsGotBuf d n s xs r len u
                (first_of-none (λ i. holds_block d n (s.buf i)) xs e))
        | inr (b, e) ↦
            let hit = walk ∙ e in
            let (l, t) = first_of-some (λ i. holds_block d n (s.buf i)) xs e in
            rw (hit, bget)
              (found_at d n s xs b (record (s.buf b) { refcnt = ((s.buf b).refcnt + 1) % 2 ^ 32 }) u
                l t (λ j lj ne h. u j b d n ne lj l h t) (inl (e, refl, refl, refl, refl)))
      ]
