-- ===== src/Bio/Release.antt =====
-- brelse of xv6/bio.c on the doubly linked list: it puts the buffer behind the head.
use a4team_os.Base.{
  ℕ, zero, suc, ◌+◌, ◌-◌, ◌%◌, ◌^◌, ◌≤◌, ◌<◌, ◌≡◌, refl, sym, ap, ◌∙◌, ◌≢◌, true, false, ◌&&◌, ◌==◌,
  if◌then◌else◌, update, arith, List, [], ◌∷◌, Option, none, some, Bool, Bool-cases, inl, inr,
}
use a4team_os.Proc.Loops.{for_each_at}
use a4team_os.Bio.{head, Buf, Bcache, push_front, init_buf, unlink, move_up, set_buf, binit, brelse}
use a4team_os.Bio.Ring.{IsChain, lacks, IsRing}
use a4team_os.Bio.Links.{
  without, lacks_ne, IsChain-update, unlink-IsChain, lacks-without, distinct-without,
}

last_ref : (n : ℕ) → 0 < n → (n == 1) ≡ (n - 1 == 0)
last_ref n lt = ground arith

module _ {A : Type 0} where
  unlink-IsRing :
      (b : ℕ) (s : Bcache A) (xs : List ℕ)
      → IsRing s.next s.prev xs
      → lacks b xs ≡ false
      → IsRing (unlink b s).next (unlink b s).prev (without b xs)
  unfolding unlink
  unlink-IsRing b s xs r l = record {
    chain =
        rw link (unlink-IsChain b s.next s.prev head xs head r.no_head r.no_head r.apart l r.chain);
    no_head = lacks-without head b xs r.no_head;
    apart = (distinct-without b xs r.apart).0;
  }
    where
      link : update s.prev (s.next b) (s.prev b) b ≡ s.prev b
      link = ground arith

  push_front-IsRing :
      (b : ℕ) (s : Bcache A) (xs : List ℕ)
      → IsRing s.next s.prev xs
      → lacks b xs ≡ true
      → b ≢ head
      → IsRing (push_front b s).next (push_front b s).prev (b ∷ xs)
  unfolding push_front IsChain
  push_front-IsRing b s [] r l ne = record {
    chain = let (e, e') = r.chain in (ground arith, ground arith, (ground arith, ground arith));
    no_head = ground arith;
    apart = refl;
  }
  push_front-IsRing b s (y ∷ ys) r l ne = record {
    chain =
        let (e, e', ch) = r.chain in
        let first = s.next head in
        let not_y : head ≢ y = ground (arith, r.no_head) in
        let not_ys : lacks head ys ≡ true = ground (arith, r.no_head) in
        let inner =
          IsChain-update b first b head s.next s.prev y ys head (ground arith) (ground arith) ne
            (ground arith) ch in
        (
          ground arith,
          ground arith,
          (
            ground arith,
            ground arith,
            IsChain-update head b (update s.next b first head) b (update s.next b first)
                (update s.prev b head) y ys head not_y not_ys (ground arith)
                (ground (arith, r.apart)) inner,
          ),
        );
    no_head = ground (arith, r.no_head);
    apart = ground (arith, r.apart);
  }

  move_up-IsRing :
      (b : ℕ) (s : Bcache A) (xs : List ℕ)
      → IsRing s.next s.prev xs
      → lacks b xs ≡ false
      → ((move_up b s).buf ≡ s.buf)
        × IsRing
            (move_up b s).next
            (move_up b s).prev
            (if (s.buf b).refcnt == 0 then b ∷ without b xs else xs)
  unfolding move_up
  move_up-IsRing b s xs r l = elim (Bool-cases ((s.buf b).refcnt == 0)) [
    | inr more ↦ rw (more, move_up) (refl, r)
    | inl last ↦
        rw (last, move_up)
          (
            same_buf,
            push_front-IsRing b (unlink b s) (without b xs) (unlink-IsRing b s xs r l)
                (distinct-without b xs r.apart).1 (ground (arith, lacks_ne head b xs, r.no_head)),
          )
  ]
    where
      same_buf : (push_front b (unlink b s)).buf ≡ s.buf
      same_buf = unfold push_front in unfold unlink in refl

  set_buf-IsRing :
      (b : ℕ) (x : Buf A) (s : Bcache A) (xs : List ℕ)
      → IsRing s.next s.prev xs
      → IsRing (set_buf b x s).next (set_buf b x s).prev xs
  unfolding set_buf
  set_buf-IsRing b x s xs r = r

  set_buf_lem :
      (b : ℕ) (x : Buf A) (s : Bcache A)
      → ((set_buf b x s).buf b ≡ x)
        × ((i : ℕ) → i ≢ b → (set_buf b x s).buf i ≡ s.buf i)
        × (((set_buf b x s).buf b).refcnt ≡ x.refcnt)
  unfolding set_buf
  set_buf_lem b x s = (ground arith, λ i ne. ground arith, ground arith)

  -- `holdingsleep(&b->lock)`: the lock is held, by the process that calls.
  abbrev pub is_held : (b : ℕ) → Bcache A → Bool
  is_held b s = (s.buf b).locked && ((s.buf b).owner == s.caller)

  -- What `brelse` answers for a buffer of the list: none, if the caller does not hold its lock; or the buffers
  -- with this one unlocked and one reference less, and with no reference left it is first in the
  -- list.
  pub data Released (b : ℕ) (s : Bcache A) (xs : List ℕ) : Option (Bcache A) → Type 0 where
    not_held : is_held b s ≡ false → Released b s xs none
    released :
        {s' : Bcache A}
        → is_held b s ≡ true
        → s'.buf b ≡ record (s.buf b) { locked = false; owner = 0; refcnt = (s.buf b).refcnt - 1 }
        → ((i : ℕ) → i ≢ b → s'.buf i ≡ s.buf i)
        → IsRing s'.next s'.prev (if (s.buf b).refcnt == 1 then b ∷ without b xs else xs)
        → Released b s xs (some s')

  moved_up-Released :
      (b : ℕ) (x : Buf A) (s : Bcache A) (xs : List ℕ)
      → IsRing s.next s.prev xs
      → lacks b xs ≡ false
      → 0 < (s.buf b).refcnt
      → is_held b s ≡ true
      → x ≡ record (s.buf b) { locked = false; owner = 0; refcnt = (s.buf b).refcnt - 1 }
      → Released b s xs (some (move_up b (set_buf b x s)))
  moved_up-Released b x s xs r l some_ref held is_x =
      let (same, moved) = move_up-IsRing b (set_buf b x s) xs (set_buf-IsRing b x s xs r) l in
      let (this, others, count) = set_buf_lem b x s in
      let last : (((set_buf b x s).buf b).refcnt == 0) ≡ ((s.buf b).refcnt == 1) =
        ap (λ n. n == 0) (count ∙ ap (λ y. y.refcnt) is_x)
        ∙ sym (last_ref (s.buf b).refcnt some_ref) in
      released held (ap (λ f. f b) same ∙ this ∙ is_x) (λ k ne. ap (λ f. f k) same ∙ others k ne)
        (rw last at moved)

  -- For a buffer of the list with at least one reference, `brelse` panics exactly if the
  -- caller does not hold its lock: it is free or its pid is another's. Otherwise it unlocks it and drops the reference, and moves it to the front of the
  -- list exactly if that was the last; the links stay those of a list without repetition.
  pub brelse-Released :
      (b : ℕ) (s : Bcache A) (xs : List ℕ)
      → IsRing s.next s.prev xs
      → lacks b xs ≡ false
      → 0 < (s.buf b).refcnt
      → (s.buf b).refcnt < 2 ^ 32
      → Released b s xs (brelse b s)
  unfolding brelse
  brelse-Released b s xs r l some_ref small = elim (Bool-cases (is_held b s)) [
    | inr free ↦ rw (free, brelse) (not_held free)
    | inl held ↦
        let one_less : ((s.buf b).refcnt + 2 ^ 32 - 1) % 2 ^ 32 ≡ (s.buf b).refcnt - 1 =
          omega arith in
        simp (held, one_less) (moved_up-Released b _ s xs r l some_ref held refl)
  ]

-- The buffers below `n`, the last first.
abbrev pub down : ℕ → List ℕ
down zero = []
down (suc n) = n ∷ down n

lacks-down : (x n : ℕ) → n ≤ x → lacks x (down n) ≡ true
lacks-down x zero le = refl
lacks-down x (suc n) le = ground (arith, lacks-down x n)

init_buf-IsRing :
    {A : Type 0} (i : ℕ) (s : Bcache A)
    → IsRing s.next s.prev (down i)
    → i < 30
    → IsRing (init_buf i s).next (init_buf i s).prev (i ∷ down i)
unfolding init_buf
init_buf-IsRing i s r lt =
    let x : Buf _ = record (s.buf i) { locked = false; owner = 0 } in
    push_front-IsRing i (set_buf i x s) (down i) (set_buf-IsRing i x s (down i) r)
      (lacks-down i i (omega arith)) (omega arith)

-- `binit` links all buffers, the last first.
pub binit-IsRing : {A : Type 0} (s : Bcache A) → IsRing (binit s).next (binit s).prev (down 30)
unfolding binit IsChain
binit-IsRing s =
    for_each_at (λ i (s : Bcache _). IsRing s.next s.prev (down i)) init_buf 30
      (λ i s lt r. rw (succ i) (init_buf-IsRing i s r lt)) 30 0
      (record s { prev = update s.prev head head; next = update s.next head head }) refl
      (record { chain = (ground arith, ground arith); no_head = refl; apart = refl })
  where
    succ : (i : ℕ) → i + 1 ≡ suc i
    succ i = omega arith
