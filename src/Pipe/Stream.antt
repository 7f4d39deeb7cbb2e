-- ===== src/Pipe/Stream.antt =====
-- What pipewrite and piperead do to the queue of bytes, and the stream through a pipe.
use a4team_os.Base.{
  ℕ, zero, suc, ◌+◌, ◌-◌, ◌<◌, ◌≡◌, refl, ap, Bool, true, false, not, ◌&&◌, ◌||◌, ◌==◌, leb,
  if◌then◌else◌, arith, List, [], ◌∷◌, ◌++◌, length, take, drop, Bool-cases, inl, inr,
}
use mathlib.Core.List.{append-nil, append_assoc}
use a4team_os.Pipe.{
  Pipe, fresh, is_full, is_empty, put, Wrote, done, failed, asleep, write_burst, get, read_loop,
  got, killed_reader, waits, piperead, pipeclose,
}
use a4team_os.Pipe.Fifo.{
  count, IsValid, contents, length-contents, fresh-IsValid, contents-fresh, is_full_iff,
  is_empty_iff, put-IsValid, contents-put, get-IsValid, contents-get, contents-flags,
}

-- The room left in the pipe.
abbrev pub room : Pipe → ℕ
room p = 512 - count p

count-put : {p : Pipe} (c : ℕ) → IsValid p → is_full p ≡ false → count (put p c) ≡ count p + 1
unfolding put is_full
count-put c v h = ground arith

room_of_full : {p : Pipe} → IsValid p → is_full p ≡ true → count p ≡ 512
room_of_full {p} v h = omega (arith, (is_full_iff v).0 h, length-contents p)

room_of_not_full : {p : Pipe} → IsValid p → is_full p ≡ false → count p < 512
unfolding is_full
room_of_not_full {p} v h = ground arith

readopen-put : (p : Pipe) (c : ℕ) → (put p c).readopen ≡ p.readopen
unfolding put
readopen-put p c = refl

take_pos :
    (k : ℕ) (c : ℕ) (cs : List ℕ)
    → 0 < k
    → (take k (c ∷ cs) ≡ c ∷ take (k - 1) cs) × (drop k (c ∷ cs) ≡ drop (k - 1) cs)
take_pos zero c cs h = absurd (omega arith)
take_pos (suc k) c cs h = let e : suc k - 1 ≡ k = omega arith in (rw e refl, rw e refl)

take-drop_zero : (k : ℕ) (cs : List ℕ) → k ≡ 0 → (take k cs ≡ []) × (drop k cs ≡ cs)
take-drop_zero zero cs h = (refl, refl)
take-drop_zero (suc k) cs h = absurd (omega arith)

take-drop_nil : (k : ℕ) → (take {A = ℕ} k [] ≡ []) × (drop {A = ℕ} k [] ≡ [])
take-drop_nil zero = (refl, refl)
take-drop_nil (suc k) = (refl, refl)

-- What a stretch of `pipewrite` returns: all went in, or the reader is gone or the caller killed,
-- or the bytes that did not fit are left.
pub outcome : (killed : Bool) → Pipe → List ℕ → Wrote
outcome killed p cs =
    if leb (length cs) (room p)
    then done
    else (if not p.readopen || killed then failed else asleep (drop (room p) cs))

-- `pipewrite` puts as many bytes as there is room for behind those in the pipe, in order, and
-- returns, fails or sleeps as `outcome` says.
pub write_burst_lem :
    (killed : Bool) (p : Pipe) (cs : List ℕ)
    → IsValid p
    → let (p', r) = write_burst killed p cs in
      (contents p' ≡ contents p ++ take (room p) cs) × IsValid p' × (r ≡ outcome killed p cs)
unfolding write_burst outcome
write_burst_lem killed p [] v =
    (rw ((take-drop_nil (room p)).0) (sym-nil (contents p)), v, ground arith)
  where
    sym-nil : (xs : List ℕ) → xs ≡ xs ++ []
    sym-nil xs = rw append-nil
write_burst_lem killed p (c ∷ cs) v = elim (Bool-cases (is_full p)) [
  | inl full ↦
      ground (arith, room_of_full v full, take-drop_zero (room p) (c ∷ cs), append-nil (contents p))
  | inr space ↦ ground (
    arith,
    room_of_not_full v space,
    write_burst_lem killed (put p c) cs (put-IsValid c v space),
    count-put c v space,
    readopen-put p c,
    contents-put c v space,
    take_pos (room p) c cs,
    append_assoc (contents p) (c ∷ []) (take (room p - 1) cs),
  )
]

-- The copying loop of `piperead` takes the first `n` bytes of the pipe, or all if there are fewer,
-- and leaves the rest.
pub read_loop_lem :
    (n : ℕ) (p : Pipe)
    → IsValid p
    → let (cs, p') = read_loop n p in
      (cs ≡ take n (contents p)) × (contents p' ≡ drop n (contents p)) × IsValid p'
unfolding read_loop
read_loop_lem zero p v = (refl, refl, v)
read_loop_lem (suc n) p v = elim (Bool-cases (is_empty p)) [
  | inl none_left ↦
      let e : contents p ≡ [] =
        nil_of_length (contents p)
          (omega (arith, length-contents p, (is_empty_iff v).0 none_left)) in
      rw (none_left, e) (refl, refl, v)
  | inr some_left ↦
      ground (arith, contents-get v some_left, read_loop_lem n (get p).1 (get-IsValid v some_left))
]
  where
    nil_of_length : (xs : List ℕ) → length xs ≡ 0 → xs ≡ []
    nil_of_length [] h = refl
    nil_of_length (x ∷ xs) h = absurd (omega arith)

-- On a valid pipe `piperead` waits exactly when there is nothing to read and a writer is left (or
-- gives up if it is killed); otherwise it returns the first `n` bytes of the pipe, or all of them
-- if there are fewer, which is none only at the end of the stream.
pub piperead_lem :
    (killed : Bool) (p : Pipe) (n : ℕ)
    → IsValid p
    → (piperead killed p n).1 ≡ (
        if (count p == 0) && p.writeopen
        then (if killed then killed_reader else waits)
        else got (take n (contents p)))
unfolding piperead
piperead_lem killed p n v = ground (arith, read_loop_lem n p v, is_empty_iff v)

-- One call of `pipewrite` or `piperead` up to its next sleep or return, or of `pipeclose`, with
-- the bytes that it took from its caller and those that it gave to it.
pub data Step (p : Pipe) : List ℕ → List ℕ → Pipe → Type 0 where
  write : (killed : Bool) (cs : List ℕ) → Step p (take (room p) cs) [] (write_burst killed p cs).0
  read :
      (killed : Bool) (n : ℕ) {cs : List ℕ}
      → (piperead killed p n).1 ≡ got cs
      → Step p [] cs (piperead killed p n).0
  close : (writable : Bool) → Step p [] [] (pipeclose p writable).0

-- Calls from a new pipe on, with all bytes sent and all bytes received so far.
pub data Reach (junk : ℕ → ℕ) : List ℕ → List ℕ → Pipe → Type 0 where
  start : Reach junk [] [] (fresh junk)
  next :
      {p q : Pipe} {sent received more out : List ℕ}
      → Reach junk sent received p
      → Step p more out q
      → Reach junk (sent ++ more) (received ++ out) q

take-append-drop : (n : ℕ) (xs : List ℕ) → take n xs ++ drop n xs ≡ xs
take-append-drop zero xs = refl
take-append-drop (suc n) [] = refl
take-append-drop (suc n) (x ∷ xs) = ap (λ r. x ∷ r) (take-append-drop n xs)

piperead_state :
    (killed : Bool) (p : Pipe) (n : ℕ) {cs : List ℕ}
    → IsValid p
    → (piperead killed p n).1 ≡ got cs
    → (contents p ≡ cs ++ contents (piperead killed p n).0) × IsValid (piperead killed p n).0
unfolding piperead
piperead_state killed p n v e = ground (arith, read_loop_lem n p v, take-append-drop n (contents p))

pipeclose_state :
    (p : Pipe) (w : Bool)
    → IsValid p
    → (contents (pipeclose p w).0 ≡ contents p) × IsValid (pipeclose p w).0
unfolding pipeclose
pipeclose_state p true v = (contents-flags p p.readopen false, ground arith)
pipeclose_state p false v = (contents-flags p false p.writeopen, ground arith)

Step_lem :
    {p q : Pipe} {more out : List ℕ}
    → Step p more out q
    → IsValid p
    → (contents p ++ more ≡ out ++ contents q) × IsValid q
Step_lem {p} (write killed cs) v = ground (arith, write_burst_lem killed p cs v)
Step_lem {p} (read killed n e) v =
    ground (arith, piperead_state killed p n v e, append-nil (contents p))
Step_lem {p} (close w) v = ground (arith, pipeclose_state p w v, append-nil (contents p))

-- However writers, readers and closes interleave, the bytes that came out of a pipe, followed by
-- those still in it, are the bytes that went in, in the same order: none is lost, repeated or
-- overtaken, also when the 32-bit counters wrap.
pub fifo :
    {junk : ℕ → ℕ} {sent received : List ℕ} {p : Pipe}
    → Reach junk sent received p
    → (sent ≡ received ++ contents p) × IsValid p
fifo {junk} start = (sym-nil, fresh-IsValid junk)
  where
    sym-nil : [] ≡ contents (fresh junk)
    sym-nil = cc (contents-fresh junk)
fifo (next {p} {q} {sent} {received} {more} {out} r st) = ground (
  arith,
  fifo r,
  Step_lem st (fifo r).1,
  append_assoc received (contents p) more,
  append_assoc received out (contents q),
)
