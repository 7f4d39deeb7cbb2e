-- ===== src/Console/Line/Reading.antt =====
-- What reading from the console of xv6/console.c takes off the line.
pub mod Typed
use a4team_os.Base.{
  ℕ, zero, suc, ◌+◌, ◌-◌, ◌*◌, ◌/◌, ◌%◌, ◌^◌, ◌≤◌, ◌<◌, ◌≡◌, refl, sym, ap, ◌∙◌, Bool, true, false,
  not, ◌&&◌, ◌||◌, ◌==◌, ltb, leb, if◌then◌else◌, update, arith, List, [], ◌∷◌, ◌++◌, length,
  Bool-cases, inl, inr,
}
use mathlib.Core.List.{reverse, head-eq_of_cons-eq, tail-eq_of_cons-eq}
use a4team_os.Console.{
  input_buf, ctrl, newline, eof, Console, Nap, Ended, returned, interrupted, asleep, Awaited, ready,
  was_killed, still_asleep, await, read_byte, read_bytes, consoleread, consoleintr,
}
use a4team_os.Console.Line.{Line, edits, window, behind, IsLine}
use a4team_os.Console.Line.Window.{window_mod, behind_mod}
use a4team_os.Console.Line.Typing.{consoleintr_lem}

abbrev pub is_nil : List ℕ → Bool
is_nil [] = true
is_nil (c ∷ cs) = false

-- Waiting for a byte.
pub line_await : (killed : Bool) → List Nap → Line → Awaited Line
line_await killed [] l =
    if is_nil l.ready then (if killed then was_killed l else still_asleep l) else ready l killed []
line_await killed (nap ∷ naps) l =
    let later = line_await nap.killed naps (edits nap.typed l) in
    if is_nil l.ready then (if killed then was_killed l else later) else ready l killed (nap ∷ naps)

-- Reading the first byte of `rdy`. The end of the file stays to be read if a byte has been read
-- before it.
pub line_first :
    (next : List ℕ → Bool → List Nap → Line → Ended Line)
    → (is_short : Bool) (got : List ℕ) (killed : Bool) → List Nap
    → (rdy ed : List ℕ) → Ended Line
line_first next is_short got killed naps [] ed = asleep got (record { ready = []; edited = ed })
line_first next is_short got killed naps (c ∷ cs) ed =
    if c == eof
    then returned got (
        if is_short
        then record { ready = c ∷ cs; edited = ed }
        else record { ready = cs; edited = ed })
    else if c == newline
    then returned (got ++ (c ∷ [])) (record { ready = cs; edited = ed })
    else next (got ++ (c ∷ [])) killed naps (record { ready = cs; edited = ed })

pub line_byte :
    (next : List ℕ → Bool → List Nap → Line → Ended Line)
    → (is_short : Bool) (got : List ℕ) → Awaited Line
    → Ended Line
line_byte next is_short got (was_killed l) = interrupted l
line_byte next is_short got (still_asleep l) = asleep got l
line_byte next is_short got (ready l killed naps) =
    line_first next is_short got killed naps l.ready l.edited

-- Reading up to `n` bytes of the `target` that were asked for, up to the end of a line.
pub line_read : (n target : ℕ) (got : List ℕ) (killed : Bool) → List Nap → Line → Ended Line
line_read zero target got killed naps l = returned got l
line_read (suc n) target got killed naps l =
    line_byte (line_read n target) (ltb (suc n) target) got (line_await killed naps l)

-- The two have ended alike, with the same bytes, and the input buffer holds the line.
pub data SameEnd : Ended Console → Ended Line → Type 0 where
  same_return :
      {got : List ℕ} {s : Console} {l : Line}
      → IsLine s l
      → SameEnd (returned got s) (returned got l)
  same_interrupt : {s : Console} {l : Line} → IsLine s l → SameEnd (interrupted s) (interrupted l)
  same_sleep :
      {got : List ℕ} {s : Console} {l : Line} → IsLine s l → SameEnd (asleep got s) (asleep got l)

data SameWait : Awaited Console → Awaited Line → Type 0 where
  same_ready :
      {s : Console} {l : Line} {killed : Bool} {naps : List Nap}
      → is_nil l.ready ≡ false
      → IsLine s l
      → SameWait (ready s killed naps) (ready l killed naps)
  same_killed : {s : Console} {l : Line} → IsLine s l → SameWait (was_killed s) (was_killed l)
  same_asleep : {s : Console} {l : Line} → IsLine s l → SameWait (still_asleep s) (still_asleep l)

none_test :
    (s : Console) (rdy ed : List ℕ)
    → IsLine s (record { ready = rdy; edited = ed })
    → (s.r == s.w) ≡ is_nil rdy
none_test s [] ed ok = let w = ok.w_at in let r = ok.r_fits in ground arith
none_test s (c ∷ cs) ed ok = let w = ok.w_at in let n = ok.in_buf in ground arith

await_round :
    (s : Console) (l : Line) (killed b : Bool) {c c' : Awaited Console} {a a' : Awaited Line}
    → IsLine s l
    → SameWait c a
    → (b ≡ false → SameWait c' a')
    → SameWait
        (if b then (if killed then was_killed s else c) else c')
        (if b then (if killed then was_killed l else a) else a')
await_round s l true true ok wait go = same_killed ok
await_round s l false true ok wait go = wait
await_round s l killed false ok wait go = go refl

await_lem :
    (killed : Bool) (naps : List Nap) (s : Console) (l : Line)
    → IsLine s l
    → SameWait (await killed naps s) (line_await killed naps l)
unfolding await line_await
await_lem killed [] s l ok = rw (none_test s l.ready l.edited ok) (
    await_round s l killed (is_nil l.ready) ok (same_asleep ok)
      (λ some_byte. same_ready some_byte ok))
await_lem killed (nap ∷ naps) s l ok = rw (none_test s l.ready l.edited ok) (
    await_round s l killed (is_nil l.ready) ok
      (await_lem nap.killed naps (consoleintr nap.typed s).0 (edits nap.typed l)
        (consoleintr_lem nap.typed s l ok))
      (λ some_byte. same_ready some_byte ok))

-- The first byte is read.
read_one :
    (s : Console) (c : ℕ) (cs ed : List ℕ)
    → IsLine s (record { ready = c ∷ cs; edited = ed })
    → IsLine (record s { r = (s.r + 1) % 2 ^ 32 }) (record { ready = cs; edited = ed })
read_one s c cs ed ok =
    let w = ok.w_at in
    let e = ok.e_at in
    let n = ok.in_buf in
    record {
      r_fits = omega arith;
      w_at = omega arith;
      e_at = omega arith;
      in_buf = omega arith;
      ready_at =
          window_mod s.buf ((s.r + 1) % 2 ^ 32) (s.r + 1) (length cs) (omega arith)
          ∙ tail-eq_of_cons-eq ok.ready_at;
      edited_at =
          behind_mod s.buf ((s.r + 1) % 2 ^ 32 + length cs) (s.r + length (c ∷ cs)) (length ed)
            (omega arith)
          ∙ ok.edited_at;
      one_line = ok.one_line;
    }

-- A byte is read and put back.
put_back : (s : Console) → s.r < 2 ^ 32 → ((s.r + 1) % 2 ^ 32 + 2 ^ 32 - 1) % 2 ^ 32 ≡ s.r
put_back s lt = omega arith

if_ended :
    {c c' : Console} {got : List ℕ} {a a' : Line} (b : Bool)
    → IsLine c a
    → IsLine c' a'
    → SameEnd (returned got (if b then c else c')) (returned got (if b then a else a'))
if_ended true ok ok' = same_return ok
if_ended false ok ok' = same_return ok'

if_end :
    {x y : Ended Console} {x' y' : Ended Line} (b : Bool)
    → SameEnd x x'
    → SameEnd y y'
    → SameEnd (if b then x else y) (if b then x' else y')
if_end true e e' = e
if_end false e e' = e'

-- A round that starts alike ends alike, if the rounds after it do.
module _ {next : List ℕ → Bool → List Nap → Console → Ended Console}
    {line_next : List ℕ → Bool → List Nap → Line → Ended Line}
    (goes_on : (got : List ℕ) (killed : Bool) (naps : List Nap) (s : Console) (l : Line)
      → IsLine s l
      → SameEnd (next got killed naps s) (line_next got killed naps l))
    (is_short : Bool) (got : List ℕ) where
  byte_first :
      (s : Console) (rdy ed : List ℕ) (killed : Bool) (naps : List Nap)
      → is_nil rdy ≡ false
      → IsLine s (record { ready = rdy; edited = ed })
      → SameEnd
          (read_byte next is_short got (ready s killed naps))
          (line_first line_next is_short got killed naps rdy ed)
  unfolding read_byte line_first
  byte_first s [] ed killed naps some_byte ok = absurd (ground arith)
  byte_first s (c ∷ cs) ed killed naps some_byte ok =
      let first : s.buf (s.r % input_buf) ≡ c = head-eq_of_cons-eq ok.ready_at in
      let rest = read_one s c cs ed ok in
      rw first (
        if_end (c == eof) (if_ended is_short (rw (put_back s ok.r_fits) ok) rest) (
          if_end (c == newline) (same_return rest) (
            goes_on (got ++ (c ∷ [])) killed naps (record s { r = (s.r + 1) % 2 ^ 32 })
              (record { ready = cs; edited = ed }) rest)))

  byte_lem :
      (w : Awaited Console) (w' : Awaited Line)
      → SameWait w w'
      → SameEnd (read_byte next is_short got w) (line_byte line_next is_short got w')
  unfolding read_byte line_byte
  byte_lem w w' (same_killed ok) = same_interrupt ok
  byte_lem w w' (same_asleep ok) = same_sleep ok
  byte_lem w w' (same_ready {s} {l} {killed} {naps} some_byte ok) =
      byte_first s l.ready l.edited killed naps some_byte ok

read_bytes_lem :
    (n target : ℕ) (got : List ℕ) (killed : Bool) (naps : List Nap) (s : Console) (l : Line)
    → IsLine s l
    → SameEnd (read_bytes n target got killed naps s) (line_read n target got killed naps l)
unfolding read_bytes line_read
read_bytes_lem zero target got killed naps s l ok = same_return ok
read_bytes_lem (suc n) target got killed naps s l ok =
    byte_lem (read_bytes_lem n target) (ltb (suc n) target) got (await killed naps s)
      (line_await killed naps l) (await_lem killed naps s l ok)

-- A read of the console, for any number of bytes and whatever is typed while it sleeps, ends as
-- reading the line does: with the same bytes, killed or still asleep alike, and with an input
-- buffer that holds what is left of the line.
pub consoleread_lem :
    (n : ℕ) (killed : Bool) (naps : List Nap) (s : Console) (l : Line)
    → IsLine s l
    → SameEnd (consoleread n killed naps s) (line_read n n [] killed naps l)
unfolding consoleread
consoleread_lem n killed naps s l ok = read_bytes_lem n n [] killed naps s l ok
