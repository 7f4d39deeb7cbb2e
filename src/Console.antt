-- ===== src/Console.antt =====
-- Model of xv6/console.c: the input buffer of the console, reading, writing and the text screen.
-- `cons.lock` makes a call one step, but for the sleeps of `consoleread`, so it is left out of the
-- state. A character is its code, and `getc` has given each character that is typed.
pub mod Line
pub mod Screen
use a4team_os.Base.{
  ℕ, zero, suc, ◌+◌, ◌-◌, ◌*◌, ◌/◌, ◌%◌, ◌^◌, Bool, true, false, not, ◌&&◌, ◌||◌, ◌==◌, ltb, leb,
  if◌then◌else◌, update, List, [], ◌∷◌, ◌++◌, ℤ, pos, negsuc,
}

abbrev pub input_buf : ℕ
input_buf = 128

abbrev pub backspace : ℕ
backspace = 0x100

-- `C('P')`, `C('U')`, `C('H')` and `C('D')`.
abbrev pub ctrl : ℕ → ℕ
ctrl x = x - b'@'

abbrev pub newline : ℕ
newline = 10

abbrev pub eof : ℕ
eof = 4

-- `input`, with the arguments that `consputc` has had, and how often `wakeup(&input.r)` was called.
pub record Console : Type 0 where
  pub buf : ℕ → ℕ
  pub r : ℕ
  pub w : ℕ
  pub e : ℕ
  pub out : List ℕ
  pub wakes : ℕ

pub consputc : (c : ℕ) → Console → Console
consputc c s = record s { out = s.out ++ (c ∷ []) }

-- `input.e--; consputc(BACKSPACE);`
pub rub_out : Console → Console
rub_out s = consputc backspace (record s { e = (s.e + 2 ^ 32 - 1) % 2 ^ 32 })

-- The loop of `C('U')`, on fuel.
pub kill_line : ℕ → Console → Console
kill_line zero s = s
kill_line (suc f) s =
    let rest = kill_line f (rub_out s) in
    if not (s.e == s.w) && not (s.buf ((s.e + 2 ^ 32 - 1) % 2 ^ 32 % input_buf) == newline)
    then rest
    else s

-- The case `default` for a character that is taken, with '\r' made '\n'.
pub take_char : (c : ℕ) → Console → Console
take_char c s =
    let s' =
      consputc c (record s { buf = update s.buf (s.e % input_buf) c; e = (s.e + 1) % 2 ^ 32 }) in
    if c == newline || c == eof || s'.e == (s'.r + input_buf) % 2 ^ 32
    then record s' { w = s'.e; wakes = s'.wakes + 1 }
    else s'

-- A round of `consoleintr`, but for `doprocdump`. A line has at most as many characters as there
-- are counts between `w` and `e`.
pub type_char : (c : ℕ) → Console → Console
type_char c s =
    if c == ctrl b'P'
    then s
    else if c == ctrl b'U'
    then kill_line ((s.e + 2 ^ 32 - s.w) % 2 ^ 32) s
    else if c == ctrl b'H' || c == 0x7f
    then (if not (s.e == s.w) then rub_out s else s)
    else if not (c == 0) && ltb ((s.e + 2 ^ 32 - s.r) % 2 ^ 32) input_buf
    then take_char (if c == 13 then newline else c) s
    else s

-- `consoleintr`, on the characters that `getc` gives; whether `procdump` is called at the end.
pub consoleintr : List ℕ → Console → Console × Bool
consoleintr [] s = (s, false)
consoleintr (c ∷ cs) s =
    let (s', dump) = consoleintr cs (type_char c s) in (s', (c == ctrl b'P') || dump)

-- What happens while `consoleread` sleeps: characters are typed, and the process may be killed.
pub record Nap : Type 0 where
  pub typed : List ℕ
  pub killed : Bool

-- How `consoleread` ends: with the bytes stored at `dst`; killed, with -1; or asleep, where no
-- more is known to happen.
pub data Ended (S : Type 0) : Type 0 where
  returned : List ℕ → S → Ended S
  interrupted : S → Ended S
  asleep : List ℕ → S → Ended S

-- `while(input.r == input.w)`: the naps that are left when it ends.
pub data Awaited (S : Type 0) : Type 0 where
  ready : S → (killed : Bool) → List Nap → Awaited S
  was_killed : S → Awaited S
  still_asleep : S → Awaited S

pub await : (killed : Bool) → List Nap → Console → Awaited Console
await killed [] s =
    if s.r == s.w then (if killed then was_killed s else still_asleep s) else ready s killed []
await killed (nap ∷ naps) s =
    let later = await nap.killed naps (consoleintr nap.typed s).0 in
    if s.r == s.w then (if killed then was_killed s else later) else ready s killed (nap ∷ naps)

-- A round of `consoleread` after the wait: `is_short` says whether `n < target`, `next` is the round
-- after it.
pub read_byte :
    (next : List ℕ → Bool → List Nap → Console → Ended Console)
    → (is_short : Bool) (got : List ℕ) → Awaited Console
    → Ended Console
read_byte next is_short got (was_killed s) = interrupted s
read_byte next is_short got (still_asleep s) = asleep got s
read_byte next is_short got (ready s killed naps) =
    let c = s.buf (s.r % input_buf) in
    let s' : Console = record s { r = (s.r + 1) % 2 ^ 32 } in
    if c == eof
    then returned got (if is_short then record s' { r = (s'.r + 2 ^ 32 - 1) % 2 ^ 32 } else s')
    else if c == newline
    then returned (got ++ (c ∷ [])) s'
    else next (got ++ (c ∷ [])) killed naps s'

-- The loop of `consoleread` with `n` bytes to go; `got` are the bytes stored so far.
pub read_bytes : (n target : ℕ) (got : List ℕ) (killed : Bool) → List Nap → Console → Ended Console
read_bytes zero target got killed naps s = returned got s
read_bytes (suc n) target got killed naps s =
    read_byte (read_bytes n target) (ltb (suc n) target) got (await killed naps s)

-- `consoleread`; `iunlock` and `ilock` around it are left out. It returns how many bytes are
-- stored, -1 when it is interrupted.
pub consoleread : (n : ℕ) (killed : Bool) → List Nap → Console → Ended Console
consoleread n killed naps s = read_bytes n n [] killed naps s

-- The loop of `consolewrite`, on the bytes of `buf`.
pub consolewrite : List ℕ → Console → Console
consolewrite [] s = s
consolewrite (c ∷ cs) s = consolewrite cs (consputc (c % 256) s)
