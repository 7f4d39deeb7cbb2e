-- ===== src/Console/Line.antt =====
-- The line discipline of xv6/console.c: what the input buffer of the console holds.
pub mod Window
pub mod Typing
pub mod Reading
use a4team_os.Base.{
  ℕ, zero, suc, ◌+◌, ◌-◌, ◌*◌, ◌/◌, ◌%◌, ◌^◌, ◌≤◌, ◌<◌, ◌≡◌, refl, sym, ap, ◌∙◌, Bool, true, false,
  not, ◌&&◌, ◌||◌, ◌==◌, ltb, leb, if◌then◌else◌, update, arith, List, [], ◌∷◌, ◌++◌, length,
  length-append, Bool-cases, inl, inr,
}
use mathlib.Core.List.{reverse}
use a4team_os.Console.{
  input_buf, ctrl, newline, eof, Console, consputc, rub_out, kill_line, take_char, type_char,
  consoleintr,
}

-- The bytes that are ready to be read, first one first, and the line that is edited, the
-- character typed last first.
pub record Line : Type 0 where
  pub ready : List ℕ
  pub edited : List ℕ

abbrev erase : List ℕ → List ℕ
erase [] = []
erase (c ∷ cs) = cs

abbrev ends_line : (c : ℕ) → Line → Bool
ends_line c l = c == newline || c == eof || length l.ready + length l.edited + 1 == input_buf

-- A character goes to the line; a newline, the end of the file or a full buffer ends the line.
pub add_char : (c : ℕ) → Line → Line
add_char c l =
    if ends_line c l
    then record { ready = l.ready ++ reverse (c ∷ l.edited); edited = [] }
    else record l { edited = c ∷ l.edited }

-- What typing a character does.
pub edit : (c : ℕ) → Line → Line
edit c l =
    if c == ctrl b'P'
    then l
    else if c == ctrl b'U'
    then record l { edited = [] }
    else if c == ctrl b'H' || c == 0x7f
    then record l { edited = erase l.edited }
    else if not (c == 0) && ltb (length l.ready + length l.edited) input_buf
    then add_char (if c == 13 then newline else c) l
    else l

pub edits : List ℕ → Line → Line
edits [] l = l
edits (c ∷ cs) l = edits cs (edit c l)

-- The `n` bytes from count `i` on, and those before count `i` from the last one down.
abbrev pub window : (ℕ → ℕ) → (i n : ℕ) → List ℕ
window buf i zero = []
window buf i (suc n) = buf (i % input_buf) ∷ window buf (i + 1) n

abbrev pub behind : (ℕ → ℕ) → (i n : ℕ) → List ℕ
behind buf i zero = []
behind buf i (suc n) = buf ((i + n) % input_buf) ∷ behind buf i n

abbrev pub has_newline : List ℕ → Bool
has_newline [] = false
has_newline (c ∷ cs) = (c == newline) || has_newline cs

-- The input buffer holds the line: the counters are as far apart as there are bytes, and these
-- stand between them.
pub record IsLine (s : Console) (l : Line) : Type 0 where
  pub r_fits : s.r < 2 ^ 32
  pub w_at : s.w ≡ (s.r + length l.ready) % 2 ^ 32
  pub e_at : s.e ≡ (s.r + length l.ready + length l.edited) % 2 ^ 32
  pub in_buf : length l.ready + length l.edited ≤ input_buf
  pub ready_at : window s.buf s.r (length l.ready) ≡ l.ready
  pub edited_at : behind s.buf (s.r + length l.ready) (length l.edited) ≡ l.edited
  pub one_line : has_newline l.edited ≡ false
