-- ===== src/Console/Line/Typing.antt =====
-- What typing at the console of xv6/console.c does to the line.
use a4team_os.Base.{
  ℕ, suc, ◌+◌, ◌-◌, ◌%◌, ◌^◌, ◌<◌, ◌≡◌, refl, sym, ap, ◌∙◌, Bool, true, false, not, ◌&&◌, ◌||◌,
  ◌==◌, ltb, if◌then◌else◌, update, update_self, arith, List, [], ◌∷◌, ◌++◌, length, Bool-cases,
  inl, inr,
}
use mathlib.Core.List.{reverse, head-eq_of_cons-eq, tail-eq_of_cons-eq}
use a4team_os.Console.{
  input_buf, ctrl, newline, Console, consputc, rub_out, kill_line, take_char, type_char,
  consoleintr,
}
use a4team_os.Console.Line.{Line, erase, ends_line, add_char, edit, edits, window, behind, IsLine}
use a4team_os.Console.Line.Window.{window-update, behind-update, window-behind, length-window}

-- The character that is put at `e`.
module _ (s : Console) (l : Line) (c : ℕ) (ok : IsLine s l)
    (room : length l.ready + length l.edited < input_buf) where
  abbrev put_buf : ℕ → ℕ
  put_buf = update s.buf (s.e % input_buf) c

  put_ready : window put_buf s.r (length l.ready) ≡ l.ready
  put_ready =
      let e = ok.e_at in
      window-update s.buf s.r (length l.ready) (s.e % input_buf) c (λ j lt q. omega arith)
      ∙ ok.ready_at

  put_edited : behind put_buf (s.r + length l.ready) (suc (length l.edited)) ≡ c ∷ l.edited
  put_edited =
      let e = ok.e_at in
      let h : put_buf ((s.r + length l.ready + length l.edited) % input_buf) ≡ c =
        let p : (s.r + length l.ready + length l.edited) % input_buf ≡ s.e % input_buf =
          omega arith in
        rw p (update_self s.buf (s.e % input_buf) c) in
      let tl =
        behind-update s.buf (s.r + length l.ready) (length l.edited) (s.e % input_buf) c
          (λ j lt q. omega arith)
        ∙ ok.edited_at in
      rw (h, tl) refl

  full_test :
      ((s.e + 1) % 2 ^ 32 == (s.r + input_buf) % 2 ^ 32)
      ≡ (length l.ready + length l.edited + 1 == input_buf)
  full_test = let e = ok.e_at in let r = ok.r_fits in ground arith

  put_all :
      window put_buf s.r (length l.ready + suc (length l.edited))
      ≡ l.ready ++ reverse (c ∷ l.edited)
  put_all =
      window-behind put_buf s.r (length l.ready) (suc (length l.edited))
      ∙ rw (put_ready, put_edited) refl

  put_all_length :
      length (l.ready ++ reverse (c ∷ l.edited)) ≡ length l.ready + suc (length l.edited)
  put_all_length =
      ap length (sym put_all) ∙ length-window put_buf s.r (length l.ready + suc (length l.edited))

  abbrev put_console : Console
  put_console = consputc c (record s { buf = put_buf; e = (s.e + 1) % 2 ^ 32 })

  more : ends_line c l ≡ false → IsLine put_console (record l { edited = c ∷ l.edited })
  unfolding consputc
  more on =
      let e = ok.e_at in
      record {
        r_fits = ok.r_fits;
        w_at = ok.w_at;
        e_at = omega arith;
        in_buf = omega arith;
        ready_at = put_ready;
        edited_at = put_edited;
        one_line = let n = ok.one_line in ground arith;
      }

  ended :
      IsLine
        (record put_console { w = put_console.e; wakes = put_console.wakes + 1 })
        (record { ready = l.ready ++ reverse (c ∷ l.edited); edited = [] })
  unfolding consputc
  ended =
      let e = ok.e_at in
      let n = put_all_length in
      record {
        r_fits = ok.r_fits;
        w_at = omega arith;
        e_at = omega arith;
        in_buf = omega arith;
        ready_at = ap (window put_buf s.r) n ∙ put_all;
        edited_at = refl;
        one_line = refl;
      }

  take_char_lem : IsLine (take_char c s) (add_char c l)
  unfolding take_char add_char consputc
  take_char_lem =
      rw full_test
        (elim (Bool-cases (ends_line c l)) [ inl ends ↦ rw ends ended | inr on ↦ rw on (more on) ])

module _ (s : Console) (l : Line) (ok : IsLine s l) where
  -- The test for an empty line.
  empty_test : (s.e == s.w) ≡ (length l.edited == 0)
  empty_test = let e = ok.e_at in let w = ok.w_at in let n = ok.in_buf in ground arith

rub_out_lem :
    (s : Console) (rdy : List ℕ) (c : ℕ) (cs : List ℕ)
    → IsLine s (record { ready = rdy; edited = c ∷ cs })
    → IsLine (rub_out s) (record { ready = rdy; edited = cs })
unfolding rub_out consputc
rub_out_lem s rdy c cs ok =
    let e = ok.e_at in
    let n = ok.in_buf in
    let o = ok.one_line in
    record {
      r_fits = ok.r_fits;
      w_at = ok.w_at;
      e_at = omega arith;
      in_buf = omega arith;
      ready_at = ok.ready_at;
      edited_at = tail-eq_of_cons-eq ok.edited_at;
      one_line = ground arith;
    }

-- The loop of `C('U')` rubs out the whole line that is edited.
kill_line_lem :
    (s : Console) (rdy cs : List ℕ)
    → IsLine s (record { ready = rdy; edited = cs })
    → IsLine (kill_line (length cs) s) (record { ready = rdy; edited = [] })
unfolding kill_line
kill_line_lem s rdy [] ok = ok
kill_line_lem s rdy (c ∷ cs) ok =
    let ne : (s.e == s.w) ≡ false =
      let t = empty_test s (record { ready = rdy; edited = c ∷ cs }) ok in ground arith in
    let last : s.buf ((s.e + 2 ^ 32 - 1) % 2 ^ 32 % input_buf) ≡ c =
      let e = ok.e_at in
      let p : (s.e + 2 ^ 32 - 1) % 2 ^ 32 % input_buf ≡ (s.r + length rdy + length cs) % input_buf =
        omega arith in
      rw p (head-eq_of_cons-eq ok.edited_at) in
    let nl : (c == newline) ≡ false = let o = ok.one_line in ground arith in
    rw (ne, last, nl, kill_line) (kill_line_lem (rub_out s) rdy cs (rub_out_lem s rdy c cs ok))

backspace_lem :
    (s : Console) (rdy cs : List ℕ)
    → IsLine s (record { ready = rdy; edited = cs })
    → IsLine (if not (s.e == s.w) then rub_out s else s) (record { ready = rdy; edited = erase cs })
backspace_lem s rdy [] ok =
    let t : (s.e == s.w) ≡ true =
      let t = empty_test s (record { ready = rdy; edited = [] }) ok in ground arith in
    rw t ok
backspace_lem s rdy (c ∷ cs) ok =
    let t : (s.e == s.w) ≡ false =
      let t = empty_test s (record { ready = rdy; edited = c ∷ cs }) ok in ground arith in
    rw t (rub_out_lem s rdy c cs ok)

if_line :
    {s s' : Console} {l l' : Line} (b : Bool)
    → (b ≡ true → IsLine s l)
    → (b ≡ false → IsLine s' l')
    → IsLine (if b then s else s') (if b then l else l')
if_line true yes_line no_line = yes_line refl
if_line false yes_line no_line = no_line refl

room_test :
    (s : Console) (l : Line)
    → IsLine s l
    → ltb ((s.e + 2 ^ 32 - s.r) % 2 ^ 32) input_buf
      ≡ ltb (length l.ready + length l.edited) input_buf
room_test s l ok =
    let e = ok.e_at in
    let r = ok.r_fits in
    let n = ok.in_buf in
    let d : (s.e + 2 ^ 32 - s.r) % 2 ^ 32 ≡ length l.ready + length l.edited = omega arith in
    rw d refl

type_char_lem : (c : ℕ) (s : Console) (l : Line) → IsLine s l → IsLine (type_char c s) (edit c l)
unfolding type_char edit
type_char_lem c s l ok =
    let e = ok.e_at in
    let w = ok.w_at in
    let n = ok.in_buf in
    let r = ok.r_fits in
    let len : (s.e + 2 ^ 32 - s.w) % 2 ^ 32 ≡ length l.edited = omega arith in
    if_line (c == ctrl b'P') (λ p. ok)
      (λ p.
        if_line (c == ctrl b'U') (λ u. rw len (kill_line_lem s l.ready l.edited ok))
          (λ u.
            if_line (c == ctrl b'H' || c == 0x7f) (λ h. backspace_lem s l.ready l.edited ok)
              (λ h. rw (room_test s l ok) (
                if_line (not (c == 0) && ltb (length l.ready + length l.edited) input_buf)
                  (λ t. take_char_lem s l (if c == 13 then newline else c) ok (ground arith))
                  (λ t. ok)))))

-- Where the input buffer holds a line, the characters that are typed in one go, in any number, do
-- to the buffer what the edits do to the line: `C('U')` drops all that is edited, backspace the last character of it, a character
-- goes to the line while there is room for it, and a newline, the end of the file or a full buffer
-- makes the line ready to be read.
pub consoleintr_lem :
    (cs : List ℕ) (s : Console) (l : Line) → IsLine s l → IsLine (consoleintr cs s).0 (edits cs l)
unfolding consoleintr edits
consoleintr_lem [] s l ok = ok
consoleintr_lem (c ∷ cs) s l ok =
    consoleintr_lem cs (type_char c s) (edit c l) (type_char_lem c s l ok)
