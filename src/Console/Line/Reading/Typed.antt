-- ===== src/Console/Line/Reading/Typed.antt =====
-- A line that is typed at the console of xv6/console.c and then read.
use a4team_os.Base.{
  ℕ, zero, suc, ◌+◌, ◌<◌, ◌≡◌, refl, ap, ◌∙◌, Bool, true, false, not, ◌&&◌, ◌||◌, ◌==◌, arith, List,
  [], ◌∷◌, ◌++◌, length,
}
use mathlib.Core.List.{reverse, reverse_aux, reverse_aux-eq, reverse-reverse, append_assoc}
use mathlib.Core.Path.{subst}
use a4team_os.Console.{
  input_buf, ctrl, newline, eof, Console, Nap, Ended, returned, ready, consoleread, consoleintr,
}
use a4team_os.Console.Line.{Line, add_char, edit, edits, IsLine}
use a4team_os.Console.Line.Typing.{consoleintr_lem}
use a4team_os.Console.Line.Reading.{
  is_nil, line_read, line_byte, line_first, line_await, SameEnd, same_return, consoleread_lem,
}

-- A character that the line discipline does not treat in a way of its own.
abbrev pub is_plain : ℕ → Bool
is_plain c = not (
    c == 0
    || c == ctrl b'P'
    || c == ctrl b'U'
    || c == ctrl b'H'
    || c == 0x7f
    || c == 13
    || c == newline
    || c == eof)

abbrev pub all_plain : List ℕ → Bool
all_plain [] = true
all_plain (c ∷ cs) = is_plain c && all_plain cs

edit_plain :
    (c : ℕ) (ed : List ℕ)
    → is_plain c ≡ true
    → length ed + 1 < input_buf
    → edit c (record { ready = []; edited = ed }) ≡ record { ready = []; edited = c ∷ ed }
unfolding edit add_char
edit_plain c ed p lt = ground arith

edit-newline :
    (ed : List ℕ)
    → length ed < input_buf
    → edit newline (record { ready = []; edited = ed })
      ≡ record { ready = reverse (newline ∷ ed); edited = [] }
unfolding edit add_char
edit-newline ed lt = ground arith

edits_line :
    (cs ed : List ℕ)
    → all_plain cs ≡ true
    → length cs + length ed < input_buf
    → edits (cs ++ (newline ∷ [])) (record { ready = []; edited = ed })
      ≡ record { ready = reverse (newline ∷ reverse_aux cs ed); edited = [] }
unfolding edits
edits_line [] ed p lt = edit-newline ed (omega arith)
edits_line (c ∷ cs) ed p lt =
    let h : is_plain c ≡ true = ground arith in
    let t : all_plain cs ≡ true = ground arith in
    rw (edit_plain c ed h (omega arith), edits) (edits_line cs (c ∷ ed) t (omega arith))

line_ready :
    (killed : Bool) (naps : List Nap) (l : Line)
    → is_nil l.ready ≡ false
    → line_await killed naps l ≡ ready l killed naps
unfolding line_await
line_ready killed [] l some_byte = rw some_byte refl
line_ready killed (nap ∷ naps) l some_byte = rw some_byte refl

read_line :
    (cs : List ℕ) (n target : ℕ) (got : List ℕ) (killed : Bool) (naps : List Nap)
    → all_plain cs ≡ true
    → length cs < n
    → line_read n target got killed naps (record { ready = cs ++ (newline ∷ []); edited = [] })
      ≡ returned (got ++ (cs ++ (newline ∷ []))) (record { ready = []; edited = [] })
unfolding line_read line_await line_byte line_first
read_line cs zero target got killed naps p lt = absurd (omega arith)
read_line [] (suc n) target got killed [] p lt = refl
read_line [] (suc n) target got killed (nap ∷ naps) p lt = refl
read_line (c ∷ cs) (suc n) target got killed naps p lt =
    let e : (c == eof) ≡ false = ground arith in
    let nl : (c == newline) ≡ false = ground arith in
    let t : all_plain cs ≡ true = ground arith in
    rw
      (
        line_ready killed naps (record { ready = c ∷ (cs ++ (newline ∷ [])); edited = [] }) refl,
        e,
        nl,
        line_read,
      )
      (read_line cs n target (got ++ (c ∷ [])) killed naps t (omega arith)
        ∙ ap (λ bs. returned bs (record { ready = []; edited = [] }))
            (append_assoc got (c ∷ []) (cs ++ (newline ∷ []))))

end_returned :
    {x : Ended Console} {got : List ℕ} {l : Line}
    → SameEnd x (returned got l)
    → (s : Console) × (x ≡ returned got s) × IsLine s l
end_returned (same_return {s = s} ok) = (s, refl, ok)

-- A line of plain characters, at most as many as there is room for before the newline, that is
-- typed when nothing is left to read or edited is what the next read for more bytes than these
-- returns, newline included and without a sleep; it leaves nothing.
pub consoleread-consoleintr :
    (cs : List ℕ) (n : ℕ) (killed : Bool) (naps : List Nap) (s : Console)
    → all_plain cs ≡ true
    → length cs < input_buf
    → length cs < n
    → IsLine s (record { ready = []; edited = [] })
    → (s' : Console) × (consoleread n killed naps (consoleintr (cs ++ (newline ∷ [])) s).0
        ≡ returned (cs ++ (newline ∷ [])) s')
      × IsLine s' (record { ready = []; edited = [] })
consoleread-consoleintr cs n killed naps s p room lt ok =
    let typed = consoleintr_lem (cs ++ (newline ∷ [])) s (record { ready = []; edited = [] }) ok in
    let e = edits_line cs [] p (omega arith) in
    let back : reverse (newline ∷ reverse_aux cs []) ≡ cs ++ (newline ∷ []) =
      reverse_aux-eq (reverse cs) (newline ∷ [])
      ∙ ap (λ xs. xs ++ (newline ∷ [])) (reverse-reverse cs) in
    let same =
      consoleread_lem n killed naps (consoleintr (cs ++ (newline ∷ [])) s).0
        (edits (cs ++ (newline ∷ [])) (record { ready = []; edited = [] })) typed in
    end_returned (
      subst (SameEnd (consoleread n killed naps (consoleintr (cs ++ (newline ∷ [])) s).0))
        (ap (line_read n n [] killed naps) (e ∙ ap (λ r. record { ready = r; edited = [] }) back)
          ∙ read_line cs n n [] killed naps p lt)
        same)
