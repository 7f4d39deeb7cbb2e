-- ===== src/Tests/Consoles.antt =====
-- The console at concrete inputs.
use a4team_os.Base.{ℕ, ◌≡◌, refl, false, arith, List, [], ◌∷◌, ◌++◌, some}
use a4team_os.Console.{Console, Nap, returned, consoleread, consoleintr, newline}
use a4team_os.Console.Line.{Line, edits, IsLine}
use a4team_os.Console.Line.Typing.{consoleintr_lem}
use a4team_os.Console.Line.Reading.{line_read, SameEnd, consoleread_lem}
use a4team_os.Console.Line.Reading.Typed.{consoleread-consoleintr}
use a4team_os.Console.Screen.{Screen, cga_write, KeepsScreen, cga_write_lem}

-- A console with nothing typed; its counters are about to wrap.
abbrev quiet : Console
quiet = record { buf = λ i. 0; r = 0xFFFFFFFE; w = 0xFFFFFFFE; e = 0xFFFFFFFE; out = []; wakes = 0 }

abbrev no_line : Line
no_line = record { ready = []; edited = [] }

quiet-IsLine : IsLine quiet no_line
quiet-IsLine = record {
  r_fits = omega arith;
  w_at = refl;
  e_at = refl;
  in_buf = omega arith;
  ready_at = refl;
  edited_at = refl;
  one_line = refl;
}

-- "lx", a backspace, "s" and a newline.
abbrev typing : List ℕ
typing = b'l' ∷ b'x' ∷ 8 ∷ b's' ∷ newline ∷ []

-- The line is typed while the reader sleeps.
abbrev naps : List Nap
naps = record { typed = typing; killed = false } ∷ []

consoleread_lem_example :
    SameEnd (consoleread 10 false naps quiet) (line_read 10 10 [] false naps no_line)
consoleread_lem_example = consoleread_lem 10 false naps quiet no_line quiet-IsLine

abbrev list_files : List ℕ
list_files = b'l' ∷ b's' ∷ []

consoleintr_lem_example : IsLine (consoleintr typing quiet).0 (edits typing no_line)
consoleintr_lem_example = consoleintr_lem typing quiet no_line quiet-IsLine

consoleread-consoleintr_example :
    (s' : Console) × (consoleread 10 false [] (consoleintr (list_files ++ (newline ∷ [])) quiet).0
      ≡ returned (list_files ++ (newline ∷ [])) s')
    × IsLine s' no_line
consoleread-consoleintr_example =
    consoleread-consoleintr list_files 10 false [] quiet refl (omega arith) (omega arith)
      quiet-IsLine

-- The cursor is at the end of the last line.
abbrev full_screen : Screen
full_screen = record { crt = λ i. 0x0741; cursor = 1919 }

cga_write_lem_example :
    (s' : Screen) × (cga_write typing full_screen ≡ some s') × KeepsScreen full_screen s'
cga_write_lem_example = cga_write_lem typing full_screen (omega arith)
