-- ===== src/Tests/Bytes.antt =====
-- The theorems on strings, numerals and the pipe, at concrete inputs.
use a4team_os.Base.{
  ℕ, ◌+◌, ◌-◌, ◌<◌, ◌≡◌, true, false, ◌==◌, if◌then◌else◌, arith, some, List, [], ◌∷◌, ◌++◌, length,
  take,
}
use a4team_os.Str.{Memory, memmove}
use a4team_os.Str.Copy.{within, memmove_lem}
use a4team_os.Print.{printint, atoi}
use a4team_os.Print.Digits.{Holds, is_digit, atoi-printint}
use a4team_os.Pipe.{fresh, write_burst}
use a4team_os.Pipe.Fifo.{IsValid, contents}
use a4team_os.Pipe.Stream.{room, Reach, start, next, write, fifo}

-- The bytes 1, 2, 3, 0 from address 10 on, and zeros.
abbrev some_bytes : Memory
some_bytes a = if a == 10 then 1 else if a == 11 then 2 else if a == 12 then 3 else 0

memmove_lem_example :
    memmove 11 10 3 some_bytes 13 ≡ (if within 11 3 13 then some_bytes (10 + (13 - 11)) else 0)
memmove_lem_example = memmove_lem 11 10 3 some_bytes 13

atoi-printint_example :
    (out : List ℕ) × (printint 11 123 10 true ≡ some out)
    × ((m : Memory) (s fuel' : ℕ)
        → Holds m s out
        → is_digit (m (s + length out)) ≡ false
        → length out < fuel'
        → atoi fuel' s m ≡ some 123)
atoi-printint_example = atoi-printint 11 123 true (omega arith) (omega arith)

fifo_example :
    let p = (write_burst false (fresh λ a. 0) (7 ∷ 8 ∷ [])).0 in
    ([] ++ take (room (fresh λ a. 0)) (7 ∷ 8 ∷ []) ≡ ([] ++ []) ++ contents p) × IsValid p
fifo_example =
    let s : Reach (λ a. 0) [] [] (fresh λ a. 0) = start in fifo (next s (write false (7 ∷ 8 ∷ [])))
