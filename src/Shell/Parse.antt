-- ===== src/Shell/Parse.antt =====
-- The parser of xv6/sh.c ends, within the string, and the commands it builds are well formed.
use a4team_os.Base.{
  ℕ, zero, suc, ◌+◌, ◌≤◌, ◌<◌, ◌≡◌, refl, ◌∙◌, false, not, ◌||◌, ◌==◌, leb, if◌then◌else◌, arith,
  List, [], ◌∷◌, ◌++◌, length, length-append, Bool-cases, inl, inr,
}
use a4team_os.Shell.{
  max_args, Cmd, exec_cmd, redir_cmd, pipe_cmd, list_cmd, back_cmd, Mistake, Parsed, parsed, panics,
  missing_paren, gettoken, peek, redirect, add_arg, parsed_then, parseredirs, parseblock, args_loop,
  parseexec, parsepipe, back_loop, parseline,
}
use a4team_os.Shell.Token.{IsString, gettoken_lem, peek_lem, if_rule}

-- A string of at least one character, within the first `es`.
abbrev pub IsWord : (es q eq : ℕ) → Type 0
IsWord es q eq = (q < eq) × (eq ≤ es)

pub data AllWords (es : ℕ) : List (ℕ × ℕ) → Type 0 where
  no_words : AllWords es []
  word :
      {q eq : ℕ} {ws : List (ℕ × ℕ)} → IsWord es q eq → AllWords es ws → AllWords es ((q, eq) ∷ ws)

-- A command with fewer arguments than there is room for, all of whose strings are words.
pub data IsCmd (es : ℕ) : Cmd → Type 0 where
  exec_ok :
      {argv : List (ℕ × ℕ)} → length argv < max_args → AllWords es argv → IsCmd es (exec_cmd argv)
  redir_ok :
      {c : Cmd} {file efile mode fd : ℕ}
      → IsCmd es c
      → IsWord es file efile
      → IsCmd es (redir_cmd c file efile mode fd)
  pipe_ok : {l r : Cmd} → IsCmd es l → IsCmd es r → IsCmd es (pipe_cmd l r)
  list_ok : {l r : Cmd} → IsCmd es l → IsCmd es r → IsCmd es (list_cmd l r)
  back_ok : {c : Cmd} → IsCmd es c → IsCmd es (back_cmd c)

-- A command with `n` arguments so far, and redirections around it.
data IsArgs (es n : ℕ) : Cmd → Type 0 where
  bare : {argv : List (ℕ × ℕ)} → length argv ≡ n → AllWords es argv → IsArgs es n (exec_cmd argv)
  around :
      {c : Cmd} {file efile mode fd : ℕ}
      → IsArgs es n c
      → IsWord es file efile
      → IsArgs es n (redir_cmd c file efile mode fd)

args-IsCmd : {es n : ℕ} {c : Cmd} → n < max_args → IsArgs es n c → IsCmd es c
args-IsCmd lt (bare e ws) = exec_ok (omega arith) ws
args-IsCmd lt (around a w) = redir_ok (args-IsCmd lt a) w

words_snoc :
    {es q eq : ℕ} {ws : List (ℕ × ℕ)}
    → AllWords es ws
    → IsWord es q eq
    → AllWords es (ws ++ ((q, eq) ∷ []))
words_snoc no_words w = word w no_words
words_snoc (word w' ws) w = word w' (words_snoc ws w)

add_arg-IsArgs :
    {es n q eq : ℕ} {c : Cmd} → IsArgs es n c → IsWord es q eq → IsArgs es (n + 1) (add_arg c q eq)
unfolding add_arg
add_arg-IsArgs {q = q} {eq = eq} (bare {argv} e ws) w =
    bare (length-append argv ((q, eq) ∷ []) ∙ omega arith) (words_snoc ws w)
add_arg-IsArgs (around a w') w = around (add_arg-IsArgs a w) w'

-- A result with a command as `P` says, at a place from `s` to the end of the string, or a panic.
pub data Ends (P : Cmd → Type 0) (es s : ℕ) : Parsed Cmd → Type 0 where
  ends : {c : Cmd} {s' : ℕ} → P c → s ≤ s' → s' ≤ es → Ends P es s (parsed c s')
  refused : {m : Mistake} → Ends P es s (panics m)

later : {P : Cmd → Type 0} {es s s' : ℕ} {r : Parsed Cmd} → s ≤ s' → Ends P es s' r → Ends P es s r
later le (ends p lo hi) = ends p (omega arith) hi
later le refused = refused

then_lem :
    {P Q : Cmd → Type 0} {es s : ℕ} {r : Parsed Cmd} {next : Cmd → ℕ → Parsed Cmd}
    → Ends P es s r
    → ((c : Cmd) (s' : ℕ) → P c → s ≤ s' → s' ≤ es → Ends Q es s' (next c s'))
    → Ends Q es s (parsed_then r next)
unfolding parsed_then
then_lem (ends {c} {s'} p lo hi) go = later lo (go c s' p lo hi)
then_lem refused go = refused

abbrev RedirOk : (es : ℕ) → (Cmd → Type 0) → Type 0
RedirOk es P =
    (c : Cmd) (file efile mode fd : ℕ)
    → P c
    → IsWord es file efile
    → P (redir_cmd c file efile mode fd)

redirect_lem :
    (P : Cmd → Type 0) (es tok q eq : ℕ) (c : Cmd)
    → RedirOk es P
    → IsWord es q eq
    → P c
    → P (redirect tok c q eq)
unfolding redirect
redirect_lem P es tok q eq c around_ok w p =
    if_rule P (tok == b'<') (λ y. around_ok c q eq _ _ p w)
      (λ n.
        if_rule P (tok == b'>') (λ y. around_ok c q eq _ _ p w)
          (λ n. if_rule P (tok == b'+') (λ y. around_ok c q eq _ _ p w) (λ n. p)))

module _ (text : ℕ → ℕ) (es : ℕ) (str : IsString text es) where
  redirs_lem :
      (P : Cmd → Type 0)
      → RedirOk es P
      → (f : ℕ) (c : Cmd) (s : ℕ) → s ≤ es
      → es < f + s
      → P c
      → Ends P es s (parseredirs text es f c s)
  unfolding parseredirs
  redirs_lem P around_ok zero c s le fuel p = absurd (omega arith)
  redirs_lem P around_ok (suc f) c s le fuel p =
      let (lo, hi, some) = peek_lem text es str s (λ c. c == b'<' || c == b'>') le in
      let (more, s1) = peek text es s (λ c. c == b'<' || c == b'>') in
      let t = gettoken text es s1 in
      let (lo1, lo2, lo3, hi3, go) = gettoken_lem text es str s1 hi in
      let file = gettoken text es t.ps in
      let (lo1', lo2', lo3', hi3', go') = gettoken_lem text es str t.ps hi3 in
      elim (Bool-cases more) [
        | inr n ↦ rw (n, parseredirs) (ends p lo hi)
        | inl y ↦ elim (Bool-cases (file.tok == b'a')) [
          | inr n ↦ rw (y, n, parseredirs) refused
          | inl a ↦
              let nz : (file.tok == 0) ≡ false = ground arith in
              let lt = some y in
              rw (y, a, parseredirs)
                (later (omega arith) (
                  redirs_lem P around_ok f (redirect t.tok c file.q file.eq) file.ps hi3'
                    (omega arith)
                    (redirect_lem P es t.tok file.q file.eq c around_ok (go' nz, omega arith) p)))
        ]
      ]

  -- What the calls of `parseline` from a place after `s` come to.
  abbrev LineOk : (line : ℕ → Parsed Cmd) (s : ℕ) → Type 0
  LineOk line s = (s' : ℕ) → s < s' → s' ≤ es → Ends (IsCmd es) es s' (line s')

  -- The end of `parseblock`.
  close_lem :
      (f : ℕ) (c : Cmd) (s : ℕ)
      → s ≤ es
      → es < f + s
      → IsCmd es c
      → let (closes, s3) = peek text es s (λ c. c == b')') in
        Ends (IsCmd es) es s (
          if not closes
          then panics missing_paren
          else parseredirs text es f c (gettoken text es s3).ps)
  close_lem f c s le fuel ok =
      let (lo, hi, some) = peek_lem text es str s (λ c. c == b')') le in
      let (closes, s3) = peek text es s (λ c. c == b')') in
      let (lo1, lo2, lo3, hi3, go) = gettoken_lem text es str s3 hi in
      elim (Bool-cases closes) [
        | inr n ↦ rw n refused
        | inl y ↦ rw y (
            later (omega arith) (
              redirs_lem (IsCmd es) (λ c file efile mode fd p w. redir_ok p w) f c
                (gettoken text es s3).ps hi3 (omega arith) ok))
      ]

  block_lem :
      (line : ℕ → Parsed Cmd) (f s : ℕ)
      → s ≤ es
      → es < f + s
      → LineOk line s
      → Ends (IsCmd es) es s (parseblock text es line f s)
  unfolding parseblock
  block_lem line f s le fuel line_ok =
      let (lo, hi, some) = peek_lem text es str s (λ c. c == b'(') le in
      let (opens, s1) = peek text es s (λ c. c == b'(') in
      let (lo1, lo2, lo3, hi3, go) = gettoken_lem text es str s1 hi in
      elim (Bool-cases opens) [
        | inr n ↦ rw n refused
        | inl y ↦
            let lt = some y in
            rw y (
              later (omega arith) (
                then_lem (line_ok (gettoken text es s1).ps (omega arith) hi3)
                  (λ c s2 ok lo' hi'. close_lem f c s2 hi' (omega arith) ok)))
      ]

  -- The loop of `parseexec`; there is room for one more argument, as the test in the loop says.
  args_lem :
      (f : ℕ) (c : Cmd) (argc s : ℕ)
      → s ≤ es
      → es < f + s
      → argc < max_args
      → IsArgs es argc c
      → Ends (IsCmd es) es s (args_loop text es f c argc s)
  unfolding args_loop
  args_lem zero c argc s le fuel room ok = absurd (omega arith)
  args_lem (suc f) c argc s le fuel room ok =
      let stop = λ (c : ℕ). c == b'|' || c == b')' || c == b'&' || c == b';' in
      let (lo, hi, some) = peek_lem text es str s stop le in
      let (stops, s1) = peek text es s stop in
      let t = gettoken text es s1 in
      let (lo1, lo2, lo3, hi3, go) = gettoken_lem text es str s1 hi in
      elim (Bool-cases stops) [
        | inl y ↦ rw (y, args_loop) (ends (args-IsCmd room ok) lo hi)
        | inr n ↦ elim (Bool-cases (t.tok == 0)) [
          | inl z ↦ rw (n, z, args_loop) (ends (args-IsCmd room ok) (omega arith) hi3)
          | inr nz ↦ elim (Bool-cases (t.tok == b'a')) [
            | inr other ↦ rw (n, nz, other, args_loop) refused
            | inl a ↦ elim (Bool-cases (leb max_args (argc + 1))) [
              | inl full ↦ rw (n, nz, a, full, args_loop) refused
              | inr more ↦
                  let lt = go nz in
                  rw (n, nz, a, more, args_loop)
                    (later (omega arith) (
                      then_lem
                        (redirs_lem (IsArgs es (argc + 1)) (λ c file efile mode fd p w. around p w)
                          (suc f) (add_arg c t.q t.eq) t.ps hi3 (omega arith)
                          (add_arg-IsArgs ok (lt, omega arith)))
                        (λ c' s2 ok' lo' hi'.
                          args_lem f c' (argc + 1) s2 hi' (omega arith) (ground arith) ok')))
            ]
          ]
        ]
      ]

  exec_lem :
      (line : ℕ → Parsed Cmd) (f s : ℕ)
      → s ≤ es
      → es < f + s
      → LineOk line s
      → Ends (IsCmd es) es s (parseexec text es line f s)
  unfolding parseexec
  exec_lem line f s le fuel line_ok =
      let (lo, hi, some) = peek_lem text es str s (λ c. c == b'(') le in
      let (opens, s1) = peek text es s (λ c. c == b'(') in
      if_rule (Ends (IsCmd es) es s) opens
        (λ y.
          later lo
            (block_lem line f s1 hi (omega arith) (λ s' lt le'. line_ok s' (omega arith) le')))
        (λ n. later lo (
          then_lem
            (redirs_lem (IsArgs es 0) (λ c file efile mode fd p w. around p w) f (exec_cmd []) s1 hi
              (omega arith) (bare refl no_words))
            (λ c s2 ok lo' hi'. args_lem f c 0 s2 hi' (omega arith) (omega arith) ok)))

  pipe_lem :
      (line : ℕ → Parsed Cmd) (f s : ℕ)
      → s ≤ es
      → es < f + s
      → LineOk line s
      → Ends (IsCmd es) es s (parsepipe text es line f s)
  unfolding parsepipe
  pipe_lem line zero s le fuel line_ok = absurd (omega arith)
  pipe_lem line (suc f) s le fuel line_ok =
      then_lem (exec_lem line (suc f) s le fuel line_ok) (λ c s1 ok lo1 hi1.
        let (lo, hi, some) = peek_lem text es str s1 (λ c. c == b'|') hi1 in
        let (more, s2) = peek text es s1 (λ c. c == b'|') in
        let (lo1', lo2, lo3, hi3, go) = gettoken_lem text es str s2 hi in
        elim (Bool-cases more) [
          | inr n ↦ rw n (ends ok (omega arith) hi)
          | inl y ↦
              let lt = some y in
              rw y (
                later (omega arith) (
                  then_lem
                    (pipe_lem line f (gettoken text es s2).ps hi3 (omega arith)
                      (λ s' lt' le'. line_ok s' (omega arith) le'))
                    (λ r s3 ok' lo' hi'. ends (pipe_ok ok ok') (omega arith) hi')))
        ])

  back_lem :
      (f : ℕ) (c : Cmd) (s : ℕ)
      → s ≤ es
      → es < f + s
      → IsCmd es c
      → Ends (IsCmd es) es s (back_loop text es f c s)
  unfolding back_loop
  back_lem zero c s le fuel ok = absurd (omega arith)
  back_lem (suc f) c s le fuel ok =
      let (lo, hi, some) = peek_lem text es str s (λ c. c == b'&') le in
      let (more, s1) = peek text es s (λ c. c == b'&') in
      let (lo1, lo2, lo3, hi3, go) = gettoken_lem text es str s1 hi in
      elim (Bool-cases more) [
        | inr n ↦ rw (n, back_loop) (ends ok lo hi)
        | inl y ↦
            let lt = some y in
            rw (y, back_loop)
              (later (omega arith)
                (back_lem f (back_cmd c) (gettoken text es s1).ps hi3 (omega arith) (back_ok ok)))
      ]

  pub line_lem : (f s : ℕ) → s ≤ es → es < f + s → Ends (IsCmd es) es s (parseline text es f s)
  unfolding parseline
  line_lem zero s le fuel = absurd (omega arith)
  line_lem (suc f) s le fuel =
      let line_ok = λ (s' : ℕ) (lt : s < s') (le' : s' ≤ es). line_lem f s' le' (omega arith) in
      then_lem (pipe_lem (parseline text es f) (suc f) s le fuel line_ok) (λ c s1 ok lo1 hi1.
        then_lem (back_lem (suc f) c s1 hi1 (omega arith) ok) (λ c' s2 ok' lo2 hi2.
          let (lo, hi, some) = peek_lem text es str s2 (λ c. c == b';') hi2 in
          let (more, s3) = peek text es s2 (λ c. c == b';') in
          let (lo1', lo2', lo3, hi3, go) = gettoken_lem text es str s3 hi in
          elim (Bool-cases more) [
            | inr n ↦ rw n (ends ok' (omega arith) hi)
            | inl y ↦
                let lt = some y in
                rw y (
                  later (omega arith) (
                    then_lem (line_ok (gettoken text es s3).ps (omega arith) hi3)
                      (λ r s4 ok'' lo' hi'. ends (list_ok ok' ok'') (omega arith) hi')))
          ]))
