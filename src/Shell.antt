-- ===== src/Shell.antt =====
-- Model of the parser of xv6/sh.c. The command line is a memory of characters, and a pointer into
-- it is a place of it; `es` is the place of the NUL at its end. `malloc` is taken to succeed.
pub mod Token
pub mod Parse
pub mod Strings
use Prim.Native.Nat.{bit_or}
use a4team_os.Base.{
  ℕ, zero, suc, ◌+◌, ◌-◌, Bool, true, false, not, ◌&&◌, ◌||◌, ◌==◌, ltb, leb, if◌then◌else◌, update,
  List, [], ◌∷◌, ◌++◌, length,
}

abbrev pub max_args : ℕ
max_args = 10

-- `struct cmd` and its kinds; a string is the places where it starts and ends.
pub data Cmd : Type 0 where
  exec_cmd : (argv : List (ℕ × ℕ)) → Cmd
  redir_cmd : (cmd : Cmd) (file efile mode fd : ℕ) → Cmd
  pipe_cmd : (left right : Cmd) → Cmd
  list_cmd : (left right : Cmd) → Cmd
  back_cmd : (cmd : Cmd) → Cmd

-- The calls of `panic`.
pub data Mistake : Type 0 where
  missing_file no_block missing_paren syntax too_many_args leftovers : Mistake

-- What a parsing function comes to: a result and the place after it, a panic, or no more fuel.
pub data Parsed (A : Type 0) : Type 0 where
  parsed : A → (s : ℕ) → Parsed A
  panics : Mistake → Parsed A
  no_fuel : Parsed A

-- `strchr(whitespace, c)` and `strchr(symbols, c)`
pub is_space : ℕ → Bool
is_space c = c == b' ' || c == 9 || c == 13 || c == 10 || c == 11

pub is_symbol : ℕ → Bool
is_symbol c =
    c == b'<' || c == b'|' || c == b'>' || c == b'&' || c == b';' || c == b'(' || c == b')'

-- What `gettoken` finds: its result, `*q`, `*eq` and the new `*ps`.
pub record Lexeme : Type 0 where
  pub tok : ℕ
  pub q : ℕ
  pub eq : ℕ
  pub ps : ℕ

module _ (text : ℕ → ℕ) where
  -- `while(s < es && strchr(whitespace, *s)) s++;` with `n` places before `es`.
  pub skip_space : (n s : ℕ) → ℕ
  skip_space zero s = s
  skip_space (suc n) s = let rest = skip_space n (s + 1) in if is_space (text s) then rest else s

  -- `while(s < es && !strchr(whitespace, *s) && !strchr(symbols, *s)) s++;`
  pub skip_word : (n s : ℕ) → ℕ
  skip_word zero s = s
  skip_word (suc n) s =
      let rest = skip_word n (s + 1) in
      if not (is_space (text s)) && not (is_symbol (text s)) then rest else s

  -- The `switch` of `gettoken` at `s`: its result, and the place after the token.
  pub scan_token : (es s : ℕ) → ℕ × ℕ
  scan_token es s =
      let c = text s in
      if c == 0
      then (0, s)
      else if c == b'|' || c == b'(' || c == b')' || c == b';' || c == b'&' || c == b'<'
      then (c, s + 1)
      else if c == b'>'
      then (if text (s + 1) == b'>' then (b'+', s + 2) else (c, s + 1))
      else (b'a', skip_word (es - s) s)

  pub gettoken : (es s : ℕ) → Lexeme
  gettoken es s =
      let q = skip_space (es - s) s in
      let (ret, eq) = scan_token es q in
      record { tok = ret; q = q; eq = eq; ps = skip_space (es - eq) eq }

  -- `peek`, of the tokens `toks`: its result and the new `*ps`.
  pub peek : (es s : ℕ) (toks : ℕ → Bool) → Bool × ℕ
  peek es s toks = let s' = skip_space (es - s) s in (not (text s' == 0) && toks (text s'), s')

abbrev pub o_rdonly : ℕ
o_rdonly = 0

abbrev pub o_wronly_create : ℕ
o_wronly_create = bit_or 1 0x200

-- The `switch` of `parseredirs`.
pub redirect : (tok : ℕ) → Cmd → (q eq : ℕ) → Cmd
redirect tok cmd q eq =
    if tok == b'<'
    then redir_cmd cmd q eq o_rdonly 0
    else if tok == b'>'
    then redir_cmd cmd q eq o_wronly_create 1
    else if tok == b'+'
    then redir_cmd cmd q eq o_wronly_create 1
    else cmd

-- `cmd->argv[argc] = q; cmd->eargv[argc] = eq;` where `cmd` is the command inside the redirections
-- of `ret`.
pub add_arg : (ret : Cmd) (q eq : ℕ) → Cmd
add_arg (exec_cmd argv) q eq = exec_cmd (argv ++ ((q, eq) ∷ []))
add_arg (redir_cmd cmd file efile mode fd) q eq = redir_cmd (add_arg cmd q eq) file efile mode fd
add_arg (pipe_cmd left right) q eq = pipe_cmd left right
add_arg (list_cmd left right) q eq = list_cmd left right
add_arg (back_cmd cmd) q eq = back_cmd cmd

-- The result of a parsing function handed on.
pub parsed_then : {A B : Type 0} → Parsed A → (A → (s : ℕ) → Parsed B) → Parsed B
parsed_then (parsed a s) next = next a s
parsed_then (panics m) next = panics m
parsed_then no_fuel next = no_fuel

module _ (text : ℕ → ℕ) (es : ℕ) where
  pub parseredirs : (fuel : ℕ) (cmd : Cmd) (s : ℕ) → Parsed Cmd
  parseredirs zero cmd s = no_fuel
  parseredirs (suc f) cmd s =
      let (more, s1) = peek text es s (λ c. c == b'<' || c == b'>') in
      elim more [
        | false ↦ parsed cmd s1
        | true ↦
            let t = gettoken text es s1 in
            let file = gettoken text es t.ps in
            elim (file.tok == b'a') [
              | false ↦ panics missing_file
              | true ↦ parseredirs f (redirect t.tok cmd file.q file.eq) file.ps
            ]
      ]

  -- The functions that `parseline` calls, with `line` for its calls of itself.
  pub parseblock : (line : (s : ℕ) → Parsed Cmd) (fuel s : ℕ) → Parsed Cmd
  parseblock line fuel s =
      let (opens, s1) = peek text es s (λ c. c == b'(') in
      if not opens
      then panics no_block
      else parsed_then (line (gettoken text es s1).ps) (λ cmd s2.
        let (closes, s3) = peek text es s2 (λ c. c == b')') in
        if not closes then panics missing_paren else parseredirs fuel cmd (gettoken text es s3).ps)

  -- The loop of `parseexec`.
  pub args_loop : (fuel : ℕ) (ret : Cmd) (argc s : ℕ) → Parsed Cmd
  args_loop zero ret argc s = no_fuel
  args_loop (suc f) ret argc s =
      let (ends, s1) = peek text es s (λ c. c == b'|' || c == b')' || c == b'&' || c == b';') in
      elim ends [
        | true ↦ parsed ret s1
        | false ↦
            let t = gettoken text es s1 in
            elim (t.tok == 0) [
              | true ↦ parsed ret t.ps
              | false ↦ elim (t.tok == b'a') [
                | false ↦ panics syntax
                | true ↦ elim (leb max_args (argc + 1)) [
                  | true ↦ panics too_many_args
                  | false ↦
                      parsed_then (parseredirs (suc f) (add_arg ret t.q t.eq) t.ps)
                        (λ ret' s2. args_loop f ret' (argc + 1) s2)
                ]
              ]
            ]
      ]

  pub parseexec : (line : (s : ℕ) → Parsed Cmd) (fuel s : ℕ) → Parsed Cmd
  parseexec line fuel s =
      let (opens, s1) = peek text es s (λ c. c == b'(') in
      if opens
      then parseblock line fuel s1
      else parsed_then (parseredirs fuel (exec_cmd []) s1) (λ ret s2. args_loop fuel ret 0 s2)

  pub parsepipe : (line : (s : ℕ) → Parsed Cmd) (fuel s : ℕ) → Parsed Cmd
  parsepipe line zero s = no_fuel
  parsepipe line (suc f) s = parsed_then (parseexec line (suc f) s) (λ cmd s1.
      let (more, s2) = peek text es s1 (λ c. c == b'|') in
      elim more [
        | false ↦ parsed cmd s2
        | true ↦
            parsed_then (parsepipe line f (gettoken text es s2).ps)
              (λ right s3. parsed (pipe_cmd cmd right) s3)
      ])

  -- The loop of `parseline`.
  pub back_loop : (fuel : ℕ) (cmd : Cmd) (s : ℕ) → Parsed Cmd
  back_loop zero cmd s = no_fuel
  back_loop (suc f) cmd s =
      let (more, s1) = peek text es s (λ c. c == b'&') in
      elim more [
        | false ↦ parsed cmd s1
        | true ↦ back_loop f (back_cmd cmd) (gettoken text es s1).ps
      ]

  pub parseline : (fuel s : ℕ) → Parsed Cmd
  parseline zero s = no_fuel
  parseline (suc f) s = parsed_then (parsepipe (parseline f) (suc f) s) (λ cmd s1.
      parsed_then (back_loop (suc f) cmd s1) (λ cmd' s2.
        let (more, s3) = peek text es s2 (λ c. c == b';') in
        elim more [
          | false ↦ parsed cmd' s3
          | true ↦
              parsed_then (parseline f (gettoken text es s3).ps)
                (λ right s4. parsed (list_cmd cmd' right) s4)
        ]))

  -- `parsecmd` from `s` on, but for `nulterminate`.
  pub parse_all : (fuel s : ℕ) → Parsed Cmd
  parse_all fuel s = parsed_then (parseline fuel s) (λ cmd s1.
      let (more, s2) = peek text es s1 (λ c. false) in
      if not (s2 == es) then panics leftovers else parsed cmd s2)

-- `nulterminate`
pub nul_args : List (ℕ × ℕ) → (ℕ → ℕ) → ℕ → ℕ
nul_args [] text = text
nul_args ((q, eq) ∷ args) text = nul_args args (update text eq 0)

pub nulterminate : Cmd → (ℕ → ℕ) → ℕ → ℕ
nulterminate (exec_cmd argv) text = nul_args argv text
nulterminate (redir_cmd cmd file efile mode fd) text = update (nulterminate cmd text) efile 0
nulterminate (pipe_cmd left right) text = nulterminate right (nulterminate left text)
nulterminate (list_cmd left right) text = nulterminate right (nulterminate left text)
nulterminate (back_cmd cmd) text = nulterminate cmd text

-- `parsecmd`, of the string at 0 that ends at `es`: the command, and the memory after it. The fuel
-- is more than there are characters.
pub parsecmd : (text : ℕ → ℕ) (es : ℕ) → Parsed (Cmd × (ℕ → ℕ))
parsecmd text es =
    parsed_then (parse_all text es (es + 1) 0) (λ cmd s. parsed (cmd, nulterminate cmd text) s)
