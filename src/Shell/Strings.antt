-- ===== src/Shell/Strings.antt =====
-- What parsecmd and nulterminate of xv6/sh.c do to the command line.
use a4team_os.Base.{ℕ, ◌≤◌, ◌<◌, ◌≡◌, false, not, ◌==◌, if◌then◌else◌, List, [], ◌∷◌, ◌⊎◌}
use a4team_os.Shell.{
  Cmd, exec_cmd, redir_cmd, pipe_cmd, list_cmd, back_cmd, Mistake, Parsed, parsed, panics,
  leftovers, peek, parsed_then, nulterminate,
}
use a4team_os.Shell.Parse.{IsCmd}

-- NULs may have been written over characters of the string, after its first one, and nothing else.
abbrev pub OnlyNuls : (es : ℕ) (text text' : ℕ → ℕ) → Type 0
OnlyNuls es text text' = (i : ℕ) → (text' i ≡ text i) ⊎ ((text' i ≡ 0) × (0 < i) × (i ≤ es))

-- Every string of the command ends with a NUL.
pub data EndsNul (text : ℕ → ℕ) : List (ℕ × ℕ) → Type 0 where
  nul_nil : EndsNul text []
  nul_cons :
      {q eq : ℕ} {ws : List (ℕ × ℕ)} → text eq ≡ 0 → EndsNul text ws → EndsNul text ((q, eq) ∷ ws)

pub data IsTerminated (text : ℕ → ℕ) : Cmd → Type 0 where
  exec_nul : {argv : List (ℕ × ℕ)} → EndsNul text argv → IsTerminated text (exec_cmd argv)
  redir_nul :
      {c : Cmd} {file efile mode fd : ℕ}
      → IsTerminated text c
      → text efile ≡ 0
      → IsTerminated text (redir_cmd c file efile mode fd)
  pipe_nul :
      {l r : Cmd} → IsTerminated text l → IsTerminated text r → IsTerminated text (pipe_cmd l r)
  list_nul :
      {l r : Cmd} → IsTerminated text l → IsTerminated text r → IsTerminated text (list_cmd l r)
  back_nul : {c : Cmd} → IsTerminated text c → IsTerminated text (back_cmd c)

-- Where there is a NUL, there stays one.
abbrev KeepsNuls : (text text' : ℕ → ℕ) → Type 0
KeepsNuls text text' = (i : ℕ) → text i ≡ 0 → text' i ≡ 0

-- What parsing a command line comes to.
pub data Accepted (text : ℕ → ℕ) (es : ℕ) : Parsed (Cmd × (ℕ → ℕ)) → Type 0 where
  accepted :
      {c : Cmd} {text' : ℕ → ℕ}
      → IsCmd es c
      → IsTerminated text' c
      → OnlyNuls es text text'
      → Accepted text es (parsed (c, text') es)
  rejected : {m : Mistake} → Accepted text es (panics m)

-- What `parsecmd` does with the result of `parseline`.
abbrev finish : (text : ℕ → ℕ) (es : ℕ) → Parsed Cmd → Parsed (Cmd × (ℕ → ℕ))
finish text es r =
    parsed_then
      (parsed_then r (λ cmd s1.
        let (more, s2) = peek text es s1 (λ c. false) in
        if not (s2 == es) then panics leftovers else parsed cmd s2))
      (λ cmd s. parsed (cmd, nulterminate cmd text) s)
