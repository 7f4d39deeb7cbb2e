-- ===== src/Tests/Shells.antt =====
-- The parser of the shell at a concrete input.
use a4team_os.Base.{ℕ, ◌==◌, if◌then◌else◌}

-- "a|b"
abbrev pipe_line : ℕ → ℕ
pipe_line i = if i == 0 then b'a' else if i == 1 then b'|' else if i == 2 then b'b' else 0
