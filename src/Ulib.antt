-- ===== src/Ulib.antt =====
-- Model of string functions of xv6/ulib.c, on the memory of Str. A loop that ends at a NUL runs on
-- fuel, and none means that the fuel did not reach it.
use a4team_os.Base.{
  ℕ, zero, suc, ◌+◌, ◌-◌, not, ◌&&◌, ◌||◌, ◌==◌, if◌then◌else◌, update, Option, none, some, ℤ,
  sub_ℕ,
}
use a4team_os.Str.{Memory}

-- The loop of `strcpy`.
pub strcpy : (fuel s t : ℕ) → Memory → Option Memory
strcpy zero s t m = none
strcpy (suc f) s t m =
    let m' = update m s (m t) in
    let rest = strcpy f (s + 1) (t + 1) m' in if m t == 0 then some m' else rest

-- `strcmp`; the characters are unsigned.
pub strcmp : (fuel p q : ℕ) → Memory → Option ℤ
strcmp zero p q m = none
strcmp (suc f) p q m =
    let rest = strcmp f (p + 1) (q + 1) m in
    if not (m p == 0) && (m p == m q) then rest else some (sub_ℕ (m p) (m q))

-- `strchr`: the address of the character, or `some 0` if it does not occur.
pub strchr : (fuel s c : ℕ) → Memory → Option ℕ
strchr zero s c m = none
strchr (suc f) s c m =
    let rest = strchr f (s + 1) c m in
    if m s == 0 then some 0 else if m s == c then some s else rest

module _ {W : Type 0} where
  -- The loop of `gets`, with room for `n` characters from index `i` on; `read` answers none at the
  -- end of the input. The result is the index where the NUL goes.
  pub gets_loop : (read : W → Option ℕ × W) (n buf i : ℕ) → Memory → W → ℕ × Memory × W
  gets_loop read zero buf i m w = (i, m, w)
  gets_loop read (suc n) buf i m w =
      let (got, w') = read w in
      elim got [
        | none ↦ (i, m, w')
        | some c ↦
            let m' = update m (buf + i) c in
            let rest = gets_loop read n buf (i + 1) m' w' in
            if (c == 10) || (c == 13) then (i + 1, m', w') else rest
      ]

  pub gets : (read : W → Option ℕ × W) (buf max : ℕ) → Memory → W → Memory × W
  unfolding gets_loop
  gets read buf max m w =
      let (i, m', w') = gets_loop read (max - 1) buf 0 m w in (update m' (buf + i) 0, w')
