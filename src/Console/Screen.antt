-- ===== src/Console/Screen.antt =====
-- The text screen of xv6/console.c: `cgaputc`, with the memory `crt` of 16-bit cells and the cursor
-- that it keeps in two registers of the display.
use Prim.Native.Nat.{bit_or}
use a4team_os.Base.{
  ℕ, ◌+◌, ◌-◌, ◌*◌, ◌/◌, ◌%◌, ◌^◌, ◌≤◌, ◌<◌, ◌≡◌, refl, ◌∙◌, false, ◌&&◌, ◌==◌, ltb, leb,
  if◌then◌else◌, update, arith, List, [], ◌∷◌, Option, none, some, Bool-cases, inl, inr,
}
use a4team_os.Console.{backspace, newline}

pub record Screen : Type 0 where
  pub crt : ℕ → ℕ
  pub cursor : ℕ

-- `c | 0x0700`, black on white.
abbrev pub cell : ℕ → ℕ
cell c = bit_or c 0x0700

-- The character is put at the cursor.
pub put_cell : (c : ℕ) → Screen → Screen
put_cell c s =
    if c == newline
    then record s { cursor = s.cursor + (80 - s.cursor % 80) }
    else if c == backspace
    then record s { cursor = s.cursor - 1 }
    else record { crt = update s.crt s.cursor (cell (c % 256)); cursor = s.cursor + 1 }

-- `memmove` of the 23 lines below the first, and `memset` of what is left of the last one.
pub scroll_up : Screen → Screen
scroll_up s =
    let at = s.cursor - 80 in
    record {
      crt = λ i.
          if leb at i && ltb i (24 * 80)
          then 0
          else if ltb i (23 * 80)
          then s.crt (i + 80)
          else s.crt i;
      cursor = at;
    }

-- `cgaputc`, none for the panic; the registers hold 16 bits of the cursor.
pub cgaputc : (c : ℕ) → Screen → Option Screen
cgaputc c s =
    let s1 = put_cell c s in
    if ltb (25 * 80) s1.cursor
    then none
    else (let s2 = if leb 24 (s1.cursor / 80) then scroll_up s1 else s1 in
        some (record { crt = update s2.crt s2.cursor (cell b' '); cursor = s2.cursor % 2 ^ 16 }))

-- The calls of `cgaputc` for a sequence of characters.
pub cga_write : List ℕ → Screen → Option Screen
cga_write [] s = some s
cga_write (c ∷ cs) s = elim (cgaputc c s) [ none ↦ none | some s' ↦ cga_write cs s' ]

-- The cursor is on one of the 24 lines that are used.
abbrev pub IsOnScreen : Screen → Type 0
IsOnScreen s = s.cursor < 24 * 80

-- What a call may have changed: the cursor stays on the screen, and the memory after the screen is
-- what it was.
abbrev pub KeepsScreen : Screen → Screen → Type 0
KeepsScreen s s' = (s'.cursor < 24 * 80) × ((i : ℕ) → 24 * 80 ≤ i → s'.crt i ≡ s.crt i)

put_cell_lem :
    (c : ℕ) (s : Screen)
    → IsOnScreen s
    → ((put_cell c s).cursor ≤ 24 * 80) × ((i : ℕ) → 24 * 80 ≤ i → (put_cell c s).crt i ≡ s.crt i)
unfolding put_cell
put_cell_lem c s on = elim (Bool-cases (c == newline)) [
  | inl nl ↦ rw nl (omega arith, λ i h. refl)
  | inr other ↦ rw other (elim (Bool-cases (c == backspace)) [
    | inl bs ↦ rw bs (omega arith, λ i h. refl)
    | inr char ↦ rw char (omega arith, λ i h. ground arith)
  ])
]

-- The end of `cgaputc`, on the screen on which the character is put.
abbrev shown : Screen → Screen
shown s =
    let s2 = if leb 24 (s.cursor / 80) then scroll_up s else s in
    record { crt = update s2.crt s2.cursor (cell b' '); cursor = s2.cursor % 2 ^ 16 }

shown_lem : (s : Screen) → s.cursor ≤ 24 * 80 → KeepsScreen s (shown s)
unfolding scroll_up
shown_lem s le = elim (Bool-cases (leb 24 (s.cursor / 80))) [
  | inl scrolls ↦
      let at : s.cursor ≡ 24 * 80 = ground arith in rw scrolls (omega arith, λ i h. ground arith)
  | inr stays ↦
      let lt : s.cursor < 24 * 80 = ground arith in rw stays (omega arith, λ i h. ground arith)
]

cgaputc_lem :
    (c : ℕ) (s : Screen) → IsOnScreen s → (s' : Screen) × (cgaputc c s ≡ some s') × KeepsScreen s s'
unfolding cgaputc
cgaputc_lem c s on =
    let (le, same) = put_cell_lem c s on in
    let (on', same') = shown_lem (put_cell c s) le in
    let ok : ltb (25 * 80) (put_cell c s).cursor ≡ false = ground arith in
    (shown (put_cell c s), rw ok refl, (on', λ i h. same' i h ∙ same i h))

-- Any characters at all, newlines and backspaces among them, are shown without the panic on the
-- cursor; it stays on the 24 lines, and nothing is written to the memory after these.
pub cga_write_lem :
    (cs : List ℕ) (s : Screen)
    → IsOnScreen s
    → (s' : Screen) × (cga_write cs s ≡ some s') × KeepsScreen s s'
unfolding cga_write
cga_write_lem [] s on = (s, refl, (on, λ i h. refl))
cga_write_lem (c ∷ cs) s on =
    let (s1, e, (on1, same1)) = cgaputc_lem c s on in
    let (s2, e2, (on2, same2)) = cga_write_lem cs s1 on1 in
    (s2, rw (e, cga_write) e2, (on2, λ i h. same2 i h ∙ same1 i h))
