-- ===== src/Vm/Copy.antt =====
-- User memory of xv6/vm.c: loading a program into pages and copying to user addresses.
pub mod Bytes
use a4team_os.Base.{
  ℕ, zero, suc, ◌+◌, ◌-◌, ◌/◌, ◌%◌, ◌^◌, Bool, true, false, not, ◌==◌, ltb, leb, if◌then◌else◌,
  update, Option, none, some, ℤ, pos, negsuc,
}
use a4team_os.Fs.{Inode, Volume, blit}
use a4team_os.Fs.Content.{readi_file}
use a4team_os.Vm.{
  pgsize, pte_w, pte_u, is_present, is_user, v2p, pg_down, Vm, take_page, zero_page, table_of,
  walkpgdir, mappages,
}

-- `memmove(page, src, n)`
pub fill_page : (page at n : ℕ) (src : ℕ → ℕ) → Vm → Vm
fill_page p at n src s = record s { bytes = update s.bytes p (blit at n src (s.bytes p)) }

-- `inituvm`, for a program of bytes; the results of `kalloc` and `mappages` are not looked at.
pub inituvm : (pgdir : ℕ) (init : ℕ → ℕ) (sz : ℕ) → Vm → Option Vm
inituvm pgdir init sz s =
    if leb pgsize sz
    then none
    else (let (mem, s1) = take_page s in
        elim (mappages pgdir 0 pgsize (v2p mem) (pte_w + pte_u) (zero_page mem s1)) [
          | none ↦ none
          | some (done, s2) ↦ some (fill_page mem 0 sz init s2)
        ])

-- The loop of `loaduvm`, for `n` pages.
pub load_loop :
    ℕ
    → (pgdir addr : ℕ) → Inode
    → (offset sz i : ℕ) → Volume
    → Vm
    → Option (ℤ × Inode × Volume × Vm)
load_loop zero pgdir addr ip offset sz i v s = some (pos 0, ip, v, s)
load_loop (suc f) pgdir addr ip offset sz i v s = elim (ltb i sz) [
  | false ↦ some (pos 0, ip, v, s)
  | true ↦
      let (found, s') = walkpgdir pgdir ((addr + i) % 2 ^ 32) false s in
      elim found [
        | none ↦ none
        | some (t, j) ↦
            let page = table_of (s'.entry t j) in
            let n = if ltb (sz - i) pgsize then sz - i else pgsize in
            elim (readi_file ip (s'.bytes page) ((offset + i) % 2 ^ 32) n v) [
              | none ↦ none
              | some (r, got, ip', v') ↦
                  let s'' : Vm = record s' { bytes = update s'.bytes page got } in
                  elim r [
                    | negsuc e ↦ some (negsuc 0, ip', v', s'')
                    | pos k ↦ elim (k == n) [
                      | false ↦ some (negsuc 0, ip', v', s'')
                      | true ↦ load_loop f pgdir addr ip' offset sz (i + pgsize) v' s''
                    ]
                  ]
            ]
      ]
]

-- `loaduvm`, from a file; a round reads a page, so a round more than there are pages is enough.
pub loaduvm :
    (pgdir addr : ℕ) → Inode → (offset sz : ℕ) → Volume → Vm → Option (ℤ × Inode × Volume × Vm)
loaduvm pgdir addr ip offset sz v s =
    if not (addr % pgsize == 0)
    then none
    else load_loop (sz / pgsize + 1) pgdir addr ip offset sz 0 v s

-- `uva2ka`: the page, 0 for the null pointer. It does not look whether `walkpgdir` has found a
-- page table; `null_word` is what stands at address 0, which it reads if not.
pub uva2ka : (null_word pgdir uva : ℕ) → Vm → ℕ
uva2ka null_word pgdir uva s =
    let pte = elim (walkpgdir pgdir uva false s).0 as (λ x. ℕ) [
      | none ↦ null_word
      | some (t, i) ↦ s.entry t i
    ] in
    if not (is_present pte) then 0 else if not (is_user pte) then 0 else table_of pte

-- `copyout`, of `len` bytes of `src` from `at` on; a round copies at least one byte. False is the
-- return of -1.
pub copyout_loop : ℕ → (null_word pgdir va : ℕ) (src : ℕ → ℕ) (at len : ℕ) → Vm → Bool × Vm
copyout_loop zero null_word pgdir va src at len s = (true, s)
copyout_loop (suc f) null_word pgdir va src at len s = elim (len == 0) [
  | true ↦ (true, s)
  | false ↦
      let va0 = pg_down va in
      let pa0 = uva2ka null_word pgdir va0 s in
      elim (pa0 == 0) [
        | true ↦ (false, s)
        | false ↦
            let room = pgsize - (va - va0) in
            let n = if ltb len room then len else room in
            copyout_loop f null_word pgdir ((va0 + pgsize) % 2 ^ 32) src (at + n) (len - n)
              (fill_page pa0 (va - va0) n (λ a. src (at + a)) s)
      ]
]

pub copyout : (null_word pgdir va : ℕ) (src : ℕ → ℕ) (len : ℕ) → Vm → Bool × Vm
copyout null_word pgdir va src len s = copyout_loop len null_word pgdir va src 0 len s
