-- ===== src/Vm/Map.antt =====
-- What `mappages` of xv6/vm.c does to the translation of addresses.
use a4team_os.Base.{
  ℕ, zero, suc, ◌+◌, ◌-◌, ◌*◌, ◌/◌, ◌%◌, ◌^◌, ◌≤◌, ◌<◌, ◌≡◌, refl, Bool, true, false, update, arith,
  List, Option, none, some, sym, ◌∙◌, ap, Bool-cases, ltb, inl, inr,
}
use Prim.Native.Nat.{bit_or}
use mathlib.Core.Path.{subst}
use a4team_os.Vm.{
  pgsize, pte_p, pdx, ptx, is_present, Vm, set_entry, table_of, walkpgdir, map_found, map_page,
  map_loop, mappages, pg_down,
}
use a4team_os.Vm.Walk.{pte, IsSpace, set_entry-IsSpace, Walked, walkpgdir_lem}

cell_same :
    (f : ℕ → ℕ → ℕ) (p x v t i : ℕ)
    → ¬ ((t ≡ p) × (i ≡ x))
    → update f p (update (f p) x v) t i ≡ f t i
cell_same f p x v t i n = ground arith

cell_here : (f : ℕ → ℕ → ℕ) (p x v : ℕ) → update f p (update (f p) x v) p x ≡ v
cell_here f p x v = ground arith

-- The entry of `va` is written: every address of the page is translated by it, no other is.
module _ (end pgdir va e : ℕ) (ps : List ℕ) (s : Vm) (fits : va < 2 ^ 32)
    (ok : IsSpace end pgdir ps s) (on : is_present (s.entry pgdir (pdx va)) ≡ true) where
  abbrev set_pte : Vm
  set_pte = set_entry (table_of (s.entry pgdir (pdx va))) (ptx va) e s

  dir_same : (i : ℕ) → set_pte.entry pgdir i ≡ s.entry pgdir i
  unfolding set_entry
  dir_same i = let (h, n) = ok.table_out (pdx va) (omega arith) on in ground arith

  entry_same :
      (t i : ℕ)
      → ¬ ((t ≡ table_of (s.entry pgdir (pdx va))) × (i ≡ ptx va))
      → set_pte.entry t i ≡ s.entry t i
  unfolding set_entry
  entry_same t i n = cell_same s.entry _ _ e t i n

  entry_here : set_pte.entry (table_of (s.entry pgdir (pdx va))) (ptx va) ≡ e
  unfolding set_entry
  entry_here = cell_here s.entry (table_of (s.entry pgdir (pdx va))) (ptx va) e

  pte-set_pte : (a : ℕ) → a < 2 ^ 32 → a / pgsize ≡ va / pgsize → pte set_pte pgdir a ≡ e
  pte-set_pte a lt q =
      let d : pdx a ≡ pdx va = omega arith in
      let x : ptx a ≡ ptx va = omega arith in rw (d, x, dir_same (pdx va), on) entry_here

  pte-set_pte_other :
      (a : ℕ) → a < 2 ^ 32 → ¬ (a / pgsize ≡ va / pgsize) → pte set_pte pgdir a ≡ pte s pgdir a
  pte-set_pte_other a lt q =
      rw (dir_same (pdx a)) (elim (Bool-cases (is_present (s.entry pgdir (pdx a)))) [
        | inr off ↦ rw off refl
        | inl on' ↦ rw on' (
            entry_same _ (ptx a) (λ (t, x).
              let d = ok.apart (pdx a) (pdx va) (omega arith) (omega arith) on' on t in
              q (omega arith)))
      ])

-- What mapping `n` pages from number `first` on at the physical pages from `pa` on has done to the
-- translation, by the result `done`.
abbrev pub IsMapping : (pgdir first n pa perm : ℕ) → Vm → (done : Bool) → Vm → Type 0
IsMapping pgdir first n pa perm s done s' =
    ((x : ℕ)
      → x < 2 ^ 32
      → ¬ ((first ≤ x / pgsize) × (x / pgsize < first + n))
      → pte s' pgdir x ≡ pte s pgdir x)
    × (done ≡ true
        → (x : ℕ) → x < 2 ^ 32
        → first ≤ x / pgsize
        → x / pgsize < first + n
        → pte s' pgdir x
          ≡ bit_or (bit_or ((pa + (x / pgsize - first) * pgsize) % 2 ^ 32) perm) pte_p)
    × (done ≡ false → s'.kmem.freelist ≡ 0)

abbrev IsUnmapped : (pgdir a n : ℕ) → Vm → Type 0
IsUnmapped pgdir a n s =
    (x : ℕ)
    → x < 2 ^ 32
    → a / pgsize ≤ x / pgsize
    → x / pgsize < a / pgsize + n
    → is_present (pte s pgdir x) ≡ false

page_full :
    (pgdir a pa perm : ℕ) (s s' : Vm)
    → walkpgdir pgdir a true s ≡ (none, s')
    → map_page pgdir a pa perm s ≡ some (false, s')
unfolding map_page map_found
page_full pgdir a pa perm s s' e = ap (map_found pa perm) e

page_done :
    (pgdir a pa perm t i : ℕ) (s s' : Vm)
    → walkpgdir pgdir a true s ≡ (some (t, i), s')
    → is_present (s'.entry t i) ≡ false
    → map_page pgdir a pa perm s ≡ some (true, set_entry t i (bit_or (bit_or pa perm) pte_p) s')
unfolding map_page map_found
page_done pgdir a pa perm t i s s' e off = ap (map_found pa perm) e ∙ rw off refl

abbrev PageMapped : (end pgdir a pa perm : ℕ) → Vm → Type 0
PageMapped end pgdir a pa perm s =
    (done : Bool) × (s' : Vm) × (map_page pgdir a pa perm s ≡ some (done, s'))
    × ((ps : List ℕ) × IsSpace end pgdir ps s')
    × IsMapping pgdir (a / pgsize) 1 pa perm s done s'

map-Walked :
    (end pgdir a pa perm : ℕ) (s s' : Vm) (found : Option (ℕ × ℕ))
    → walkpgdir pgdir a true s ≡ (found, s')
    → a < 2 ^ 32
    → pa < 2 ^ 32
    → is_present (pte s pgdir a) ≡ false
    → Walked end pgdir a s found s'
    → PageMapped end pgdir a pa perm s
map-Walked end pgdir a pa perm s s' none e la lp off (full, ok, same) = (
  false,
  s',
  page_full pgdir a pa perm s s' e,
  ok,
  ((λ x lx out. same x), (λ d. absurd (ground arith)), λ d. full),
)
map-Walked end pgdir a pa perm s s' (some (t, i)) e la lp off (ei, et, on, (ps, ok), same) =
    let v = bit_or (bit_or pa perm) pte_p in
    let (h, n) = ok.table_out (pdx a) (omega arith) on in
    let cell : set_entry t i v s' ≡ set_pte end pgdir a v ps s' la ok on = rw (et, ei) refl in
    let here : pte s' pgdir a ≡ s'.entry (table_of (s'.entry pgdir (pdx a))) (ptx a) = rw on refl in
    let free_cell : is_present (s'.entry t i) ≡ false = rw (et, ei, sym here, same a) off in
    (
      true,
      set_entry t i v s',
      page_done pgdir a pa perm t i s s' e free_cell,
      (ps, set_entry-IsSpace s' t i v (rw et n) ok),
      (
        rw cell (λ x lx out.
            pte-set_pte_other end pgdir a v ps s' la ok on x lx
              (λ q. out (omega arith, omega arith))
            ∙ same x),
        rw cell (λ d x lx lo hi.
            pte-set_pte end pgdir a v ps s' la ok on x lx (omega arith)
            ∙ (let q : (pa + (x / pgsize - a / pgsize) * pgsize) % 2 ^ 32 ≡ pa = omega arith in
                rw q refl)),
        λ d. absurd (ground arith),
      ),
    )

page_mapped :
    (end pgdir a pa perm : ℕ) (ps : List ℕ) (s : Vm)
    → a < 2 ^ 32
    → pa < 2 ^ 32
    → IsSpace end pgdir ps s
    → is_present (pte s pgdir a) ≡ false
    → PageMapped end pgdir a pa perm s
page_mapped end pgdir a pa perm ps s la lp ok off =
    let (found, s') = walkpgdir pgdir a true s in
    map-Walked end pgdir a pa perm s s' found refl la lp off (walkpgdir_lem end pgdir a ps s ok)

loop_failed :
    (n pgdir a pa perm : ℕ) (s s' : Vm)
    → map_page pgdir a pa perm s ≡ some (false, s')
    → map_loop (suc n) pgdir a pa perm s ≡ some (false, s')
unfolding map_loop
loop_failed n pgdir a pa perm s s' e = rw (e, map_loop) refl

loop_next :
    (n pgdir a pa perm : ℕ) (s s' : Vm)
    → map_page pgdir a pa perm s ≡ some (true, s')
    → map_loop (suc n) pgdir a pa perm s
      ≡ map_loop n pgdir ((a + pgsize) % 2 ^ 32) ((pa + pgsize) % 2 ^ 32) perm s'
unfolding map_loop
loop_next n pgdir a pa perm s s' e = rw (e, map_loop) refl

-- A page is mapped, then the `n` after it.
IsMapping-next :
    (n pgdir a pa perm : ℕ) (done : Bool) (s s' s'' : Vm)
    → a < 2 ^ 32
    → pa < 2 ^ 32
    → a + suc n * pgsize ≤ 2 ^ 32
    → IsMapping pgdir (a / pgsize) 1 pa perm s true s'
    → IsMapping pgdir ((a + pgsize) % 2 ^ 32 / pgsize) n ((pa + pgsize) % 2 ^ 32) perm s' done s''
    → IsMapping pgdir (a / pgsize) (suc n) pa perm s done s''
IsMapping-next n pgdir a pa perm done s s' s'' la lp fits (same, on, full) (same', on', full') = (
  (λ x lx out.
      same' x lx (λ (l, h). out (omega arith, omega arith))
      ∙ same x lx (λ (l, h). out (omega arith, omega arith))),
  (λ d x lx lo hi. elim (Bool-cases (ltb (a / pgsize) (x / pgsize))) [
    | inl after ↦
        let h : a / pgsize < x / pgsize = ground arith in
        let q : ((pa + pgsize) % 2 ^ 32 + (x / pgsize - (a + pgsize) % 2 ^ 32 / pgsize) * pgsize)
              % 2 ^ 32
            ≡ (pa + (x / pgsize - a / pgsize) * pgsize) % 2 ^ 32 =
          omega arith in
        on' d x lx (omega arith) (omega arith) ∙ rw q refl
    | inr here ↦
        let h : x / pgsize ≡ a / pgsize = ground arith in
        same' x lx (λ (l, h'). absurd (omega arith)) ∙ on refl x lx lo (omega arith)
  ]),
  full',
)

map_loop_lem :
    (n end pgdir a pa perm : ℕ) (ps : List ℕ) (s : Vm)
    → a < 2 ^ 32
    → pa < 2 ^ 32
    → a + n * pgsize ≤ 2 ^ 32
    → IsSpace end pgdir ps s
    → IsUnmapped pgdir a n s
    → (done : Bool) × (s' : Vm) × (map_loop n pgdir a pa perm s ≡ some (done, s'))
      × ((qs : List ℕ) × IsSpace end pgdir qs s')
      × IsMapping pgdir (a / pgsize) n pa perm s done s'
unfolding map_loop
map_loop_lem zero end pgdir a pa perm ps s la lp fits ok off = (
  true,
  s,
  refl,
  (ps, ok),
  ((λ x lx out. refl), (λ d x lx lo hi. absurd (omega arith)), λ d. absurd (ground arith)),
)
map_loop_lem (suc n) end pgdir a pa perm ps s la lp fits ok off =
    let (done, s', e, (qs, ok'), m) =
      page_mapped end pgdir a pa perm ps s la lp ok (off a la (omega arith) (omega arith)) in
    elim done
        as (λ b.
          map_page pgdir a pa perm s ≡ some (b, s')
          → IsMapping pgdir (a / pgsize) 1 pa perm s b s'
          → (done : Bool) × (s' : Vm) × (map_loop (suc n) pgdir a pa perm s ≡ some (done, s'))
            × ((qs : List ℕ) × IsSpace end pgdir qs s')
            × IsMapping pgdir (a / pgsize) (suc n) pa perm s done s') [
              | false ↦ λ e (same, on, full). (
                false,
                s',
                loop_failed n pgdir a pa perm s s' e,
                (qs, ok'),
                (
                  (λ x lx out. same x lx (λ (lo, hi). out (lo, omega arith))),
                  (λ d. absurd (ground arith)),
                  full,
                ),
              )
              | true ↦ λ e (same, on, full).
                  let (done', s'', e', ok'', m') =
                    map_loop_lem n end pgdir ((a + pgsize) % 2 ^ 32) ((pa + pgsize) % 2 ^ 32) perm
                      qs s' (omega arith) (omega arith) (omega arith) ok'
                      (λ x lx lo hi.
                        rw (same x lx (λ (l, h). absurd (omega arith)))
                          (off x lx (omega arith) (omega arith))) in
                  (
                    done',
                    s'',
                    loop_next n pgdir a pa perm s s' e ∙ e',
                    ok'',
                    IsMapping-next n pgdir a pa perm done' s s' s'' la lp fits (same, on, full) m',
                  )
            ]
      e m

-- `mappages`, for a range that does not wrap and none of whose pages is mapped, in page tables that
-- are distinct pages off the free list: it does not panic and keeps the page tables so; no address
-- outside of the pages of the range is translated differently. When it returns 0, the pages of the
-- range are translated to consecutive physical pages from `pa` on, with the permissions and PTE_P;
-- when it returns -1, the free list is empty.
pub mappages_lem :
    (end pgdir va size pa perm : ℕ) (ps : List ℕ) (s : Vm)
    → 0 < size
    → va + size ≤ 2 ^ 32
    → pa < 2 ^ 32
    → IsSpace end pgdir ps s
    → let n = (va + size - 1) / pgsize - va / pgsize + 1 in
      ((x : ℕ)
        → x < 2 ^ 32
        → va / pgsize ≤ x / pgsize
        → x / pgsize < va / pgsize + n
        → is_present (pte s pgdir x) ≡ false)
      → (done : Bool) × (s' : Vm) × (mappages pgdir va size pa perm s ≡ some (done, s'))
        × ((qs : List ℕ) × IsSpace end pgdir qs s')
        × IsMapping pgdir (va / pgsize) n pa perm s done s'
unfolding mappages
mappages_lem end pgdir va size pa perm ps s pos_size fits lp ok off =
    let n = (va + size - 1) / pgsize - va / pgsize + 1 in
    let a = pg_down va in
    let q : a / pgsize ≡ va / pgsize = omega arith in
    let rounds : (pg_down ((va + size + 2 ^ 32 - 1) % 2 ^ 32) + 2 ^ 32 - a) % 2 ^ 32 / pgsize + 1
        ≡ n =
      omega arith in
    let (done, s', e, ok', m) =
      map_loop_lem n end pgdir a pa perm ps s (omega arith) lp (omega arith) ok
        (λ x lx lo hi. off x lx (omega arith) (omega arith)) in
    (
      done,
      s',
      ap (λ k. map_loop k pgdir a pa perm s) rounds ∙ e,
      ok',
      subst (λ k. IsMapping pgdir k n pa perm s done s') q m,
    )
