-- ===== src/Vm/Walk.antt =====
-- The page tables of xv6/vm.c as a translation of addresses, and what `walkpgdir` does to it.
use a4team_os.Base.{
  ℕ, ◌+◌, ◌<◌, ◌≡◌, refl, Bool, true, false, ◌==◌, if◌then◌else◌, update, arith, List, [], ◌∷◌,
  Option, none, some, sym, ◌⊎◌, inl, inr, ◌∙◌, Bool-cases,
}
use Prim.Native.Nat.{bit_or}
use a4team_os.Alloc.{kalloc}
use a4team_os.Alloc.FreeList.{has, IsPage, IsFreeList, kalloc-cons, kalloc-nil, uncons, null_of_nil}
use a4team_os.Vm.{
  pdx, ptx, is_present, v2p, Vm, take_page, zero_page, set_entry, table_of, walkpgdir,
}
use a4team_os.Vm.Bits.{bit_or_flags}

-- The entry that the page tables hold for an address, 0 if there is no table for it.
abbrev pub pte : Vm → (pgdir va : ℕ) → ℕ
pte s pgdir va =
    let e = s.entry pgdir (pdx va) in if is_present e then s.entry (table_of e) (ptx va) else 0

-- The free list is that of the pages `ps`; the page directory and the tables its entries name are
-- no pages of it, and all of them are distinct.
pub record IsSpace (end pgdir : ℕ) (ps : List ℕ) (s : Vm) : Type 0 where
  pub free : IsFreeList end s.kmem ps
  pub dir_out : has pgdir ps ≡ false
  pub table_out :
      (i : ℕ)
      → i < 1024
      → is_present (s.entry pgdir i) ≡ true
      → (has (table_of (s.entry pgdir i)) ps ≡ false) × ¬ (table_of (s.entry pgdir i) ≡ pgdir)
  pub apart :
      (i j : ℕ)
      → i < 1024
      → j < 1024
      → is_present (s.entry pgdir i) ≡ true
      → is_present (s.entry pgdir j) ≡ true
      → table_of (s.entry pgdir i) ≡ table_of (s.entry pgdir j)
      → i ≡ j

-- The entry of a page directory for the new table `p`.
abbrev table_entry : ℕ → ℕ
table_entry p = bit_or (v2p p) 7

table_entry_lem :
    {end : ℕ} (p : ℕ)
    → IsPage end p
    → (is_present (table_entry p) ≡ true) × (table_of (table_entry p) ≡ p)
table_entry_lem p (al, pos_p, low, lo, hi) =
    let e : table_entry p ≡ v2p p + 7 = bit_or_flags (v2p p) 7 (omega arith) (omega arith) in
    rw e (ground arith, omega arith)

-- An entry of a table, not of the page directory, is written.
pub set_entry-IsSpace :
    {end pgdir : ℕ} {ps : List ℕ} (s : Vm) (t i e : ℕ)
    → ¬ (t ≡ pgdir)
    → IsSpace end pgdir ps s
    → IsSpace end pgdir ps (set_entry t i e s)
unfolding set_entry
set_entry-IsSpace {pgdir = pgdir} s t i e ne ok =
    let same : update s.entry t (update (s.entry t) i e) pgdir ≡ s.entry pgdir = ground arith in
    record {
      free = ok.free;
      dir_out = ok.dir_out;
      table_out = rw same ok.table_out;
      apart = rw same ok.apart;
    }

-- What a walk with `alloc` set has done to `s`, by its result.
abbrev pub Walked : (end pgdir va : ℕ) → Vm → Option (ℕ × ℕ) → Vm → Type 0
Walked end pgdir va s none s' =
    (s'.kmem.freelist ≡ 0)
    × ((ps : List ℕ) × IsSpace end pgdir ps s')
    × ((a : ℕ) → pte s' pgdir a ≡ pte s pgdir a)
Walked end pgdir va s (some (t, i)) s' =
    (i ≡ ptx va)
    × (t ≡ table_of (s'.entry pgdir (pdx va)))
    × (is_present (s'.entry pgdir (pdx va)) ≡ true)
    × ((ps : List ℕ) × IsSpace end pgdir ps s')
    × ((a : ℕ) → pte s' pgdir a ≡ pte s pgdir a)

-- The state in which the page `p` has become the table of the entry `d`.
abbrev with_table : (pgdir d p : ℕ) → Vm → Vm
with_table pgdir d p s = set_entry pgdir d (table_entry p) (zero_page p (take_page s).1)

module _ (end pgdir d p : ℕ) (ps : List ℕ) (s : Vm) (ok : IsSpace end pgdir (p ∷ ps) s) where
  dir_ne : ¬ (pgdir ≡ p)
  dir_ne e = let out = ok.dir_out in ground arith

  dir_entry :
      (i : ℕ)
      → (with_table pgdir d p s).entry pgdir i ≡ (if i == d then table_entry p else s.entry pgdir i)
  unfolding set_entry zero_page take_page
  dir_entry i = let ne = dir_ne in ground arith

  old_entry :
      (t i : ℕ) → ¬ (t ≡ pgdir) → ¬ (t ≡ p) → (with_table pgdir d p s).entry t i ≡ s.entry t i
  unfolding set_entry zero_page take_page
  old_entry t i n m = ground arith

  new_entry : (i : ℕ) → (with_table pgdir d p s).entry p i ≡ 0
  unfolding set_entry zero_page take_page
  new_entry i = let ne = dir_ne in ground arith

  slot_cases :
      (i : ℕ)
      → ((i ≡ d) × ((with_table pgdir d p s).entry pgdir i ≡ table_entry p))
        ⊎ ((with_table pgdir d p s).entry pgdir i ≡ s.entry pgdir i)
  slot_cases i =
      let e = dir_entry i in
      elim (Bool-cases (i == d)) [
        | inl y ↦ inl (ground arith, ground arith)
        | inr n ↦ inr (ground arith)
      ]

  module _ (isp : IsPage end p) (rest : IsFreeList end (take_page s).1.kmem ps)
      (out : has p ps ≡ false) where
    dir_new : (with_table pgdir d p s).entry pgdir d ≡ table_entry p
    dir_new = let e = dir_entry d in ground arith

    with_table_out :
        (i : ℕ)
        → i < 1024
        → is_present ((with_table pgdir d p s).entry pgdir i) ≡ true
        → (has (table_of ((with_table pgdir d p s).entry pgdir i)) ps ≡ false)
          × ¬ (table_of ((with_table pgdir d p s).entry pgdir i) ≡ pgdir)
    with_table_out i lt =
        let (pr, tb) = table_entry_lem p isp in
        rw (dir_entry i)
          (elim (i == d)
            as (λ b.
              is_present (if b then table_entry p else s.entry pgdir i) ≡ true
              → (has (table_of (if b then table_entry p else s.entry pgdir i)) ps ≡ false)
                × ¬ (table_of (if b then table_entry p else s.entry pgdir i) ≡ pgdir)) [
                  | true ↦ λ on. rw tb (out, λ e. dir_ne (sym e))
                  | false ↦ λ on. let (a, b) = ok.table_out i lt on in (ground arith, b)
                ])

    with_table_apart :
        (i j : ℕ)
        → i < 1024
        → j < 1024
        → is_present ((with_table pgdir d p s).entry pgdir i) ≡ true
        → is_present ((with_table pgdir d p s).entry pgdir j) ≡ true
        → table_of ((with_table pgdir d p s).entry pgdir i)
          ≡ table_of ((with_table pgdir d p s).entry pgdir j)
        → i ≡ j
    with_table_apart i j li lj =
        let (pr, tb) = table_entry_lem p isp in
        elim (slot_cases i) [
          | inl (ei, qi) ↦ elim (slot_cases j) [
            | inl (ej, qj) ↦ λ on on' e. ei ∙ sym ej
            | inr qj ↦
                rw (qi, qj, tb)
                  (λ on on' e. let (h, n) = ok.table_out j lj on' in absurd (ground arith))
          ]
          | inr qi ↦ elim (slot_cases j) [
            | inl (ej, qj) ↦
                rw (qi, qj, tb)
                  (λ on on' e. let (h, n) = ok.table_out i li on in absurd (ground arith))
            | inr qj ↦ rw (qi, qj) (ok.apart i j li lj)
          ]
        ]

    with_table_free : IsFreeList end (with_table pgdir d p s).kmem ps
    unfolding set_entry zero_page
    with_table_free = rest

    with_table-IsSpace : IsSpace end pgdir ps (with_table pgdir d p s)
    with_table-IsSpace = record {
      free = with_table_free;
      dir_out = let o = ok.dir_out in ground arith;
      table_out = with_table_out;
      apart = with_table_apart;
    }

    with_table-pte :
        (a : ℕ)
        → is_present (s.entry pgdir d) ≡ false
        → pte (with_table pgdir d p s) pgdir a ≡ pte s pgdir a
    with_table-pte a off =
        let (pr, tb) = table_entry_lem p isp in
        elim (slot_cases (pdx a)) [
          | inl (e, q) ↦ rw (q, pr, tb, new_entry (ptx a), e, off) refl
          | inr q ↦ rw q (elim (Bool-cases (is_present (s.entry pgdir (pdx a)))) [
            | inl on ↦
                let (h, n) = ok.table_out (pdx a) (omega arith) on in
                rw on (old_entry _ (ptx a) n (λ e. let h' = h in ground arith))
            | inr off' ↦ rw off' refl
          ])
        ]

-- The walk that finds a table is for nothing.
pub walk_present :
    (pgdir va : ℕ) (alloc : Bool) (s : Vm)
    → is_present (s.entry pgdir (pdx va)) ≡ true
    → walkpgdir pgdir va alloc s ≡ (some (table_of (s.entry pgdir (pdx va)), ptx va), s)
unfolding walkpgdir
walk_present pgdir va alloc s on = rw on refl

walk_absent :
    (pgdir va p : ℕ) (s : Vm)
    → is_present (s.entry pgdir (pdx va)) ≡ false
    → (kalloc s.kmem).0 ≡ p
    → (p == 0) ≡ false
    → walkpgdir pgdir va true s ≡ (some (p, ptx va), with_table pgdir (pdx va) p s)
unfolding walkpgdir take_page
walk_absent pgdir va p s off e nz = rw (off, e, nz) refl

walk_none :
    (pgdir va : ℕ) (s : Vm)
    → is_present (s.entry pgdir (pdx va)) ≡ false
    → kalloc s.kmem ≡ (0, s.kmem)
    → walkpgdir pgdir va true s ≡ (none, s)
unfolding walkpgdir take_page
walk_none pgdir va s off e = rw (off, e) refl

walk_new :
    (end pgdir va : ℕ) (ps : List ℕ) (s : Vm)
    → IsSpace end pgdir ps s
    → is_present (s.entry pgdir (pdx va)) ≡ false
    → let (found, s') = walkpgdir pgdir va true s in Walked end pgdir va s found s'
unfolding take_page
walk_new end pgdir va [] s ok off =
    let e = kalloc-nil end s.kmem ok.free in
    rw (walk_none pgdir va s off e) (null_of_nil ok.free, ([], ok), λ a. refl)
walk_new end pgdir va (p ∷ ps) s ok off =
    let (e, rest, out) = kalloc-cons end s.kmem ok.free in
    let (e', isp, out', c) = uncons ok.free in
    let d = pdx va in
    let (pr, tb) = table_entry_lem p isp in
    let entry = dir_new end pgdir d p ps s ok isp rest out in
    let some_page : (p == 0) ≡ false = ground arith in
    rw (walk_absent pgdir va p s off e some_page) (
      refl,
      rw entry (sym tb),
      rw entry pr,
      (ps, with_table-IsSpace end pgdir d p ps s ok isp rest out),
      λ a. with_table-pte end pgdir d p ps s ok isp rest out a off,
    )

pub walkpgdir_lem :
    (end pgdir va : ℕ) (ps : List ℕ) (s : Vm)
    → IsSpace end pgdir ps s
    → let (found, s') = walkpgdir pgdir va true s in Walked end pgdir va s found s'
walkpgdir_lem end pgdir va ps s ok = elim (Bool-cases (is_present (s.entry pgdir (pdx va)))) [
  | inl on ↦ rw (walk_present pgdir va true s on) (refl, refl, on, (ps, ok), λ a. refl)
  | inr off ↦ walk_new end pgdir va ps s ok off
]
