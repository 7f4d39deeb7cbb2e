-- ===== src/Vm.antt =====
-- Model of xv6/vm.c with the macros of xv6/mmu.h: page directories, page tables and user memory.
-- A page is named by its kernel address. It is used in one of two ways, each a field of the record
-- Vm: as 1024 entries of a table, or as 4096 bytes. `none` is a panic.
pub mod Bits
pub mod Space
pub mod Copy
pub mod Walk
pub mod Map
use Prim.Native.Nat.{bit_or}
use a4team_os.Base.{
  ℕ, zero, suc, ◌+◌, ◌-◌, ◌*◌, ◌/◌, ◌%◌, ◌^◌, Bool, true, false, not, ◌&&◌, ◌||◌, ◌==◌, ltb, leb,
  if◌then◌else◌, update, List, [], ◌∷◌, Option, none, some, ℤ, pos, negsuc,
}
use a4team_os.Alloc.{Kmem, KfreeResult, freed, panic, kfree, kalloc, kern_base, phys_top}
use a4team_os.Proc.{for_each}
use a4team_os.Fs.{Inode, Volume, blit}
use a4team_os.Fs.Content.{readi_file}

abbrev pub pgsize : ℕ
pgsize = 4096

abbrev pub pte_p : ℕ
pte_p = 1

abbrev pub pte_w : ℕ
pte_w = 2

abbrev pub pte_u : ℕ
pte_u = 4

-- `PDX`, `PTX`, `PTE_ADDR`, `PTE_FLAGS`, and the tests `e & PTE_P` and `e & PTE_U`.
abbrev pub pdx : ℕ → ℕ
pdx va = va / 4194304 % 1024

abbrev pub ptx : ℕ → ℕ
ptx va = va / 4096 % 1024

abbrev pub pte_addr : ℕ → ℕ
pte_addr e = e / 4096 * 4096

abbrev pub pte_flags : ℕ → ℕ
pte_flags e = e % 4096

abbrev pub is_present : ℕ → Bool
is_present e = e % 2 == 1

abbrev pub is_user : ℕ → Bool
is_user e = e / 4 % 2 == 1

-- `V2P` and `P2V`, and `PGROUNDDOWN` and `PGROUNDUP`, on 32-bit addresses.
abbrev pub v2p : ℕ → ℕ
v2p a = (a + 2 ^ 32 - kern_base) % 2 ^ 32

abbrev pub p2v : ℕ → ℕ
p2v a = (a + kern_base) % 2 ^ 32

abbrev pub pg_down : ℕ → ℕ
pg_down a = a / pgsize * pgsize

abbrev pub page_up : ℕ → ℕ
page_up a = (a + pgsize - 1) % 2 ^ 32 / pgsize * pgsize

-- `DEVSPACE` and `EXTMEM` of memlayout.h.
abbrev pub dev_space : ℕ
dev_space = 0xFE000000

abbrev pub ext_mem : ℕ
ext_mem = 0x100000

pub record Vm : Type 0 where
  pub kmem : Kmem
  pub entry : (page i : ℕ) → ℕ
  pub bytes : (page a : ℕ) → ℕ

pub take_page : Vm → ℕ × Vm
take_page s = let (p, k) = kalloc s.kmem in (p, record s { kmem = k })

-- `memset(page, 0, PGSIZE)`
pub zero_page : (page : ℕ) → Vm → Vm
zero_page p s = record s { entry = update s.entry p (λ i. 0); bytes = update s.bytes p (λ a. 0) }

pub set_entry : (page i e : ℕ) → Vm → Vm
set_entry p i e s = record s { entry = update s.entry p (update (s.entry p) i e) }

-- The table that an entry of a page directory names.
abbrev pub table_of : ℕ → ℕ
table_of e = p2v (pte_addr e)

-- `walkpgdir`: the page table and the index in it, none for the null pointer.
pub walkpgdir : (pgdir va : ℕ) (alloc : Bool) → Vm → Option (ℕ × ℕ) × Vm
walkpgdir pgdir va alloc s =
    let e = s.entry pgdir (pdx va) in
    if is_present e
    then (some (table_of e, ptx va), s)
    else if not alloc
    then (none, s)
    else (let (p, s1) = take_page s in
        if p == 0 then (none, s1) else (
          some (p, ptx va),
          set_entry pgdir (pdx va) (bit_or (v2p p) (pte_p + pte_w + pte_u)) (zero_page p s1),
        ))

-- A round of `mappages`, after the walk; false is the return of -1.
pub map_found : (pa perm : ℕ) → Option (ℕ × ℕ) × Vm → Option (Bool × Vm)
map_found pa perm (none, s) = some (false, s)
map_found pa perm (some (t, i), s) =
    if is_present (s.entry t i)
    then none
    else some (true, set_entry t i (bit_or (bit_or pa perm) pte_p) s)

pub map_page : (pgdir a pa perm : ℕ) → Vm → Option (Bool × Vm)
map_page pgdir a pa perm s = map_found pa perm (walkpgdir pgdir a true s)

-- The loop of `mappages`, for `n` pages.
pub map_loop : ℕ → (pgdir a pa perm : ℕ) → Vm → Option (Bool × Vm)
map_loop zero pgdir a pa perm s = some (true, s)
map_loop (suc n) pgdir a pa perm s = elim (map_page pgdir a pa perm s) [
  | none ↦ none
  | some (false, s') ↦ some (false, s')
  | some (true, s') ↦ map_loop n pgdir ((a + pgsize) % 2 ^ 32) ((pa + pgsize) % 2 ^ 32) perm s'
]

-- `mappages`; `a` meets `last` in the round after as many as there are pages between them.
pub mappages : (pgdir va size pa perm : ℕ) → Vm → Option (Bool × Vm)
mappages pgdir va size pa perm s =
    let a = pg_down va in
    let last = pg_down ((va + size + 2 ^ 32 - 1) % 2 ^ 32) in
    map_loop ((last + 2 ^ 32 - a) % 2 ^ 32 / pgsize + 1) pgdir a pa perm s

-- `*pte &= ~PTE_U`
pub clearpteu : (pgdir uva : ℕ) → Vm → Option Vm
clearpteu pgdir uva s =
    let (found, s') = walkpgdir pgdir uva false s in
    elim found [
      | none ↦ none
      | some (t, i) ↦
          let e = s'.entry t i in some (set_entry t i (if is_user e then e - pte_u else e) s')
    ]
