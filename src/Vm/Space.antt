-- ===== src/Vm/Space.antt =====
-- The address spaces of xv6/vm.c: kernel maps, growing, shrinking, freeing and copying.
-- `end` and `kdata` (`data` in the source) are addresses of the linker. `none` is a panic, in a loop also too little fuel.
use a4team_os.Base.{
  ℕ, zero, suc, ◌+◌, ◌-◌, ◌*◌, ◌/◌, ◌%◌, ◌^◌, Bool, true, false, not, ◌==◌, ltb, leb, if◌then◌else◌,
  update, List, [], ◌∷◌, Option, none, some,
}
use a4team_os.Alloc.{freed, panic, kfree, kern_base, phys_top}
use a4team_os.Vm.{
  pgsize, pte_w, pte_u, pdx, pte_addr, pte_flags, is_present, v2p, p2v, page_up, Vm, take_page,
  zero_page, set_entry, table_of, walkpgdir, mappages, dev_space, ext_mem,
}

-- `kfree(v)`: the page is all ones, but for the `next` word at its start.
pub free_page : (end v : ℕ) → Vm → Option Vm
free_page end v s = elim (kfree end s.kmem v) [
  | panic ↦ none
  | freed k ↦ some (record {
    kmem = k;
    entry = update s.entry v (update (λ i. 0x01010101) 0 s.kmem.freelist);
    bytes = update s.bytes v (λ a. if ltb a 4 then s.kmem.freelist / 256 ^ a % 256 else 1);
  })
]

-- A round of `deallocuvm`: the address of the next one, before PGSIZE is added.
pub dealloc_page : (end pgdir a : ℕ) → Vm → Option (ℕ × Vm)
dealloc_page end pgdir a s =
    let (found, s') = walkpgdir pgdir a false s in
    elim found [
      | none ↦ some (((pdx a + 1) * 4194304 + 2 ^ 32 - pgsize) % 2 ^ 32, s')
      | some (t, i) ↦
          let e = s'.entry t i in
          if not (is_present e)
          then some (a, s')
          else if pte_addr e == 0
          then none
          else (elim (free_page end (p2v (pte_addr e)) s') [
            | none ↦ none
            | some s'' ↦ some (a, set_entry t i 0 s'')
          ])
    ]

pub dealloc_loop : ℕ → (end pgdir a oldsz : ℕ) → Vm → Option Vm
dealloc_loop zero end pgdir a oldsz s = none
dealloc_loop (suc f) end pgdir a oldsz s = elim (ltb a oldsz) [
  | false ↦ some s
  | true ↦ elim (dealloc_page end pgdir a s) [
    | none ↦ none
    | some (a', s') ↦ dealloc_loop f end pgdir ((a' + pgsize) % 2 ^ 32) oldsz s'
  ]
]

-- `deallocuvm`, with the new size.
pub deallocuvm : (end pgdir oldsz newsz : ℕ) → Vm → Option (ℕ × Vm)
deallocuvm end pgdir oldsz newsz s = elim (leb oldsz newsz) [
  | true ↦ some (oldsz, s)
  | false ↦ elim (dealloc_loop (oldsz / pgsize + 2) end pgdir (page_up newsz) oldsz s) [
    | none ↦ none
    | some s' ↦ some (newsz, s')
  ]
]

-- The loop of `freevm` over the entries of the page directory, from `i` on.
pub free_tables : ℕ → (end pgdir i : ℕ) → Vm → Option Vm
free_tables zero end pgdir i s = some s
free_tables (suc n) end pgdir i s = elim (is_present (s.entry pgdir i)) [
  | false ↦ free_tables n end pgdir (i + 1) s
  | true ↦ elim (free_page end (table_of (s.entry pgdir i)) s) [
    | none ↦ none
    | some s' ↦ free_tables n end pgdir (i + 1) s'
  ]
]

pub freevm : (end pgdir : ℕ) → Vm → Option Vm
freevm end pgdir s = if pgdir == 0 then none else (elim (deallocuvm end pgdir kern_base 0 s) [
  | none ↦ none
  | some (sz, s1) ↦ elim (free_tables 1024 end pgdir 0 s1) [
    | none ↦ none
    | some s2 ↦ free_page end pgdir s2
  ]
])

-- `struct kmap`, and the table of the kernel's mappings.
pub record Kmap : Type 0 where
  pub virt : ℕ
  pub phys_start : ℕ
  pub phys_end : ℕ
  pub perm : ℕ

abbrev pub kmap : (kdata : ℕ) → List Kmap
kmap kdata =
    record { virt = kern_base; phys_start = 0; phys_end = ext_mem; perm = pte_w }
    ∷ record {
      virt = kern_base + ext_mem;
      phys_start = v2p (kern_base + ext_mem);
      phys_end = v2p kdata;
      perm = 0;
    }
    ∷ record { virt = kdata; phys_start = v2p kdata; phys_end = phys_top; perm = pte_w }
    ∷ record { virt = dev_space; phys_start = dev_space; phys_end = 0; perm = pte_w }
    ∷ []

-- The loop of `setupkvm` over the rows of `kmap`; the page directory, 0 if memory runs out.
pub kvm_loop : List Kmap → (end pgdir : ℕ) → Vm → Option (ℕ × Vm)
kvm_loop [] end pgdir s = some (pgdir, s)
kvm_loop (k ∷ ks) end pgdir s =
    let size = (k.phys_end + 2 ^ 32 - k.phys_start) % 2 ^ 32 in
    elim (mappages pgdir k.virt size k.phys_start k.perm s) [
      | none ↦ none
      | some (true, s') ↦ kvm_loop ks end pgdir s'
      | some (false, s') ↦ elim (freevm end pgdir s') [ none ↦ none | some s'' ↦ some (0, s'') ]
    ]

pub setupkvm : (end kdata : ℕ) → Vm → Option (ℕ × Vm)
setupkvm end kdata s =
    let (pgdir, s1) = take_page s in
    if pgdir == 0
    then some (0, s1)
    else if ltb dev_space (p2v phys_top)
    then none
    else kvm_loop (kmap kdata) end pgdir (zero_page pgdir s1)

-- The loop of `allocuvm`; the new size, or 0 when memory runs out.
pub alloc_loop : ℕ → (end pgdir a oldsz newsz : ℕ) → Vm → Option (ℕ × Vm)
alloc_loop zero end pgdir a oldsz newsz s = none
alloc_loop (suc f) end pgdir a oldsz newsz s = elim (ltb a newsz) [
  | false ↦ some (newsz, s)
  | true ↦
      let (mem, s1) = take_page s in
      elim (mem == 0) [
        | true ↦ elim (deallocuvm end pgdir newsz oldsz s1) [
          | none ↦ none
          | some (sz, s2) ↦ some (0, s2)
        ]
        | false ↦ elim (mappages pgdir a pgsize (v2p mem) (pte_w + pte_u) (zero_page mem s1)) [
          | none ↦ none
          | some (true, s2) ↦ alloc_loop f end pgdir ((a + pgsize) % 2 ^ 32) oldsz newsz s2
          | some (false, s2) ↦ elim (deallocuvm end pgdir newsz oldsz s2) [
            | none ↦ none
            | some (sz, s3) ↦ elim (free_page end mem s3) [ none ↦ none | some s4 ↦ some (0, s4) ]
          ]
        ]
      ]
]

pub allocuvm : (end pgdir oldsz newsz : ℕ) → Vm → Option (ℕ × Vm)
allocuvm end pgdir oldsz newsz s =
    if leb kern_base newsz
    then some (0, s)
    else if ltb newsz oldsz
    then some (oldsz, s)
    else alloc_loop (newsz / pgsize + 2) end pgdir (page_up oldsz) oldsz newsz s

-- What the label `bad` of `copyuvm` does.
pub copy_bad : (end d : ℕ) → Vm → Option (ℕ × Vm)
copy_bad end d s = elim (freevm end d s) [ none ↦ none | some s' ↦ some (0, s') ]

-- A round of `copyuvm` at `i`, with the entry that `walkpgdir` has found; false is the jump to
-- `bad`.
pub copy_page : (end d i e : ℕ) → Vm → Option (Bool × Vm)
copy_page end d i e s =
    if not (is_present e)
    then none
    else (let (mem, s1) = take_page s in
        if mem == 0
        then some (false, s1)
        else (let s2 : Vm = record s1 {
          bytes = update s1.bytes mem (s1.bytes (p2v (pte_addr e)));
        } in
            elim (mappages d i pgsize (v2p mem) (pte_flags e) s2) [
              | none ↦ none
              | some (true, s3) ↦ some (true, s3)
              | some (false, s3) ↦ elim (free_page end mem s3) [
                | none ↦ none
                | some s4 ↦ some (false, s4)
              ]
            ]))

pub copy_loop : ℕ → (end d pgdir i sz : ℕ) → Vm → Option (ℕ × Vm)
copy_loop zero end d pgdir i sz s = none
copy_loop (suc f) end d pgdir i sz s = elim (ltb i sz) [
  | false ↦ some (d, s)
  | true ↦
      let (found, s') = walkpgdir pgdir i false s in
      elim found [
        | none ↦ none
        | some (t, j) ↦ elim (copy_page end d i (s'.entry t j) s') [
          | none ↦ none
          | some (false, s'') ↦ copy_bad end d s''
          | some (true, s'') ↦ copy_loop f end d pgdir ((i + pgsize) % 2 ^ 32) sz s''
        ]
      ]
]

-- `copyuvm`: the new page directory, 0 if memory runs out.
pub copyuvm : (end kdata pgdir sz : ℕ) → Vm → Option (ℕ × Vm)
copyuvm end kdata pgdir sz s = elim (setupkvm end kdata s) [
  | none ↦ none
  | some (d, s') ↦ if d == 0 then some (0, s') else copy_loop (sz / pgsize + 2) end d pgdir 0 sz s'
]
