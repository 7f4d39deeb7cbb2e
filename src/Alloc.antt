-- ===== src/Alloc.antt =====
-- Model of xv6/kalloc.c: the free list of physical pages, threaded through the pages themselves.
-- `kmem.lock` makes a call one step, so it and `use_lock` are left out of the state.
pub mod FreeList
use a4team_os.Base.{
  ℕ, zero, suc, ◌+◌, ◌-◌, ◌*◌, ◌/◌, ◌%◌, ◌^◌, Bool, true, false, not, ◌&&◌, ◌||◌, ◌==◌, ltb, leb,
  if◌then◌else◌, update, Option, none, some,
}

abbrev pub pg_size : ℕ
pg_size = 4096

-- `KERNBASE` and `PHYSTOP` of memlayout.h.
abbrev pub kern_base : ℕ
kern_base = 0x80000000

abbrev pub phys_top : ℕ
phys_top = 0x0e000000

-- `kmem`, with the memory as far as the allocator writes it: the `next` word of each page, and
-- whether the page holds junk. Address 0 is the null pointer.
pub record Kmem : Type 0 where
  pub freelist : ℕ
  pub next : ℕ → ℕ
  pub junked : ℕ → Bool

pub data KfreeResult : Type 0 where
  freed : Kmem → KfreeResult
  panic : KfreeResult

-- `end` is the first address after the kernel, from the linker. `V2P(v)` wraps below KERNBASE.
unfoldable pub kfree : (end : ℕ) → Kmem → (v : ℕ) → KfreeResult
kfree end k v =
    if not (v % pg_size == 0) || ltb v end || leb phys_top ((v + 2 ^ 32 - kern_base) % 2 ^ 32)
    then panic
    else freed (record {
      freelist = v;
      next = update k.next v k.freelist;
      junked = update k.junked v true;
    })

-- The page, 0 if there is none. `r->next` is read before the page is handed out, junk and all.
pub kalloc : Kmem → ℕ × Kmem
kalloc k =
    if k.freelist == 0 then (0, k) else (k.freelist, record k { freelist = k.next k.freelist })

abbrev pub pg_round_up : ℕ → ℕ
pg_round_up a = (a + pg_size - 1) / pg_size * pg_size

-- `for(; p + PGSIZE <= vend; p += PGSIZE) kfree(p);` on fuel; `none` is a panic or too little fuel.
pub freerange_loop : (end : ℕ) → ℕ → Kmem → (p vend : ℕ) → Option Kmem
freerange_loop end zero k p vend = none
freerange_loop end (suc f) k p vend = elim (leb (p + pg_size) vend) [
  | false ↦ some k
  | true ↦ elim (kfree end k p) [
    | panic ↦ none
    | freed k' ↦ freerange_loop end f k' (p + pg_size) vend
  ]
]

pub freerange : (end : ℕ) → ℕ → Kmem → (vstart vend : ℕ) → Option Kmem
unfolding freerange_loop
freerange end fuel k vstart vend = freerange_loop end fuel k (pg_round_up vstart) vend
