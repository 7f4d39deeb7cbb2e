-- ===== src/Alloc/FreeList.antt =====
-- The free list of kalloc.c as a list of distinct pages.
use a4team_os.Base.{
  ℕ, zero, suc, ◌+◌, ◌-◌, ◌*◌, ◌%◌, ◌^◌, ◌≤◌, ◌<◌, ◌≡◌, refl, ◌≢◌, Bool, true, false, not, ltb, leb,
  Bool-cases, inl, inr, ◌||◌, ◌==◌, update, arith, List, [], ◌∷◌, some,
}
use a4team_os.Alloc.{
  pg_size, kern_base, phys_top, Kmem, KfreeResult, freed, panic, kfree, kalloc, pg_round_up,
  freerange_loop, freerange,
}

abbrev pub has : ℕ → List ℕ → Bool
has a [] = false
has a (p ∷ ps) = (a == p) || has a ps

-- A page that `kfree` accepts.
abbrev pub IsPage : (end : ℕ) → ℕ → Type 0
IsPage end v =
    (v % pg_size ≡ 0) × (0 < v) × (end ≤ v) × (kern_base ≤ v) × (v < kern_base + phys_top)

-- From `p` the `next` words lead through the distinct pages of the list to the null pointer.
pub data Chain (end : ℕ) (next : ℕ → ℕ) : ℕ → List ℕ → Type 0 where
  nil : Chain end next 0 []
  cons :
      {p : ℕ} {ps : List ℕ}
      → IsPage end p
      → has p ps ≡ false
      → Chain end next (next p) ps
      → Chain end next p (p ∷ ps)

-- The pages on the free list are those of `ps`, in this order, and none is listed twice.
abbrev pub IsFreeList : (end : ℕ) → Kmem → List ℕ → Type 0
IsFreeList end k ps = Chain end k.next k.freelist ps

frame :
    {end : ℕ} (v q : ℕ) {next : ℕ → ℕ} {p : ℕ} {ps : List ℕ}
    → Chain end next p ps
    → has v ps ≡ false
    → Chain end (update next v q) p ps
frame v q nil h = nil
frame v q {next} (cons {p} {ps} ok out c) h =
    cons ok out
      (let e : update next v q p ≡ next p = ground arith in rw e (frame v q c (ground arith)))

-- A chain of at least one page, taken apart.
pub uncons :
    {end p v : ℕ} {next : ℕ → ℕ} {ps : List ℕ}
    → Chain end next p (v ∷ ps)
    → (p ≡ v) × IsPage end v × (has v ps ≡ false) × Chain end next (next v) ps
uncons (cons ok out c) = (refl, ok, out, c)

pub null_of_nil : {end p : ℕ} {next : ℕ → ℕ} → Chain end next p [] → p ≡ 0
null_of_nil nil = refl

-- `kfree` accepts a page in range that is not on the free list and puts it in front.
kfree-cons :
    (end : ℕ) (k : Kmem) (v : ℕ) {ps : List ℕ}
    → IsFreeList end k ps
    → IsPage end v
    → has v ps ≡ false
    → (k' : Kmem) × (kfree end k v ≡ freed k') × IsFreeList end k' (v ∷ ps)
unfolding kfree
kfree-cons end k v {ps} c ok out = (
  record { freelist = v; next = update k.next v k.freelist; junked = update k.junked v true },
  ground arith,
  cons ok out (
      let e : update k.next v k.freelist v ≡ k.freelist = ground arith in
      rw e (frame v k.freelist c out)),
)

-- What `kfree` has done: the address is no page of the range and it panics; or it is one, which is
-- now the first of the list, before those that were listed, and junk, and no other page is changed.
pub data IsFreed (end : ℕ) (k : Kmem) (v : ℕ) : KfreeResult → Type 0 where
  no_page : ¬ (IsPage end v) → IsFreed end k v panic
  in_front :
      {k' : Kmem}
      → IsPage end v
      → k'.freelist ≡ v
      → k'.next v ≡ k.freelist
      → k'.junked v ≡ true
      → ((p : ℕ) → p ≢ v → (k'.next p ≡ k.next p) × (k'.junked p ≡ k.junked p))
      → IsFreed end k v (freed k')

-- For a 32-bit address and a kernel that ends above KERNBASE, `kfree` panics exactly on an address
-- that is no page of the range: one that is not aligned, lies below the end of the kernel, or not
-- below PHYSTOP. Any other page it puts in front of the list, fills with junk, and changes no
-- other.
pub kfree-IsFreed :
    (end : ℕ) (k : Kmem) (v : ℕ) → v < 2 ^ 32 → kern_base ≤ end → IsFreed end k v (kfree end k v)
unfolding kfree
kfree-IsFreed end k v fits low =
    elim (Bool-cases
      (not (v % pg_size == 0) || ltb v end || leb phys_top ((v + 2 ^ 32 - kern_base) % 2 ^ 32))) [
        | inl bad ↦ rw bad (no_page (λ (al, pos_v, above, base, top). ground arith))
        | inr good ↦ rw good (
            in_front (ground arith, ground arith, ground arith, ground arith, ground arith) refl
              (ground arith) (ground arith) (λ p ne. (ground arith, ground arith)))
      ]

-- `kalloc` takes the first page off a free list that is not empty; the page is not on the list
-- that is left. On an empty one it returns the null pointer and changes nothing.
pub kalloc-cons :
    (end : ℕ) (k : Kmem) {v : ℕ} {ps : List ℕ}
    → IsFreeList end k (v ∷ ps)
    → ((kalloc k).0 ≡ v) × IsFreeList end (kalloc k).1 ps × (has v ps ≡ false)
unfolding kalloc
kalloc-cons end k {v} c =
    let (e, ok, out, rest) = uncons c in
    let some_page : (k.freelist == 0) ≡ false = ground arith in rw some_page (e, rw e rest, out)

pub kalloc-nil : (end : ℕ) (k : Kmem) → IsFreeList end k [] → kalloc k ≡ (0, k)
unfolding kalloc
kalloc-nil end k c = let e = null_of_nil c in ground arith

-- The pages from `p` on that `n` rounds of the loop free, last one first, in front of `ps`.
pub pages_onto : (n p : ℕ) → List ℕ → List ℕ
pages_onto zero p ps = ps
pages_onto (suc n) p ps = pages_onto n (p + pg_size) (p ∷ ps)

freerange_loop_lem :
    (n fuel end : ℕ) (k : Kmem) (p vend : ℕ) (ps : List ℕ)
    → n < fuel
    → p % pg_size ≡ 0
    → kern_base ≤ p
    → end ≤ p
    → p + n * pg_size ≤ vend
    → vend < p + n * pg_size + pg_size
    → vend ≤ kern_base + phys_top
    → ((v : ℕ) → p ≤ v → has v ps ≡ false)
    → IsFreeList end k ps
    → (k' : Kmem) × (freerange_loop end fuel k p vend ≡ some k')
      × IsFreeList end k' (pages_onto n p ps)
unfolding freerange_loop pages_onto
freerange_loop_lem n zero end k p vend ps hn al lo he h1 h2 hi new c = absurd (omega arith)
freerange_loop_lem zero (suc fuel) end k p vend ps hn al lo he h1 h2 hi new c = (k, ground arith, c)
freerange_loop_lem (suc n) (suc fuel) end k p vend ps hn al lo he h1 h2 hi new c =
    let (k', e, c') =
      kfree-cons end k p c (al, omega arith, he, lo, omega arith) (new p (omega arith)) in
    let (k'', e', c'') =
      freerange_loop_lem n fuel end k' (p + pg_size) vend (p ∷ ps) (omega arith) (omega arith)
        (omega arith) (omega arith) (omega arith) (omega arith) hi
        (λ v hv. ground (arith, new v (omega arith))) c' in
    (k'', ground arith, c'')

-- `freerange` over a range of physical memory puts every whole page of it on the free list, the
-- last page first, and on no less fuel than the number of pages and one more it returns. The
-- range lies above the kernel and below PHYSTOP, holds `n` whole pages, and the pages on the list
-- before lie below it.
pub freerange_lem :
    (n fuel end : ℕ) (k : Kmem) (vstart vend : ℕ) (ps : List ℕ)
    → n < fuel
    → kern_base ≤ vstart
    → end ≤ vstart
    → pg_round_up vstart + n * pg_size ≤ vend
    → vend < pg_round_up vstart + n * pg_size + pg_size
    → vend ≤ kern_base + phys_top
    → ((v : ℕ) → vstart ≤ v → has v ps ≡ false)
    → IsFreeList end k ps
    → (k' : Kmem) × (freerange end fuel k vstart vend ≡ some k')
      × IsFreeList end k' (pages_onto n (pg_round_up vstart) ps)
unfolding freerange
freerange_lem n fuel end k vstart vend ps hn lo he h1 h2 hi new c =
    freerange_loop_lem n fuel end k (pg_round_up vstart) vend ps hn (omega arith) (omega arith)
      (omega arith) h1 h2 hi (λ v hv. new v (omega arith)) c
