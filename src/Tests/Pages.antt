-- ===== src/Tests/Pages.antt =====
-- The theorems on the page allocator, at concrete free lists.
use a4team_os.Base.{◌≡◌, refl, true, false, arith, some, [], ◌∷◌}
use a4team_os.Alloc.{Kmem, kfree, freerange, pg_round_up}
use a4team_os.Alloc.FreeList.{Chain, IsFreeList, IsFreed, kfree-IsFreed, pages_onto, freerange_lem}

abbrev no_pages : Kmem
no_pages = record { freelist = 0; next = λ a. 0; junked = λ a. false }

abbrev one_page : Kmem
one_page = record { freelist = 0x80001000; next = λ a. 0; junked = λ a. true }

one_page-IsFreeList : IsFreeList 0x80000400 one_page (0x80001000 ∷ [])
one_page-IsFreeList =
    Chain.cons (refl, omega arith, omega arith, omega arith, omega arith) refl Chain.nil

kfree-IsFreed_example :
    IsFreed 0x80000400 one_page 0x80002000 (kfree 0x80000400 one_page 0x80002000)
kfree-IsFreed_example = kfree-IsFreed 0x80000400 one_page 0x80002000 (omega arith) (omega arith)

freerange_lem_example :
    (k' : Kmem) × (freerange 0x80000400 4 no_pages 0x80000400 0x80003000 ≡ some k')
    × IsFreeList 0x80000400 k' (pages_onto 2 (pg_round_up 0x80000400) [])
freerange_lem_example =
    freerange_lem 2 4 0x80000400 no_pages 0x80000400 0x80003000 [] (omega arith) (omega arith)
      (omega arith) (omega arith) (omega arith) (omega arith) (λ v h. refl) Chain.nil
