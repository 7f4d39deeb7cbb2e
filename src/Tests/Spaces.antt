-- ===== src/Tests/Spaces.antt =====
-- Address spaces at concrete inputs.
use a4team_os.Base.{
  ℕ, ◌+◌, ◌*◌, ◌≡◌, refl, Bool, true, ◌==◌, if◌then◌else◌, arith, List, [], ◌∷◌, some,
}
use a4team_os.Alloc.FreeList.{nil, cons}
use a4team_os.Vm.{Vm, mappages}
use a4team_os.Vm.Walk.{IsSpace}
use a4team_os.Vm.Map.{IsMapping, mappages_lem}
use a4team_os.Vm.Copy.{copyout}
use a4team_os.Vm.Copy.Bytes.{IsCopied, copyout_lem}

abbrev kernel_end : ℕ
kernel_end = 0x80400000

abbrev dir_page : ℕ
dir_page = 0x80500000

-- Two pages are free.
abbrev two_free : Vm
two_free = record {
  kmem = record {
    freelist = 0x80401000;
    next = λ p. if p == 0x80401000 then 0x80402000 else 0;
    junked = λ p. true;
  };
  entry = λ p i. 0;
  bytes = λ p a. 1;
}

abbrev free_pages : List ℕ
free_pages = 0x80401000 ∷ 0x80402000 ∷ []

two_free-IsSpace : IsSpace kernel_end dir_page free_pages two_free
two_free-IsSpace = record {
  free =
      cons (refl, omega arith, omega arith, omega arith, omega arith) refl
        (cons (refl, omega arith, omega arith, omega arith, omega arith) refl nil);
  dir_out = refl;
  table_out = λ i lt on. absurd (ground arith);
  apart = λ i j li lj on on'. absurd (ground arith);
}

mappages_lem_example :
    (done : Bool) × (s' : Vm) × (mappages dir_page 0 8192 0x500000 6 two_free ≡ some (done, s'))
    × ((qs : List ℕ) × IsSpace kernel_end dir_page qs s')
    × IsMapping dir_page 0 2 0x500000 6 two_free done s'
mappages_lem_example =
    mappages_lem kernel_end dir_page 0 8192 0x500000 6 free_pages two_free (omega arith)
      (omega arith) (omega arith) two_free-IsSpace (λ x lx lo hi. refl)

-- One page table, that of the first 4 MB, which are in consecutive pages.
abbrev user_space : Vm
user_space = record {
  kmem = two_free.kmem;
  entry = λ p i. if p == dir_page then 0x600007 else 0x700007 + i * 4096;
  bytes = λ p a. 1;
}

copyout_lem_example :
    (s' : Vm) × (copyout 0 dir_page 8190 (λ i. 65 + i) 4 user_space ≡ (true, s'))
    × IsCopied dir_page 8190 (λ i. 65 + i) 0 4 user_space s'
copyout_lem_example =
    copyout_lem 0 dir_page 8190 (λ i. 65 + i) 4 user_space (omega arith)
      (λ x lo hi. (ground arith, ground arith, omega arith)) (λ x y lx hx ly hy e. omega arith)
