-- ===== src/Memory/Pmm/Tests.antt =====
-- The page allocator of kernel/src/pmm.rs on a machine with four usable pages above 1 MB.
use hep_os.Prelude.{List, [], ap, arith, not, refl, some, true, ℕ, ◌+◌, ◌<◌, ◌∷◌, ◌≡◌}
use hep_os.Memory.Pmm.{
  max_pages, Pmm, MemRegion, is_used, init, alloc_page, free_page, alloc_contiguous,
}
use hep_os.Memory.Pmm.Alloc.{IsSized, Allocated, alloc_page_lem}
use hep_os.Memory.Pmm.Runs.{RunAllocated, alloc_contiguous_lem}
use hep_os.Memory.Pmm.Counts.{IsValid, free_page-alloc_page}
use hep_os.Memory.Pmm.Pages.{takes, returns, here, then_step, PageReach-IsValid}
use hep_os.Memory.Pmm.Boot.{granted, init_lem, Disjoint, init-IsValid}

abbrev low_memory : MemRegion
low_memory = record { base = 0; len = 0x9_F000; typ = 1 }

abbrev four_pages : MemRegion
four_pages = record { base = 0x10_0000; len = 0x4000; typ = 1 }

abbrev memmap : List MemRegion
memmap = low_memory ∷ four_pages ∷ []

booted : Pmm
booted = init memmap

booted-Disjoint : Disjoint memmap
booted-Disjoint = ((λ q lt h. cc), ((λ q lt h. refl), tt))

booted-IsValid : IsValid booted
unfolding booted
booted-IsValid = init-IsValid memmap booted-Disjoint

booted_counts : (booted.free ≡ 4) × (booted.total ≡ 0x9F + 4)
unfolding booted init
booted_counts = (refl, refl)

first_page : (alloc_page booted).0 ≡ some 0x10_0000
unfolding booted init alloc_page
first_page = refl

three_pages : (alloc_contiguous 3 booted).0 ≡ some 0x10_0000
unfolding booted init alloc_contiguous is_used
three_pages = refl

init_lem_example :
    IsSized (init memmap)
    × ((q : ℕ) → q < max_pages → is_used q (init memmap).bitmap ≡ not (granted memmap q))
init_lem_example = init_lem memmap

alloc_page_lem_example : Allocated booted (alloc_page booted)
alloc_page_lem_example = alloc_page_lem booted booted-IsValid.sized

alloc_contiguous_lem_example : RunAllocated 3 booted (alloc_contiguous 3 booted)
alloc_contiguous_lem_example = alloc_contiguous_lem 3 booted (omega arith) booted-IsValid.sized

page_2_used : is_used 2 booted.bitmap ≡ true
unfolding booted init is_used
page_2_used = refl

free_page-alloc_page_example :
    let s' = free_page 0x10_0000 (alloc_page booted).1 in
    ((q : ℕ) → is_used q s'.bitmap ≡ is_used q booted.bitmap)
    × (s'.free ≡ booted.free)
    × (s'.total ≡ booted.total)
free_page-alloc_page_example =
    free_page-alloc_page booted booted-IsValid (ap (λ a. (a, (alloc_page booted).1)) first_page)

PageReach-IsValid_example : IsValid (alloc_page (free_page 0x2000 (init memmap))).1
unfolding booted init
PageReach-IsValid_example = PageReach-IsValid memmap booted-Disjoint (
    then_step (then_step here (returns 0x2000 (init memmap) (λ lt. page_2_used)))
      (takes (free_page 0x2000 (init memmap))))
