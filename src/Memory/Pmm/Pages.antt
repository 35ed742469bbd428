-- ===== src/Memory/Pmm/Pages.antt =====
-- Sequences of the operations of kernel/src/pmm.rs, from the state that init leaves.
use hep_os.Prelude.{List, ℕ, ◌<◌}
use hep_os.Memory.Pmm.{Pmm, MemRegion, init, alloc_page, free_page, alloc_contiguous}
use hep_os.Memory.Pmm.Counts.{
  IsValid, alloc_page-IsValid, alloc_contiguous-IsValid, MayFree, free_page-IsValid,
}
use hep_os.Memory.Pmm.Boot.{Disjoint, init-IsValid}

-- One call: an allocation, one of a run, or the return of a page that is in use or not tracked.
pub data PageStep : Pmm → Pmm → Type 0 where
  takes : (s : Pmm) → PageStep s (alloc_page s).1
  takes_run : (count : ℕ) (s : Pmm) → 0 < count → PageStep s (alloc_contiguous count s).1
  returns : (addr : ℕ) (s : Pmm) → MayFree addr s → PageStep s (free_page addr s)

pub data PageReach (s : Pmm) : Pmm → Type 0 where
  here : PageReach s s
  then_step : {t u : Pmm} → PageReach s t → PageStep t u → PageReach s u

PageStep-IsValid : {s t : Pmm} → PageStep s t → IsValid s → IsValid t
PageStep-IsValid (takes s) v = alloc_page-IsValid s v
PageStep-IsValid (takes_run count s pos) v = alloc_contiguous-IsValid count s pos v
PageStep-IsValid (returns addr s may) v = free_page-IsValid addr s v may

-- After init on a memory map whose regions grant no page twice, and any sequence of allocations, of
-- allocations of runs that are not empty, and of returns of pages in use or not tracked, the bitmap has
-- its size and FREE_PAGES is the number of clear bits.
pub PageReach-IsValid :
    (regions : List MemRegion) {t : Pmm} → Disjoint regions → PageReach (init regions) t → IsValid t
PageReach-IsValid regions apart here = init-IsValid regions apart
PageReach-IsValid regions apart (then_step r st) =
    PageStep-IsValid st (PageReach-IsValid regions apart r)
