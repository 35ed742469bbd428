-- ===== src/Memory/Heap/Tests.antt =====
-- Runs of kernel/src/heap.rs on a small machine.
use hep_os.Prelude.{
  List, [], arith, get_or, refl, replicate, some, suc, zero, ℕ, ◌<◌, ◌∷◌, ◌≡◌, ◌≤◌,
}
use hep_os.Memory.Pmm.{MemRegion, init, alloc_page}
use hep_os.Memory.Heap.{size_classes, Layout, Heap, class_for, alloc, dealloc}
use hep_os.Memory.Heap.Lists.{Chunks, Holds, put, IsUnlisted, dealloc_lem, alloc_lem}
use hep_os.Memory.Heap.Refill.{IsFreshPage, refill_lem}
use hep_os.Memory.Heap.Classes.{class_for_lem}

abbrev memmap : List MemRegion
memmap = record { base = 0x10_0000; len = 0x4000; typ = 1 } ∷ []

abbrev block : Layout
block = record { size = 1500; align = 8 }

abbrev fresh : Heap
fresh = record { free_lists = replicate 10 0; word = λ a. 0; pmm = init memmap; hhdm = 0x8000_0000 }

abbrev no_chunks : Chunks
no_chunks c = []

empty_head : (c : ℕ) → get_or {A = ℕ} (replicate 10 0) c 0 ≡ 0
empty_head c = get_or-zeros 10 c
  where
    get_or-zeros : (n i : ℕ) → get_or {A = ℕ} (replicate n 0) i 0 ≡ 0
    get_or-zeros zero i = refl
    get_or-zeros (suc n) zero = refl
    get_or-zeros (suc n) (suc i) = get_or-zeros n i

fresh-Holds : Holds fresh no_chunks
fresh-Holds = record { size = refl; chain = λ c lt. empty_head c }

chunk-IsUnlisted : IsUnlisted 0x9000 no_chunks
chunk-IsUnlisted = ((λ e. absurd (omega arith)), λ c lt. tt)

block_class : class_for block ≡ some 8
unfolding class_for
block_class = refl

class_for_lem_example :
    (ci : ℕ) × (class_for block ≡ some ci)
    × (ci < 10)
    × (1500 ≤ get_or size_classes ci 0)
    × (8 ≤ get_or size_classes ci 0)
    × (8 ≤ get_or size_classes ci 0)
    × ((j : ℕ) → j < ci → get_or size_classes j 0 < 1500)
class_for_lem_example = class_for_lem block (omega arith) (omega arith)

dealloc_lem_example :
    Holds (dealloc 0x9000 block fresh) (put 8 (0x9000 ∷ []) no_chunks)
    × ((dealloc 0x9000 block fresh).pmm ≡ fresh.pmm)
dealloc_lem_example =
    dealloc_lem 0x9000 8 block fresh no_chunks (omega arith) (omega arith) block_class (omega arith)
      chunk-IsUnlisted fresh-Holds

alloc_lem_example :
    let h = dealloc 0x9000 block fresh in
    ((alloc block h).0 ≡ 0x9000)
    × Holds (alloc block h).1 (put 8 [] (put 8 (0x9000 ∷ []) no_chunks))
    × ((alloc block h).1.pmm ≡ h.pmm)
alloc_lem_example =
    alloc_lem 8 0x9000 [] block (dealloc 0x9000 block fresh) (put 8 (0x9000 ∷ []) no_chunks)
      (omega arith) (omega arith) block_class (omega arith) refl dealloc_lem_example.0

first_page : alloc_page (init memmap) ≡ (some 0x10_0000, (alloc_page (init memmap)).1)
unfolding alloc_page init
first_page = refl

page-IsFreshPage : IsFreshPage 0x8010_0000 2048 1 no_chunks
page-IsFreshPage j lo hi = ((λ e. absurd (omega arith)), λ c lt. tt)

refill_lem_example :
    ((alloc block fresh).0 ≡ 0x8010_0000)
    × Holds (alloc block fresh).1 (put 8 (0x8010_0800 ∷ []) no_chunks)
    × ((alloc block fresh).1.pmm ≡ (alloc_page (init memmap)).1)
refill_lem_example =
    refill_lem 8 0x10_0000 (alloc_page (init memmap)).1 block fresh no_chunks (omega arith)
      (omega arith) block_class (omega arith) refl fresh-Holds first_page page-IsFreshPage
