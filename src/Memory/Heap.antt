-- ===== src/Memory/Heap.antt =====
-- kernel/src/heap.rs: the slab allocator. A free chunk holds in its first word the address of the
-- next free chunk of its class, and 0 ends a list; larger blocks are runs of physical pages.
mod Classes
mod Lists
mod Refill
mod Tests
use hep_os.Prelude.{
  List, Option, [], add64, get_or, if◌then◌else◌, leb, ltb, max, min, none, not, set, some, sub64,
  suc, zero, ℕ, ◌*◌, ◌+◌, ◌-◌, ◌/◌, ◌==◌, ◌||◌, ◌∷◌,
}
use hep_os.Memory.Pmm.{page_size, Pmm, alloc_page, free_page, alloc_contiguous}

abbrev pub size_classes : List ℕ
size_classes = 8 ∷ 16 ∷ 32 ∷ 64 ∷ 128 ∷ 256 ∷ 512 ∷ 1024 ∷ 2048 ∷ 4096 ∷ []

pub record Layout : Type 0 where
  pub size : ℕ
  pub align : ℕ

-- The list heads of SlabInner, the words in memory, the page allocator, and vmm.rs's HHDM offset.
pub record Heap : Type 0 where
  pub free_lists : List ℕ
  pub word : ℕ → ℕ
  pub pmm : Pmm
  pub hhdm : ℕ

-- position(|&sz| sz >= min)
unfoldable pub position_from : ℕ → List ℕ → Option ℕ
position_from min [] = none
position_from min (sz ∷ sizes) =
    if leb min sz
    then some 0
    else elim (position_from min sizes) [ none ↦ none | some i ↦ some (i + 1) ]

unfoldable pub class_for : Layout → Option ℕ
unfolding position_from
class_for layout = position_from (max (max layout.size layout.align) 8) size_classes

unfoldable pub pages_for : ℕ → ℕ
pages_for bytes = sub64 (add64 bytes page_size) 1 / page_size

-- vmm::phys_to_virt
abbrev pub phys_to_virt : ℕ → Heap → ℕ
phys_to_virt phys h = add64 phys h.hhdm

-- The chunk becomes the head of the free list of its class. Chunks are at multiples of 8, for pages and
-- the sizes of the classes are, so that no write of a word reaches into another word.
unfoldable pub push_chunk : ℕ → ℕ → Heap → Heap
push_chunk ci chunk h = record h {
  word = λ a. if a == chunk then get_or h.free_lists ci 0 else h.word a;
  free_lists = set h.free_lists ci chunk;
}

-- for i in (1..count).rev(), with the chunks below `k` + 1 left.
unfoldable pub thread_chunks : ℕ → ℕ → ℕ → ℕ → Heap → Heap
unfolding push_chunk
thread_chunks zero ci chunk_size base h = h
thread_chunks (suc k) ci chunk_size base h =
    thread_chunks k ci chunk_size base (push_chunk ci (base + suc k * chunk_size) h)

-- What `pmm::alloc_page` gave, cut into chunks; 0 is the null pointer.
unfoldable pub refill_with : ℕ → Heap → Option ℕ × Pmm → ℕ × Heap
unfolding thread_chunks
refill_with ci h (none, pmm') = (0, record h { pmm = pmm' })
refill_with ci h (some phys, pmm') =
    let base = phys_to_virt phys h in
    let chunk_size = get_or size_classes ci 0 in
    (base, thread_chunks (page_size / chunk_size - 1) ci chunk_size base (record h { pmm = pmm' }))

unfoldable pub refill : ℕ → Heap → ℕ × Heap
unfolding alloc_page refill_with
refill ci h = refill_with ci h (alloc_page h.pmm)

unfoldable pub alloc_large : ℕ → Heap → ℕ × Heap
unfolding alloc_contiguous pages_for
alloc_large size h =
    let (found, pmm') = alloc_contiguous (pages_for size) h.pmm in
    elim found [
      | none ↦ (0, record h { pmm = pmm' })
      | some phys ↦ (phys_to_virt phys h, record h { pmm = pmm' })
    ]

unfoldable pub alloc_small : ℕ → Heap → ℕ × Heap
unfolding refill
alloc_small ci h =
    let node = get_or h.free_lists ci 0 in
    if not (node == 0)
    then (node, record h { free_lists = set h.free_lists ci (h.word node) })
    else refill ci h

unfoldable pub alloc : Layout → Heap → ℕ × Heap
unfolding alloc_large class_for alloc_small
alloc layout h =
    if layout.size == 0
    then (layout.align, h)
    else if ltb page_size layout.size
    then alloc_large layout.size h
    else elim (class_for layout) [ none ↦ (0, h) | some ci ↦ alloc_small ci h ]

-- for i in 0..n, with `k` rounds left.
unfoldable pub free_pages : ℕ → ℕ → Pmm → Pmm
unfolding free_page
free_pages zero phys p = p
free_pages (suc k) phys p = free_pages k (add64 phys page_size) (free_page phys p)

unfoldable pub dealloc : ℕ → Layout → Heap → Heap
unfolding free_pages pages_for class_for push_chunk
dealloc ptr layout h =
    if ptr == 0 || layout.size == 0
    then h
    else if ltb page_size layout.size
    then record h { pmm = free_pages (pages_for layout.size) (sub64 ptr h.hhdm) h.pmm }
    else elim (class_for layout) [ none ↦ h | some ci ↦ push_chunk ci ptr h ]
