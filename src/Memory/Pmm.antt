-- ===== src/Memory/Pmm.antt =====
-- kernel/src/pmm.rs: the physical page allocator, a bitmap of 64-bit words with a bit for each
-- page, and the count of free pages. One core runs it, so each atomic access is an access.
pub mod Bits
pub mod Alloc
pub mod Runs
pub mod Counts
pub mod Boot
pub mod Pages
mod Tests
use hep_os.Prelude.{
  ℕ, zero, suc, ◌+◌, ◌-◌, ◌*◌, ◌/◌, ◌%◌, Bool, true, false, not, ◌&&◌, Option, none, some, List, [],
  ◌∷◌, leb, ◌==◌, if◌then◌else◌, get_or, set, replicate, add64, sub64,
}

abbrev pub page_size : ℕ
page_size = 4096

abbrev pub max_pages : ℕ
max_pages = 512 * 1024

-- A `u64` of the bitmap as its bits, the lowest first: 1 (true) is a used page.
abbrev pub Word : Type 0
Word = List Bool

abbrev pub Bitmap : Type 0
Bitmap = List Word

-- The three statics BITMAP, TOTAL_PAGES and FREE_PAGES.
pub record Pmm : Type 0 where
  pub bitmap : Bitmap
  pub total : ℕ
  pub free : ℕ

-- `typ` is 1 for usable memory.
pub record MemRegion : Type 0 where
  pub base : ℕ
  pub len : ℕ
  pub typ : ℕ

-- BITMAP[page / 64].fetch_or(1 << (page % 64))
unfoldable pub set_used : ℕ → Bitmap → Bitmap
set_used page b = set b (page / 64) (set (get_or b (page / 64) []) (page % 64) true)

-- BITMAP[page / 64].fetch_and(!(1 << (page % 64)))
unfoldable pub set_free : ℕ → Bitmap → Bitmap
set_free page b = set b (page / 64) (set (get_or b (page / 64) []) (page % 64) false)

-- Every caller passes a page below `max_pages`; past the bitmap the source would panic.
unfoldable pub is_used : ℕ → Bitmap → Bool
is_used page b = get_or (get_or b (page / 64) []) (page % 64) true

abbrev pub mib : ℕ
mib = 0x10_0000

-- One page of a region: counted, and freed if the region is usable and starts at 1 MB or above.
unfoldable pub init_page : MemRegion → ℕ → Pmm → Pmm
unfolding set_free
init_page e page s =
    if e.typ == 1 && leb mib e.base
    then record s {
      bitmap = set_free page s.bitmap;
      total = add64 s.total 1;
      free = add64 s.free 1;
    }
    else record s { total = add64 s.total 1 }

-- for page in first..last { if page >= MAX_PAGES { break; } … }
unfoldable pub init_range : ℕ → ℕ → MemRegion → Pmm → Pmm
unfolding init_page
init_range zero page e s = s
init_range (suc n) page e s =
    let rest = init_range n (page + 1) e (init_page e page s) in
    if leb max_pages page then s else rest

unfoldable pub init_region : MemRegion → Pmm → Pmm
unfolding init_range
init_region e s =
    let first = e.base / page_size in
    let last = add64 e.base e.len / page_size in init_range (last - first) first e s

unfoldable pub init_regions : List MemRegion → Pmm → Pmm
unfolding init_region
init_regions [] s = s
init_regions (e ∷ es) s = init_regions es (init_region e s)

-- All bits are set, and then the usable regions are freed.
unfoldable pub init : List MemRegion → Pmm
unfolding init_regions
init memmap =
    init_regions memmap
      (record { bitmap = replicate (max_pages / 64) (replicate 64 true); total = 0; free = 0 })

-- val == u64::MAX
unfoldable pub is_full : Word → Bool
is_full [] = true
is_full (b ∷ w) = b && is_full w

unfoldable pub trailing_ones : Word → ℕ
trailing_ones [] = 0
trailing_ones (b ∷ w) = if b then suc (trailing_ones w) else 0

-- The loop of `alloc_page`, from word `i` on: the page claimed and the words after the claim.
unfoldable pub scan : ℕ → Bitmap → Option (ℕ × Bitmap)
unfolding is_full trailing_ones
scan i [] = none
scan i (val ∷ words) =
    let rest : Option (ℕ × Bitmap) = elim (scan (i + 1) words) [
      | none ↦ none
      | some (p, ws) ↦ some (p, val ∷ ws)
    ] in
    let bit = trailing_ones val in
    let page = i * 64 + bit in
    if is_full val
    then rest
    else if leb max_pages page
    then none
    else if not (get_or val bit false)
    then some (page, set val bit true ∷ words)
    else rest

-- The physical address of the page, and the new state.
unfoldable pub alloc_page : Pmm → Option ℕ × Pmm
unfolding scan
alloc_page s = elim (scan 0 s.bitmap) [
  | none ↦ (none, s)
  | some (page, b) ↦ (some (page * page_size), record s { bitmap = b; free = sub64 s.free 1 })
]

unfoldable pub free_page : ℕ → Pmm → Pmm
unfolding set_free
free_page addr s =
    let page = addr / page_size in
    if leb max_pages page
    then s
    else record s { bitmap = set_free page s.bitmap; free = add64 s.free 1 }

-- How the inner loop of `alloc_contiguous` ends: all free, `continue 'outer`, or `break 'outer`.
pub data Probe : Type 0 where
  clear busy past_end : Probe

-- for j in 0..count, with `page` = i + j and `n` rounds left
unfoldable pub probe : ℕ → ℕ → Bitmap → Probe
unfolding is_used
probe zero page b = Probe.clear
probe (suc n) page b =
    let rest = probe n (page + 1) b in
    if leb max_pages page then Probe.past_end else if is_used page b then Probe.busy else rest

unfoldable pub claim : ℕ → ℕ → Bitmap → Bitmap
unfolding set_used
claim zero page b = b
claim (suc n) page b = claim n (page + 1) (set_used page b)

-- The outer loop, with `n` values of `i` left: the first page of a free run.
unfoldable pub find_run : ℕ → ℕ → ℕ → Bitmap → Option ℕ
unfolding probe
find_run zero i count b = none
find_run (suc n) i count b = elim (probe count i b) [
  | Probe.clear ↦ some i
  | Probe.busy ↦ find_run n (i + 1) count b
  | Probe.past_end ↦ none
]

unfoldable pub alloc_contiguous : ℕ → Pmm → Option ℕ × Pmm
unfolding find_run claim
alloc_contiguous count s = elim (find_run max_pages 0 count s.bitmap) [
  | none ↦ (none, s)
  | some i ↦ (
    some (i * page_size),
    record s { bitmap = claim count i s.bitmap; free = sub64 s.free count },
  )
]
