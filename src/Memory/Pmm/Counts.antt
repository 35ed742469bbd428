-- ===== src/Memory/Pmm/Counts.antt =====
-- FREE_PAGES of kernel/src/pmm.rs is the number of clear bits, through every operation.
use hep_os.Prelude.{
  Bool-cases, Option, arith, false, inl, inr, leb, none, refl, some, true, ℕ, ◌+◌, ◌/◌, ◌<◌, ◌≡◌,
  ◌≤◌,
}
use hep_os.Memory.Pmm.{
  page_size, max_pages, Pmm, set_used, set_free, is_used, alloc_page, free_page, alloc_contiguous,
}
use hep_os.Memory.Pmm.Bits.{
  pages_of, AllWords-set_used, AllWords-set_free, length-set_used, length-set_free,
  is_used-set_used, is_used-set_free, count_free, count_free-set_used, count_free-set_free,
  count_free-le,
}
use hep_os.Memory.Pmm.Alloc.{IsSized, Allocated, alloc_page_lem}
use hep_os.Memory.Pmm.Runs.{claim-Claims, count_free-claim, RunAllocated, alloc_contiguous_lem}

pub record IsValid (s : Pmm) : Type 0 where
  pub sized : IsSized s
  pub counted : s.free ≡ count_free s.bitmap

free-le : (s : Pmm) → IsValid s → s.free ≤ max_pages
free-le s v = omega (arith, count_free-le s.bitmap v.sized.words, v.counted, v.sized.size)

Allocated-IsValid : (s : Pmm) (r : Option ℕ × Pmm) → IsValid s → Allocated s r → IsValid r.1
Allocated-IsValid s (none, s') v h = rw h.0 v
Allocated-IsValid s (some addr, s') v h =
    let p = h.0 in
    let lt : p < pages_of s.bitmap = omega (arith, h.2, v.sized.size) in
    let c : count_free (set_used p s.bitmap) + 1 ≡ count_free s.bitmap =
      rw (h.3) at (count_free-set_used s.bitmap p v.sized.words lt) in
    rw (h.5) (record {
      sized = record {
        words = AllWords-set_used s.bitmap p v.sized.words lt;
        size = omega (arith, length-set_used s.bitmap p, v.sized.size);
      };
      counted = omega (arith, c, free-le s v, v.counted);
    })

-- `alloc_page` keeps the invariant: the bitmap keeps its size, and FREE_PAGES stays the number of
-- clear bits.
pub alloc_page-IsValid : (s : Pmm) → IsValid s → IsValid (alloc_page s).1
alloc_page-IsValid s v = Allocated-IsValid s (alloc_page s) v (alloc_page_lem s v.sized)

RunAllocated-IsValid :
    (count : ℕ) (s : Pmm) (r : Option ℕ × Pmm) → IsValid s → RunAllocated count s r → IsValid r.1
RunAllocated-IsValid count s (none, s') v h = rw h.0 v
RunAllocated-IsValid count s (some addr, s') v h =
    let i = h.0 in
    let fits : i + count ≤ pages_of s.bitmap = omega (arith, h.2, v.sized.size) in
    let cl = claim-Claims count i s.bitmap v.sized.words fits in
    let c = count_free-claim count i s.bitmap v.sized.words fits h.3 in
    rw (h.5) (record {
      sized = record { words = cl.words; size = omega (arith, cl.size, v.sized.size) };
      counted = omega (arith, c, free-le s v, v.counted);
    })

-- `alloc_contiguous` keeps the invariant, for a count above 0.
pub alloc_contiguous-IsValid :
    (count : ℕ) (s : Pmm) → 0 < count → IsValid s → IsValid (alloc_contiguous count s).1
alloc_contiguous-IsValid count s pos v =
    RunAllocated-IsValid count s (alloc_contiguous count s) v
      (alloc_contiguous_lem count s pos v.sized)

-- What a caller of `free_page` owes: the address lies in a page that is tracked and in use, or past
-- the tracked memory.
abbrev pub MayFree : ℕ → Pmm → Type 0
MayFree addr s = addr / page_size < max_pages → is_used (addr / page_size) s.bitmap ≡ true

-- `free_page` keeps the invariant when the page is in use or is not tracked. (It does not test for a
-- page that is free already.)
pub free_page-IsValid :
    (addr : ℕ) (s : Pmm) → IsValid s → MayFree addr s → IsValid (free_page addr s)
unfolding free_page
free_page-IsValid addr s v m = elim (Bool-cases (leb max_pages (addr / page_size))) [
  | inl past ↦ rw past v
  | inr below ↦
      let p = addr / page_size in
      let used : is_used p s.bitmap ≡ true = m (ground arith) in
      let lt : p < pages_of s.bitmap = ground (arith, v.sized.size) in
      let c : count_free (set_free p s.bitmap) ≡ count_free s.bitmap + 1 =
        omega (arith, rw used at (count_free-set_free s.bitmap p v.sized.words lt)) in
      rw below (record {
        sized = record {
          words = AllWords-set_free s.bitmap p v.sized.words lt;
          size = omega (arith, length-set_free s.bitmap p, v.sized.size);
        };
        counted = omega (arith, c, free-le s v, v.counted);
      })
]

-- A page that `alloc_page` returned and `free_page` took back leaves every bit and the free count
-- as they were, and TOTAL_PAGES too.
pub free_page-alloc_page :
    (s : Pmm) {addr : ℕ} {s' : Pmm}
    → IsValid s
    → alloc_page s ≡ (some addr, s')
    → ((q : ℕ) → is_used q (free_page addr s').bitmap ≡ is_used q s.bitmap)
      × ((free_page addr s').free ≡ s.free)
      × ((free_page addr s').total ≡ s.total)
unfolding free_page
free_page-alloc_page s {addr} {s'} v e =
    let h : Allocated s (some addr, s') = rw e at (alloc_page_lem s v.sized) in
    let p = h.0 in
    let same : addr / page_size ≡ p = omega (arith, h.1) in
    let below : leb max_pages p ≡ false = ground (arith, h.2) in
    let lt : p < pages_of s.bitmap = omega (arith, h.2, v.sized.size) in
    let a' = AllWords-set_used s.bitmap p v.sized.words lt in
    let lt' : p < pages_of (set_used p s.bitmap) = omega (arith, length-set_used s.bitmap p) in
    let c : count_free (set_used p s.bitmap) + 1 ≡ count_free s.bitmap =
      rw (h.3) at (count_free-set_used s.bitmap p v.sized.words lt) in
    rw (same, h.5, below)
      (
        (λ q. ground (
          arith,
          h.3,
          is_used-set_free (set_used p s.bitmap) p q a' lt',
          is_used-set_used s.bitmap p q v.sized.words lt,
        )),
        omega (arith, c, free-le s v, v.counted),
        refl,
      )
