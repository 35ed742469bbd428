-- ===== src/Memory/Pmm/Boot.antt =====
-- `init` of kernel/src/pmm.rs: which pages the memory map makes free.
use hep_os.Prelude.{
  Bool, Bool-cases, List, [], add64, arith, false, get_or, if◌then◌else◌, inl, inr, leb,
  length-replicate, ltb, not, refl, replicate, suc, sym, true, zero, ℕ, ◌%◌, ◌&&◌, ◌*◌, ◌+◌, ◌-◌,
  ◌/◌, ◌<◌, ◌==◌, ◌||◌, ◌∙◌, ◌∷◌, ◌≡◌,
}
use hep_os.Memory.Pmm.{
  page_size, max_pages, Word, Bitmap, Pmm, MemRegion, set_free, is_used, mib, init_page, init_range,
  init_region, init_regions, init,
}
use hep_os.Memory.Pmm.Bits.{
  AllWords, pages_of, AllWords-set_free, length-set_free, is_used-set_free, count_free,
  count_free-set_free, count_free-le,
}
use hep_os.Memory.Pmm.Alloc.{IsSized}
use hep_os.Memory.Pmm.Counts.{IsValid}

-- The pages that a region makes free: usable memory whose base is at 1 MB or above.
abbrev pub grants : MemRegion → ℕ → Bool
grants e q =
    (e.typ == 1 && leb mib e.base)
    && (leb (e.base / page_size) q && ltb q (add64 e.base e.len / page_size))

abbrev pub granted : List MemRegion → ℕ → Bool
granted [] q = false
granted (e ∷ es) q = grants e q || granted es q

record Freed (p : ℕ → Bool) (s s' : Pmm) : Type 0 where
  sized : IsSized s'
  bits : (q : ℕ) → q < max_pages → is_used q s'.bitmap ≡ (if p q then false else is_used q s.bitmap)

abbrev in_range : MemRegion → ℕ → ℕ → ℕ → Bool
in_range e page n q = (e.typ == 1 && leb mib e.base) && (leb page q && ltb q (page + n))

init_page-Freed :
    (e : MemRegion) (page : ℕ) (s : Pmm)
    → IsSized s
    → page < max_pages
    → Freed (in_range e page 1) s (init_page e page s)
unfolding init_page
init_page-Freed e page s v lt = elim (Bool-cases (e.typ == 1 && leb mib e.base)) [
  | inl usable ↦ rw usable (record {
    sized = record {
      words = AllWords-set_free s.bitmap page v.words (omega (arith, v.size));
      size = omega (arith, length-set_free s.bitmap page, v.size);
    };
    bits = λ q h. ground (arith, is_used-set_free s.bitmap page q v.words, v.size);
  })
  | inr skipped ↦
      rw skipped
        (record { sized = record { words = v.words; size = v.size }; bits = λ q h. rw skipped })
]

init_range-Freed :
    (n page : ℕ) (e : MemRegion) (s : Pmm)
    → IsSized s
    → Freed (in_range e page n) s (init_range n page e s)
unfolding init_range
init_range-Freed zero page e s v = record { sized = v; bits = λ q h. ground arith }
init_range-Freed (suc n) page e s v = elim (Bool-cases (leb max_pages page)) [
  | inl past ↦ rw past (record { sized = v; bits = λ q h. ground arith })
  | inr below ↦
      let one = init_page-Freed e page s v (ground arith) in
      let rest = init_range-Freed n (page + 1) e (init_page e page s) one.sized in
      rw below
        (record { sized = rest.sized; bits = λ q h. rest.bits q h ∙ ground (arith, one.bits q h) })
]

init_region-Freed : (e : MemRegion) (s : Pmm) → IsSized s → Freed (grants e) s (init_region e s)
unfolding init_region
init_region-Freed e s v =
    let first = e.base / page_size in
    let last = add64 e.base e.len / page_size in
    let r = init_range-Freed (last - first) first e s v in
    record { sized = r.sized; bits = λ q h. r.bits q h ∙ ground arith }

init_regions-Freed :
    (es : List MemRegion) (s : Pmm) → IsSized s → Freed (granted es) s (init_regions es s)
unfolding init_regions
init_regions-Freed [] s v = record { sized = v; bits = λ q h. refl }
init_regions-Freed (e ∷ es) s v =
    let one = init_region-Freed e s v in
    let rest = init_regions-Freed es (init_region e s) one.sized in
    record { sized = rest.sized; bits = λ q h. rest.bits q h ∙ ground (arith, one.bits q h) }

abbrev full_bitmap : ℕ → Bitmap
full_bitmap n = replicate n (replicate 64 true)

AllWords-full : (n : ℕ) → AllWords (full_bitmap n)
AllWords-full zero = tt
AllWords-full (suc n) = (refl, AllWords-full n)

get_or-full : (w : Word) (n i : ℕ) → i < n → get_or (replicate n w) i [] ≡ w
get_or-full w zero i h = absurd (omega arith)
get_or-full w (suc n) zero h = refl
get_or-full w (suc n) (suc i) h = get_or-full w n i (omega arith)

get_or-ones : (n i : ℕ) → get_or (replicate n true) i true ≡ true
get_or-ones zero i = refl
get_or-ones (suc n) zero = refl
get_or-ones (suc n) (suc i) = get_or-ones n i

is_used-full : (n q : ℕ) → q < n * 64 → is_used q (full_bitmap n) ≡ true
unfolding is_used
is_used-full n q h =
    rw (get_or-full (replicate 64 true) n (q / 64) (omega arith)) (get_or-ones 64 (q % 64))

count_free-full : (n : ℕ) → count_free (full_bitmap n) ≡ 0
count_free-full zero = refl
count_free-full (suc n) = omega (arith, count_free-full n)

abbrev fresh : ℕ → Pmm
fresh n = record { bitmap = full_bitmap n; total = 0; free = 0 }

fresh-IsSized : (n : ℕ) → n * 64 ≡ max_pages → IsSized (fresh n)
fresh-IsSized n e = record {
  words = AllWords-full n;
  size = omega (arith, length-replicate n (replicate 64 true));
}

fresh-IsValid : (n : ℕ) → n * 64 ≡ max_pages → IsValid (fresh n)
fresh-IsValid n e = record { sized = fresh-IsSized n e; counted = sym (count_free-full n) }

-- After `init` the bitmap has its full size, and of the tracked pages exactly those are free that
-- some region grants: usable memory whose base is at 1 MB or above.
pub init_lem :
    (memmap : List MemRegion)
    → IsSized (init memmap)
      × ((q : ℕ) → q < max_pages → is_used q (init memmap).bitmap ≡ not (granted memmap q))
unfolding init
init_lem memmap =
    let n : ℕ = max_pages / 64 in
    let r = init_regions-Freed memmap (fresh n) (fresh-IsSized n refl) in
    (r.sized, λ q h. r.bits q h ∙ ground (arith, is_used-full n q h))

-- No two regions grant the same page.
abbrev pub Disjoint : List MemRegion → Type 0
Disjoint [] = Unit
Disjoint (e ∷ es) =
    ((q : ℕ) → q < max_pages → grants e q ≡ true → granted es q ≡ false) × Disjoint es

init_page-IsValid :
    (e : MemRegion) (page : ℕ) (s : Pmm)
    → IsValid s
    → page < max_pages
    → (in_range e page 1 page ≡ true → is_used page s.bitmap ≡ true)
    → IsValid (init_page e page s)
unfolding init_page
init_page-IsValid e page s v lt u = elim (Bool-cases (e.typ == 1 && leb mib e.base)) [
  | inl usable ↦
      let used : is_used page s.bitmap ≡ true = u (rw usable (ground arith)) in
      let room : page < pages_of s.bitmap = omega (arith, v.sized.size) in
      let c : count_free (set_free page s.bitmap) ≡ count_free s.bitmap + 1 =
        omega (arith, rw used at (count_free-set_free s.bitmap page v.sized.words room)) in
      rw usable (record {
        sized = record {
          words = AllWords-set_free s.bitmap page v.sized.words room;
          size = omega (arith, length-set_free s.bitmap page, v.sized.size);
        };
        counted = omega (arith, c, v.counted, count_free-le s.bitmap v.sized.words, v.sized.size);
      })
  | inr skipped ↦ rw skipped (record {
    sized = record { words = v.sized.words; size = v.sized.size };
    counted = v.counted;
  })
]

init_range-IsValid :
    (n page : ℕ) (e : MemRegion) (s : Pmm)
    → IsValid s
    → ((q : ℕ) → q < max_pages → in_range e page n q ≡ true → is_used q s.bitmap ≡ true)
    → IsValid (init_range n page e s)
unfolding init_range
init_range-IsValid zero page e s v u = v
init_range-IsValid (suc n) page e s v u = elim (Bool-cases (leb max_pages page)) [
  | inl past ↦ rw past v
  | inr below ↦
      let one = init_page-Freed e page s v.sized (ground arith) in
      rw below (
        init_range-IsValid n (page + 1) e (init_page e page s)
          (init_page-IsValid e page s v (ground arith) (λ h. u page (ground arith) (ground arith)))
          (λ q lt h. ground (arith, one.bits q lt, u q lt)))
]

init_regions-IsValid :
    (es : List MemRegion) (s : Pmm)
    → Disjoint es
    → IsValid s
    → ((q : ℕ) → q < max_pages → granted es q ≡ true → is_used q s.bitmap ≡ true)
    → IsValid (init_regions es s)
unfolding init_regions init_region
init_regions-IsValid [] s d v u = v
init_regions-IsValid (e ∷ es) s d v u =
    let first = e.base / page_size in
    let last = add64 e.base e.len / page_size in
    let one = init_region-Freed e s v.sized in
    init_regions-IsValid es (init_region e s) d.1
      (init_range-IsValid (last - first) first e s v (λ q lt h. u q lt (ground arith)))
      (λ q lt h. ground (arith, one.bits q lt, u q lt, d.0 q lt))

-- After `init` on a memory map whose regions grant no page twice, FREE_PAGES is the number of
-- clear bits.
pub init-IsValid : (memmap : List MemRegion) → Disjoint memmap → IsValid (init memmap)
unfolding init
init-IsValid memmap d =
    let n : ℕ = max_pages / 64 in
    init_regions-IsValid memmap (fresh n) d (fresh-IsValid n refl) (λ q lt h. is_used-full n q lt)
