-- ===== src/Memory/Pmm/Runs.antt =====
-- `alloc_contiguous` of kernel/src/pmm.rs takes the first run of free pages that is long enough.
use hep_os.Prelude.{
  ==_iff, Bool-cases, Option, arith, false, if◌then◌else◌, inl, inr, leb, length, ltb, none, refl,
  some, sub64, suc, true, zero, ℕ, ◌&&◌, ◌*◌, ◌+◌, ◌<◌, ◌==◌, ◌∙◌, ◌≡◌, ◌≤◌, ◌⊎◌,
}
use hep_os.Memory.Pmm.{
  page_size, max_pages, Bitmap, Pmm, set_used, is_used, Probe, probe, claim, find_run,
  alloc_contiguous,
}
use hep_os.Memory.Pmm.Alloc.{IsSized}
use hep_os.Memory.Pmm.Bits.{
  AllWords, pages_of, AllWords-set_used, length-set_used, is_used-set_used, count_free,
  count_free-set_used,
}

abbrev pub IsClear : Bitmap → ℕ → ℕ → Type 0
IsClear b page n = (q : ℕ) → page ≤ q → q < page + n → is_used q b ≡ false

abbrev pub HasUsed : Bitmap → ℕ → ℕ → Type 0
HasUsed b page n = (q : ℕ) × (page ≤ q) × (q < page + n) × (is_used q b ≡ true)

abbrev Probed : ℕ → ℕ → Bitmap → Probe → Type 0
Probed n page b Probe.clear = ((n ≡ 0) ⊎ (page + n ≤ max_pages)) × IsClear b page n
Probed n page b Probe.busy = HasUsed b page n
Probed n page b Probe.past_end = max_pages < page + n

IsClear-cons :
    (b : Bitmap) (page n : ℕ)
    → is_used page b ≡ false
    → IsClear b (page + 1) n
    → IsClear b page (suc n)
IsClear-cons b page n e h q lo hi = elim (Bool-cases (q == page)) [
  | inl same ↦ rw ((==_iff q page).0 same) e
  | inr other ↦ h q (ground arith) (omega arith)
]

Probed-next :
    (n page : ℕ) (b : Bitmap) (r : Probe)
    → page < max_pages
    → is_used page b ≡ false
    → Probed n (page + 1) b r
    → Probed (suc n) page b r
Probed-next n page b Probe.clear lt e h =
    (inr (elim h.0 [ inl z ↦ omega arith | inr r ↦ omega arith ]), IsClear-cons b page n e h.1)
Probed-next n page b Probe.busy lt e h = (h.0, omega (arith, h.1), omega (arith, h.2), h.3)
Probed-next n page b Probe.past_end lt e h = omega arith

probe-Probed : (n page : ℕ) (b : Bitmap) → Probed n page b (probe n page b)
unfolding probe
probe-Probed zero page b = (inl refl, λ q lo hi. absurd (omega arith))
probe-Probed (suc n) page b = elim (Bool-cases (leb max_pages page)) [
  | inl out ↦ rw out (ground arith)
  | inr below ↦ elim (Bool-cases (is_used page b)) [
    | inl used ↦ rw (below, used) (page, omega arith, omega arith, used)
    | inr free ↦
        rw (below, free)
          (Probed-next n page b (probe n (page + 1) b) (ground arith) free
            (probe-Probed n (page + 1) b))
  ]
]

-- What the outer loop has found, from `i` on.
abbrev Found : ℕ → ℕ → Bitmap → Option ℕ → Type 0
Found i count b none = (j : ℕ) → i ≤ j → j + count ≤ max_pages → HasUsed b j count
Found i count b (some p) =
    (p + count ≤ max_pages) × IsClear b p count × ((j : ℕ) → i ≤ j → j < p → HasUsed b j count)

Found-busy :
    (i count : ℕ) (b : Bitmap) (r : Option ℕ)
    → HasUsed b i count
    → Found (i + 1) count b r
    → Found i count b r
Found-busy i count b none u h = λ j lo hi. elim (Bool-cases (i == j)) [
  | inl same ↦ rw (← (==_iff i j).0 same) u
  | inr other ↦ h j (ground arith) hi
]
Found-busy i count b (some p) u h = (
  h.0,
  h.1,
  λ j lo hi. elim (Bool-cases (i == j)) [
    | inl same ↦ rw (← (==_iff i j).0 same) u
    | inr other ↦ h.2 j (ground arith) hi
  ],
)

Found-step :
    (i count : ℕ) (b : Bitmap) (r : Probe) (rest : Option ℕ)
    → 0 < count
    → Probed count i b r
    → Found (i + 1) count b rest
    → Found i count b (elim r [ Probe.clear ↦ some i | Probe.busy ↦ rest | Probe.past_end ↦ none ])
Found-step i count b Probe.clear rest pos h f =
    (elim h.0 [ inl z ↦ absurd (omega arith) | inr r ↦ r ], h.1, λ j lo hi. absurd (omega arith))
Found-step i count b Probe.busy rest pos h f = Found-busy i count b rest h f
Found-step i count b Probe.past_end rest pos h f = λ j lo hi. absurd (omega arith)

find_run-Found :
    (n i count : ℕ) (b : Bitmap)
    → 0 < count
    → i + n ≡ max_pages
    → Found i count b (find_run n i count b)
unfolding find_run
find_run-Found zero i count b pos e = λ j lo hi. absurd (omega arith)
find_run-Found (suc n) i count b pos e =
    Found-step i count b (probe count i b) (find_run n (i + 1) count b) pos (probe-Probed count i b)
      (find_run-Found n (i + 1) count b pos (omega arith))

-- Claiming a run keeps the size of the bitmap, and sets exactly the bits of the run.
pub record Claims (n page : ℕ) (b b' : Bitmap) : Type 0 where
  pub words : AllWords b'
  pub size : length b' ≡ length b
  pub bits : (q : ℕ) → is_used q b' ≡ (if leb page q && ltb q (page + n) then true else is_used q b)

pub claim-Claims :
    (n page : ℕ) (b : Bitmap)
    → AllWords b
    → page + n ≤ pages_of b
    → Claims n page b (claim n page b)
unfolding claim
claim-Claims zero page b a h = record { words = a; size = refl; bits = λ q. ground arith }
claim-Claims (suc n) page b a h =
    let b' = set_used page b in
    let ih =
      claim-Claims n (page + 1) b' (AllWords-set_used b page a (omega arith))
        (omega (arith, length-set_used b page)) in
    record {
      words = ih.words;
      size = ih.size ∙ length-set_used b page;
      bits = λ q. ground (arith, ih.bits q, is_used-set_used b page q a);
    }

pub count_free-claim :
    (n page : ℕ) (b : Bitmap)
    → AllWords b
    → page + n ≤ pages_of b
    → IsClear b page n
    → count_free (claim n page b) + n ≡ count_free b
unfolding claim
count_free-claim zero page b a h c = omega arith
count_free-claim (suc n) page b a h c = omega (
  arith,
  rw (c page (omega arith) (omega arith)) at (count_free-set_used b page a (omega arith)),
  count_free-claim n (page + 1) (set_used page b) (AllWords-set_used b page a (omega arith))
      (omega (arith, length-set_used b page))
      (λ q lo hi. ground (arith, c q, is_used-set_used b page q a)),
)

-- What one call of `alloc_contiguous` does.
abbrev pub RunAllocated : ℕ → Pmm → Option ℕ × Pmm → Type 0
RunAllocated count s (none, s') =
    (s' ≡ s) × ((i : ℕ) → i + count ≤ max_pages → HasUsed s.bitmap i count)
RunAllocated count s (some addr, s') =
    (i : ℕ) × (addr ≡ i * page_size)
    × (i + count ≤ max_pages)
    × IsClear s.bitmap i count
    × ((j : ℕ) → j < i → HasUsed s.bitmap j count)
    × (s' ≡ record s { bitmap = claim count i s.bitmap; free = sub64 s.free count })
    × Claims count i s.bitmap s'.bitmap

-- For a bitmap of the full size and a count above 0, `alloc_contiguous` returns the address of the
-- first run of that many free pages, marks exactly the pages of that run as used, and takes its length from the free count; or
-- it returns none, changes nothing, and every run of that length holds a used page.
pub alloc_contiguous_lem :
    (count : ℕ) (s : Pmm) → 0 < count → IsSized s → RunAllocated count s (alloc_contiguous count s)
unfolding alloc_contiguous
alloc_contiguous_lem count s pos v =
    go (find_run max_pages 0 count s.bitmap)
      (find_run-Found max_pages 0 count s.bitmap pos (omega arith))
  where
    go :
        (r : Option ℕ)
        → Found 0 count s.bitmap r
        → RunAllocated count s (elim r [
          | none ↦ (none, s)
          | some i ↦ (
            some (i * page_size),
            record s { bitmap = claim count i s.bitmap; free = sub64 s.free count },
          )
        ])
    go none h = (refl, λ i hi. h i (omega arith) hi)
    go (some i) h = (
      i,
      refl,
      h.0,
      h.1,
      λ j lt. h.2 j (omega arith) lt,
      refl,
      claim-Claims count i s.bitmap v.words (omega (arith, h.0, v.size)),
    )
