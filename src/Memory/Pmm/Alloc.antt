-- ===== src/Memory/Pmm/Alloc.antt =====
-- `alloc_page` of kernel/src/pmm.rs takes the lowest free page, and fails only when none is free.
use hep_os.Prelude.{
  Bool-cases, Option, [], arith, false, get_or, inl, inr, leb, length, ltb, ltb→lt, none, refl,
  some, sub64, suc, sym, true, zero, ℕ, ◌*◌, ◌+◌, ◌-◌, ◌<◌, ◌∙◌, ◌∷◌, ◌≡◌, ◌≤◌,
}
use hep_os.Memory.Pmm.{
  Word, Bitmap, Pmm, page_size, max_pages, set_used, is_used, is_full, trailing_ones, scan,
  alloc_page,
}
use hep_os.Memory.Pmm.Bits.{
  AllWords, pages_of, is_used-cons_low, is_used-cons_high, set_used-cons_low, set_used-cons_high,
}

full-bits : (w : Word) (i : ℕ) → is_full w ≡ true → get_or w i true ≡ true
unfolding is_full
full-bits [] i h = refl
full-bits (b ∷ w) zero h = ground arith
full-bits (b ∷ w) (suc i) h = ground (arith, full-bits w i)

-- In a word that is not full, `trailing_ones` is the index of its lowest clear bit.
ones-clear :
    (w : Word)
    → is_full w ≡ false
    → (trailing_ones w < length w) × (get_or w (trailing_ones w) true ≡ false)
unfolding is_full trailing_ones
ones-clear [] h = cc
ones-clear (true ∷ w) h = ground (arith, ones-clear w h)
ones-clear (false ∷ w) h = (omega arith, refl)

ones-below : (w : Word) (i : ℕ) → i < trailing_ones w → get_or w i true ≡ true
unfolding trailing_ones
ones-below [] i h = refl
ones-below (true ∷ w) zero h = refl
ones-below (true ∷ w) (suc i) h = ones-below w i (omega arith)
ones-below (false ∷ w) i h = absurd (omega arith)

get_or-default : (w : Word) (i : ℕ) → i < length w → get_or w i false ≡ get_or w i true
get_or-default [] i h = absurd (omega arith)
get_or-default (x ∷ w) zero h = refl
get_or-default (x ∷ w) (suc i) h = get_or-default w i (omega arith)

-- What a scan that began at word `i` has found in the words `b`.
abbrev pub Scanned : ℕ → Bitmap → Option (ℕ × Bitmap) → Type 0
Scanned i b none = (q : ℕ) → q < pages_of b → is_used q b ≡ true
Scanned i b (some (page, b')) =
    (k : ℕ) × (page ≡ i * 64 + k)
    × (k < pages_of b)
    × (is_used k b ≡ false)
    × (b' ≡ set_used k b)
    × ((q : ℕ) → q < k → is_used q b ≡ true)

full-low : (w : Word) (b : Bitmap) (q : ℕ) → is_full w ≡ true → q < 64 → is_used q (w ∷ b) ≡ true
full-low w b q f h = is_used-cons_low w b q h ∙ full-bits w q f

used-by-parts :
    (w : Word) (b : Bitmap) (k q : ℕ)
    → is_full w ≡ true
    → ((r : ℕ) → r < k → is_used r b ≡ true)
    → q < 64 + k
    → is_used q (w ∷ b) ≡ true
used-by-parts w b k q f below h = elim (Bool-cases (ltb q 64)) [
  | inl low ↦ full-low w b q f (ltb→lt q 64 low)
  | inr high ↦
      let e : q ≡ 64 + (q - 64) = ground arith in
      rw e (is_used-cons_high w b (q - 64) ∙ below (q - 64) (ground arith))
]

-- A full word is passed over.
Scanned-skip :
    (i : ℕ) (w : Word) (b : Bitmap) (r : Option (ℕ × Bitmap))
    → is_full w ≡ true
    → Scanned (i + 1) b r
    → Scanned i (w ∷ b) (elim r [ none ↦ none | some (p, ws) ↦ some (p, w ∷ ws) ])
Scanned-skip i w b none f h = λ q lt. used-by-parts w b (pages_of b) q f h (omega arith)
Scanned-skip i w b (some (p, ws)) f h = (
  64 + h.0,
  omega (arith, h.1),
  omega (arith, h.2),
  is_used-cons_high w b h.0 ∙ h.3,
  rw (h.4) (sym (set_used-cons_high w b h.0)),
  λ q lt. used-by-parts w b h.0 q f h.5 lt,
)

pub scan-Scanned :
    (i : ℕ) (b : Bitmap) → AllWords b → i * 64 + pages_of b ≤ max_pages → Scanned i b (scan i b)
unfolding scan
scan-Scanned i [] a h = λ q lt. absurd (omega arith)
scan-Scanned i (w ∷ b) a h = elim (Bool-cases (is_full w)) [
  | inl f ↦ rw f (Scanned-skip i w b (scan (i + 1) b) f (scan-Scanned (i + 1) b a.1 (omega arith)))
  | inr f ↦
      let t = trailing_ones w in
      let room : t < 64 = omega (arith, (ones-clear w f).0, a.0) in
      let below : leb max_pages (i * 64 + t) ≡ false = ground arith in
      let clear : get_or w t false ≡ false =
        get_or-default w t (ones-clear w f).0 ∙ (ones-clear w f).1 in
      rw (f, below, clear)
        (
          t,
          refl,
          omega arith,
          is_used-cons_low w b t room ∙ (ones-clear w f).1,
          sym (set_used-cons_low w b t room),
          λ q lt. is_used-cons_low w b q (omega arith) ∙ ones-below w q lt,
        )
]

-- The size of the bitmap never changes: a bit for each page, in 64-bit words.
pub record IsSized (s : Pmm) : Type 0 where
  pub words : AllWords s.bitmap
  pub size : pages_of s.bitmap ≡ max_pages

-- What one call of `alloc_page` does.
abbrev pub Allocated : Pmm → Option ℕ × Pmm → Type 0
Allocated s (none, s') = (s' ≡ s) × ((q : ℕ) → q < max_pages → is_used q s.bitmap ≡ true)
Allocated s (some addr, s') =
    (page : ℕ) × (addr ≡ page * page_size)
    × (page < max_pages)
    × (is_used page s.bitmap ≡ false)
    × ((q : ℕ) → q < page → is_used q s.bitmap ≡ true)
    × (s' ≡ record s { bitmap = set_used page s.bitmap; free = sub64 s.free 1 })

-- For a bitmap of the full size, `alloc_page` either returns the address of the lowest page whose
-- bit is clear, sets that bit, takes 1 from the free count and changes nothing else; or it returns
-- none, changes nothing, and every page is used.
pub alloc_page_lem : (s : Pmm) → IsSized s → Allocated s (alloc_page s)
unfolding alloc_page
alloc_page_lem s v = go (scan 0 s.bitmap) (scan-Scanned 0 s.bitmap v.words (omega arith))
  where
    go :
        (r : Option (ℕ × Bitmap))
        → Scanned 0 s.bitmap r
        → Allocated s (elim r [
          | none ↦ (none, s)
          | some (page, b) ↦
              (some (page * page_size), record s { bitmap = b; free = sub64 s.free 1 })
        ])
    go none h = (refl, λ q lt. h q (omega arith))
    go (some (p, b')) h = (h.0, rw (h.1) (omega arith), omega arith, h.3, h.5, rw (h.4))
