-- ===== src/Memory/Heap/Classes.antt =====
-- The size classes of kernel/src/heap.rs: `class_for` takes the smallest that fits.
use hep_os.Prelude.{
  Bool-cases, List, Option, [], arith, get_or, inl, inr, leb, length, max, min, none, refl, some,
  suc, zero, ℕ, ◌+◌, ◌<◌, ◌∷◌, ◌≡◌, ◌≤◌,
}
use hep_os.Memory.Heap.{size_classes, Layout, position_from, class_for}

abbrev pub Placed : ℕ → List ℕ → Option ℕ → Type 0
Placed min sizes none = (j : ℕ) → j < length sizes → get_or sizes j 0 < min
Placed min sizes (some i) =
    (i < length sizes) × (min ≤ get_or sizes i 0) × ((j : ℕ) → j < i → get_or sizes j 0 < min)

Placed-next :
    (min sz : ℕ) (sizes : List ℕ) (r : Option ℕ)
    → sz < min
    → Placed min sizes r
    → Placed min (sz ∷ sizes) (elim r [ none ↦ none | some i ↦ some (i + 1) ])
Placed-next min sz sizes none lt p = λ j h. below j h
  where
    below : (j : ℕ) → j < suc (length sizes) → get_or (sz ∷ sizes) j 0 < min
    below zero h = lt
    below (suc j) h = p j (omega arith)
Placed-next min sz sizes (some i) lt p =
    (omega (arith, p.0), rw plus p.1, λ j h. below j (omega arith))
  where
    plus : i + 1 ≡ suc i
    plus = omega arith

    below : (j : ℕ) → j < suc i → get_or (sz ∷ sizes) j 0 < min
    below zero h = lt
    below (suc j) h = p.2 j (omega arith)

position_from-Placed : (min : ℕ) (sizes : List ℕ) → Placed min sizes (position_from min sizes)
unfolding position_from
position_from-Placed min [] = λ j h. absurd (omega arith)
position_from-Placed min (sz ∷ sizes) = elim (Bool-cases (leb min sz)) [
  | inl fits ↦ rw fits (omega arith, ground arith, λ j h. absurd (omega arith))
  | inr less ↦ rw less (
      Placed-next min sz sizes (position_from min sizes) (ground arith)
        (position_from-Placed min sizes))
]

-- For a size and an alignment of at most 4096 bytes there is a class whose chunks are large enough
-- for both and for a pointer, and every smaller class is too small for one of the three.
pub class_for_lem :
    (layout : Layout)
    → layout.size ≤ 4096
    → layout.align ≤ 4096
    → (ci : ℕ) × (class_for layout ≡ some ci)
      × (ci < length size_classes)
      × (layout.size ≤ get_or size_classes ci 0)
      × (layout.align ≤ get_or size_classes ci 0)
      × (8 ≤ get_or size_classes ci 0)
      × ((j : ℕ) → j < ci → get_or size_classes j 0 < max (max layout.size layout.align) 8)
unfolding class_for
class_for_lem layout small flat =
    go (position_from need size_classes) (position_from-Placed need size_classes)
  where
    need : ℕ
    need = max (max layout.size layout.align) 8

    go :
        (r : Option ℕ)
        → Placed need size_classes r
        → (ci : ℕ) × (r ≡ some ci)
          × (ci < length size_classes)
          × (layout.size ≤ get_or size_classes ci 0)
          × (layout.align ≤ get_or size_classes ci 0)
          × (8 ≤ get_or size_classes ci 0)
          × ((j : ℕ) → j < ci → get_or size_classes j 0 < need)
    go none p = absurd (omega (arith, p 9 (omega arith)))
    go (some i) p = (i, refl, p.0, omega (arith, p.1), omega (arith, p.1), omega (arith, p.1), p.2)
