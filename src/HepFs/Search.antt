-- ===== src/HepFs/Search.antt =====
-- The search of `bitmap_alloc` (kernel/src/hepfs.rs) through one block of a bitmap.
use hep_os.Prelude.{
  ==_iff, Bool, Bool-cases, List, Option, [], arith, false, get_or, inl, inr, length, ltb, ltb→lt,
  none, refl, some, subst, suc, sym, true, zero, ℕ, ◌%◌, ◌*◌, ◌+◌, ◌-◌, ◌/◌, ◌<◌, ◌==◌, ◌∙◌, ◌∷◌,
  ◌≡◌, ◌≤◌, ◌⊎◌,
}
use hep_os.HepFs.Bits.{test_bit-full}
use hep_os.HepFs.Bitmap.{test_bit, find_bit, find_byte}

-- A bit that the search passes over: it is set, or its index is below `skip`.
abbrev pub Passed : ℕ → ℕ → ℕ → ℕ → Type 0
Passed byte bit first skip = (test_bit byte bit ≡ true) ⊎ (first + bit < skip)

abbrev pub FoundBit : ℕ → ℕ → ℕ → ℕ → Option ℕ → Type 0
FoundBit byte bit first skip none = (j : ℕ) → bit ≤ j → j < 8 → Passed byte j first skip
FoundBit byte bit first skip (some r) =
    (bit ≤ r)
    × (r < 8)
    × (test_bit byte r ≡ false)
    × (skip ≤ first + r)
    × ((j : ℕ) → bit ≤ j → j < r → Passed byte j first skip)

FoundBit-pass :
    (byte bit first skip : ℕ) (r : Option ℕ)
    → Passed byte bit first skip
    → FoundBit byte (bit + 1) first skip r
    → FoundBit byte bit first skip r
FoundBit-pass byte bit first skip none p f = λ j lo hi. elim (Bool-cases (bit == j)) [
  | inl e ↦ subst (λ k. Passed byte k first skip) ((==_iff bit j).0 e) p
  | inr n ↦ f j (ground arith) hi
]
FoundBit-pass byte bit first skip (some r) p f = (
  omega (arith, f.0),
  f.1,
  f.2,
  f.3,
  λ j lo hi. elim (Bool-cases (bit == j)) [
    | inl e ↦ subst (λ k. Passed byte k first skip) ((==_iff bit j).0 e) p
    | inr n ↦ f.4 j (ground arith) hi
  ],
)

find_bit-FoundBit :
    (k byte bit first skip : ℕ)
    → bit + k ≡ 8
    → FoundBit byte bit first skip (find_bit k bit first skip byte)
unfolding find_bit
find_bit-FoundBit zero byte bit first skip e = λ j lo hi. absurd (omega arith)
find_bit-FoundBit (suc k) byte bit first skip e =
    let ih = find_bit-FoundBit k byte (bit + 1) first skip (omega arith) in
    elim (Bool-cases (test_bit byte bit)) [
      | inl on ↦
          rw on
            (FoundBit-pass byte bit first skip (find_bit k (bit + 1) first skip byte) (inl on) ih)
      | inr clear ↦ rw clear (elim (Bool-cases (ltb (first + bit) skip)) [
        | inl low ↦ rw low (
            FoundBit-pass byte bit first skip (find_bit k (bit + 1) first skip byte)
              (inr (ltb→lt _ _ low)) ih)
        | inr high ↦
            rw high (omega arith, omega arith, clear, ground arith, λ j lo hi. absurd (omega arith))
      ])
    ]

-- Bit `q` of a run of bytes.
abbrev pub buf_bit : List ℕ → ℕ → Bool
buf_bit buf q = test_bit (get_or buf (q / 8) 0) (q % 8)

abbrev pub PassedAt : List ℕ → ℕ → ℕ → ℕ → Type 0
PassedAt buf q first skip = (buf_bit buf q ≡ true) ⊎ (first + q < skip)

-- `first` is the index of the first bit of `buf`, and `i` the place of its first byte in the block.
abbrev pub FoundByte : List ℕ → ℕ → ℕ → ℕ → Option (ℕ × ℕ) → Type 0
FoundByte buf i first skip none = (q : ℕ) → q < length buf * 8 → PassedAt buf q first skip
FoundByte buf i first skip (some (p, b)) =
    (r : ℕ) × (p ≡ i + r)
    × (r < length buf)
    × (b < 8)
    × (buf_bit buf (r * 8 + b) ≡ false)
    × (skip ≤ first + (r * 8 + b))
    × ((q : ℕ) → q < r * 8 + b → PassedAt buf q first skip)

buf_bit-head : (b : ℕ) (buf : List ℕ) (q : ℕ) → q < 8 → buf_bit (b ∷ buf) q ≡ test_bit b q
buf_bit-head b buf q lt =
    let a : q / 8 ≡ 0 = omega arith in let c : q % 8 ≡ q = omega arith in rw (a, c) refl

buf_bit-tail : (b : ℕ) (buf : List ℕ) (q : ℕ) → buf_bit (b ∷ buf) (q + 8) ≡ buf_bit buf q
buf_bit-tail b buf q =
    let a : (q + 8) / 8 ≡ suc (q / 8) = omega arith in
    let c : (q + 8) % 8 ≡ q % 8 = omega arith in rw (a, c) refl

PassedAt-cons :
    (b : ℕ) (buf : List ℕ) (first skip n : ℕ)
    → ((j : ℕ) → j < 8 → Passed b j first skip)
    → ((q : ℕ) → q < n → PassedAt buf q (first + 8) skip)
    → (q : ℕ) → q < n + 8
    → PassedAt (b ∷ buf) q first skip
PassedAt-cons b buf first skip n head tail q lt = elim (Bool-cases (ltb q 8)) [
  | inl below ↦ elim (head q (ltb→lt q 8 below)) [
    | inl on ↦ inl (buf_bit-head b buf q (ltb→lt q 8 below) ∙ on)
    | inr low ↦ inr low
  ]
  | inr past ↦
      let q' = q - 8 in
      let e : q ≡ q' + 8 = ground arith in
      elim (tail q' (ground arith)) [
        | inl on ↦ inl (rw e (buf_bit-tail b buf q' ∙ on))
        | inr low ↦ inr (omega arith)
      ]
]

FoundByte-skip :
    (b : ℕ) (buf : List ℕ) (i first skip : ℕ) (found : Option (ℕ × ℕ))
    → ((j : ℕ) → j < 8 → Passed b j first skip)
    → FoundByte buf (i + 1) (first + 8) skip found
    → FoundByte (b ∷ buf) i first skip found
FoundByte-skip b buf i first skip none head f =
    λ q lt. PassedAt-cons b buf first skip (length buf * 8) head f q (omega arith)
FoundByte-skip b buf i first skip (some (p, c)) head (r, e, lt, small, clear, above, f) =
    let place : suc r * 8 + c ≡ (r * 8 + c) + 8 = omega arith in
    (
      suc r,
      omega arith,
      omega arith,
      small,
      rw place (buf_bit-tail b buf (r * 8 + c) ∙ clear),
      omega arith,
      λ q lo. PassedAt-cons b buf first skip (r * 8 + c) head f q (omega arith),
    )

FoundByte-here :
    (b : ℕ) (buf : List ℕ) (i first skip c : ℕ)
    → FoundBit b 0 first skip (some c)
    → FoundByte (b ∷ buf) i first skip (some (i, c))
FoundByte-here b buf i first skip c (lo, hi, clear, above, f) =
    let here : 0 * 8 + c ≡ c = omega arith in
    (
      0,
      omega arith,
      omega arith,
      hi,
      rw here (buf_bit-head b buf c hi ∙ clear),
      omega arith,
      λ q lt. elim (f q (omega arith) (omega arith)) [
        | inl on ↦ inl (buf_bit-head b buf q (omega arith) ∙ on)
        | inr low ↦ inr low
      ],
    )

pub find_byte-FoundByte :
    (buf : List ℕ) (i first base skip : ℕ)
    → first ≡ base + i * 8
    → FoundByte buf i first skip (find_byte buf i base skip)
unfolding find_byte
find_byte-FoundByte [] i first base skip e = λ q lt. absurd (omega arith)
find_byte-FoundByte (b ∷ buf) i first base skip e =
    let ih = find_byte-FoundByte buf (i + 1) (first + 8) base skip (omega arith) in
    elim (Bool-cases (b == 0xFF)) [
      | inl full ↦ rw full (
          FoundByte-skip b buf i first skip (find_byte buf (i + 1) base skip)
            (λ j lt. inl (rw ((==_iff b 0xFF).0 full) (test_bit-full j lt))) ih)
      | inr other ↦
          rw (other, sym e)
            (search (find_bit 8 0 first skip b) (find_bit-FoundBit 8 b 0 first skip refl) ih)
    ]
  where
    search :
        (found : Option ℕ)
        → FoundBit b 0 first skip found
        → FoundByte buf (i + 1) (first + 8) skip (find_byte buf (i + 1) base skip)
        → FoundByte
            (b ∷ buf)
            i
            first
            skip
            (elim found [ some bit ↦ some (i, bit) | none ↦ find_byte buf (i + 1) base skip ])
    search none f ih =
        FoundByte-skip b buf i first skip (find_byte buf (i + 1) base skip)
          (λ j lt. f j (omega arith) lt) ih
    search (some c) f ih = FoundByte-here b buf i first skip c f
