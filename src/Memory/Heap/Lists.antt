-- ===== src/Memory/Heap/Lists.antt =====
-- The free lists of kernel/src/heap.rs as lists of addresses, and what `alloc` and `dealloc` do to
-- them.
use hep_os.Prelude.{
  ==_iff, ==_refl, Bool-cases, List, [], arith, false, get_or, get_or-set, if◌then◌else◌, inl, inr,
  length, length-set, ltb, refl, set, some, subst, ℕ, ◌<◌, ◌==◌, ◌∙◌, ◌∷◌, ◌≡◌, ◌≢◌, ◌≤◌,
}
use hep_os.Memory.Heap.{Layout, Heap, class_for, push_chunk, alloc_small, alloc, dealloc}

-- The list that starts at `head` in memory.
abbrev pub Chain : (ℕ → ℕ) → ℕ → List ℕ → Type 0
Chain word head [] = head ≡ 0
Chain word head (x ∷ xs) = (head ≡ x) × (x ≢ 0) × Chain word (word x) xs

abbrev pub NotIn : ℕ → List ℕ → Type 0
NotIn p [] = Unit
NotIn p (x ∷ xs) = (x ≢ p) × NotIn p xs

-- The free chunks of every class.
abbrev pub Chunks : Type 0
Chunks = ℕ → List ℕ

pub record Holds (h : Heap) (lists : Chunks) : Type 0 where
  pub size : length h.free_lists ≡ 10
  pub chain : (c : ℕ) → c < 10 → Chain h.word (get_or h.free_lists c 0) (lists c)

abbrev pub put : ℕ → List ℕ → Chunks → Chunks
put ci xs lists c = if ci == c then xs else lists c

-- A chunk that no list holds.
abbrev pub IsUnlisted : ℕ → Chunks → Type 0
IsUnlisted p lists = (p ≢ 0) × ((c : ℕ) → c < 10 → NotIn p (lists c))

Chain-write :
    (word : ℕ → ℕ) (head p v : ℕ) (xs : List ℕ)
    → NotIn p xs
    → Chain word head xs
    → Chain (λ a. if a == p then v else word a) head xs
Chain-write word head p v [] n c = c
Chain-write word head p v (x ∷ xs) n c =
    let off : (x == p) ≡ false = ground (arith, n.0) in
    (c.0, c.1, rw off (Chain-write word (word x) p v xs n.1 c.2))

pub push_chunk-Holds :
    (ci p : ℕ) (h : Heap) (lists : Chunks)
    → ci < 10
    → IsUnlisted p lists
    → Holds h lists
    → Holds (push_chunk ci p h) (put ci (p ∷ lists ci) lists)
unfolding push_chunk
push_chunk-Holds ci p h lists lt fresh v = record {
  size = length-set h.free_lists ci p ∙ v.size;
  chain = λ c l. elim (Bool-cases (ci == c)) [
    | inl same ↦
        let e = (==_iff ci c).0 same in
        rw (get_or-set h.free_lists ci c p 0 (omega (arith, v.size)), same)
          (
            refl,
            fresh.0,
            rw (==_refl p) (
                Chain-write h.word (get_or h.free_lists ci 0) p (get_or h.free_lists ci 0)
                  (lists ci) (fresh.1 ci lt) (v.chain ci lt)),
          )
    | inr other ↦
        rw (get_or-set h.free_lists ci c p 0 (omega (arith, v.size)), other)
          (Chain-write h.word (get_or h.free_lists c 0) p (get_or h.free_lists ci 0) (lists c)
            (fresh.1 c l) (v.chain c l))
  ];
}

pop-Holds :
    (ci x : ℕ) (xs : List ℕ) (h : Heap) (lists : Chunks)
    → ci < 10
    → lists ci ≡ x ∷ xs
    → Holds h lists
    → (get_or h.free_lists ci 0 ≡ x)
      × (x ≢ 0)
      × Holds (record h { free_lists = set h.free_lists ci (h.word x) }) (put ci xs lists)
pop-Holds ci x xs h lists lt e v =
    let c = subst (Chain h.word (get_or h.free_lists ci 0)) e (v.chain ci lt) in
    (
      c.0,
      c.1,
      record {
        size = length-set h.free_lists ci (h.word x) ∙ v.size;
        chain = λ d l. elim (Bool-cases (ci == d)) [
          | inl same ↦
              rw (get_or-set h.free_lists ci d (h.word x) 0 (omega (arith, v.size)), same) c.2
          | inr other ↦
              rw (get_or-set h.free_lists ci d (h.word x) 0 (omega (arith, v.size)), other)
                (v.chain d l)
        ];
      },
    )

-- For a size from 1 to 4096 bytes with class `ci`, and a chunk that is on no free list, `dealloc`
-- puts the chunk at the front of the list of its class and changes no other list and no page.
pub dealloc_lem :
    (ptr ci : ℕ) (layout : Layout) (h : Heap) (lists : Chunks)
    → 0 < layout.size
    → layout.size ≤ 4096
    → class_for layout ≡ some ci
    → ci < 10
    → IsUnlisted ptr lists
    → Holds h lists
    → Holds (dealloc ptr layout h) (put ci (ptr ∷ lists ci) lists)
      × ((dealloc ptr layout h).pmm ≡ h.pmm)
unfolding dealloc push_chunk
dealloc_lem ptr ci layout h lists pos small e lt fresh v =
    let a : (ptr == 0) ≡ false = ground (arith, fresh.0) in
    let b : (layout.size == 0) ≡ false = ground arith in
    let c : ltb 4096 layout.size ≡ false = ground arith in
    rw (a, b, c, e) (push_chunk-Holds ci ptr h lists lt fresh v, refl)

-- For a size from 1 to 4096 bytes whose class has a free chunk, `alloc` takes the first one off the
-- list of its class and changes no other list and no page.
pub alloc_lem :
    (ci x : ℕ) (xs : List ℕ) (layout : Layout) (h : Heap) (lists : Chunks)
    → 0 < layout.size
    → layout.size ≤ 4096
    → class_for layout ≡ some ci
    → ci < 10
    → lists ci ≡ x ∷ xs
    → Holds h lists
    → ((alloc layout h).0 ≡ x)
      × Holds (alloc layout h).1 (put ci xs lists)
      × ((alloc layout h).1.pmm ≡ h.pmm)
unfolding alloc alloc_small
alloc_lem ci x xs layout h lists pos small e lt full v =
    let p = pop-Holds ci x xs h lists lt full v in
    let b : (layout.size == 0) ≡ false = ground arith in
    let c : ltb 4096 layout.size ≡ false = ground arith in
    let d : (x == 0) ≡ false = ground (arith, p.1) in rw (b, c, e, p.0, d) (refl, p.2, refl)
