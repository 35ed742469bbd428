-- ===== src/Memory/Heap/Refill.antt =====
-- `alloc` of kernel/src/heap.rs when the class has no free chunk: a fresh page is cut up.
use hep_os.Prelude.{
  ==_iff, ==_refl, Bool-cases, List, [], ap, arith, false, get_or, holds_to, holds_to-lt, inl, inr,
  ltb, ltb→lt, refl, some, subst, suc, sym, zero, ℕ, ◌*◌, ◌+◌, ◌-◌, ◌/◌, ◌<◌, ◌==◌, ◌∙◌, ◌∷◌, ◌≡◌,
  ◌≢◌, ◌≤◌,
}
use hep_os.Memory.Heap.{
  size_classes, Layout, Heap, class_for, phys_to_virt, push_chunk, thread_chunks, refill_with,
  refill, alloc_small, alloc,
}
use hep_os.Memory.Heap.Lists.{Chain, NotIn, Chunks, Holds, put, IsUnlisted, push_chunk-Holds}
use hep_os.Memory.Pmm.{page_size, Pmm, alloc_page}

-- `n` chunks of a page from chunk `j` on, in ascending order, before `rest`.
abbrev pub chunks_from : ℕ → ℕ → ℕ → ℕ → List ℕ → List ℕ
chunks_from base size j zero rest = rest
chunks_from base size j (suc n) rest = (base + j * size) ∷ chunks_from base size (j + 1) n rest

-- None of the chunks 1 to `k` of the page is on a list.
abbrev pub IsFreshPage : ℕ → ℕ → ℕ → Chunks → Type 0
IsFreshPage base size k lists = (j : ℕ) → 1 ≤ j → j ≤ k → IsUnlisted (base + j * size) lists

chunks_from-last :
    (base size j k : ℕ) (rest : List ℕ)
    → chunks_from base size j k ((base + (j + k) * size) ∷ rest)
      ≡ chunks_from base size j (suc k) rest
chunks_from-last base size j zero rest =
    ap (λ m. (base + m * size) ∷ rest) {x = j + 0} {y = j} (omega arith)
chunks_from-last base size j (suc k) rest =
    let e : j + suc k ≡ j + 1 + k = omega arith in
    ap (λ xs. (base + j * size) ∷ xs)
      (ap (λ m. chunks_from base size (j + 1) k ((base + m * size) ∷ rest)) e
        ∙ chunks_from-last base size (j + 1) k rest)

Holds-ext :
    (h : Heap) (lists lists' : Chunks)
    → ((c : ℕ) → lists c ≡ lists' c)
    → Holds h lists
    → Holds h lists'
Holds-ext h lists lists' e v = record {
  size = v.size;
  chain = λ c lt. subst (Chain h.word (get_or h.free_lists c 0)) (e c) (v.chain c lt);
}

IsFreshPage-less :
    (ci base size k : ℕ) (lists : Chunks)
    → 0 < size
    → IsFreshPage base size (suc k) lists
    → IsFreshPage base size k (put ci ((base + suc k * size) ∷ lists ci) lists)
IsFreshPage-less ci base size k lists pos f = λ j lo hi. (
  (f j lo (omega arith)).0,
  λ c lt. elim (Bool-cases (ci == c)) [
    | inl same ↦ rw same (
      apart j hi,
      subst (λ d. NotIn (base + j * size) (lists d)) (sym ((==_iff ci c).0 same))
          ((f j lo (omega arith)).1 c lt),
    )
    | inr other ↦ rw other ((f j lo (omega arith)).1 c lt)
  ],
)
  where
    times : (a b : ℕ) → a < b → a * size < b * size
    times a b lt = let d = b - a - 1 in let e : b ≡ a + d + 1 = omega arith in rw e (omega arith)

    apart : (j : ℕ) → j ≤ k → base + suc k * size ≢ base + j * size
    apart j hi e = absurd (omega (arith, times j (suc k) (omega arith)))

thread_chunks-Holds :
    (k ci size base : ℕ) (h : Heap) (lists : Chunks)
    → 0 < size
    → ci < 10
    → IsFreshPage base size k lists
    → Holds h lists
    → Holds (thread_chunks k ci size base h) (put ci (chunks_from base size 1 k (lists ci)) lists)
unfolding thread_chunks
thread_chunks-Holds zero ci size base h lists pos lt f v =
    Holds-ext h lists (put ci (lists ci) lists)
      (λ c. elim (Bool-cases (ci == c)) [
        | inl same ↦ rw same (ap lists (sym ((==_iff ci c).0 same)))
        | inr other ↦ rw other refl
      ])
      v
thread_chunks-Holds (suc k) ci size base h lists pos lt f v =
    let next = put ci ((base + suc k * size) ∷ lists ci) lists in
    let one =
      push_chunk-Holds ci (base + suc k * size) h lists lt (f (suc k) (omega arith) (omega arith))
        v in
    let all =
      thread_chunks-Holds k ci size base (push_chunk ci (base + suc k * size) h) next pos lt
        (IsFreshPage-less ci base size k lists pos f) one in
    Holds-ext (thread_chunks k ci size base (push_chunk ci (base + suc k * size) h))
      (put ci (chunks_from base size 1 k (next ci)) next)
      (put ci (chunks_from base size 1 (suc k) (lists ci)) lists)
      (λ c. elim (Bool-cases (ci == c)) [
        | inl same ↦ rw (same, ==_refl ci) (merged k)
        | inr other ↦ rw other refl
      ])
      all
  where
    merged :
        (k : ℕ)
        → chunks_from base size 1 k ((base + suc k * size) ∷ lists ci)
          ≡ chunks_from base size 1 (suc k) (lists ci)
    merged k =
        let e : suc k ≡ 1 + k = omega arith in
        ap (λ m. chunks_from base size 1 k ((base + m * size) ∷ lists ci)) e
        ∙ chunks_from-last base size 1 k (lists ci)

thread_chunks-pmm : (k ci size base : ℕ) (h : Heap) → (thread_chunks k ci size base h).pmm ≡ h.pmm
unfolding thread_chunks push_chunk
thread_chunks-pmm zero ci size base h = refl
thread_chunks-pmm (suc k) ci size base h =
    thread_chunks-pmm k ci size base (push_chunk ci (base + suc k * size) h)

class_pos : (ci : ℕ) → ci < 10 → 0 < get_or size_classes ci 0
unfolding holds_to
class_pos ci lt =
    ltb→lt 0 (get_or size_classes ci 0)
      (holds_to-lt (λ c. ltb 0 (get_or size_classes c 0)) 10 refl ci lt)

refill_run :
    (ci phys : ℕ) (pmm' : Pmm) (h : Heap)
    → alloc_page h.pmm ≡ (some phys, pmm')
    → refill ci h ≡ (
      phys_to_virt phys h,
      thread_chunks
          (page_size / get_or size_classes ci 0 - 1)
          ci
          (get_or size_classes ci 0)
          (phys_to_virt phys h)
          (record h { pmm = pmm' }),
    )
unfolding refill refill_with
refill_run ci phys pmm' h page = ap (refill_with ci h) page

-- For a size from 1 to 4096 bytes whose class has no free chunk, when a physical page is left and
-- no chunk of it is on a list, `alloc` returns the start of that page, and the other chunks of the
-- page become the free list of the class, in ascending order; no other list changes.
pub refill_lem :
    (ci phys : ℕ) (pmm' : Pmm) (layout : Layout) (h : Heap) (lists : Chunks)
    → 0 < layout.size
    → layout.size ≤ 4096
    → class_for layout ≡ some ci
    → ci < 10
    → lists ci ≡ []
    → Holds h lists
    → alloc_page h.pmm ≡ (some phys, pmm')
    → IsFreshPage
        (phys_to_virt phys h)
        (get_or size_classes ci 0)
        (page_size / get_or size_classes ci 0 - 1)
        lists
    → ((alloc layout h).0 ≡ phys_to_virt phys h)
      × Holds (alloc layout h).1 (
          put ci
            (chunks_from
              (phys_to_virt phys h)
              (get_or size_classes ci 0)
              1
              (page_size / get_or size_classes ci 0 - 1)
              [])
            lists)
      × ((alloc layout h).1.pmm ≡ pmm')
unfolding alloc alloc_small
refill_lem ci phys pmm' layout h lists pos small e lt free v page fresh =
    let size = get_or size_classes ci 0 in
    let k = page_size / size - 1 in
    let base = phys_to_virt phys h in
    let b : (layout.size == 0) ≡ false = ground arith in
    let c : ltb 4096 layout.size ≡ false = ground arith in
    let head : get_or h.free_lists ci 0 ≡ 0 =
      subst (Chain h.word (get_or h.free_lists ci 0)) free (v.chain ci lt) in
    let h' = record h { pmm = pmm' } in
    let all =
      thread_chunks-Holds k ci size base h' lists (class_pos ci lt) lt fresh
        (record { size = v.size; chain = v.chain }) in
    rw (b, c, e, head, refill_run ci phys pmm' h page)
      (
        refl,
        subst
            (λ xs.
              Holds (thread_chunks k ci size base h') (put ci (chunks_from base size 1 k xs) lists))
            free all,
        thread_chunks-pmm k ci size base h',
      )
