-- ===== src/Paging/Walk.antt =====
-- What the processor reads of the tables of kernel/src/paging.rs, and what a mapping changes of it.
use hep_os.Prelude.{
  ==_iff, Bool, Bool-cases, Option, Option-cases, [], ap, arith, if◌then◌else◌, inl, inr, none,
  refl, some, subst, suc, sym, zero, ℕ, ◌%◌, ◌&&◌, ◌*◌, ◌+◌, ◌/◌, ◌<◌, ◌==◌, ◌^◌, ◌∙◌, ◌∷◌, ◌≡◌,
  ◌≤◌,
}
use hep_os.HepFs.Bitmap.{test_bit, with_bit}
use hep_os.Paging.{
  present, write, user, nocache, Table, index, empty_table, get_or_make_user, hang, put_mapping,
  with_bits, map_page_current_user,
}

-- The entry of the page of an address; 0, that is not present, where a table is missing.
abbrev pub entry_of : (k : ℕ) → ℕ → Table k → ℕ
entry_of zero a table = table (index 0 a)
entry_of (suc k) a table = elim (table (index (suc k) a)) [
  | none ↦ 0
  | some next ↦ entry_of k a next
]

-- Where an entry leads a program in ring 3: bits 12 to 51 are the frame's.
unfoldable pub leads : ℕ → ℕ → Option ℕ
unfolding test_bit
leads a e =
    if test_bit e present && test_bit e user
    then some (e / 4096 % 2 ^ 40 * 4096 + a % 4096)
    else none

-- The processor's walk of the tables.
abbrev pub translate : ℕ → Table 3 → Option ℕ
translate a table = leads a (entry_of 3 a table)

abbrev same_indices : ℕ → ℕ → ℕ → Bool
same_indices zero a virt = index 0 a == index 0 virt
same_indices (suc k) a virt = index (suc k) a == index (suc k) virt && same_indices k a virt

abbrev Put : (k : ℕ) → ℕ → ℕ → Table k → ℕ → Option (Table k × ℕ) → Type 0
Put k virt e table frames none = ⊥
Put k virt e table frames (some (table', frames')) =
    (frames ≤ frames' + k)
    × ((a : ℕ) → entry_of k a table' ≡ (if same_indices k a virt then e else entry_of k a table))

entry_of-empty_table : (k a : ℕ) → entry_of k a (empty_table k) ≡ 0
entry_of-empty_table zero a = refl
entry_of-empty_table (suc k) a = refl

-- What an entry says of an address.
abbrev entry_behind : (k : ℕ) → ℕ → Option (Table k) → ℕ
entry_behind k a none = 0
entry_behind k a (some next) = entry_of k a next

hang-Put :
    (k virt e n m : ℕ) (table : Table (suc k)) (next : Table k) (r : Option (Table k × ℕ))
    → n ≤ m + 1
    → ((a : ℕ) → entry_of k a next ≡ entry_behind k a (table (index (suc k) virt)))
    → Put k virt e next m r
    → Put (suc k) virt e table n (hang k (index (suc k) virt) table r)
hang-Put k virt e n m table next none le same p = p
hang-Put k virt e n m table next (some (next', f)) le same p = (
  omega (arith, p.0),
  λ a. elim (Bool-cases (index (suc k) a == index (suc k) virt)) [
    | inl here ↦
        let at = (==_iff (index (suc k) a) (index (suc k) virt)).0 here in
        let old : entry_of k a next ≡ entry_of (suc k) a table =
          same a ∙ ap (λ i. entry_behind k a (table i)) (sym at) in
        rw (here, entry_of) (p.1 a ∙ ap (λ w. if same_indices k a virt then e else w) old)
    | inr other ↦ rw (other, entry_of) refl
  ],
)

pub put_mapping-Put :
    (k virt e : ℕ) (table : Table k) (frames : ℕ)
    → k ≤ frames
    → Put k virt e table frames (put_mapping k virt e table frames)
unfolding put_mapping get_or_make_user
put_mapping-Put zero virt e table frames h = (omega arith, λ a. refl)
put_mapping-Put (suc k) virt e table zero h = absurd (omega arith)
put_mapping-Put (suc k) virt e table (suc n) h =
    let onward : Option (Table k) → Option (Table (suc k) × ℕ) = λ entry.
      elim (get_or_make_user k entry (suc n)) [
        | none ↦ none
        | some (next, frames1) ↦
            hang k (index (suc k) virt) table (put_mapping k virt e next frames1)
      ] in
    elim (Option-cases (table (index (suc k) virt))) [
      | inl missing ↦
          subst (λ entry. Put (suc k) virt e table (suc n) (onward entry)) (sym missing)
            (hang-Put k virt e (suc n) n table (empty_table k)
              (put_mapping k virt e (empty_table k) n) (omega arith)
              (λ a. entry_of-empty_table k a ∙ ap (entry_behind k a) (sym missing))
              (put_mapping-Put k virt e (empty_table k) n (omega arith)))
      | inr (next, found) ↦
          subst (λ entry. Put (suc k) virt e table (suc n) (onward entry)) (sym found)
            (hang-Put k virt e (suc n) (suc n) table next (put_mapping k virt e next (suc n))
              (omega arith) (λ a. ap (entry_behind k a) (sym found))
              (put_mapping-Put k virt e next (suc n) (omega arith)))
    ]

-- The four indices are those of the page, for addresses of 48 bits.
same_indices-page :
    (a virt : ℕ) → a < 2 ^ 48 → virt < 2 ^ 48 → same_indices 3 a virt ≡ (a / 4096 == virt / 4096)
same_indices-page a virt h k = ground arith

-- A mapping of flags 1 and 4 gives the entry of its frame with the bits 0, 1, 2 and 4.
pub bits_of_device :
    (p : ℕ) → with_bits (write ∷ nocache ∷ present ∷ user ∷ []) (p * 4096) ≡ p * 4096 + 23
unfolding with_bit test_bit
bits_of_device p = ground arith

-- One more page is mapped, to frame `p`: the entry of its addresses, and of all others as it was.
abbrev pub Mapped : ℕ → ℕ → Table 3 → ℕ → Option (Table 3 × ℕ) → Type 0
Mapped v p table frames none = ⊥
Mapped v p table frames (some (table', frames')) =
    (frames ≤ frames' + 3)
    × ((a : ℕ)
        → a < 2 ^ 48
        → entry_of 3 a table' ≡ (if a / 4096 == v then p * 4096 + 23 else entry_of 3 a table))

pub map_page_current_user-Mapped :
    (v p : ℕ) (table : Table 3) (frames : ℕ)
    → v < 2 ^ 36
    → 3 ≤ frames
    → Mapped v p table frames
        (map_page_current_user (v * 4096) (p * 4096) (write ∷ nocache ∷ []) table frames)
unfolding map_page_current_user
map_page_current_user-Mapped v p table frames small enough = rw (bits_of_device p) (
    weaken (put_mapping 3 (v * 4096) (p * 4096 + 23) table frames)
      (put_mapping-Put 3 (v * 4096) (p * 4096 + 23) table frames enough))
  where
    weaken :
        (r : Option (Table 3 × ℕ))
        → Put 3 (v * 4096) (p * 4096 + 23) table frames r
        → Mapped v p table frames r
    weaken none c = c
    weaken (some (table', f)) c = (
      c.0,
      λ a h.
          let page : v * 4096 / 4096 ≡ v = omega arith in
          c.1 a
          ∙ ap (λ b. if b then p * 4096 + 23 else entry_of 3 a table)
              (same_indices-page a (v * 4096) h (omega arith) ∙ ap (λ q. a / 4096 == q) page),
    )
