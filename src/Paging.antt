-- ===== src/Paging.antt =====
-- The page tables of user processes in kernel/src/paging.rs. A table of level 0 has the entries of pages, and
-- one of level k + 1 has tables of level k; an entry holds the table it points to, in place of its address, and has
-- the bits PRESENT, WRITE and USER. So no frame serves as two tables.
pub mod Walk
use hep_os.Prelude.{
  List, Option, [], if◌then◌else◌, none, some, suc, zero, ℕ, ◌%◌, ◌*◌, ◌++◌, ◌+◌, ◌/◌, ◌==◌, ◌^◌,
  ◌∷◌,
}
use hep_os.HepFs.Bitmap.{test_bit, with_bit}

-- The flags, by the place of their bit.
abbrev pub present : ℕ
present = 0

abbrev pub write : ℕ
write = 1

abbrev pub user : ℕ
user = 2

abbrev pub nocache : ℕ
nocache = 4

-- The entries of 512 pages, or 512 entries that are present or not.
abbrev pub Table : ℕ → Type 0
Table zero = ℕ → ℕ
Table (suc k) = ℕ → Option (Table k)

-- (virt >> (12 + 9 * k)) & 0x1FF
abbrev pub index : ℕ → ℕ → ℕ
index k virt = virt / 2 ^ (12 + 9 * k) % 512

-- A page of zeros.
abbrev pub empty_table : (k : ℕ) → Table k
empty_table zero = λ i. 0
empty_table (suc k) = λ i. none

-- The table behind an entry, and how many frames pmm::alloc_page can still give; a missing table takes one,
-- and the source panics when there is none.
unfoldable pub get_or_make_user : (k : ℕ) → Option (Table k) → ℕ → Option (Table k × ℕ)
get_or_make_user k (some table) frames = some (table, frames)
get_or_make_user k none zero = none
get_or_make_user k none (suc frames) = some (empty_table k, frames)

abbrev pub put_index : {A : Type 0} → (ℕ → A) → ℕ → A → ℕ → A
put_index table idx e i = if i == idx then e else table i

-- The table one level up, with the table of entry `idx` as it is now.
abbrev pub hang : (k : ℕ) → ℕ → Table (suc k) → Option (Table k × ℕ) → Option (Table (suc k) × ℕ)
hang k idx table none = none
hang k idx table (some (next, frames)) = some (put_index table idx (some next), frames)

-- get_or_make_user on each level down to 0, where the entry is written.
unfoldable pub put_mapping : (k : ℕ) → ℕ → ℕ → Table k → ℕ → Option (Table k × ℕ)
unfolding get_or_make_user
put_mapping zero virt e table frames = some (put_index table (index 0 virt) e, frames)
put_mapping (suc k) virt e table frames =
    let idx = index (suc k) virt in
    elim (get_or_make_user k (table idx) frames) [
      | none ↦ none
      | some (next, frames1) ↦ hang k idx table (put_mapping k virt e next frames1)
    ]

-- value | (1 << bit) | …
abbrev pub with_bits : List ℕ → ℕ → ℕ
with_bits [] value = value
with_bits (bit ∷ bits) value = with_bits bits (with_bit value bit)

-- `flags` are the places of the bits that are set.
unfoldable pub map_page_current_user : ℕ → ℕ → List ℕ → Table 3 → ℕ → Option (Table 3 × ℕ)
unfolding put_mapping with_bit
map_page_current_user virt phys flags =
    put_mapping 3 virt (with_bits (flags ++ (present ∷ user ∷ [])) phys)
