-- ===== src/HepFs/Disk.antt =====
-- The disk of kernel/src/hepfs.rs, block by block, and the monad of its operations.
use hep_os.Prelude.{
  Bool, List, Option, add64, false, if◌then◌else◌, none, replicate, some, suc, true, zero, ℕ, ◌/◌,
  ◌==◌,
}

abbrev pub block_size : ℕ
block_size = 4096

abbrev pub inode_bm_block : ℕ
inode_bm_block = 1

abbrev pub block_bm_block : ℕ
block_bm_block = 2

abbrev pub block_bm_len : ℕ
block_bm_len = 4

abbrev pub inode_tbl_block : ℕ
inode_tbl_block = 6

abbrev pub inode_tbl_len : ℕ
inode_tbl_len = 32

abbrev pub data_block_start : ℕ
data_block_start = 38

abbrev pub max_inodes : ℕ
max_inodes = 1024

abbrev pub ptrs_per_indirect : ℕ
ptrs_per_indirect = block_size / 4

abbrev pub Block : Type 0
Block = List ℕ

-- The blocks of the device, the counter GENERATION, and how many frames pmm::alloc_page can still give.
pub record Fs : Type 0 where
  pub disk : ℕ → Block
  pub generation : ℕ
  pub frames : ℕ

abbrev pub with_frames : ℕ → Fs → Fs
with_frames n s = record s { frames = n }

-- An operation; `none` is a panic.
abbrev pub M : Type 0 → Type 0
M A = Fs → Option (A × Fs)

abbrev pub pure : {A : Type 0} → A → M A
pure a s = some (a, s)

abbrev pub panic : {A : Type 0} → M A
panic s = none

-- A panic ends the run; a result goes on with the rest.
abbrev pub go_on : {A B : Type 0} → (A → M B) → Option (A × Fs) → Option (B × Fs)
go_on rest none = none
go_on rest (some (result, s)) = rest result s

infixl 5 ◌>>=◌ ◌>>◌
abbrev pub ◌>>=◌ : {A : Type 0} {B : Type 0} → M A → (A → M B) → M B
first >>= rest = λ s. go_on rest (first s)

abbrev pub ◌>>◌ : {B : Type 0} → M (Unit {0}) → M B → M B
first >> rest = first >>= (λ done. rest)

abbrev pub assert : Bool → M (Unit {0})
assert true s = some (tt, s)
assert false s = none

-- A run of an operation as a condition.
abbrev pub branch : {A : Type 0} → Bool → M A → M A → M A
branch true m k = m
branch false m k = k

-- pmm::alloc_page().expect("hepfs: OOM"): it panics when no frame is left. A Page is never given back.
abbrev pub take_from : ℕ → M (Unit {0})
take_from zero s = none
take_from (suc n) s = some (tt, with_frames n s)

abbrev pub take_frame : M (Unit {0})
take_frame s = take_from s.frames s

-- Page::alloc gives a zeroed page.
abbrev pub zero_bytes : Block
zero_bytes = replicate block_size 0

abbrev pub zero_page : M Block
zero_page = take_frame >> pure zero_bytes

-- The bytes that the controller puts into the page.
abbrev pub stored : ℕ → M Block
stored block s = some (s.disk block, s)

abbrev pub read_block : ℕ → M Block
read_block block = take_frame >> stored block

abbrev pub update : (ℕ → Block) → ℕ → Block → ℕ → Block
update disk block b n = if block == n then b else disk n

abbrev pub write_block : ℕ → Block → M (Unit {0})
write_block block b s = some (tt, record s { disk = update s.disk block b })

unfoldable pub bump_generation : M (Unit {0})
bump_generation s = some (tt, record s { generation = add64 s.generation 1 })
