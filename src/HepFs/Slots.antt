-- ===== src/HepFs/Slots.antt =====
-- What a directory of kernel/src/hepfs.rs holds under a name, and the disk after one entry is
-- replaced.
use hep_os.Prelude.{
  ==_iff, Bool-cases, List, Option, [], ap, arith, false, get_or, if◌then◌else◌, inl, inr, length,
  none, refl, some, subst, suc, sym, zero, ℕ, ◌%◌, ◌&&◌, ◌*◌, ◌+◌, ◌/◌, ◌<◌, ◌==◌, ◌^◌, ◌∷◌, ◌≡◌,
  ◌≤◌,
}
use hep_os.HepFs.Disk.{block_size, inode_tbl_block, data_block_start, max_inodes, Block, Fs, update}
use hep_os.HepFs.Bytes.{take, drop, slice, from_le, read_u32}
use hep_os.HepFs.Claim.{IsPage}
use hep_os.HepFs.Table.{AllBelow, inode_at}
use hep_os.HepFs.Inode.{read_u32s, decode_inode, inodes_per_blk, read_inode}
use hep_os.HepFs.Dir.{
  entries_per_blk, DirEntry, decode_entry, entry_at, put_entry, used_blocks, is_named, find_in_dir,
}
use hep_os.HepFs.Entries.{IsEntry, entry_at-put_entry}
use hep_os.HepFs.Frames.{Reads}
use hep_os.HepFs.Find.{IsIn, Slot, first_entry, search_blocks_run}

abbrev pub dir_blocks : ℕ → Fs → List ℕ
dir_blocks dir s = used_blocks (inode_at dir s).direct

abbrev pub dir_slot : ℕ → List ℕ → Fs → Slot
dir_slot dir name s = first_entry s.disk (dir_blocks dir s) (is_named name)

abbrev pub slot_ino : Slot → Option ℕ
slot_ino slot = elim slot [ some (blk, i, e) ↦ some e.inode | none ↦ none ]

-- A directory has at most 12 blocks.
length-used_blocks : (ptrs : List ℕ) → length (used_blocks ptrs) ≤ length ptrs
unfolding used_blocks
length-used_blocks [] = omega arith
length-used_blocks (b ∷ bs) = let ih = length-used_blocks bs in ground arith

length-read_u32s : (n off : ℕ) (buf : List ℕ) → length (read_u32s n off buf) ≡ n
length-read_u32s zero off buf = refl
length-read_u32s (suc n) off buf = ap suc (length-read_u32s n (off + 4) buf)

pub length-dir_blocks : (dir : ℕ) (s : Fs) → length (dir_blocks dir s) ≤ 12
unfolding decode_inode
length-dir_blocks dir s =
    let direct = (inode_at dir s).direct in
    let twelve : length direct ≡ 12 =
      length-read_u32s 12 40 (
        slice (dir % inodes_per_blk * 128) 128 (s.disk (inode_tbl_block + dir / inodes_per_blk))) in
    omega (arith, length-used_blocks direct, twelve)

-- The pages that a search of a directory reads: the inode's, and at most 12 more.
abbrev pub search_cost : ℕ
search_cost = 13

pub find_in_dir_run :
    (dir : ℕ) (name : List ℕ) (n : ℕ) (s : Fs)
    → search_cost ≤ n
    → Reads (find_in_dir dir name) (slot_ino (dir_slot dir name s)) n search_cost s
unfolding find_in_dir read_inode
find_in_dir_run dir name zero s h = absurd (omega arith)
find_in_dir_run dir name (suc n) s h =
    let few = length-dir_blocks dir s in
    let (f, e, cost) =
      search_blocks_run (dir_blocks dir s) (is_named name) n s (omega (arith, few)) in
    (f, rw e refl, omega (arith, few, cost))

-- Where the frames suffice, `find_in_dir` gives `found` and writes nothing.
abbrev pub Finds : ℕ → List ℕ → Option ℕ → Fs → Type 0
Finds dir name found s =
    (n : ℕ) → search_cost ≤ n → Reads (find_in_dir dir name) found n search_cost s

pub find_in_dir-Finds :
    (dir : ℕ) (name : List ℕ) (found : Option ℕ) (s : Fs)
    → slot_ino (dir_slot dir name s) ≡ found
    → Finds dir name found s
find_in_dir-Finds dir name found s e n h =
    subst (λ x. Reads (find_in_dir dir name) x n search_cost s) e (find_in_dir_run dir name n s h)

-- The blocks of a directory are whole pages among the data blocks.
abbrev pub IsDirectory : ℕ → Fs → Type 0
IsDirectory dir s = (b : ℕ) → IsIn b (dir_blocks dir s) → (data_block_start ≤ b) × IsPage (s.disk b)

-- The disk after the entry in slot `i` of block `blk` is replaced.
abbrev pub after_put : ℕ → ℕ → DirEntry → Fs → Fs
after_put blk i e s = record s { disk = update s.disk blk (put_entry i e (s.disk blk)) }

pub entry_at-after_put :
    (blk i b j : ℕ) (e : DirEntry) (s : Fs)
    → IsEntry e
    → length (s.disk blk) ≡ block_size
    → i < entries_per_blk
    → j < entries_per_blk
    → entry_at j ((after_put blk i e s).disk b)
      ≡ (if (blk == b) && (i == j) then e else entry_at j (s.disk b))
entry_at-after_put blk i b j e s v size lt lt' = elim (Bool-cases (blk == b)) [
  | inl same ↦
      rw (same, sym ((==_iff blk b).0 same)) (entry_at-put_entry i j e (s.disk blk) v size lt lt')
  | inr other ↦ rw other refl
]

-- The data blocks hold no inodes.
pub inode_at-after_put :
    (dir blk i : ℕ) (e : DirEntry) (s : Fs)
    → dir < max_inodes
    → data_block_start ≤ blk
    → inode_at dir (after_put blk i e s) ≡ inode_at dir s
inode_at-after_put dir blk i e s lt h =
    let off : (blk == inode_tbl_block + dir / inodes_per_blk) ≡ false = ground arith in rw off refl

-- The inode number of an entry of a whole page fits 32 bits.
AllBelow-take : (n : ℕ) (xs : List ℕ) → AllBelow 256 xs → AllBelow 256 (take n xs)
AllBelow-take zero xs a = tt
AllBelow-take (suc n) [] a = tt
AllBelow-take (suc n) (x ∷ xs) a = (a.0, AllBelow-take n xs a.1)

AllBelow-drop : (n : ℕ) (xs : List ℕ) → AllBelow 256 xs → AllBelow 256 (drop n xs)
AllBelow-drop zero xs a = a
AllBelow-drop (suc n) [] a = tt
AllBelow-drop (suc n) (x ∷ xs) a = AllBelow-drop n xs a.1

AllBelow-get_or : (xs : List ℕ) → ((i : ℕ) → get_or xs i 0 < 256) → AllBelow 256 xs
AllBelow-get_or [] h = tt
AllBelow-get_or (x ∷ xs) h = (h 0, AllBelow-get_or xs (λ i. h (suc i)))

from_le-take_lt : (n : ℕ) (xs : List ℕ) → AllBelow 256 xs → from_le (take n xs) < 256 ^ n
from_le-take_lt zero xs a = omega arith
from_le-take_lt (suc n) [] a = omega (arith, from_le-take_lt n [] tt)
from_le-take_lt (suc n) (x ∷ xs) a = omega (arith, from_le-take_lt n xs a.1, a.0)

pub entry_at-inode : (i : ℕ) (buf : Block) → IsPage buf → (entry_at i buf).inode < 2 ^ 32
unfolding decode_entry read_u32 slice
entry_at-inode i buf p =
    let a =
      AllBelow-take 32 (drop (i * 32) buf)
        (AllBelow-drop (i * 32) buf (AllBelow-get_or buf p.bytes)) in
    omega (arith, from_le-take_lt 4 (take 32 (drop (i * 32) buf)) a)
