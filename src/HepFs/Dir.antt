-- ===== src/HepFs/Dir.antt =====
-- Directories of kernel/src/hepfs.rs: entries of 32 bytes, 128 to a block, in the direct blocks of
-- the directory's inode.
use hep_os.Prelude.{
  Bool, List, Option, [], add64, false, get_or, if◌then◌else◌, leb, length, min, none, not,
  replicate, set, some, suc, true, zero, ℕ, ◌%◌, ◌&&◌, ◌*◌, ◌++◌, ◌+◌, ◌/◌, ◌==◌, ◌^◌, ◌∷◌,
}
use hep_os.HepFs.Disk.{
  block_size, Block, M, pure, panic, ◌>>=◌, ◌>>◌, assert, branch, read_block, write_block,
}
use hep_os.HepFs.Bytes.{take, slice, splice, le_bytes, read_u32, padded}
use hep_os.HepFs.Utf8.{valid_utf8}
use hep_os.HepFs.Inode.{direct_ptrs, f_dir, Inode, read_inode, write_inode, alloc_block}

abbrev pub dir_entry_size : ℕ
dir_entry_size = 32

abbrev pub entries_per_blk : ℕ
entries_per_blk = block_size / dir_entry_size

-- `inode` 0 is an unused slot; `name` has 27 bytes.
pub record DirEntry : Type 0 where
  pub inode : ℕ
  pub name_len : ℕ
  pub name : List ℕ

abbrev pub free_entry : DirEntry
free_entry = record { inode = 0; name_len = 0; name = replicate 27 0 }

-- The entry that `add_dir_entry` and `rename` build.
abbrev pub new_entry : ℕ → List ℕ → DirEntry
new_entry ino name_bytes = record {
  inode = ino;
  name_len = length name_bytes % 256;
  name = padded 27 name_bytes;
}

unfoldable pub encode_entry : DirEntry → List ℕ
encode_entry e = le_bytes 4 e.inode ++ (e.name_len ∷ e.name)

unfoldable pub decode_entry : List ℕ → DirEntry
unfolding read_u32 slice
decode_entry buf = record {
  inode = read_u32 0 buf;
  name_len = get_or buf 4 0;
  name = slice 5 27 buf;
}

-- DirEntry::name_str: the name's bytes, or the empty name if they are no UTF-8.
unfoldable pub name_str : DirEntry → List ℕ
unfolding valid_utf8
name_str e = let bytes = take (min e.name_len 27) e.name in if valid_utf8 bytes then bytes else []

abbrev pub same_bytes : List ℕ → List ℕ → Bool
same_bytes [] [] = true
same_bytes (a ∷ xs) (b ∷ ys) = a == b && same_bytes xs ys
same_bytes xs ys = false

abbrev pub entry_at : ℕ → Block → DirEntry
entry_at i buf = decode_entry (slice (i * dir_entry_size) dir_entry_size buf)

abbrev pub put_entry : ℕ → DirEntry → Block → Block
put_entry i e buf = splice (i * dir_entry_size) (encode_entry e) buf

-- for i in 0..ENTRIES_PER_BLK, with `k` rounds left: the first entry that passes the test.
unfoldable pub find_entry : ℕ → ℕ → (DirEntry → Bool) → Block → Option ℕ
unfolding decode_entry slice
find_entry zero i test buf = none
find_entry (suc k) i test buf =
    let rest = find_entry k (i + 1) test buf in if test (entry_at i buf) then some i else rest

-- iter().filter(|&&b| b != 0)
unfoldable pub used_blocks : List ℕ → List ℕ
used_blocks [] = []
used_blocks (b ∷ bs) = if not (b == 0) then b ∷ used_blocks bs else used_blocks bs

-- The entries in use of one block, from entry `i` on.
unfoldable pub entries_from : ℕ → ℕ → Block → List (ℕ × List ℕ)
unfolding decode_entry slice name_str
entries_from zero i buf = []
entries_from (suc k) i buf =
    let e = entry_at i buf in
    if not (e.inode == 0)
    then (e.inode, name_str e) ∷ entries_from k (i + 1) buf
    else entries_from k (i + 1) buf

unfoldable pub list_blocks : List ℕ → M (List (ℕ × List ℕ))
unfolding entries_from
list_blocks [] = pure []
list_blocks (blk ∷ blks) = do
  page ← read_block blk
  out ← list_blocks blks
  pure (entries_from entries_per_blk 0 page ++ out)

unfoldable pub list_dir : ℕ → M (List (ℕ × List ℕ))
unfolding read_inode used_blocks list_blocks
list_dir dir_ino = do
  inode ← read_inode dir_ino
  assert (inode.flags == f_dir)
  list_blocks (used_blocks inode.direct)

-- The block, the slot and the entry of the first entry that passes the test.
unfoldable pub search_blocks : List ℕ → (DirEntry → Bool) → M (Option (ℕ × ℕ × DirEntry))
unfolding find_entry decode_entry slice
search_blocks [] test = pure none
search_blocks (blk ∷ blks) test = do
  page ← read_block blk
  let rest = search_blocks blks test
  elim (find_entry entries_per_blk 0 test page) [
    | some i ↦ pure (some (blk, i, entry_at i page))
    | none ↦ rest
  ]

abbrev pub is_named : List ℕ → DirEntry → Bool
is_named name e = not (e.inode == 0) && same_bytes (name_str e) name

abbrev pub has_inode : ℕ → DirEntry → Bool
has_inode ino e = e.inode == ino

unfoldable pub find_in_dir : ℕ → List ℕ → M (Option ℕ)
unfolding read_inode used_blocks search_blocks name_str
find_in_dir dir_ino name = do
  inode ← read_inode dir_ino
  found ← search_blocks (used_blocks inode.direct) (is_named name)
  pure (elim found [ some (blk, i, e) ↦ some e.inode | none ↦ none ])

-- if inode.direct[slot_blk] == 0 { allocate … }
unfoldable pub ensure_dir_block : ℕ → ℕ → Inode → M Inode
unfolding alloc_block write_inode
ensure_dir_block dir_ino slot_blk inode =
    branch (get_or inode.direct slot_blk 0 == 0)
      (do
        new_blk ← alloc_block
        let inode' = record inode {
          direct = set inode.direct slot_blk new_blk;
          nblocks = (inode.nblocks + 1) % 2 ^ 32;
        }
        write_inode dir_ino inode'
        pure inode')
      (pure inode)

-- for slot_blk in 0..DIRECT_PTRS, with `k` rounds left; when none is left the source panics.
unfoldable pub add_from : ℕ → ℕ → ℕ → DirEntry → Inode → M (Unit {0})
unfolding ensure_dir_block find_entry splice encode_entry write_inode
add_from zero slot_blk dir_ino entry inode = panic
add_from (suc k) slot_blk dir_ino entry inode = do
  inode' ← ensure_dir_block dir_ino slot_blk inode
  let blk = get_or inode'.direct slot_blk 0
  page ← read_block blk
  let rest = add_from k (slot_blk + 1) dir_ino entry inode'
  elim (find_entry entries_per_blk 0 (has_inode 0) page) [
    | none ↦ rest
    | some i ↦ do
      write_block blk (put_entry i entry page)
      write_inode dir_ino (record inode' { size = add64 inode'.size dir_entry_size })
  ]

unfoldable pub add_dir_entry : ℕ → List ℕ → ℕ → M (Unit {0})
unfolding read_inode add_from padded
add_dir_entry dir_ino name ino = do
  inode ← read_inode dir_ino
  assert (leb (length name) 27)
  add_from direct_ptrs 0 dir_ino (new_entry ino name) inode
