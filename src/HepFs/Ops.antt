-- ===== src/HepFs/Ops.antt =====
-- The public operations of kernel/src/hepfs.rs.
use hep_os.Prelude.{
  Bool, List, Option, [], false, if◌then◌else◌, length, ltb, none, not, replicate, reverse, set,
  some, true, ℕ, ◌==◌, ◌||◌, ◌∷◌,
}
use hep_os.HepFs.Disk.{
  inode_bm_block, block_bm_block, ptrs_per_indirect, M, pure, ◌>>=◌, ◌>>◌, branch, stored,
  read_block, write_block, bump_generation,
}
use hep_os.HepFs.Bytes.{splice, padded}
use hep_os.HepFs.Bitmap.{bitmap_set}
use hep_os.HepFs.Dir.{
  free_entry, new_entry, encode_entry, name_str, put_entry, used_blocks, list_dir, search_blocks,
  is_named, has_inode, find_in_dir, add_dir_entry,
}
use hep_os.HepFs.File.{is_empty, pointers}
use hep_os.HepFs.Inode.{
  direct_ptrs, f_free, f_file, f_dir, root_ino, Inode, default_inode, read_inode, write_inode,
  alloc_block, alloc_inode,
}

-- path.split('/').filter(|s| !s.is_empty()); `part` is the part under way, reversed.
unfoldable pub split_path : List ℕ → List ℕ → List (List ℕ)
split_path part [] = if is_empty part then [] else reverse part ∷ []
split_path part (c ∷ cs) =
    let next = split_path [] cs in
    let longer = split_path (c ∷ part) cs in
    if c == b'/' then if is_empty part then next else reverse part ∷ next else longer

unfoldable pub walk : ℕ → List (List ℕ) → M (Option ℕ)
unfolding find_in_dir
walk ino [] = pure (some ino)
walk ino (part ∷ parts) = do
  found ← find_in_dir ino part
  elim found [ none ↦ pure none | some next ↦ walk next parts ]

unfoldable pub lookup : List ℕ → M (Option ℕ)
unfolding walk split_path
lookup path = walk root_ino (split_path [] path)

unfoldable pub create_file : ℕ → List ℕ → M ℕ
unfolding bump_generation alloc_inode write_inode add_dir_entry
create_file parent name = do
  bump_generation
  ino ← alloc_inode
  write_inode ino (record default_inode { flags = f_file })
  add_dir_entry parent name ino
  pure ino

unfoldable pub create_dir : ℕ → List ℕ → M ℕ
unfolding bump_generation alloc_inode alloc_block write_inode add_dir_entry
create_dir parent name = do
  bump_generation
  ino ← alloc_inode
  blk ← alloc_block
  write_inode ino (record default_inode {
    flags = f_dir;
    nblocks = 1;
    direct = set (replicate direct_ptrs 0) 0 blk;
  })
  add_dir_entry parent name ino
  pure ino

unfoldable pub free_blocks : List ℕ → M (Unit {0})
unfolding bitmap_set
free_blocks [] = pure tt
free_blocks (blk ∷ blks) = do bitmap_set block_bm_block blk false; free_blocks blks

unfoldable pub free_indirect : ℕ → M (Unit {0})
unfolding pointers free_blocks
free_indirect indirect = branch (indirect == 0) (pure tt) (do
  table ← read_block indirect
  free_blocks (pointers ptrs_per_indirect 0 table)
  bitmap_set block_bm_block indirect false)

unfoldable pub free_tables : List ℕ → M (Unit {0})
unfolding pointers free_blocks
free_tables [] = pure tt
free_tables (l1_blk ∷ l1_blks) = do
  l1 ← read_block l1_blk
  free_blocks (pointers ptrs_per_indirect 0 l1)
  bitmap_set block_bm_block l1_blk false
  free_tables l1_blks

unfoldable pub free_dindirect : ℕ → M (Unit {0})
unfolding pointers free_tables
free_dindirect dindirect = branch (dindirect == 0) (pure tt) (do
  dind ← read_block dindirect
  free_tables (pointers ptrs_per_indirect 0 dind)
  bitmap_set block_bm_block dindirect false)

-- The first entry with the inode is wiped, in the page that the search has read; whether there was one.
unfoldable pub wipe_entry : ℕ → ℕ → M Bool
unfolding read_inode used_blocks search_blocks splice encode_entry
wipe_entry parent_ino ino = do
  parent ← read_inode parent_ino
  found ← search_blocks (used_blocks parent.direct) (has_inode ino)
  elim found [
    | none ↦ pure false
    | some (blk, i, e) ↦ do
      page ← stored blk
      write_block blk (put_entry i free_entry page)
      pure true
  ]

-- Whether a directory still lists something; a file does not.
unfoldable pub is_busy : ℕ → Inode → M Bool
unfolding list_dir
is_busy ino inode =
    branch (inode.flags == f_dir)
      (do entries ← list_dir ino; pure (elim entries [ [] ↦ false | e ∷ es ↦ true ])) (pure false)

unfoldable pub remove_inode : ℕ → ℕ → M Bool
unfolding read_inode is_busy used_blocks free_blocks free_indirect free_dindirect bitmap_set
    write_inode wipe_entry
remove_inode parent_ino ino = do
  inode ← read_inode ino
  branch (ino == root_ino) (pure false) (do
    busy ← is_busy ino inode
    branch busy (pure false) (do
      free_blocks (used_blocks inode.direct)
      free_indirect inode.indirect
      free_dindirect inode.dindirect
      bitmap_set inode_bm_block ino false
      write_inode ino (record default_inode { flags = f_free })
      wiped ← wipe_entry parent_ino ino
      pure true))

unfoldable pub remove : ℕ → List ℕ → M Bool
unfolding bump_generation find_in_dir remove_inode
remove parent_ino name = do
  bump_generation
  found ← find_in_dir parent_ino name
  elim found [ none ↦ pure false | some ino ↦ remove_inode parent_ino ino ]

-- The entry is changed in the page that the search has read.
unfoldable pub rename_entry : ℕ → List ℕ → List ℕ → M Bool
unfolding read_inode used_blocks search_blocks name_str splice encode_entry padded
rename_entry parent_ino old_name new_name = do
  parent ← read_inode parent_ino
  found ← search_blocks (used_blocks parent.direct) (is_named old_name)
  elim found [
    | none ↦ pure false
    | some (blk, i, e) ↦ do
      page ← stored blk
      write_block blk (put_entry i (new_entry e.inode new_name) page)
      pure true
  ]

abbrev pub is_found : Option ℕ → Bool
is_found none = false
is_found (some ino) = true

unfoldable pub rename : ℕ → List ℕ → List ℕ → M Bool
unfolding bump_generation find_in_dir rename_entry
rename parent_ino old_name new_name = do
  bump_generation
  taken ← find_in_dir parent_ino new_name
  branch (is_found taken || ltb 27 (length new_name)) (pure false)
      (rename_entry parent_ino old_name new_name)

unfoldable pub move_entry : ℕ → ℕ → List ℕ → M Bool
unfolding bump_generation find_in_dir wipe_entry add_dir_entry
move_entry from_parent to_parent name = do
  bump_generation
  branch (from_parent == to_parent) (pure false) (do
    taken ← find_in_dir to_parent name
    branch (is_found taken) (pure false) (do
      found ← find_in_dir from_parent name
      elim found [
        | none ↦ pure false
        | some ino ↦ do
          removed ← wipe_entry from_parent ino
          branch (not removed) (pure false) (do add_dir_entry to_parent name ino; pure true)
      ]))

unfoldable pub stat : ℕ → M (Bool × ℕ)
unfolding read_inode
stat ino = do inode ← read_inode ino; pure (inode.flags == f_dir, inode.size)
