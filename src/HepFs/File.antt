-- ===== src/HepFs/File.antt =====
-- File contents of kernel/src/hepfs.rs: writing and reading through direct, indirect and
-- double-indirect blocks.
use hep_os.Prelude.{
  Bool, List, [], false, get_or, if◌then◌else◌, length, ltb, min, not, set, suc, true, zero, ℕ, ◌%◌,
  ◌&&◌, ◌*◌, ◌++◌, ◌+◌, ◌-◌, ◌/◌, ◌==◌, ◌^◌, ◌∷◌,
}
use hep_os.HepFs.Disk.{
  block_size, ptrs_per_indirect, Block, M, pure, panic, ◌>>=◌, ◌>>◌, assert, branch, zero_page,
  read_block, write_block,
}
use hep_os.HepFs.Bytes.{take, drop, splice, read_u32, write_u32}
use hep_os.HepFs.Dir.{used_blocks}
use hep_os.HepFs.Inode.{direct_ptrs, f_file, Inode, read_inode, write_inode, alloc_block}

abbrev pub dindirect_max_blocks : ℕ
dindirect_max_blocks = ptrs_per_indirect * ptrs_per_indirect

abbrev pub is_empty : List ℕ → Bool
is_empty [] = true
is_empty (b ∷ bs) = false

abbrev pub count_block : Inode → Inode
count_block i = record i { nblocks = (i.nblocks + 1) % 2 ^ 32 }

-- The chunk of at most one block that is written next, in a zeroed page.
abbrev pub chunk_page : List ℕ → M Block
chunk_page data_left = do page ← zero_page; pure (splice 0 (take block_size data_left) page)

-- if inode.direct[block_idx] == 0 { … }
unfoldable pub ensure_direct : ℕ → Inode → M Inode
unfolding alloc_block
ensure_direct block_idx inode =
    branch (get_or inode.direct block_idx 0 == 0)
      (do
        b ← alloc_block
        pure (count_block (record inode { direct = set inode.direct block_idx b })))
      (pure inode)

-- Phase 1, with `k` direct pointers left.
unfoldable pub write_direct : ℕ → ℕ → Inode → List ℕ → M (Inode × List ℕ)
unfolding ensure_direct splice
write_direct zero block_idx inode remaining = pure (inode, remaining)
write_direct (suc k) block_idx inode remaining =
    branch (is_empty remaining) (pure (inode, remaining)) (do
      inode' ← ensure_direct block_idx inode
      page ← chunk_page remaining
      write_block (get_or inode'.direct block_idx 0) page
      write_direct k (block_idx + 1) inode' (drop block_size remaining))

-- The block that entry `idx` of a pointer table names, allocated where the entry is 0: the block, the
-- table, the inode, and whether the table has changed.
unfoldable pub ensure_ptr : ℕ → Block → Inode → M (ℕ × Block × Inode × Bool)
unfolding read_u32 write_u32 alloc_block
ensure_ptr idx table inode =
    let existing = read_u32 (idx * 4) table in
    branch (not (existing == 0)) (pure (existing, table, inode, false))
      (do b ← alloc_block; pure (b, write_u32 (idx * 4) b table, count_block inode, true))

-- Phase 2, with `k` entries of the indirect table left.
unfoldable pub write_table : ℕ → ℕ → Block → Inode → List ℕ → M (Block × Inode × List ℕ)
unfolding ensure_ptr splice
write_table zero ind_idx table inode remaining = pure (table, inode, remaining)
write_table (suc k) ind_idx table inode remaining =
    branch (is_empty remaining) (pure (table, inode, remaining)) (do
      (blk, table', inode', fresh) ← ensure_ptr ind_idx table inode
      page ← chunk_page remaining
      write_block blk page
      write_table k (ind_idx + 1) table' inode' (drop block_size remaining))

unfoldable pub ensure_indirect : Inode → M Inode
unfolding alloc_block
ensure_indirect inode =
    branch (inode.indirect == 0)
      (do b ← alloc_block; pure (count_block (record inode { indirect = b }))) (pure inode)

unfoldable pub write_indirect : Inode → List ℕ → M (Inode × List ℕ)
unfolding ensure_indirect write_table
write_indirect inode remaining = branch (is_empty remaining) (pure (inode, remaining)) (do
  inode' ← ensure_indirect inode
  table ← read_block inode'.indirect
  (table', inode'', left) ← write_table ptrs_per_indirect 0 table inode' remaining
  write_block inode''.indirect table'
  pure (inode'', left))

-- if the table has changed, write it back
unfoldable pub flush : ℕ → Block → Bool → M (Unit {0})
flush blk table changed = branch changed (write_block blk table) (pure tt)

-- Phase 3, with `k` of the blocks left that the double-indirect table can reach; `counter` is
-- dindirect_max_blocks - k, and the assertion fails at 0.
unfoldable pub write_double : ℕ → ℕ → Inode → List ℕ → M Inode
unfolding ensure_ptr flush splice
write_double zero counter inode remaining = branch (is_empty remaining) (pure inode) panic
write_double (suc k) counter inode remaining = branch (is_empty remaining) (pure inode) (do
  dind ← read_block inode.dindirect
  (l1_blk, dind', inode', new_l1) ← ensure_ptr (counter / ptrs_per_indirect) dind inode
  flush inode.dindirect dind' new_l1
  l1 ← read_block l1_blk
  (data_blk, l1', inode'', new_data) ← ensure_ptr (counter % ptrs_per_indirect) l1 inode'
  flush l1_blk l1' new_data
  page ← chunk_page remaining
  write_block data_blk page
  write_double k (counter + 1) inode'' (drop block_size remaining))

unfoldable pub ensure_dindirect : Inode → M Inode
unfolding alloc_block
ensure_dindirect inode =
    branch (inode.dindirect == 0)
      (do b ← alloc_block; pure (count_block (record inode { dindirect = b }))) (pure inode)

unfoldable pub write_dindirect : Inode → List ℕ → M Inode
unfolding ensure_dindirect write_double
write_dindirect inode remaining =
    branch (is_empty remaining) (pure inode)
      (do inode' ← ensure_dindirect inode; write_double dindirect_max_blocks 0 inode' remaining)

unfoldable pub write_file : ℕ → List ℕ → M (Unit {0})
unfolding read_inode write_inode write_direct write_indirect write_dindirect
write_file ino contents = do
  inode ← read_inode ino
  assert (inode.flags == f_file)
  (inode1, left1) ← write_direct direct_ptrs 0 inode contents
  (inode2, left2) ← write_indirect inode1 left1
  inode3 ← write_dindirect inode2 left2
  write_inode ino (record inode3 { size = length contents % 2 ^ 64 })

-- The bytes of the blocks named, until `left` bytes are read: the bytes and what is left.
unfoldable pub read_blocks : List ℕ → ℕ → M (List ℕ × ℕ)
read_blocks [] left = pure ([], left)
read_blocks (blk ∷ blks) left = branch (left == 0) (pure ([], left)) (do
  page ← read_block blk
  (out, left') ← read_blocks blks (left - min left block_size)
  pure (take (min left block_size) page ++ out, left'))

-- The entries of a pointer table before its first 0, with `k` left from entry `i` on.
unfoldable pub pointers : ℕ → ℕ → Block → List ℕ
unfolding read_u32
pointers zero i table = []
pointers (suc k) i table =
    let blk = read_u32 (i * 4) table in
    let rest = pointers k (i + 1) table in if blk == 0 then [] else blk ∷ rest

unfoldable pub read_indirect : Inode → ℕ → M (List ℕ × ℕ)
unfolding read_blocks pointers
read_indirect inode left =
    branch (ltb 0 left && not (inode.indirect == 0))
      (do table ← read_block inode.indirect; read_blocks (pointers ptrs_per_indirect 0 table) left)
      (pure ([], left))

unfoldable pub read_tables : List ℕ → ℕ → M (List ℕ × ℕ)
unfolding read_blocks pointers
read_tables [] left = pure ([], left)
read_tables (l1_blk ∷ l1_blks) left = branch (left == 0) (pure ([], left)) (do
  l1 ← read_block l1_blk
  (out, left') ← read_blocks (pointers ptrs_per_indirect 0 l1) left
  (more, left'') ← read_tables l1_blks left'
  pure (out ++ more, left''))

unfoldable pub read_dindirect : Inode → ℕ → M (List ℕ × ℕ)
unfolding read_tables pointers
read_dindirect inode left =
    branch (ltb 0 left && not (inode.dindirect == 0))
      (do dind ← read_block inode.dindirect; read_tables (pointers ptrs_per_indirect 0 dind) left)
      (pure ([], left))

unfoldable pub read_file : ℕ → M (List ℕ)
unfolding read_inode used_blocks read_blocks read_indirect read_dindirect
read_file ino = do
  inode ← read_inode ino
  assert (inode.flags == f_file)
  (out1, left1) ← read_blocks (used_blocks inode.direct) inode.size
  (out2, left2) ← read_indirect inode left1
  (out3, left3) ← read_dindirect inode left2
  pure (out1 ++ (out2 ++ out3))
