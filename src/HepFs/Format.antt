-- ===== src/HepFs/Format.antt =====
-- `format` and `probe` of kernel/src/hepfs.rs.
use hep_os.Prelude.{
  Bool, List, replicate, set, sub64, suc, true, zero, ℕ, ◌%◌, ◌*◌, ◌++◌, ◌+◌, ◌-◌, ◌/◌, ◌==◌, ◌^◌,
}
use hep_os.HepFs.Disk.{
  block_size, inode_bm_block, block_bm_block, block_bm_len, inode_tbl_block, inode_tbl_len,
  data_block_start, max_inodes, Block, M, pure, ◌>>=◌, ◌>>◌, zero_page, read_block, write_block,
}
use hep_os.HepFs.Bytes.{slice, splice, le_bytes, from_le}
use hep_os.HepFs.Bitmap.{bitmap_set}
use hep_os.HepFs.Inode.{direct_ptrs, f_dir, root_ino, default_inode, write_inode, alloc_block}

abbrev pub magic : ℕ
magic = 0x48657046_53000001

-- The 40 bytes of the superblock's fields; the u64 fields are aligned to 8.
unfoldable pub encode_superblock : ℕ → List ℕ
encode_superblock total_blocks =
    le_bytes 8 magic
    ++ (le_bytes 4 block_size
        ++ (replicate 4 0
            ++ (le_bytes 8 total_blocks
                ++ (le_bytes 8 (sub64 total_blocks data_block_start)
                    ++ (le_bytes 4 max_inodes ++ le_bytes 4 (max_inodes - 1))))))

unfoldable pub clear_blocks : ℕ → ℕ → Block → M (Unit {0})
clear_blocks zero block empty = pure tt
clear_blocks (suc k) block empty = do write_block block empty; clear_blocks k (block + 1) empty

unfoldable pub mark_blocks : ℕ → ℕ → M (Unit {0})
unfolding bitmap_set
mark_blocks zero b = pure tt
mark_blocks (suc k) b = do bitmap_set block_bm_block b true; mark_blocks k (b + 1)

-- `lba_count` and `lba_size` are the device's.
unfoldable pub format : ℕ → ℕ → M (Unit {0})
unfolding encode_superblock splice clear_blocks mark_blocks bitmap_set alloc_block write_inode
format lba_count lba_size = do
  let total_blocks = lba_count * lba_size % 2 ^ 64 / block_size
  sb_page ← zero_page
  write_block 0 (splice 0 (encode_superblock total_blocks) sb_page)
  empty ← zero_page
  clear_blocks (block_bm_len + 1) inode_bm_block empty
  mark_blocks data_block_start 0
  bitmap_set inode_bm_block 0 true
  clear_blocks inode_tbl_len inode_tbl_block empty
  root_blk ← alloc_block
  write_inode root_ino (record default_inode {
    flags = f_dir;
    nblocks = 1;
    direct = set (replicate direct_ptrs 0) 0 root_blk;
  })
  write_block root_blk empty

unfoldable pub probe : M Bool
unfolding slice
probe = do page ← read_block 0; pure (from_le (slice 0 8 page) == magic)
