-- ===== src/HepFs/Inode.antt =====
-- Inodes of kernel/src/hepfs.rs: their 128 bytes, the inode table, and the allocation of inodes and
-- data blocks.
use hep_os.Prelude.{
  List, [], ltb, none, replicate, some, suc, zero, ℕ, ◌%◌, ◌*◌, ◌++◌, ◌+◌, ◌/◌, ◌^◌, ◌∷◌,
}
use hep_os.HepFs.Disk.{
  block_size, inode_bm_block, block_bm_block, block_bm_len, inode_tbl_block, data_block_start,
  max_inodes, M, pure, panic, ◌>>=◌, ◌>>◌, assert, zero_page, read_block, write_block,
}
use hep_os.HepFs.Bytes.{slice, splice, le_bytes, from_le, read_u32}
use hep_os.HepFs.Bitmap.{bitmap_alloc}

abbrev pub direct_ptrs : ℕ
direct_ptrs = 12

abbrev pub f_free : ℕ
f_free = 0

abbrev pub f_file : ℕ
f_file = 1

abbrev pub f_dir : ℕ
f_dir = 2

abbrev pub root_ino : ℕ
root_ino = 0

-- `direct` has 12 block numbers and `pad` 32 bytes.
pub record Inode : Type 0 where
  pub flags : ℕ
  pub size : ℕ
  pub nblocks : ℕ
  pub ctime : ℕ
  pub mtime : ℕ
  pub direct : List ℕ
  pub indirect : ℕ
  pub dindirect : ℕ
  pub pad : List ℕ

-- Inode::default
abbrev pub default_inode : Inode
default_inode = record {
  flags = 0;
  size = 0;
  nblocks = 0;
  ctime = 0;
  mtime = 0;
  direct = replicate direct_ptrs 0;
  indirect = 0;
  dindirect = 0;
  pad = replicate 32 0;
}

abbrev pub u32s : List ℕ → List ℕ
u32s [] = []
u32s (v ∷ vs) = le_bytes 4 v ++ u32s vs

-- The bytes of a `#[repr(C)] Inode`; the gaps before the two u64 fields are written as zeros.
unfoldable pub encode_inode : Inode → List ℕ
encode_inode i =
    le_bytes 4 i.flags
    ++ (replicate 4 0
        ++ (le_bytes 8 i.size
            ++ (le_bytes 4 i.nblocks
                ++ (replicate 4 0
                    ++ (le_bytes 8 i.ctime
                        ++ (le_bytes 8 i.mtime
                            ++ (u32s i.direct
                                ++ (le_bytes 4 i.indirect
                                    ++ (le_bytes 4 i.dindirect ++ i.pad)))))))))

abbrev pub read_u32s : ℕ → ℕ → List ℕ → List ℕ
read_u32s zero off buf = []
read_u32s (suc n) off buf = read_u32 off buf ∷ read_u32s n (off + 4) buf

unfoldable pub decode_inode : List ℕ → Inode
unfolding read_u32 slice
decode_inode buf = record {
  flags = read_u32 0 buf;
  size = from_le (slice 8 8 buf);
  nblocks = read_u32 16 buf;
  ctime = from_le (slice 24 8 buf);
  mtime = from_le (slice 32 8 buf);
  direct = read_u32s direct_ptrs 40 buf;
  indirect = read_u32 88 buf;
  dindirect = read_u32 92 buf;
  pad = slice 96 32 buf;
}

abbrev pub inodes_per_blk : ℕ
inodes_per_blk = block_size / 128

unfoldable pub read_inode : ℕ → M Inode
unfolding slice decode_inode
read_inode ino = do
  page ← read_block (inode_tbl_block + ino / inodes_per_blk)
  pure (decode_inode (slice (ino % inodes_per_blk * 128) 128 page))

unfoldable pub write_inode : ℕ → Inode → M (Unit {0})
unfolding splice encode_inode
write_inode ino inode = do
  let blk = inode_tbl_block + ino / inodes_per_blk
  page ← read_block blk
  write_block blk (splice (ino % inodes_per_blk * 128) (encode_inode inode) page)

-- Panics when the disk is full, or no frame is left. The number is cast to u32.
unfoldable pub alloc_block : M ℕ
unfolding bitmap_alloc
alloc_block = do
  found ← bitmap_alloc block_bm_block block_bm_len data_block_start
  elim found [
    | none ↦ panic
    | some blk ↦ do page ← zero_page; write_block blk page; pure (blk % 2 ^ 32)
  ]

unfoldable pub alloc_inode : M ℕ
unfolding bitmap_alloc
alloc_inode = do
  found ← bitmap_alloc inode_bm_block 1 0
  elim found [
    | none ↦ panic
    | some n ↦ do let ino = n % 2 ^ 32; assert (ltb ino max_inodes); pure ino
  ]
