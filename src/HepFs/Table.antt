-- ===== src/HepFs/Table.antt =====
-- The inode table of kernel/src/hepfs.rs: the 128 bytes of an inode, and reading what was written.
use hep_os.Prelude.{
  ==_iff, ==_refl, Bool-cases, List, [], ap, arith, false, inl, inr, length, length-append, ltb,
  refl, some, subst, sym, ℕ, ◌%◌, ◌*◌, ◌++◌, ◌+◌, ◌-◌, ◌/◌, ◌<◌, ◌==◌, ◌^◌, ◌∙◌, ◌∷◌, ◌≡◌, ◌≢◌, ◌≤◌,
}
use hep_os.HepFs.Disk.{block_size, inode_tbl_block, Fs, update}
use hep_os.HepFs.Frames.{spent, take_frame_run}
use hep_os.HepFs.Bytes.{take, drop, slice, splice, le_bytes, read_u32}
use hep_os.HepFs.Slices.{
  take-all, drop-append, drop-drop, length-le_bytes, from_le-le_bytes, length-splice, slice-splice,
  slice-splice_before, slice-splice_after,
}
use hep_os.HepFs.Inode.{
  direct_ptrs, Inode, u32s, encode_inode, read_u32s, decode_inode, inodes_per_blk, read_inode,
  write_inode,
}

abbrev pub AllBelow : ℕ → List ℕ → Type 0
AllBelow bound [] = Unit
AllBelow bound (v ∷ vs) = (v < bound) × AllBelow bound vs

-- The fields fit their types.
pub record IsInode (i : Inode) : Type 0 where
  pub flags : i.flags < 2 ^ 32
  pub size : i.size < 2 ^ 64
  pub nblocks : i.nblocks < 2 ^ 32
  pub ctime : i.ctime < 2 ^ 64
  pub mtime : i.mtime < 2 ^ 64
  pub direct : length i.direct ≡ direct_ptrs
  pub pointers : AllBelow (2 ^ 32) i.direct
  pub indirect : i.indirect < 2 ^ 32
  pub dindirect : i.dindirect < 2 ^ 32
  pub pad : length i.pad ≡ 32

length-u32s : (vs : List ℕ) → length (u32s vs) ≡ 4 * length vs
length-u32s [] = refl
length-u32s (v ∷ vs) =
    omega (arith, length-append (le_bytes 4 v) (u32s vs), length-le_bytes 4 v, length-u32s vs)

-- The bytes from the direct pointers on.
abbrev tail_bytes : Inode → List ℕ
tail_bytes i = u32s i.direct ++ (le_bytes 4 i.indirect ++ (le_bytes 4 i.dindirect ++ i.pad))

length-encode_inode : (i : Inode) → IsInode i → length (encode_inode i) ≡ 128
unfolding encode_inode
length-encode_inode i v = omega (
  arith,
  length-append (u32s i.direct) (le_bytes 4 i.indirect ++ (le_bytes 4 i.dindirect ++ i.pad)),
  length-u32s i.direct,
  v.direct,
  v.pad,
)

read_u32s-u32s :
    (vs : List ℕ) (off : ℕ) (buf after : List ℕ)
    → AllBelow (2 ^ 32) vs
    → drop off buf ≡ u32s vs ++ after
    → read_u32s (length vs) off buf ≡ vs
unfolding read_u32 slice
read_u32s-u32s [] off buf after b e = refl
read_u32s-u32s (v ∷ vs) off buf after b e =
    let next : drop (off + 4) buf ≡ u32s vs ++ after = sym (drop-drop 4 off buf) ∙ ap (drop 4) e in
    rw (e, read_u32s-u32s vs (off + 4) buf after b.1 next)
      (ap (λ w. w ∷ vs) (from_le-le_bytes 4 v (omega (arith, b.0))))

-- Behind the direct pointers.
drop-tail :
    (i : Inode) (k : ℕ)
    → IsInode i
    → drop (88 + k) (encode_inode i)
      ≡ drop k (le_bytes 4 i.indirect ++ (le_bytes 4 i.dindirect ++ i.pad))
unfolding encode_inode
drop-tail i k v =
    let rest = le_bytes 4 i.indirect ++ (le_bytes 4 i.dindirect ++ i.pad) in
    let a = drop-drop (48 + k) 40 (encode_inode i) in
    let size = length-u32s i.direct in
    let b = drop-append (48 + k) (u32s i.direct) rest (omega (arith, v.direct)) in
    let c : 40 + (48 + k) ≡ 88 + k = omega arith in
    let e : 48 + k - length (u32s i.direct) ≡ k = omega (arith, v.direct) in
    sym (ap (λ n. drop n (encode_inode i)) c) ∙ sym a ∙ b ∙ ap (λ n. drop n rest) e

-- An inode whose fields fit is read back from its bytes.
pub decode_inode-encode_inode : (i : Inode) → IsInode i → decode_inode (encode_inode i) ≡ i
unfolding encode_inode decode_inode slice read_u32
decode_inode-encode_inode i v =
    let d =
      read_u32s-u32s i.direct 40 (encode_inode i)
        (le_bytes 4 i.indirect ++ (le_bytes 4 i.dindirect ++ i.pad)) v.pointers refl in
    let d' : read_u32s 12 40 (encode_inode i) ≡ i.direct =
      subst (λ n. read_u32s n 40 (encode_inode i) ≡ i.direct) v.direct d in
    let t0 = drop-tail i 0 v in
    let t4 = drop-tail i 4 v in
    let t8 = drop-tail i 8 v in
    let p : take 32 i.pad ≡ i.pad = ap (λ n. take n i.pad) (sym v.pad) ∙ take-all i.pad in
    rw
      (
        d',
        t0,
        t4,
        t8,
        p,
        from_le-le_bytes 4 i.flags (omega (arith, v.flags)),
        from_le-le_bytes 8 i.size (omega (arith, v.size)),
        from_le-le_bytes 4 i.nblocks (omega (arith, v.nblocks)),
        from_le-le_bytes 8 i.ctime (omega (arith, v.ctime)),
        from_le-le_bytes 8 i.mtime (omega (arith, v.mtime)),
        from_le-le_bytes 4 i.indirect (omega (arith, v.indirect)),
        from_le-le_bytes 4 i.dindirect (omega (arith, v.dindirect)),
      )
      refl

-- The inode that the table holds, and the table after a write.
abbrev pub inode_at : ℕ → Fs → Inode
inode_at ino s =
    decode_inode
      (slice (ino % inodes_per_blk * 128) 128 (s.disk (inode_tbl_block + ino / inodes_per_blk)))

abbrev pub after_write : ℕ → Inode → Fs → Fs
after_write ino inode s =
    let blk = inode_tbl_block + ino / inodes_per_blk in
    record s {
      disk =
          update s.disk blk (splice (ino % inodes_per_blk * 128) (encode_inode inode) (s.disk blk));
    }

pub read_inode_run :
    (ino : ℕ) (s : Fs) → 0 < s.frames → read_inode ino s ≡ some (inode_at ino s, spent s)
unfolding read_inode
read_inode_run ino s h = rw (take_frame_run s h) refl

pub write_inode_run :
    (ino : ℕ) (inode : Inode) (s : Fs)
    → 0 < s.frames
    → write_inode ino inode s ≡ some (tt, spent (after_write ino inode s))
unfolding write_inode
write_inode_run ino inode s h = rw (take_frame_run s h) refl

pub inode_at_self :
    (ino : ℕ) (inode : Inode) (s : Fs)
    → IsInode inode
    → length (s.disk (inode_tbl_block + ino / inodes_per_blk)) ≡ block_size
    → inode_at ino (after_write ino inode s) ≡ inode
inode_at_self ino inode s v size =
    let blk = inode_tbl_block + ino / inodes_per_blk in
    let len = length-encode_inode inode v in
    let off = ino % inodes_per_blk * 128 in
    let back : slice off 128 (splice off (encode_inode inode) (s.disk blk)) ≡ encode_inode inode =
      subst (λ n. slice off n (splice off (encode_inode inode) (s.disk blk)) ≡ encode_inode inode)
        len (slice-splice off (encode_inode inode) (s.disk blk) (omega arith)) in
    rw (==_refl blk, back) (decode_inode-encode_inode inode v)

pub inode_at_other :
    (ino j : ℕ) (inode : Inode) (s : Fs)
    → IsInode inode
    → length (s.disk (inode_tbl_block + ino / inodes_per_blk)) ≡ block_size
    → j ≢ ino
    → inode_at j (after_write ino inode s) ≡ inode_at j s
inode_at_other ino j inode s v size ne =
    let blk = inode_tbl_block + ino / inodes_per_blk in
    let len = length-encode_inode inode v in
    let off = ino % inodes_per_blk * 128 in
    let off' = j % inodes_per_blk * 128 in
    elim (Bool-cases (blk == inode_tbl_block + j / inodes_per_blk)) [
      | inr n ↦ rw n refl
      | inl e ↦
          let same = (==_iff blk (inode_tbl_block + j / inodes_per_blk)).0 e in
          rw (e, sym same)
            (elim (Bool-cases (ltb off' off)) [
              | inl below ↦ ap decode_inode (
                  slice-splice_before off' 128 off (encode_inode inode) (s.disk blk) (ground arith)
                    (omega arith))
              | inr above ↦ ap decode_inode (
                  slice-splice_after off' 128 off (encode_inode inode) (s.disk blk) (ground arith)
                    (omega arith))
            ])
    ]

-- Where two frames are left, after `write_inode`, for an inode whose fields fit and a table block of 4096
-- bytes, `read_inode` gives that inode back, and every other inode as it was before; only that block is
-- written. Each call takes one frame.
pub write_inode_lem :
    (ino : ℕ) (inode : Inode) (s : Fs)
    → IsInode inode
    → length (s.disk (inode_tbl_block + ino / inodes_per_blk)) ≡ block_size
    → 2 ≤ s.frames
    → (s' : Fs) × (write_inode ino inode s ≡ some (tt, s'))
      × (read_inode ino s' ≡ some (inode, spent s'))
      × ((j : ℕ)
          → j ≢ ino
          → (old : Inode) × (read_inode j s ≡ some (old, spent s))
            × (read_inode j s' ≡ some (old, spent s')))
      × (s'.frames ≡ s.frames - 1)
      × ((n : ℕ) → n ≢ inode_tbl_block + ino / inodes_per_blk → s'.disk n ≡ s.disk n)
      × (length (s'.disk (inode_tbl_block + ino / inodes_per_blk)) ≡ block_size)
write_inode_lem ino inode s v size two =
    let s' = spent (after_write ino inode s) in
    let one : 0 < s.frames = omega arith in
    let left : 0 < s.frames - 1 = omega arith in
    let blk = inode_tbl_block + ino / inodes_per_blk in
    (
      s',
      write_inode_run ino inode s one,
      read_inode_run ino s' left ∙ ap (λ i. some (i, spent s')) (inode_at_self ino inode s v size),
      λ j ne. (
        inode_at j s,
        read_inode_run j s one,
        read_inode_run j s' left
            ∙ ap (λ i. some (i, spent s')) (inode_at_other ino j inode s v size ne),
      ),
      refl,
      λ n ne. let off : (blk == n) ≡ false = ground arith in rw off refl,
      rw (==_refl blk) (
          length-splice (ino % inodes_per_blk * 128) (encode_inode inode) (s.disk blk)
            (omega (arith, length-encode_inode inode v))
          ∙ size),
    )
