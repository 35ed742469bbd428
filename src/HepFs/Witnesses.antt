-- ===== src/HepFs/Witnesses.antt =====
-- A disk of kernel/src/hepfs.rs with a root directory that holds one entry, and the operations on it.
use hep_os.Prelude.{
  &&-split, Bool, Bool-cases, List, [], arith, false, get_or, if◌then◌else◌, inl, inr, length,
  length-append, length-replicate, ltb, ltb→lt, none, refl, replicate, set, some, subst, suc, true,
  zero, ℕ, ◌&&◌, ◌*◌, ◌++◌, ◌+◌, ◌-◌, ◌<◌, ◌==◌, ◌^◌, ◌∷◌, ◌≡◌, ◌≢◌, ◌≤◌,
}
use hep_os.HepFs.Disk.{block_size, Fs}
use hep_os.HepFs.Bytes.{slice, read_u32, padded}
use hep_os.HepFs.Utf8.{valid_utf8}
use hep_os.HepFs.Bitmap.{bitmap_alloc}
use hep_os.HepFs.Inode.{
  direct_ptrs, f_dir, Inode, default_inode, encode_inode, decode_inode, read_inode, write_inode,
  alloc_block,
}
use hep_os.HepFs.Frames.{spent}
use hep_os.HepFs.Claim.{bits_per_blk, IsPage}
use hep_os.HepFs.Alloc.{Claimed, bitmap_alloc_lem}
use hep_os.HepFs.Blocks.{BlockAllocated, alloc_block_lem}
use hep_os.HepFs.Table.{AllBelow, IsInode, write_inode_lem}
use hep_os.HepFs.Dir.{new_entry, encode_entry, used_blocks}
use hep_os.HepFs.Find.{IsIn}
use hep_os.HepFs.Slots.{dir_blocks, IsDirectory}
use hep_os.HepFs.Renamed.{Renamed}
use hep_os.HepFs.Rename.{rename_lem}
use hep_os.HepFs.Ops.{rename}

all_bytes : List ℕ → Bool
all_bytes [] = true
all_bytes (b ∷ bs) = ltb b 256 && all_bytes bs

get_or-page : (bs : List ℕ) (n i : ℕ) → all_bytes bs ≡ true → get_or (bs ++ replicate n 0) i 0 < 256
unfolding all_bytes
get_or-page [] zero i h = omega arith
get_or-page [] (suc n) zero h = omega arith
get_or-page [] (suc n) (suc i) h = get_or-page [] n i h
get_or-page (b ∷ bs) n zero h = ltb→lt b 256 (&&-split (ltb b 256) (all_bytes bs) h).0
get_or-page (b ∷ bs) n (suc i) h = get_or-page bs n i (&&-split (ltb b 256) (all_bytes bs) h).1

padded-IsPage :
    (bs : List ℕ) → length bs ≤ block_size → all_bytes bs ≡ true → IsPage (padded block_size bs)
unfolding padded
padded-IsPage bs h a = record {
  size = omega (
    arith,
    length-append bs (replicate (block_size - length bs) 0),
    length-replicate {A = ℕ} (block_size - length bs) 0,
  );
  bytes = λ i. get_or-page bs (block_size - length bs) i a;
}

abbrev root_inode : Inode
root_inode = record default_inode {
  flags = f_dir;
  nblocks = 1;
  size = 32;
  direct = set (replicate direct_ptrs 0) 0 38;
}

abbrev old_name : List ℕ
old_name = b'a' ∷ b'b' ∷ []

abbrev new_name : List ℕ
new_name = b'c' ∷ []

abbrev sample_bytes : ℕ → List ℕ
sample_bytes n =
    if n == 6
    then encode_inode root_inode
    else if n == 38
    then encode_entry (new_entry 1 old_name)
    else 7 ∷ []

abbrev sample : Fs
sample = record { disk = λ n. padded block_size (sample_bytes n); generation = 0; frames = 64 }

sample_bytes-short : (n : ℕ) → length (sample_bytes n) ≤ block_size
unfolding encode_inode encode_entry padded
sample_bytes-short n = elim (Bool-cases (n == 6)) [
  | inl e ↦ rw e (omega arith)
  | inr a ↦
      rw a (elim (Bool-cases (n == 38)) [ inl e ↦ rw e (omega arith) | inr b ↦ rw b (omega arith) ])
]

sample_bytes-all_bytes : (n : ℕ) → all_bytes (sample_bytes n) ≡ true
unfolding encode_inode encode_entry padded all_bytes
sample_bytes-all_bytes n = elim (Bool-cases (n == 6)) [
  | inl e ↦ rw e refl
  | inr a ↦ rw a (elim (Bool-cases (n == 38)) [ inl e ↦ rw e refl | inr b ↦ rw b refl ])
]

sample-IsPage : (n : ℕ) → IsPage (sample.disk n)
sample-IsPage n = padded-IsPage (sample_bytes n) (sample_bytes-short n) (sample_bytes-all_bytes n)

bitmap_alloc_lem_example : Claimed 2 0 (4 * bits_per_blk) 38 5 sample (bitmap_alloc 2 4 38 sample)
bitmap_alloc_lem_example =
    bitmap_alloc_lem 2 4 38 sample (λ i lt. sample-IsPage (2 + i)) (omega arith)

alloc_block_lem_example : BlockAllocated sample (alloc_block sample)
alloc_block_lem_example = alloc_block_lem sample (λ i lt. sample-IsPage (2 + i)) (omega arith)

root_blocks : dir_blocks 0 sample ≡ 38 ∷ []
unfolding used_blocks decode_inode encode_inode slice padded read_u32
root_blocks = refl

root-IsDirectory : IsDirectory 0 sample
root-IsDirectory b h = elim (subst (IsIn b) root_blocks h) [
  | inl e ↦ (omega arith, sample-IsPage b)
  | inr n ↦ absurd n
]

name_is_utf8 : valid_utf8 new_name ≡ true
unfolding valid_utf8
name_is_utf8 = refl

rename_lem_example : Renamed 0 old_name new_name sample (rename 0 old_name new_name sample)
rename_lem_example =
    rename_lem 0 old_name new_name sample (omega arith) root-IsDirectory name_is_utf8 (omega arith)

-- The run takes the branch that renames.
rename_succeeds :
    elim (rename 0 old_name new_name sample) [ none ↦ false | some (done, s') ↦ done ] ≡ true
unfolding rename encode_inode
rename_succeeds = refl

zeros-AllBelow : (n : ℕ) → AllBelow (2 ^ 32) (replicate n 0)
zeros-AllBelow zero = tt
zeros-AllBelow (suc n) = (omega arith, zeros-AllBelow n)

root_inode-IsInode : IsInode root_inode
root_inode-IsInode = record {
  flags = omega arith;
  size = omega arith;
  nblocks = omega arith;
  ctime = omega arith;
  mtime = omega arith;
  direct = refl;
  pointers = (omega arith, zeros-AllBelow 11);
  indirect = omega arith;
  dindirect = omega arith;
  pad = refl;
}

write_inode_lem_example :
    (s' : Fs) × (write_inode 33 root_inode sample ≡ some (tt, s'))
    × (read_inode 33 s' ≡ some (root_inode, spent s'))
    × ((j : ℕ)
        → j ≢ 33
        → (old : Inode) × (read_inode j sample ≡ some (old, spent sample))
          × (read_inode j s' ≡ some (old, spent s')))
    × (s'.frames ≡ 63)
    × ((n : ℕ) → n ≢ 7 → s'.disk n ≡ sample.disk n)
    × (length (s'.disk 7) ≡ block_size)
write_inode_lem_example =
    write_inode_lem 33 root_inode sample root_inode-IsInode (sample-IsPage 7).size (omega arith)
