-- ===== src/HepFs/Blocks.antt =====
-- `alloc_block` of kernel/src/hepfs.rs, on the bitmap of the data blocks.
use hep_os.Prelude.{
  ==_iff, ==_refl, Bool, Bool-cases, Option, arith, false, if◌then◌else◌, inl, inr, none, refl,
  some, suc, true, ℕ, ◌%◌, ◌*◌, ◌+◌, ◌-◌, ◌/◌, ◌<◌, ◌==◌, ◌^◌, ◌∙◌, ◌≡◌, ◌≢◌, ◌≤◌,
}
use hep_os.HepFs.Disk.{
  block_bm_block, block_bm_len, data_block_start, Block, Fs, pure, panic, go_on, ◌>>=◌, ◌>>◌,
  zero_bytes, zero_page, update, write_block,
}
use hep_os.HepFs.Frames.{take_frame_run}
use hep_os.HepFs.Inode.{alloc_block}
use hep_os.HepFs.Bitmap.{bitmap_alloc}
use hep_os.HepFs.Claim.{bits_per_blk, bit_at, IsBitmap, Updated}
use hep_os.HepFs.Alloc.{AllSet, Claimed, bitmap_alloc_lem}

-- The blocks that the bitmap has bits for.
abbrev pub mapped_blocks : ℕ
mapped_blocks = block_bm_len * bits_per_blk

abbrev pub is_taken : ℕ → Fs → Bool
is_taken = bit_at block_bm_block

abbrev pub HasBitmap : Fs → Type 0
HasBitmap = IsBitmap block_bm_block block_bm_len

-- Block `blk` was free, and is taken and zeroed; no other block is touched but the bitmap's.
pub record Fresh (blk : ℕ) (s s' : Fs) : Type 0 where
  pub above : data_block_start ≤ blk
  pub below : blk < mapped_blocks
  pub was_free : is_taken blk s ≡ false
  pub lowest : AllSet block_bm_block 0 blk data_block_start s
  pub taken :
      (q : ℕ) → q < mapped_blocks → is_taken q s' ≡ (if q == blk then true else is_taken q s)
  pub zeroed : s'.disk blk ≡ zero_bytes
  pub others : (n : ℕ) → n ≢ blk → n ≢ block_bm_block + blk / bits_per_blk → s'.disk n ≡ s.disk n
  pub bitmap : HasBitmap s'
  pub same_generation : s'.generation ≡ s.generation

-- The frames that `alloc_block` may need: one for each block of the bitmap, for the second reading of one,
-- and for the zeros.
abbrev pub block_cost : ℕ
block_cost = block_bm_len + 2

-- The result of `alloc_block`; none is the panic on a full disk.
abbrev pub BlockAllocated : Fs → Option (ℕ × Fs) → Type 0
BlockAllocated s none = AllSet block_bm_block 0 mapped_blocks data_block_start s
BlockAllocated s (some (blk, s')) = Fresh blk s s'

-- A write of a data block leaves the bitmap alone.
bit_at-data :
    (q blk : ℕ) (page : Block) (s : Fs)
    → data_block_start ≤ blk
    → q < mapped_blocks
    → is_taken q (record s { disk = update s.disk blk page }) ≡ is_taken q s
bit_at-data q blk page s h lt =
    let off : (blk == block_bm_block + q / bits_per_blk) ≡ false = ground arith in rw off refl

zeroed-Fresh :
    (blk n : ℕ) (s s' : Fs)
    → HasBitmap s
    → data_block_start ≤ blk
    → blk < mapped_blocks
    → is_taken blk s ≡ false
    → AllSet block_bm_block 0 blk data_block_start s
    → Updated block_bm_block blk true s s'
    → Fresh blk s (record s' { disk = update s'.disk blk zero_bytes; frames = n })
zeroed-Fresh blk n s s' v lo hi free low u = record {
  above = lo;
  below = hi;
  was_free = free;
  lowest = low;
  taken = λ q lt. bit_at-data q blk zero_bytes s' lo lt ∙ u.bits q;
  zeroed = rw (==_refl blk) refl;
  others = λ n ne nb. let off : (blk == n) ≡ false = ground arith in rw off (u.others n nb);
  bitmap = λ i lt.
      let off : (blk == block_bm_block + i) ≡ false = ground arith in
      rw off (elim (Bool-cases (i == blk / bits_per_blk)) [
        | inl e ↦ rw ((==_iff i (blk / bits_per_blk)).0 e) u.page
        | inr n ↦ rw (u.others (block_bm_block + i) (λ e. absurd (ground arith))) (v i lt)
      ]);
  same_generation = u.same_generation;
}

-- On a disk whose block bitmap is made of whole pages, and with six frames left, `alloc_block` returns the
-- lowest data block that was free: it is marked as taken and zeroed, every other bit is unchanged, and no
-- other block but that of the bitmap is written. It panics only when every data block is taken.
pub alloc_block_lem :
    (s : Fs) → HasBitmap s → block_cost ≤ s.frames → BlockAllocated s (alloc_block s)
unfolding alloc_block
alloc_block_lem s v h =
    go (bitmap_alloc block_bm_block block_bm_len data_block_start s)
      (bitmap_alloc_lem block_bm_block block_bm_len data_block_start s v (omega arith))
  where
    go :
        (r : Option (Option ℕ × Fs))
        → Claimed block_bm_block 0 mapped_blocks data_block_start (suc block_bm_len) s r
        → BlockAllocated s (
            go_on
              (λ found. elim found [
                | none ↦ panic
                | some blk ↦ do page ← zero_page; write_block blk page; pure (blk % 2 ^ 32)
              ])
              r)
    go none c = absurd c
    go (some (none, s')) c = c.2
    go (some (some blk, s')) (cost, lo, hi, high, free, low, u) =
        let same : blk % 2 ^ 32 ≡ blk = omega arith in
        rw (take_frame_run s' (omega (arith, cost)), same)
          (zeroed-Fresh blk (s'.frames - 1) s s' v high hi free low u)
