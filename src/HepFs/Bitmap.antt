-- ===== src/HepFs/Bitmap.antt =====
-- The bitmaps of kernel/src/hepfs.rs: claiming the first clear bit, and setting or clearing one.
use hep_os.Prelude.{
  Bool, List, Option, [], get_or, if◌then◌else◌, ltb, none, not, set, some, suc, zero, ℕ, ◌%◌, ◌*◌,
  ◌+◌, ◌-◌, ◌/◌, ◌==◌, ◌^◌, ◌∷◌,
}
use hep_os.HepFs.Disk.{block_size, M, pure, ◌>>=◌, ◌>>◌, read_block, write_block}

-- byte & (1 << bit) != 0
unfoldable pub test_bit : ℕ → ℕ → Bool
test_bit byte bit = (byte / 2 ^ bit) % 2 == 1

-- byte | (1 << bit)
unfoldable pub with_bit : ℕ → ℕ → ℕ
unfolding test_bit
with_bit byte bit = if test_bit byte bit then byte else byte + 2 ^ bit

-- byte & !(1 << bit)
unfoldable pub without_bit : ℕ → ℕ → ℕ
unfolding test_bit
without_bit byte bit = if test_bit byte bit then byte - 2 ^ bit else byte

-- for bit in 0..8, with `k` rounds left: the first clear bit whose index is not below `skip`.
unfoldable pub find_bit : ℕ → ℕ → ℕ → ℕ → ℕ → Option ℕ
find_bit zero bit first skip byte = none
find_bit (suc k) bit first skip byte =
    let rest = find_bit k (bit + 1) first skip byte in
    if not (test_bit byte bit) then if ltb (first + bit) skip then rest else some bit else rest

-- for byte in 0..BLOCK_SIZE, from byte `i` on: the byte and the bit found.
unfoldable pub find_byte : List ℕ → ℕ → ℕ → ℕ → Option (ℕ × ℕ)
find_byte [] i first skip = none
find_byte (b ∷ buf) i first skip =
    let rest = find_byte buf (i + 1) first skip in
    if b == 0xFF
    then rest
    else elim (find_bit 8 0 (first + i * 8) skip b) [ some bit ↦ some (i, bit) | none ↦ rest ]

-- for bi in 0..bm_len, with `k` rounds left.
unfoldable pub alloc_from : ℕ → ℕ → ℕ → ℕ → M (Option ℕ)
alloc_from zero bi bm_start skip = pure none
alloc_from (suc k) bi bm_start skip = do
  buf ← read_block (bm_start + bi)
  let rest = alloc_from k (bi + 1) bm_start skip
  elim (find_byte buf 0 (bi * block_size * 8) skip) [
    | none ↦ rest
    | some (byte, bit) ↦ do
      mbuf ← read_block (bm_start + bi)
      write_block (bm_start + bi) (set mbuf byte (with_bit (get_or mbuf byte 0) bit))
      pure (some (bi * block_size * 8 + byte * 8 + bit))
  ]

unfoldable pub bitmap_alloc : ℕ → ℕ → ℕ → M (Option ℕ)
unfolding alloc_from
bitmap_alloc bm_start bm_len skip = alloc_from bm_len 0 bm_start skip

unfoldable pub bitmap_set : ℕ → ℕ → Bool → M (Unit {0})
bitmap_set bm_start idx used = do
  let block = bm_start + idx / (block_size * 8)
  let byte = idx / 8 % block_size
  let bit = idx % 8
  buf ← read_block block
  let old = get_or buf byte 0
  write_block block (set buf byte (if used then with_bit old bit else without_bit old bit))
