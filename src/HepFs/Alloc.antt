-- ===== src/HepFs/Alloc.antt =====
-- `bitmap_alloc` and `alloc_block` of kernel/src/hepfs.rs take the first bit that is clear.
use hep_os.Prelude.{
  Bool-cases, Option, arith, false, get_or, inl, inr, ltb, ltb→lt, none, refl, set, some, subst,
  suc, true, zero, ℕ, ◌%◌, ◌*◌, ◌+◌, ◌-◌, ◌/◌, ◌<◌, ◌∙◌, ◌≡◌, ◌≤◌,
}
use hep_os.HepFs.Bitmap.{with_bit, find_byte, alloc_from, bitmap_alloc}
use hep_os.HepFs.Claim.{
  bits_per_blk, bit_at, IsPage, IsBitmap, Updated, after_set, Updated-frames, after_set-Updated,
}
use hep_os.HepFs.Disk.{
  block_size, Fs, with_frames, M, pure, ◌>>=◌, ◌>>◌, read_block, update, write_block,
}
use hep_os.HepFs.Search.{buf_bit, PassedAt, FoundByte, find_byte-FoundByte}

-- Every bit from `lo` on and below `hi` is set, but for those below `skip`.
abbrev pub AllSet : ℕ → ℕ → ℕ → ℕ → Fs → Type 0
AllSet bm_start lo hi skip s = (q : ℕ) → lo ≤ q → q < hi → skip ≤ q → bit_at bm_start q s ≡ true

-- The result of a search of the bits from `lo` on and below `hi`: it never panics, and takes at most
-- `cost` frames.
abbrev pub Claimed : ℕ → ℕ → ℕ → ℕ → ℕ → Fs → Option (Option ℕ × Fs) → Type 0
Claimed bm_start lo hi skip cost s none = ⊥
Claimed bm_start lo hi skip cost s (some (none, s')) =
    (s' ≡ with_frames s'.frames s) × (s.frames ≤ s'.frames + cost) × AllSet bm_start lo hi skip s
Claimed bm_start lo hi skip cost s (some (some idx, s')) =
    (s.frames ≤ s'.frames + cost)
    × (lo ≤ idx)
    × (idx < hi)
    × (skip ≤ idx)
    × (bit_at bm_start idx s ≡ false)
    × AllSet bm_start lo idx skip s
    × Updated bm_start idx true s s'

AllSet-join :
    (bm_start lo mid hi skip : ℕ) (s : Fs)
    → AllSet bm_start lo mid skip s
    → AllSet bm_start mid hi skip s
    → AllSet bm_start lo hi skip s
AllSet-join bm_start lo mid hi skip s a b q l h k = elim (Bool-cases (ltb q mid)) [
  | inl below ↦ a q l (ltb→lt q mid below) k
  | inr past ↦ b q (ground arith) h k
]

-- A search that goes on from `mid` with one frame fewer, behind bits that are all set.
Claimed-skip :
    (bm_start lo mid hi skip cost n : ℕ) (s : Fs) (r : Option (Option ℕ × Fs))
    → lo ≤ mid
    → AllSet bm_start lo mid skip s
    → Claimed bm_start mid hi skip cost (with_frames n s) r
    → Claimed bm_start lo hi skip (suc cost) (with_frames (suc n) s) r
Claimed-skip bm_start lo mid hi skip cost n s none le a c = c
Claimed-skip bm_start lo mid hi skip cost n s (some (none, s')) le a c =
    (c.0, omega (arith, c.1), AllSet-join bm_start lo mid hi skip s a c.2)
Claimed-skip bm_start lo mid hi skip cost n s (some (some idx, s')) le a c = (
  omega (arith, c.0),
  omega (arith, c.1),
  c.2,
  c.3,
  c.4,
  AllSet-join bm_start lo mid idx skip s a c.5,
  Updated-frames bm_start idx (suc n) s'.frames true (with_frames n s) s' c.6,
)

-- Bit `q` of block `bi` of the bitmap.
bit_at-block :
    (bm_start bi q : ℕ) (s : Fs)
    → q < bits_per_blk
    → bit_at bm_start (bi * bits_per_blk + q) s ≡ buf_bit (s.disk (bm_start + bi)) q
bit_at-block bm_start bi q s lt =
    let a : (bi * bits_per_blk + q) / bits_per_blk ≡ bi = omega arith in
    let b : (bi * bits_per_blk + q) / 8 % block_size ≡ q / 8 = omega arith in
    let c : (bi * bits_per_blk + q) % 8 ≡ q % 8 = omega arith in rw (a, b, c) refl

-- What the search of one block shows of the bits of the whole map.
AllSet-block :
    (bm_start bi n skip : ℕ) (s : Fs)
    → n ≤ bits_per_blk
    → ((q : ℕ) → q < n → PassedAt (s.disk (bm_start + bi)) q (bi * block_size * 8) skip)
    → AllSet bm_start (bi * bits_per_blk) (bi * bits_per_blk + n) skip s
AllSet-block bm_start bi n skip s le f q l h k =
    let r = q - bi * bits_per_blk in
    let e : q ≡ bi * bits_per_blk + r = omega arith in
    elim (f r (omega arith)) [
      | inl on ↦ rw e (bit_at-block bm_start bi r s (omega arith) ∙ on)
      | inr low ↦ absurd (omega arith)
    ]

-- The write that claims a bit is that of `bitmap_set`.
claim_page :
    (bm_start bi r b n : ℕ) (s : Fs)
    → r < block_size
    → b < 8
    → record s {
      disk =
          update s.disk
            (bm_start + bi)
            (set (s.disk (bm_start + bi)) r (with_bit (get_or (s.disk (bm_start + bi)) r 0) b));
      frames = n;
    }
      ≡ with_frames n (after_set bm_start (bi * block_size * 8 + r * 8 + b) true s)
claim_page bm_start bi r b n s h k =
    let idx = bi * block_size * 8 + r * 8 + b in
    let x : idx / bits_per_blk ≡ bi = omega arith in
    let y : idx / 8 % block_size ≡ r = omega arith in
    let z : idx % 8 ≡ b = omega arith in rw (x, y, z) refl

-- Block `bi` is searched first, and `rest` is the run of the other blocks.
abbrev claim_found : ℕ → ℕ → M (Option ℕ) → Option (ℕ × ℕ) → M (Option ℕ)
claim_found bm_start bi rest found = elim found [
  | none ↦ rest
  | some (byte, bit) ↦ do
    mbuf ← read_block (bm_start + bi)
    write_block (bm_start + bi) (set mbuf byte (with_bit (get_or mbuf byte 0) bit))
    pure (some (bi * block_size * 8 + byte * 8 + bit))
]

claim_found-Claimed :
    (bm_start bi hi skip cost n : ℕ) (s : Fs) (rest : M (Option ℕ)) (found : Option (ℕ × ℕ))
    → (bi + 1) * bits_per_blk ≤ hi
    → 0 < n
    → 0 < cost
    → IsPage (s.disk (bm_start + bi))
    → FoundByte (s.disk (bm_start + bi)) 0 (bi * block_size * 8) skip found
    → Claimed bm_start
        ((bi + 1) * bits_per_blk)
        hi
        skip
        cost
        (with_frames n s)
        (rest (with_frames n s))
    → Claimed bm_start
        (bi * bits_per_blk)
        hi
        skip
        (suc cost)
        (with_frames (suc n) s)
        (claim_found bm_start bi rest found (with_frames n s))
claim_found-Claimed bm_start bi hi skip cost n s rest none le more pos page f c =
    Claimed-skip bm_start (bi * bits_per_blk) ((bi + 1) * bits_per_blk) hi skip cost n s
      (rest (with_frames n s)) (omega arith)
      (subst (λ mid. AllSet bm_start (bi * bits_per_blk) mid skip s) (omega arith)
        (AllSet-block bm_start bi bits_per_blk skip s (omega arith)
          (λ q lt. f q (omega (arith, page.size)))))
      c
claim_found-Claimed bm_start bi hi skip cost zero s rest (some x) le more pos page f c =
    absurd (omega arith)
claim_found-Claimed bm_start bi hi skip cost (suc n) s rest (some (p, b)) le more pos page
      (r, e, lt, small, clear, above, f) c =
    let inside : r < block_size = omega (arith, page.size) in
    let here : p ≡ r = omega arith in
    let idx = bi * block_size * 8 + r * 8 + b in
    let same : idx ≡ bi * bits_per_blk + (r * 8 + b) = omega arith in
    let a : idx / bits_per_blk ≡ bi = omega arith in
    rw (here, claim_page bm_start bi r b n s inside small)
      (
        omega arith,
        omega arith,
        omega arith,
        omega arith,
        rw same (bit_at-block bm_start bi (r * 8 + b) s (omega arith) ∙ clear),
        rw same (AllSet-block bm_start bi (r * 8 + b) skip s (omega arith) f),
        Updated-frames bm_start idx (suc (suc n)) n true s (after_set bm_start idx true s)
            (after_set-Updated bm_start idx true s (rw a page)),
      )

alloc_from-Claimed :
    (k bi hi bm_start skip n : ℕ) (s : Fs)
    → hi ≡ bi + k
    → k < n
    → IsBitmap bm_start hi s
    → Claimed bm_start
        (bi * bits_per_blk)
        (hi * bits_per_blk)
        skip
        (suc k)
        (with_frames n s)
        (alloc_from k bi bm_start skip (with_frames n s))
unfolding alloc_from
alloc_from-Claimed zero bi hi bm_start skip n s e h v =
    (refl, omega arith, λ q l h t. absurd (omega arith))
alloc_from-Claimed (suc k) bi hi bm_start skip zero s e h v = absurd (omega arith)
alloc_from-Claimed (suc k) bi hi bm_start skip (suc n) s e h v =
    claim_found-Claimed bm_start bi (hi * bits_per_blk) skip (suc k) n s
      (alloc_from k (bi + 1) bm_start skip)
      (find_byte (s.disk (bm_start + bi)) 0 (bi * block_size * 8) skip) (omega arith) (omega arith)
      (omega arith) (v bi (omega arith))
      (find_byte-FoundByte (s.disk (bm_start + bi)) 0 (bi * block_size * 8) (bi * block_size * 8)
        skip (omega arith))
      (alloc_from-Claimed k (bi + 1) hi bm_start skip n s (omega arith) (omega arith) v)

-- On a bitmap of whole pages, and with more frames left than it has blocks, `bitmap_alloc` never panics.
-- It returns the lowest clear bit that is not below `skip`, sets that bit and writes nothing else; or it
-- returns none, writes nothing, and every bit that is not below `skip` is set. It takes at most one frame
-- more than the bitmap has blocks.
pub bitmap_alloc_lem :
    (bm_start bm_len skip : ℕ) (s : Fs)
    → IsBitmap bm_start bm_len s
    → bm_len < s.frames
    → Claimed bm_start 0
        (bm_len * bits_per_blk)
        skip
        (suc bm_len)
        s
        (bitmap_alloc bm_start bm_len skip s)
unfolding bitmap_alloc
bitmap_alloc_lem bm_start bm_len skip s v h =
    alloc_from-Claimed bm_len 0 bm_len bm_start skip s.frames s (omega arith) h v
