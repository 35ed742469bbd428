-- ===== src/HepFs/Claim.antt =====
-- The bitmaps of kernel/src/hepfs.rs as sets of numbers: what `bitmap_set` and `bitmap_alloc` do to
-- every bit and to every block.
use hep_os.Prelude.{
  ==_iff, ==_refl, Bool, Bool-cases, List, [], ap, arith, false, get_or, get_or-set, if◌then◌else◌,
  inl, inr, length, length-set, ltb, refl, set, some, suc, sym, zero, ℕ, ◌%◌, ◌&&◌, ◌*◌, ◌+◌, ◌-◌,
  ◌/◌, ◌<◌, ◌==◌, ◌∙◌, ◌∷◌, ◌≡◌, ◌≢◌, ◌≤◌,
}
use hep_os.HepFs.Disk.{block_size, Block, Fs, with_frames, update}
use hep_os.HepFs.Frames.{spent, take_frame_run}
use hep_os.HepFs.Bitmap.{test_bit, bitmap_set}
use hep_os.HepFs.Bits.{put_bit, put_bit-lt, test_bit-put_bit}

abbrev pub bits_per_blk : ℕ
bits_per_blk = block_size * 8

-- Bit `q` of the bitmap that starts at block `bm_start`.
abbrev pub bit_at : ℕ → ℕ → Fs → Bool
bit_at bm_start q s =
    test_bit (get_or (s.disk (bm_start + q / bits_per_blk)) (q / 8 % block_size) 0) (q % 8)

pub record IsPage (buf : Block) : Type 0 where
  pub size : length buf ≡ block_size
  pub bytes : (i : ℕ) → get_or buf i 0 < 256

abbrev pub IsBitmap : ℕ → ℕ → Fs → Type 0
IsBitmap bm_start bm_len s = (i : ℕ) → i < bm_len → IsPage (s.disk (bm_start + i))

-- Bit `idx` has got the value `used`, and nothing else has changed.
pub record Updated (bm_start idx : ℕ) (used : Bool) (s s' : Fs) : Type 0 where
  pub bits : (q : ℕ) → bit_at bm_start q s' ≡ (if q == idx then used else bit_at bm_start q s)
  pub others : (n : ℕ) → n ≢ bm_start + idx / bits_per_blk → s'.disk n ≡ s.disk n
  pub page : IsPage (s'.disk (bm_start + idx / bits_per_blk))
  pub same_generation : s'.generation ≡ s.generation

IsPage-set : (buf : Block) (i v : ℕ) → IsPage buf → v < 256 → IsPage (set buf i v)
IsPage-set buf i v p lt = record {
  size = length-set buf i v ∙ p.size;
  bytes = λ j. elim (Bool-cases (ltb i (length buf))) [
    | inl inside ↦ ground (arith, get_or-set buf i j v 0, p.bytes j)
    | inr past ↦ rw (set_past buf i v (ground arith)) (p.bytes j)
  ];
}
  where
    set_past : (xs : List ℕ) (k w : ℕ) → length xs ≤ k → set xs k w ≡ xs
    set_past [] k w h = refl
    set_past (x ∷ xs) zero w h = absurd (omega arith)
    set_past (x ∷ xs) (suc k) w h = ap (λ ys. x ∷ ys) (set_past xs k w (omega arith))

-- The bits of one page after a write of one of them.
page_bit :
    (buf : Block) (used : Bool) (byte bit byte' bit' : ℕ)
    → IsPage buf
    → byte < block_size
    → bit < 8
    → bit' < 8
    → test_bit (get_or (set buf byte (put_bit used (get_or buf byte 0) bit)) byte' 0) bit'
      ≡ (if (byte == byte') && (bit == bit') then used else test_bit (get_or buf byte' 0) bit')
page_bit buf used byte bit byte' bit' p b k k' =
    let v = put_bit used (get_or buf byte 0) bit in
    let r = get_or-set buf byte byte' v 0 (omega (arith, p.size)) in
    elim (Bool-cases (byte == byte')) [
      | inl e ↦
          rw (r, e, sym ((==_iff byte byte').0 e))
            (test_bit-put_bit used (get_or buf byte 0) bit bit' (p.bytes byte) k k')
      | inr n ↦ rw (r, n) refl
    ]

same_index :
    (q idx : ℕ)
    → (q / bits_per_blk ≡ idx / bits_per_blk)
    → (((idx / 8 % block_size) == (q / 8 % block_size)) && ((idx % 8) == (q % 8))) ≡ (q == idx)
same_index q idx e = ground arith

-- The disk after `bitmap_set`.
abbrev pub after_set : ℕ → ℕ → Bool → Fs → Fs
after_set bm_start idx used s =
    let block = bm_start + idx / bits_per_blk in
    let buf = s.disk block in
    let byte = idx / 8 % block_size in
    record s {
      disk = update s.disk block (set buf byte (put_bit used (get_or buf byte 0) (idx % 8)));
    }

pub bitmap_set_run :
    (bm_start idx : ℕ) (used : Bool) (s : Fs)
    → 0 < s.frames
    → bitmap_set bm_start idx used s ≡ some (tt, spent (after_set bm_start idx used s))
unfolding bitmap_set
bitmap_set_run bm_start idx used s h = rw (take_frame_run s h) refl

pub Updated-frames :
    (bm_start idx n f : ℕ) (used : Bool) (s s' : Fs)
    → Updated bm_start idx used s s'
    → Updated bm_start idx used (with_frames n s) (with_frames f s')
Updated-frames bm_start idx n f used s s' u = record {
  bits = u.bits;
  others = u.others;
  page = u.page;
  same_generation = u.same_generation;
}

after_set-bits :
    (bm_start idx : ℕ) (used : Bool) (s : Fs) (q : ℕ)
    → IsPage (s.disk (bm_start + idx / bits_per_blk))
    → bit_at bm_start q (after_set bm_start idx used s)
      ≡ (if q == idx then used else bit_at bm_start q s)
after_set-bits bm_start idx used s q p =
    let b = bm_start + idx / bits_per_blk in
    elim (Bool-cases (b == bm_start + q / bits_per_blk)) [
      | inl e ↦
          let same : q / bits_per_blk ≡ idx / bits_per_blk = ground arith in
          rw (e, sym (same_index q idx same), same)
            (page_bit (s.disk b) used (idx / 8 % block_size) (idx % 8) (q / 8 % block_size) (q % 8)
              p (omega arith) (omega arith) (omega arith))
      | inr n ↦ let off : (q == idx) ≡ false = ground arith in rw (n, off) refl
    ]

pub after_set-Updated :
    (bm_start idx : ℕ) (used : Bool) (s : Fs)
    → IsPage (s.disk (bm_start + idx / bits_per_blk))
    → Updated bm_start idx used s (after_set bm_start idx used s)
after_set-Updated bm_start idx used s p =
    let b = bm_start + idx / bits_per_blk in
    let byte = idx / 8 % block_size in
    record {
      bits = λ q. after_set-bits bm_start idx used s q p;
      others = λ n ne. let off : (b == n) ≡ false = ground arith in rw off refl;
      page = rw (==_refl b) (
          IsPage-set (s.disk b) byte (put_bit used (get_or (s.disk b) byte 0) (idx % 8)) p
            (put_bit-lt used (get_or (s.disk b) byte 0) (idx % 8) (p.bytes byte) (omega arith)));
      same_generation = refl;
    }

-- Where a frame is left `bitmap_set` returns, and gives bit `idx` the value `used`; every other bit of the bitmap, every
-- other block and the generation stay as they were.
bitmap_set_lem :
    (bm_start idx : ℕ) (used : Bool) (s : Fs)
    → IsPage (s.disk (bm_start + idx / bits_per_blk))
    → 0 < s.frames
    → (s' : Fs) × (bitmap_set bm_start idx used s ≡ some (tt, s')) × Updated bm_start idx used s s'
bitmap_set_lem bm_start idx used s p h = (
  spent (after_set bm_start idx used s),
  bitmap_set_run bm_start idx used s h,
  Updated-frames bm_start idx s.frames (s.frames - 1) used s (after_set bm_start idx used s)
      (after_set-Updated bm_start idx used s p),
)
