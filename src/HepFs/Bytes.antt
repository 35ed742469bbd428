-- ===== src/HepFs/Bytes.antt =====
-- Byte buffers: slices, and the little-endian numbers in them.
use hep_os.Prelude.{List, [], length, replicate, suc, zero, ℕ, ◌%◌, ◌*◌, ◌++◌, ◌+◌, ◌-◌, ◌/◌, ◌∷◌}

module _ {ℓ} {A : Type ℓ} where
  abbrev pub take : ℕ → List A → List A
  take zero xs = []
  take (suc n) [] = []
  take (suc n) (x ∷ xs) = x ∷ take n xs

  abbrev pub drop : ℕ → List A → List A
  drop zero xs = xs
  drop (suc n) [] = []
  drop (suc n) (x ∷ xs) = drop n xs

-- buf[off..off + len]
unfoldable pub slice : ℕ → ℕ → List ℕ → List ℕ
slice off len buf = take len (drop off buf)

-- buf[off..off + bs.len()].copy_from_slice(bs)
unfoldable pub splice : ℕ → List ℕ → List ℕ → List ℕ
splice off bs buf = take off buf ++ (bs ++ drop (off + length bs) buf)

-- The `n` bytes of a number, the lowest first.
abbrev pub le_bytes : ℕ → ℕ → List ℕ
le_bytes zero v = []
le_bytes (suc n) v = v % 256 ∷ le_bytes n (v / 256)

abbrev pub from_le : List ℕ → ℕ
from_le [] = 0
from_le (b ∷ bs) = b + 256 * from_le bs

-- The u32 at a byte offset.
unfoldable pub read_u32 : ℕ → List ℕ → ℕ
unfolding slice
read_u32 off buf = from_le (slice off 4 buf)

unfoldable pub write_u32 : ℕ → ℕ → List ℕ → List ℕ
unfolding splice
write_u32 off v buf = splice off (le_bytes 4 v) buf

-- A page that starts with the given bytes, of which there are at most 4096.
unfoldable pub padded : ℕ → List ℕ → List ℕ
padded n bs = bs ++ replicate (n - length bs) 0
