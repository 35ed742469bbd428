-- ===== src/HepFs/Bits.antt =====
-- Single bits of a byte, for the bitmaps of kernel/src/hepfs.rs.
use hep_os.Prelude.{
  &&-split, Bool, agree, agree-≡, false, holds_to, holds_to-lt, if◌then◌else◌, ltb, ltb→lt, refl,
  true, ℕ, ◌&&◌, ◌<◌, ◌==◌, ◌≡◌,
}
use hep_os.HepFs.Bitmap.{test_bit, with_bit, without_bit}

with_table :
    holds_to
      (λ byte.
        holds_to
          (λ bit.
            holds_to
              (λ j.
                agree (test_bit (with_bit byte bit) j) (if bit == j then true else test_bit byte j))
              8)
          8)
      256
    ≡ true
unfolding holds_to test_bit with_bit
with_table = refl

pub test_bit-with_bit :
    (byte bit j : ℕ)
    → byte < 256
    → bit < 8
    → j < 8
    → test_bit (with_bit byte bit) j ≡ (if bit == j then true else test_bit byte j)
test_bit-with_bit byte bit j b i k =
    agree-≡ _ _ (holds_to-lt _ 8 (holds_to-lt _ 8 (holds_to-lt _ 256 with_table byte b) bit i) j k)

without_table :
    holds_to
      (λ byte.
        holds_to
          (λ bit.
            holds_to
              (λ j.
                agree
                  (test_bit (without_bit byte bit) j)
                  (if bit == j then false else test_bit byte j))
              8)
          8)
      256
    ≡ true
unfolding holds_to test_bit without_bit
without_table = refl

pub test_bit-without_bit :
    (byte bit j : ℕ)
    → byte < 256
    → bit < 8
    → j < 8
    → test_bit (without_bit byte bit) j ≡ (if bit == j then false else test_bit byte j)
test_bit-without_bit byte bit j b i k =
    agree-≡ _ _
      (holds_to-lt _ 8 (holds_to-lt _ 8 (holds_to-lt _ 256 without_table byte b) bit i) j k)

range_table :
    holds_to
      (λ byte. holds_to (λ bit. ltb (with_bit byte bit) 256 && ltb (without_bit byte bit) 256) 8)
      256
    ≡ true
unfolding holds_to with_bit without_bit
range_table = refl

in_range :
    (byte bit : ℕ) → byte < 256 → bit < 8 → (with_bit byte bit < 256) × (without_bit byte bit < 256)
in_range byte bit b i =
    let both =
      &&-split (ltb (with_bit byte bit) 256) (ltb (without_bit byte bit) 256)
        (holds_to-lt _ 8 (holds_to-lt _ 256 range_table byte b) bit i) in
    (ltb→lt _ _ both.0, ltb→lt _ _ both.1)

full_table : holds_to (test_bit 0xFF) 8 ≡ true
unfolding holds_to test_bit
full_table = refl

pub test_bit-full : (j : ℕ) → j < 8 → test_bit 0xFF j ≡ true
test_bit-full j lt = holds_to-lt (test_bit 0xFF) 8 full_table j lt

-- Setting or clearing a bit.
abbrev pub put_bit : Bool → ℕ → ℕ → ℕ
put_bit used byte bit = if used then with_bit byte bit else without_bit byte bit

pub put_bit-lt : (used : Bool) (byte bit : ℕ) → byte < 256 → bit < 8 → put_bit used byte bit < 256
put_bit-lt true byte bit b i = (in_range byte bit b i).0
put_bit-lt false byte bit b i = (in_range byte bit b i).1

pub test_bit-put_bit :
    (used : Bool) (byte bit j : ℕ)
    → byte < 256
    → bit < 8
    → j < 8
    → test_bit (put_bit used byte bit) j ≡ (if bit == j then used else test_bit byte j)
test_bit-put_bit true = test_bit-with_bit
test_bit-put_bit false = test_bit-without_bit
