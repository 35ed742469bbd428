-- ===== src/HepFs/Utf8.antt =====
-- `core::str::from_utf8`, which kernel/src/hepfs.rs applies to the names on disk: whether bytes are
-- UTF-8.
use hep_os.Prelude.{
  Bool, List, Option, [], false, if◌then◌else◌, leb, ltb, none, some, suc, true, zero, ℕ, ◌&&◌,
  ◌==◌, ◌∷◌,
}

abbrev within : ℕ → ℕ → ℕ → Bool
within lo hi b = leb lo b && leb b hi

abbrev tail_byte : ℕ → Bool
tail_byte b = within 0x80 0xBF b

-- The second byte of a three-byte or four-byte sequence, by its first.
unfoldable pub second_byte : ℕ → ℕ → Bool
second_byte a b =
    if a == 0xE0
    then within 0xA0 0xBF b
    else if a == 0xED
    then within 0x80 0x9F b
    else if a == 0xF0
    then within 0x90 0xBF b
    else if a == 0xF4
    then within 0x80 0x8F b
    else tail_byte b

-- How many bytes follow the first one.
unfoldable pub tail_length : ℕ → Option ℕ
tail_length a =
    if ltb a 0x80
    then some 0
    else if within 0xC2 0xDF a
    then some 1
    else if within 0xE0 0xEF a
    then some 2
    else if within 0xF0 0xF4 a
    then some 3
    else none

-- `k` more bytes of the running sequence are due; `first` is its first byte until the second is read.
unfoldable pub utf8_from : ℕ → Option ℕ → List ℕ → Bool
unfolding second_byte tail_length
utf8_from zero first [] = true
utf8_from (suc k) first [] = false
utf8_from zero first (b ∷ bs) = elim (tail_length b) [
  | none ↦ false
  | some n ↦ utf8_from n (some b) bs
]
utf8_from (suc k) (some a) (b ∷ bs) = let rest = utf8_from k none bs in second_byte a b && rest
utf8_from (suc k) none (b ∷ bs) = let rest = utf8_from k none bs in tail_byte b && rest

unfoldable pub valid_utf8 : List ℕ → Bool
unfolding utf8_from
valid_utf8 bs = utf8_from 0 none bs
