-- ===== src/HepFs/Slices.antt =====
-- Reading back what was written into a byte buffer, as kernel/src/hepfs.rs does with inodes,
-- directory entries and pointers.
use hep_os.Prelude.{
  List, [], ap, arith, length, length-append, refl, suc, sym, zero, ℕ, ◌++◌, ◌+◌, ◌-◌, ◌/◌, ◌<◌,
  ◌^◌, ◌∙◌, ◌∷◌, ◌≡◌, ◌≤◌,
}
use hep_os.HepFs.Bytes.{take, drop, slice, splice, le_bytes, from_le}

module _ {ℓ} {A : Type ℓ} where
  pub length-take : (n : ℕ) (xs : List A) → n ≤ length xs → length (take n xs) ≡ n
  length-take zero xs h = refl
  length-take (suc n) [] h = absurd (omega arith)
  length-take (suc n) (x ∷ xs) h = ap suc (length-take n xs (omega arith))

  pub length-drop : (n : ℕ) (xs : List A) → length (drop n xs) ≡ length xs - n
  length-drop zero xs = omega arith
  length-drop (suc n) [] = omega arith
  length-drop (suc n) (x ∷ xs) = omega (arith, length-drop n xs)

  pub take-all : (xs : List A) → take (length xs) xs ≡ xs
  take-all [] = refl
  take-all (x ∷ xs) = ap (λ ys. x ∷ ys) (take-all xs)

  pub take-append : (n : ℕ) (xs ys : List A) → n ≤ length xs → take n (xs ++ ys) ≡ take n xs
  take-append zero xs ys h = refl
  take-append (suc n) [] ys h = absurd (omega arith)
  take-append (suc n) (x ∷ xs) ys h = ap (λ zs. x ∷ zs) (take-append n xs ys (omega arith))

  pub drop-append :
      (n : ℕ) (xs ys : List A) → length xs ≤ n → drop n (xs ++ ys) ≡ drop (n - length xs) ys
  drop-append n [] ys h = ap (λ k. drop k ys) (omega arith)
  drop-append zero (x ∷ xs) ys h = absurd (omega arith)
  drop-append (suc n) (x ∷ xs) ys h =
      drop-append n xs ys (omega arith) ∙ ap (λ k. drop k ys) (omega arith)

  pub drop-append_within :
      (n : ℕ) (xs ys : List A) → n ≤ length xs → drop n (xs ++ ys) ≡ drop n xs ++ ys
  drop-append_within zero xs ys h = refl
  drop-append_within (suc n) [] ys h = absurd (omega arith)
  drop-append_within (suc n) (x ∷ xs) ys h = drop-append_within n xs ys (omega arith)

  drop-nil : (n : ℕ) → drop {A = A} n [] ≡ []
  drop-nil zero = refl
  drop-nil (suc n) = refl

  pub drop-drop : (m n : ℕ) (xs : List A) → drop m (drop n xs) ≡ drop (n + m) xs
  drop-drop m zero xs = ap (λ k. drop k xs) {x = m} {y = 0 + m} (omega arith)
  drop-drop m (suc n) [] = drop-nil m ∙ sym (drop-nil (suc n + m))
  drop-drop m (suc n) (x ∷ xs) =
      drop-drop m n xs ∙ ap (λ k. drop k (x ∷ xs)) {x = suc (n + m)} {y = suc n + m} (omega arith)

  take-take : (n off : ℕ) (xs : List A) → n ≤ off → take n (take off xs) ≡ take n xs
  take-take zero off xs h = refl
  take-take (suc n) zero xs h = absurd (omega arith)
  take-take (suc n) (suc off) [] h = refl
  take-take (suc n) (suc off) (x ∷ xs) h = ap (λ ys. x ∷ ys) (take-take n off xs (omega arith))

  pub take-drop-take :
      (i n off : ℕ) (xs : List A) → i + n ≤ off → take n (drop i (take off xs)) ≡ take n (drop i xs)
  take-drop-take zero n off xs h = take-take n off xs (omega arith)
  take-drop-take (suc i) n zero xs h = absurd (omega arith)
  take-drop-take (suc i) n (suc off) [] h = refl
  take-drop-take (suc i) n (suc off) (x ∷ xs) h = take-drop-take i n off xs (omega arith)

  pub append_assoc : (xs ys zs : List A) → (xs ++ ys) ++ zs ≡ xs ++ (ys ++ zs)
  append_assoc [] ys zs = refl
  append_assoc (x ∷ xs) ys zs = ap (λ ws. x ∷ ws) (append_assoc xs ys zs)

pub length-le_bytes : (n v : ℕ) → length (le_bytes n v) ≡ n
length-le_bytes zero v = refl
length-le_bytes (suc n) v = ap suc (length-le_bytes n (v / 256))

pub from_le-le_bytes : (n v : ℕ) → v < 256 ^ n → from_le (le_bytes n v) ≡ v
from_le-le_bytes zero v h = omega arith
from_le-le_bytes (suc n) v h = omega (arith, from_le-le_bytes n (v / 256))

pub length-splice :
    (off : ℕ) (bs buf : List ℕ)
    → off + length bs ≤ length buf
    → length (splice off bs buf) ≡ length buf
unfolding splice
length-splice off bs buf h = omega (
  arith,
  length-append (take off buf) (bs ++ drop (off + length bs) buf),
  length-append bs (drop (off + length bs) buf),
  length-take off buf,
  length-drop (off + length bs) buf,
)

-- A slice that was just written.
pub slice-splice :
    (off : ℕ) (bs buf : List ℕ)
    → off + length bs ≤ length buf
    → slice off (length bs) (splice off bs buf) ≡ bs
unfolding slice splice
slice-splice off bs buf h =
    let front = length-take off buf (omega arith) in
    let e : off - length (take off buf) ≡ 0 = omega arith in
    let a = drop-append off (take off buf) (bs ++ drop (off + length bs) buf) (omega arith) in
    rw (a, e) (take-append (length bs) bs (drop (off + length bs) buf) (omega arith) ∙ take-all bs)

-- A slice before the bytes written.
pub slice-splice_before :
    (i n off : ℕ) (bs buf : List ℕ)
    → i + n ≤ off
    → off + length bs ≤ length buf
    → slice i n (splice off bs buf) ≡ slice i n buf
unfolding slice splice
slice-splice_before i n off bs buf h k =
    let rest = bs ++ drop (off + length bs) buf in
    let front = length-take off buf (omega arith) in
    let a = drop-append_within i (take off buf) rest (omega arith) in
    let size = length-drop i (take off buf) in
    rw (a, take-append n (drop i (take off buf)) rest (omega arith)) (take-drop-take i n off buf h)

-- A slice behind them.
pub slice-splice_after :
    (i n off : ℕ) (bs buf : List ℕ)
    → off + length bs ≤ i
    → off + length bs ≤ length buf
    → slice i n (splice off bs buf) ≡ slice i n buf
unfolding slice splice
slice-splice_after i n off bs buf h k =
    let tail = drop (off + length bs) buf in
    let front = length-take off buf (omega arith) in
    let a = drop-append i (take off buf) (bs ++ tail) (omega arith) in
    let b = drop-append (i - length (take off buf)) bs tail (omega arith) in
    let c = drop-drop (i - length (take off buf) - length bs) (off + length bs) buf in
    let e : off + length bs + (i - length (take off buf) - length bs) ≡ i = omega arith in
    rw (a, b, c, e) refl
