-- ===== src/Memory/Pmm/Bits.antt =====
-- The bits of the page bitmap of kernel/src/pmm.rs under its reads and writes.
use hep_os.Prelude.{
  Bool, [], arith, false, get_or, get_or-set, if◌then◌else◌, length, length-set, set, suc, true,
  zero, ℕ, ◌%◌, ◌*◌, ◌+◌, ◌/◌, ◌<◌, ◌==◌, ◌∙◌, ◌∷◌, ◌≡◌, ◌≤◌,
}
use hep_os.Memory.Pmm.{Word, Bitmap, set_used, set_free, is_used}

-- Every word has 64 bits.
abbrev pub AllWords : Bitmap → Type 0
AllWords [] = Unit
AllWords (w ∷ b) = (length w ≡ 64) × AllWords b

abbrev pub pages_of : Bitmap → ℕ
pages_of b = length b * 64

abbrev pub write_bit : ℕ → Bool → Bitmap → Bitmap
write_bit page v b = set b (page / 64) (set (get_or b (page / 64) []) (page % 64) v)

pub AllWords-get : (b : Bitmap) (i : ℕ) → AllWords b → i < length b → length (get_or b i []) ≡ 64
AllWords-get [] i a h = absurd (omega arith)
AllWords-get (w ∷ b) zero a h = a.0
AllWords-get (w ∷ b) (suc i) a h = AllWords-get b i a.1 (omega arith)

pub AllWords-set :
    (b : Bitmap) (i : ℕ) (w : Word) → AllWords b → length w ≡ 64 → AllWords (set b i w)
AllWords-set [] i w a h = tt
AllWords-set (x ∷ b) zero w a h = (h, a.1)
AllWords-set (x ∷ b) (suc i) w a h = (a.0, AllWords-set b i w a.1 h)

pub AllWords-write_bit :
    (b : Bitmap) (p : ℕ) (v : Bool) → AllWords b → p < pages_of b → AllWords (write_bit p v b)
AllWords-write_bit b p v a h =
    AllWords-set b (p / 64) _ a
      (length-set (get_or b (p / 64) []) (p % 64) v ∙ AllWords-get b (p / 64) a (omega arith))

pub length-write_bit : (b : Bitmap) (p : ℕ) (v : Bool) → length (write_bit p v b) ≡ length b
length-write_bit b p v = length-set b (p / 64) _

-- The whole behaviour of a write: it changes the bit of its page and no other.
pub is_used-write_bit :
    (b : Bitmap) (p q : ℕ) (v : Bool)
    → AllWords b
    → p < pages_of b
    → is_used q (write_bit p v b) ≡ (if p == q then v else is_used q b)
unfolding is_used
is_used-write_bit b p q v a h = ground (
  arith,
  get_or-set b (p / 64) (q / 64) (set (get_or b (p / 64) []) (p % 64) v) [] (omega arith),
  get_or-set (get_or b (p / 64) []) (p % 64) (q % 64) v true,
  AllWords-get b (p / 64) a,
)

pub AllWords-set_used : (b : Bitmap) (p : ℕ) → AllWords b → p < pages_of b → AllWords (set_used p b)
unfolding set_used
AllWords-set_used b p a h = AllWords-write_bit b p true a h

pub AllWords-set_free : (b : Bitmap) (p : ℕ) → AllWords b → p < pages_of b → AllWords (set_free p b)
unfolding set_free
AllWords-set_free b p a h = AllWords-write_bit b p false a h

pub length-set_used : (b : Bitmap) (p : ℕ) → length (set_used p b) ≡ length b
unfolding set_used
length-set_used b p = length-write_bit b p true

pub length-set_free : (b : Bitmap) (p : ℕ) → length (set_free p b) ≡ length b
unfolding set_free
length-set_free b p = length-write_bit b p false

pub is_used-set_used :
    (b : Bitmap) (p q : ℕ)
    → AllWords b
    → p < pages_of b
    → is_used q (set_used p b) ≡ (if p == q then true else is_used q b)
unfolding set_used
is_used-set_used b p q a h = is_used-write_bit b p q true a h

pub is_used-set_free :
    (b : Bitmap) (p q : ℕ)
    → AllWords b
    → p < pages_of b
    → is_used q (set_free p b) ≡ (if p == q then false else is_used q b)
unfolding set_free
is_used-set_free b p q a h = is_used-write_bit b p q false a h

-- How many bits are clear.
abbrev pub clear_bit : Bool → ℕ
clear_bit v = if v then 0 else 1

abbrev pub zeros : Word → ℕ
zeros [] = 0
zeros (v ∷ w) = clear_bit v + zeros w

abbrev pub count_free : Bitmap → ℕ
count_free [] = 0
count_free (w ∷ b) = zeros w + count_free b

zeros-set :
    (w : Word) (i : ℕ) (v : Bool)
    → i < length w
    → zeros (set w i v) + clear_bit (get_or w i true) ≡ zeros w + clear_bit v
zeros-set [] i v h = absurd (omega arith)
zeros-set (x ∷ w) zero v h = omega arith
zeros-set (x ∷ w) (suc i) v h = omega (arith, zeros-set w i v)

count_free-set :
    (b : Bitmap) (i : ℕ) (w : Word)
    → i < length b
    → count_free (set b i w) + zeros (get_or b i []) ≡ count_free b + zeros w
count_free-set [] i w h = absurd (omega arith)
count_free-set (x ∷ b) zero w h = omega arith
count_free-set (x ∷ b) (suc i) w h = omega (arith, count_free-set b i w)

count_free-write_bit :
    (b : Bitmap) (p : ℕ) (v : Bool)
    → AllWords b
    → p < pages_of b
    → count_free (write_bit p v b) + clear_bit (is_used p b) ≡ count_free b + clear_bit v
unfolding is_used
count_free-write_bit b p v a h = omega (
  arith,
  count_free-set b (p / 64) (set (get_or b (p / 64) []) (p % 64) v) (omega arith),
  zeros-set (get_or b (p / 64) []) (p % 64) v
      (omega (arith, AllWords-get b (p / 64) a (omega arith))),
)

pub count_free-set_used :
    (b : Bitmap) (p : ℕ)
    → AllWords b
    → p < pages_of b
    → count_free (set_used p b) + clear_bit (is_used p b) ≡ count_free b
unfolding set_used
count_free-set_used b p a h = omega (arith, count_free-write_bit b p true a h)

pub count_free-set_free :
    (b : Bitmap) (p : ℕ)
    → AllWords b
    → p < pages_of b
    → count_free (set_free p b) + clear_bit (is_used p b) ≡ count_free b + 1
unfolding set_free
count_free-set_free b p a h = omega (arith, count_free-write_bit b p false a h)

zeros-le : (w : Word) → zeros w ≤ length w
zeros-le [] = omega arith
zeros-le (true ∷ w) = omega (arith, zeros-le w)
zeros-le (false ∷ w) = omega (arith, zeros-le w)

pub count_free-le : (b : Bitmap) → AllWords b → count_free b ≤ pages_of b
count_free-le [] a = omega arith
count_free-le (w ∷ b) a = omega (arith, zeros-le w, count_free-le b a.1, a.0)

-- Reads of the first word, and of those behind it.
pub is_used-cons_low :
    (w : Word) (b : Bitmap) (q : ℕ) → q < 64 → is_used q (w ∷ b) ≡ get_or w q true
unfolding is_used
is_used-cons_low w b q h =
    let d : q / 64 ≡ 0 = omega arith in let m : q % 64 ≡ q = omega arith in rw (d, m)

pub is_used-cons_high : (w : Word) (b : Bitmap) (q : ℕ) → is_used (64 + q) (w ∷ b) ≡ is_used q b
unfolding is_used
is_used-cons_high w b q =
    let d : (64 + q) / 64 ≡ suc (q / 64) = omega arith in
    let m : (64 + q) % 64 ≡ q % 64 = omega arith in rw (d, m)

pub set_used-cons_low :
    (w : Word) (b : Bitmap) (q : ℕ) → q < 64 → set_used q (w ∷ b) ≡ set w q true ∷ b
unfolding set_used
set_used-cons_low w b q h =
    let d : q / 64 ≡ 0 = omega arith in let m : q % 64 ≡ q = omega arith in rw (d, m)

pub set_used-cons_high :
    (w : Word) (b : Bitmap) (q : ℕ) → set_used (64 + q) (w ∷ b) ≡ w ∷ set_used q b
unfolding set_used
set_used-cons_high w b q =
    let d : (64 + q) / 64 ≡ suc (q / 64) = omega arith in
    let m : (64 + q) % 64 ≡ q % 64 = omega arith in rw (d, m)
