-- ===== src/Rtc/Digits.antt =====
-- What the formatted date and time of kernel/src/rtc.rs read as.
use hep_os.Prelude.{
  List, Option, [], ap, arith, if◌then◌else◌, leb, min, none, refl, some, true, ℕ, ◌%◌, ◌&&◌, ◌*◌,
  ◌+◌, ◌-◌, ◌/◌, ◌<◌, ◌∙◌, ◌∷◌, ◌≡◌,
}
use hep_os.Rtc.{bcd, now, fmt_time, fmt_date}
use hep_os.HepFs.Bytes.{take, drop}

-- Packed decimal, as the clock keeps it.
abbrev pub to_bcd : ℕ → ℕ
to_bcd n = n / 10 * 16 + n % 10

bcd-to_bcd : (n : ℕ) → n < 100 → bcd (to_bcd n) ≡ n
unfolding bcd
bcd-to_bcd n h = omega arith

-- The number that decimal digits denote; none if one is no digit.
abbrev pub parse_from : ℕ → List ℕ → Option ℕ
parse_from acc [] = some acc
parse_from acc (c ∷ cs) =
    if leb b'0' c && leb c b'9' then parse_from (acc * 10 + (c - b'0')) cs else none

abbrev pub parse : List ℕ → Option ℕ
parse = parse_from 0

parse_step :
    (acc d : ℕ) (cs : List ℕ)
    → d < 10
    → parse_from acc ((b'0' + d) % 256 ∷ cs) ≡ parse_from (acc * 10 + d) cs
parse_step acc d cs h =
    let a : (b'0' + d) % 256 ≡ b'0' + d = omega arith in
    let low : leb b'0' (b'0' + d) ≡ true = ground arith in
    let high : leb (b'0' + d) b'9' ≡ true = ground arith in
    let value : b'0' + d - b'0' ≡ d = omega arith in rw (a, low, high, value) refl

two_digits : (n : ℕ) → n < 100 → parse ((b'0' + n / 10) % 256 ∷ (b'0' + n % 10) % 256 ∷ []) ≡ some n
two_digits n h =
    parse_step 0 (n / 10) ((b'0' + n % 10) % 256 ∷ []) (omega arith)
    ∙ parse_step (0 * 10 + n / 10) (n % 10) [] (omega arith)
    ∙ ap some {x = (0 * 10 + n / 10) * 10 + n % 10} {y = n} (omega arith)

four_digits :
    (n : ℕ)
    → n < 10000
    → parse (
        (b'0' + n / 1000 % 256) % 256
        ∷ (b'0' + n / 100 % 10) % 256
        ∷ (b'0' + n / 10 % 10) % 256
        ∷ (b'0' + n % 10) % 256
        ∷ [])
      ≡ some n
four_digits n h =
    let x = n / 1000 in
    let y = n / 100 % 10 in
    let z = n / 10 % 10 in
    let e : n / 1000 % 256 ≡ n / 1000 = omega arith in
    let third = (b'0' + z) % 256 ∷ (b'0' + n % 10) % 256 ∷ [] in
    rw e (
      parse_step 0 x ((b'0' + y) % 256 ∷ third) (omega arith)
      ∙ parse_step (0 * 10 + x) y third (omega arith)
      ∙ parse_step ((0 * 10 + x) * 10 + y) z ((b'0' + n % 10) % 256 ∷ []) (omega arith)
      ∙ parse_step (((0 * 10 + x) * 10 + y) * 10 + z) (n % 10) [] (omega arith)
      ∙ ap some {x = (((0 * 10 + x) * 10 + y) * 10 + z) * 10 + n % 10} {y = n} (omega arith))

fmt_time_lem :
    (cmos : ℕ → ℕ) (hour min : ℕ)
    → cmos 4 ≡ to_bcd hour
    → hour < 100
    → cmos 2 ≡ to_bcd min
    → min < 100
    → (parse (take 2 (fmt_time cmos)) ≡ some hour) × (parse (drop 3 (fmt_time cmos)) ≡ some min)
unfolding fmt_time now
fmt_time_lem cmos hour min eh lh em lm =
    rw (eh, em, bcd-to_bcd hour lh, bcd-to_bcd min lm) (two_digits hour lh, two_digits min lm)

fmt_date_lem :
    (cmos : ℕ → ℕ) (year month day : ℕ)
    → cmos 9 ≡ to_bcd year
    → year < 100
    → cmos 8 ≡ to_bcd month
    → month < 100
    → cmos 7 ≡ to_bcd day
    → day < 100
    → (parse (take 4 (fmt_date cmos)) ≡ some (2000 + year))
      × (parse (take 2 (drop 5 (fmt_date cmos))) ≡ some month)
      × (parse (drop 8 (fmt_date cmos)) ≡ some day)
unfolding fmt_date now
fmt_date_lem cmos year month day ey ly em lm ed ld =
    rw (ey, em, ed, bcd-to_bcd year ly, bcd-to_bcd month lm, bcd-to_bcd day ld)
      (four_digits (2000 + year) (omega arith), two_digits month lm, two_digits day ld)

-- When the clock keeps its five numbers in packed decimal, the first two bytes of `fmt_time` read as the
-- hour and the last two as the minute, and the three numbers of `fmt_date` as the year from 2000 on, the
-- month and the day.
pub fmt_lem :
    (cmos : ℕ → ℕ) (hour minute year month day : ℕ)
    → cmos 4 ≡ to_bcd hour
    → hour < 100
    → cmos 2 ≡ to_bcd minute
    → minute < 100
    → cmos 9 ≡ to_bcd year
    → year < 100
    → cmos 8 ≡ to_bcd month
    → month < 100
    → cmos 7 ≡ to_bcd day
    → day < 100
    → (parse (take 2 (fmt_time cmos)) ≡ some hour)
      × (parse (drop 3 (fmt_time cmos)) ≡ some minute)
      × (parse (take 4 (fmt_date cmos)) ≡ some (2000 + year))
      × (parse (take 2 (drop 5 (fmt_date cmos))) ≡ some month)
      × (parse (drop 8 (fmt_date cmos)) ≡ some day)
fmt_lem cmos hour minute year month day eh lh en ln ey ly em lm ed ld =
    let t = fmt_time_lem cmos hour minute eh lh en ln in
    let d = fmt_date_lem cmos year month day ey ly em lm ed ld in (t.0, t.1, d.0, d.1, d.2)
