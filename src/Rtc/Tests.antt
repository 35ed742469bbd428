-- ===== src/Rtc/Tests.antt =====
-- A clock at 23:59 on 2026-11-26.
use hep_os.Prelude.{arith, if◌then◌else◌, refl, some, ℕ, ◌==◌, ◌≡◌}
use hep_os.HepFs.Bytes.{take, drop}
use hep_os.Rtc.{fmt_time, fmt_date}
use hep_os.Rtc.Digits.{parse, fmt_lem}

abbrev clock : ℕ → ℕ
clock reg =
    if reg == 4
    then 0x23
    else if reg == 2
    then 0x59
    else if reg == 9
    then 0x26
    else if reg == 8
    then 0x11
    else 0x26

fmt_lem_example :
    (parse (take 2 (fmt_time clock)) ≡ some 23)
    × (parse (drop 3 (fmt_time clock)) ≡ some 59)
    × (parse (take 4 (fmt_date clock)) ≡ some 2026)
    × (parse (take 2 (drop 5 (fmt_date clock))) ≡ some 11)
    × (parse (drop 8 (fmt_date clock)) ≡ some 26)
fmt_lem_example =
    fmt_lem clock 23 59 26 11 26 refl (omega arith) refl (omega arith) refl (omega arith) refl
      (omega arith) refl (omega arith)
