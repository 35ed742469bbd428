-- ===== src/Rtc.antt =====
-- kernel/src/rtc.rs: the date and the time of the CMOS clock. `cmos` gives the registers as they are
-- read once the clock's update flag is clear.
mod Digits
mod Tests
use hep_os.Prelude.{List, [], ℕ, ◌%◌, ◌*◌, ◌+◌, ◌/◌, ◌∷◌}

-- (v & 0x0F) + ((v >> 4) * 10), in u8.
unfoldable pub bcd : ℕ → ℕ
bcd v = (v % 16 + v / 16 * 10 % 256) % 256

pub record DateTime : Type 0 where
  pub hour : ℕ
  pub min : ℕ
  pub sec : ℕ
  pub day : ℕ
  pub month : ℕ
  pub year : ℕ

unfoldable pub now : (ℕ → ℕ) → DateTime
unfolding bcd
now cmos = record {
  hour = bcd (cmos 4);
  min = bcd (cmos 2);
  sec = bcd (cmos 0);
  day = bcd (cmos 7);
  month = bcd (cmos 8);
  year = 2000 + bcd (cmos 9);
}

-- The five bytes of "HH:MM". They are below 128, so `from_utf8` takes them.
unfoldable pub fmt_time : (ℕ → ℕ) → List ℕ
unfolding now
fmt_time cmos =
    let t = now cmos in
    (b'0' + t.hour / 10) % 256
    ∷ (b'0' + t.hour % 10) % 256
    ∷ b':'
    ∷ (b'0' + t.min / 10) % 256
    ∷ (b'0' + t.min % 10) % 256
    ∷ []

-- The ten bytes of "YYYY-MM-DD", below 128 too.
unfoldable pub fmt_date : (ℕ → ℕ) → List ℕ
unfolding now
fmt_date cmos =
    let t = now cmos in
    let y = t.year in
    (b'0' + y / 1000 % 256) % 256
    ∷ (b'0' + y / 100 % 10) % 256
    ∷ (b'0' + y / 10 % 10) % 256
    ∷ (b'0' + y % 10) % 256
    ∷ b'-'
    ∷ (b'0' + t.month / 10) % 256
    ∷ (b'0' + t.month % 10) % 256
    ∷ b'-'
    ∷ (b'0' + t.day / 10) % 256
    ∷ (b'0' + t.day % 10) % 256
    ∷ []
