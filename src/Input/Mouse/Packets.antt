-- ===== src/Input/Mouse/Packets.antt =====
-- What a packet of three bytes does to the pointer of kernel/src/mouse.rs.
use hep_os.Prelude.{
  ==_iff, Bool, List, [], ap, arith, false, holds_to, holds_to-lt, if◌then◌else◌, length, ltb, refl,
  set, true, ℕ, ◌%◌, ◌*◌, ◌-◌, ◌<◌, ◌==◌, ◌^◌, ◌∙◌, ◌∷◌, ◌≡◌, ◌≤◌,
}
use hep_os.Input.Mouse.{
  add32, sub32, MouseState, clamp_to, clamp, accel, displacement, has_flag, finish_packet,
  handle_ps2_byte,
}

-- How far a displacement of `d` moves the pointer.
abbrev pub speed : ℕ → ℕ
speed d = if ltb d 5 then d else if ltb d 10 then 2 * d else 3 * d

-- A displacement of nine bits, the flag its sign: with the flag it goes back by 256 - byte.
abbrev pub moved : (ℕ → ℕ → ℕ) → (ℕ → ℕ → ℕ) → Bool → ℕ → ℕ → ℕ
moved ahead back flag byte p = if flag then back p (speed (256 - byte)) else ahead p (speed byte)

accel_table :
    (holds_to (λ byte. accel (displacement false byte) == speed byte) 256 ≡ true)
    × (holds_to (λ byte. accel (displacement true byte) == sub32 0 (speed (256 - byte))) 256 ≡ true)
unfolding holds_to accel
accel_table = (refl, refl)

accel_ahead : (byte : ℕ) → byte < 256 → accel (displacement false byte) ≡ speed byte
accel_ahead byte lt =
    (==_iff _ _).0
      (holds_to-lt (λ n. accel (displacement false n) == speed n) 256 accel_table.0 byte lt)

accel_back : (byte : ℕ) → byte < 256 → accel (displacement true byte) ≡ sub32 0 (speed (256 - byte))
accel_back byte lt = (==_iff _ _).0 (
    holds_to-lt (λ n. accel (displacement true n) == sub32 0 (speed (256 - n))) 256 accel_table.1
      byte lt)

speed-lt : (d : ℕ) → d ≤ 256 → speed d < 1024
speed-lt d h = ground arith

moved_x :
    (flag : Bool) (byte x : ℕ)
    → byte < 256
    → x < 2 ^ 32
    → add32 x (accel (displacement flag byte)) ≡ moved add32 sub32 flag byte x
moved_x false byte x lt h = ap (add32 x) (accel_ahead byte lt)
moved_x true byte x lt h =
    ap (add32 x) (accel_back byte lt) ∙ omega (arith, speed-lt (256 - byte) (omega arith))

moved_y :
    (flag : Bool) (byte y : ℕ)
    → byte < 256
    → y < 2 ^ 32
    → sub32 y (accel (displacement flag byte)) ≡ moved sub32 add32 flag byte y
moved_y false byte y lt h = ap (sub32 y) (accel_ahead byte lt)
moved_y true byte y lt h =
    ap (sub32 y) (accel_back byte lt) ∙ omega (arith, speed-lt (256 - byte) (omega arith))

set_three : (p : List ℕ) (a b c : ℕ) → length p ≡ 3 → set (set (set p 0 a) 1 b) 2 c ≡ a ∷ b ∷ c ∷ []
set_three [] a b c e = absurd (omega arith)
set_three (x ∷ []) a b c e = absurd (omega arith)
set_three (x ∷ y ∷ []) a b c e = absurd (omega arith)
set_three (x ∷ y ∷ z ∷ []) a b c e = refl
set_three (x ∷ y ∷ z ∷ w ∷ p) a b c e = absurd (omega arith)

-- A packet whose first byte has bit 3 set, read from the start of a cycle, sets the buttons to the
-- low three bits of that byte, moves the pointer right and up by the accelerated displacements,
-- each of nine bits with its sign in the first byte, and ends the cycle.
pub handle_ps2_byte_lem :
    (flags a b : ℕ) (m : MouseState)
    → m.cycle ≡ 0
    → length m.packet ≡ 3
    → m.x < 2 ^ 32
    → m.y < 2 ^ 32
    → has_flag 3 flags ≡ true
    → a < 256
    → b < 256
    → handle_ps2_byte b (handle_ps2_byte a (handle_ps2_byte flags m)) ≡ record {
      x = moved add32 sub32 (has_flag 4 flags) a m.x;
      y = moved sub32 add32 (has_flag 5 flags) b m.y;
      buttons = flags % 8;
      cycle = 0;
      packet = flags ∷ a ∷ b ∷ [];
    }
unfolding handle_ps2_byte finish_packet
handle_ps2_byte_lem flags a b m start three hx hy mark ha hb =
    rw
      (
        start,
        mark,
        set_three m.packet flags a b three,
        moved_x (has_flag 4 flags) a m.x ha hx,
        moved_y (has_flag 5 flags) b m.y hb hy,
      )
      refl

clamp_to-lt : (w v : ℕ) → 0 < w → w < 2 ^ 31 → clamp_to (sub32 w 1) v < w
unfolding clamp_to
clamp_to-lt w v p b = let e : sub32 w 1 ≡ w - 1 = omega arith in rw e (ground arith)

clamp_to_inside : (w v : ℕ) → 0 < w → w < 2 ^ 31 → v < w → clamp_to (sub32 w 1) v ≡ v
unfolding clamp_to
clamp_to_inside w v p b h = let e : sub32 w 1 ≡ w - 1 = omega arith in rw e (ground arith)

-- The place on a side of `w` points that is nearest to `v`, an i32.
abbrev pub nearest : ℕ → ℕ → ℕ
nearest w v = if ltb v w then v else if ltb v (2 ^ 31) then w - 1 else 0

clamp_to-nearest : (w v : ℕ) → 0 < w → w < 2 ^ 31 → clamp_to (sub32 w 1) v ≡ nearest w v
unfolding clamp_to
clamp_to-nearest w v p b = let e : sub32 w 1 ≡ w - 1 = omega arith in rw e (ground arith)

-- For a screen of positive width and height below 2 ^ 31, `clamp` puts the pointer on the screen: a
-- coordinate that is on it stays, a negative one becomes 0, and one past the far edge that edge's; and
-- nothing else changes, and a second `clamp` changes nothing.
pub clamp_lem :
    (w h : ℕ) (m : MouseState)
    → 0 < w
    → w < 2 ^ 31
    → 0 < h
    → h < 2 ^ 31
    → ((clamp w h m).x < w)
      × ((clamp w h m).y < h)
      × (clamp w h m ≡ record m { x = nearest w m.x; y = nearest h m.y })
      × (clamp w h (clamp w h m) ≡ clamp w h m)
unfolding clamp
clamp_lem w h m pw bw ph bh =
    let x = clamp_to-lt w m.x pw bw in
    let y = clamp_to-lt h m.y ph bh in
    (
      x,
      y,
      rw (clamp_to-nearest w m.x pw bw, clamp_to-nearest h m.y ph bh) refl,
      rw
          (
            clamp_to_inside w (clamp_to (sub32 w 1) m.x) pw bw x,
            clamp_to_inside h (clamp_to (sub32 h 1) m.y) ph bh y,
          )
          refl,
    )
