-- ===== src/Input/Mouse.antt =====
-- The PS/2 mouse of kernel/src/mouse.rs: three-byte packets, acceleration and the pointer. An i32 is
-- kept as its 32 bits, so a number from 2 ^ 31 on is negative.
mod Packets
mod Tests
use hep_os.Prelude.{
  Bool, List, [], get_or, if◌then◌else◌, leb, ltb, not, replicate, set, ℕ, ◌%◌, ◌*◌, ◌+◌, ◌-◌, ◌/◌,
  ◌==◌, ◌^◌, ◌∷◌,
}
use hep_os.Input.Keyboard.{PortByte}

abbrev pub add32 : ℕ → ℕ → ℕ
add32 a b = (a + b) % 2 ^ 32

abbrev pub sub32 : ℕ → ℕ → ℕ
sub32 a b = (a + 2 ^ 32 - b) % 2 ^ 32

abbrev pub is_negative : ℕ → Bool
is_negative v = leb (2 ^ 31) v

-- `packet` has three bytes.
pub record MouseState : Type 0 where
  pub x : ℕ
  pub y : ℕ
  pub buttons : ℕ
  pub cycle : ℕ
  pub packet : List ℕ

abbrev pub new_mouse : MouseState
new_mouse = record { x = 400; y = 300; buttons = 0; cycle = 0; packet = replicate 3 0 }

-- i32::clamp(0, hi), for a `hi` that is not negative.
unfoldable pub clamp_to : ℕ → ℕ → ℕ
clamp_to hi v = if is_negative v then 0 else if ltb hi v then hi else v

unfoldable pub clamp : ℕ → ℕ → MouseState → MouseState
unfolding clamp_to
clamp w h m = record m { x = clamp_to (sub32 w 1) m.x; y = clamp_to (sub32 h 1) m.y }

-- i32::abs
abbrev pub abs32 : ℕ → ℕ
abs32 v = if is_negative v then sub32 0 v else v

unfoldable pub accel : ℕ → ℕ
accel delta =
    let d = abs32 delta in
    if leb 10 d then delta * 3 % 2 ^ 32 else if leb 5 d then delta * 2 % 2 ^ 32 else delta

-- byte as i32 - if flag { 256 } else { 0 }
abbrev pub displacement : Bool → ℕ → ℕ
displacement flag byte = sub32 byte (if flag then 256 else 0)

abbrev pub has_flag : ℕ → ℕ → Bool
has_flag bit flags = flags / 2 ^ bit % 2 == 1

-- The arm of the match for cycle 2.
unfoldable pub finish_packet : ℕ → MouseState → MouseState
unfolding accel
finish_packet b m =
    let packet' = set m.packet 2 b in
    let flags = get_or packet' 0 0 in
    record m {
      packet = packet';
      cycle = 0;
      x = add32 m.x (accel (displacement (has_flag 4 flags) (get_or packet' 1 0)));
      y = sub32 m.y (accel (displacement (has_flag 5 flags) (get_or packet' 2 0)));
      buttons = flags % 8;
    }

unfoldable pub handle_ps2_byte : ℕ → MouseState → MouseState
unfolding finish_packet
handle_ps2_byte b m =
    if m.cycle == 0
    then if has_flag 3 b then record m { packet = set m.packet 0 b; cycle = 1 } else m
    else if m.cycle == 1
    then record m { packet = set m.packet 1 b; cycle = 2 }
    else if m.cycle == 2
    then finish_packet b m
    else record m { cycle = 0 }

-- Until the port is empty or its next byte is the keyboard's.
unfoldable pub poll : List PortByte → MouseState → List PortByte × MouseState
unfolding handle_ps2_byte
poll [] m = ([], m)
poll (b ∷ bs) m =
    let rest = poll bs (handle_ps2_byte b.value m) in if not b.aux then (b ∷ bs, m) else rest
