-- ===== src/Input/Keyboard.antt =====
-- kernel/src/ps2.rs: the ring of key events, the decoding of scancodes (set 1) and the polling of the
-- controller.
pub mod Queue
pub mod Refine
pub mod Decode
mod Tests
use hep_os.Prelude.{
  Bool, List, Option, [], false, get_or, if◌then◌else◌, leb, length, ltb, none, not, replicate, set,
  some, true, ℕ, ◌%◌, ◌&&◌, ◌+◌, ◌-◌, ◌==◌, ◌||◌, ◌∷◌,
}

abbrev pub buf_size : ℕ
buf_size = 64

pub record KeyBuf : Type 0 where
  pub buf : List ℕ
  pub head : ℕ
  pub tail : ℕ

abbrev pub new_keybuf : KeyBuf
new_keybuf = record { buf = replicate buf_size 0; head = 0; tail = 0 }

-- KeyBuf::push
unfoldable pub push : ℕ → KeyBuf → KeyBuf
push c k =
    let next = (k.tail + 1) % buf_size in
    if not (next == k.head) then record k { buf = set k.buf k.tail c; tail = next } else k

-- KeyBuf::pop
unfoldable pub pop : KeyBuf → Option ℕ × KeyBuf
pop k =
    if k.head == k.tail
    then (none, k)
    else (some (get_or k.buf k.head 0), record k { head = (k.head + 1) % buf_size })

-- Make codes of a US keyboard, without shift and with it.
abbrev pub scancode_map : List ℕ
scancode_map =
    0 ∷ 0x1B ∷ b'1' ∷ b'2' ∷ b'3' ∷ b'4' ∷ b'5' ∷ b'6' ∷ b'7' ∷ b'8' ∷ b'9' ∷ b'0' ∷ b'-' ∷ b'=' ∷ 8
    ∷ 9 ∷ b'q' ∷ b'w' ∷ b'e' ∷ b'r' ∷ b't' ∷ b'y' ∷ b'u' ∷ b'i' ∷ b'o' ∷ b'p' ∷ b'[' ∷ b']' ∷ 10 ∷ 0
    ∷ b'a' ∷ b's' ∷ b'd' ∷ b'f' ∷ b'g' ∷ b'h' ∷ b'j' ∷ b'k' ∷ b'l' ∷ b';' ∷ 39 ∷ b'`' ∷ 0 ∷ 92
    ∷ b'z' ∷ b'x' ∷ b'c' ∷ b'v' ∷ b'b' ∷ b'n' ∷ b'm' ∷ b',' ∷ b'.' ∷ b'/' ∷ 0 ∷ b'*' ∷ 0 ∷ 32 ∷ []

abbrev pub shift_map : List ℕ
shift_map =
    0 ∷ 0x1B ∷ b'!' ∷ b'@' ∷ b'#' ∷ b'$' ∷ b'%' ∷ b'^' ∷ b'&' ∷ b'*' ∷ b'(' ∷ b')' ∷ b'_' ∷ b'+' ∷ 8
    ∷ 9 ∷ b'Q' ∷ b'W' ∷ b'E' ∷ b'R' ∷ b'T' ∷ b'Y' ∷ b'U' ∷ b'I' ∷ b'O' ∷ b'P' ∷ b'{' ∷ b'}' ∷ 10 ∷ 0
    ∷ b'A' ∷ b'S' ∷ b'D' ∷ b'F' ∷ b'G' ∷ b'H' ∷ b'J' ∷ b'K' ∷ b'L' ∷ b':' ∷ 34 ∷ b'~' ∷ 0 ∷ b'|'
    ∷ b'Z' ∷ b'X' ∷ b'C' ∷ b'V' ∷ b'B' ∷ b'N' ∷ b'M' ∷ b'<' ∷ b'>' ∷ b'?' ∷ 0 ∷ b'*' ∷ 0 ∷ 32 ∷ []

-- The statics KEYBUF, EXTENDED, SHIFT, CAPS and CTRL.
pub record Keyboard : Type 0 where
  pub keybuf : KeyBuf
  pub extended : Bool
  pub shift : Bool
  pub caps : Bool
  pub ctrl : Bool

-- The key code of a scancode behind 0xE0; 0 is no key.
unfoldable pub extended_key : ℕ → ℕ
extended_key base_sc =
    if base_sc == 0x48
    then 0x80
    else if base_sc == 0x50
    then 0x81
    else if base_sc == 0x4B
    then 0x82
    else if base_sc == 0x4D
    then 0x83
    else if base_sc == 0x53
    then 0x84
    else if base_sc == 0x47
    then 0x85
    else if base_sc == 0x4F
    then 0x86
    else if base_sc == 0x49
    then 0x87
    else if base_sc == 0x51
    then 0x88
    else 0

abbrev pub is_ascii_lowercase : ℕ → Bool
is_ascii_lowercase c = leb b'a' c && leb c b'z'

abbrev pub is_ascii_uppercase : ℕ → Bool
is_ascii_uppercase c = leb b'A' c && leb c b'Z'

unfoldable pub raw_key : Bool → ℕ → ℕ
raw_key shift sc =
    if shift && ltb sc (length shift_map)
    then get_or shift_map sc 0
    else if ltb sc (length scancode_map)
    then get_or scancode_map sc 0
    else 0

unfoldable pub apply_caps : Bool → ℕ → ℕ
apply_caps caps raw =
    if caps && is_ascii_lowercase raw
    then raw - 32
    else if caps && is_ascii_uppercase raw
    then raw + 32
    else raw

unfoldable pub apply_ctrl : Bool → ℕ → ℕ
apply_ctrl ctrl raw = if ctrl && is_ascii_lowercase raw then raw - 0x60 else raw

-- The key code of a plain make code, the F-keys first.
unfoldable pub plain_key : Bool → Bool → Bool → ℕ → ℕ
unfolding raw_key apply_caps apply_ctrl
plain_key shift caps ctrl base_sc =
    if leb 0x3B base_sc && leb base_sc 0x44
    then 0x90 + (base_sc - 0x3A)
    else apply_ctrl ctrl (apply_caps caps (raw_key shift base_sc))

-- if ch != 0 { KEYBUF.lock().push(ch); }
unfoldable pub emit : ℕ → Keyboard → Keyboard
unfolding push
emit ch s = if not (ch == 0) then record s { keybuf = push ch s.keybuf } else s

-- A scancode other than 0xE0, with the prefix flag taken: `release` is its top bit, `base_sc` the rest.
unfoldable pub handle_code : Bool → Bool → ℕ → Keyboard → Keyboard
handle_code ext release base_sc s =
    if base_sc == 0x2A || base_sc == 0x36
    then record s { shift = not release }
    else if base_sc == 0x1D
    then record s { ctrl = not release }
    else if base_sc == 0x3A && not release
    then record s { caps = not s.caps }
    else if release
    then s
    else if ext
    then emit (extended_key base_sc) s
    else emit (plain_key s.shift s.caps s.ctrl base_sc) s

-- `sc` is a byte: sc & 0x80 != 0 is 128 ≤ sc, and sc & 0x7F is sc % 128.
unfoldable pub handle_scancode : ℕ → Keyboard → Keyboard
unfolding handle_code
handle_scancode sc s =
    if sc == 0xE0
    then record s { extended = true }
    else handle_code s.extended (leb 0x80 sc) (sc % 0x80) (record s { extended = false })

unfoldable pub read_char : Keyboard → Option ℕ × Keyboard
unfolding pop
read_char s = let (c, k) = pop s.keybuf in (c, record s { keybuf = k })

-- A byte that waits in the controller: `aux` is bit 5 of the status, true for the mouse.
pub record PortByte : Type 0 where
  pub aux : Bool
  pub value : ℕ

-- Drains the waiting bytes up to the first one of the mouse. The list is what the controller holds.
unfoldable pub poll : List PortByte → Keyboard → List PortByte × Keyboard
poll [] s = ([], s)
poll (b ∷ bs) s =
    let rest = poll bs (handle_scancode b.value s) in if b.aux then (b ∷ bs, s) else rest
