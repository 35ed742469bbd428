-- ===== src/Input/Keyboard/Decode.antt =====
-- What the decoding of kernel/src/ps2.rs makes of the scancodes: caps lock, modifiers, and which
-- codes reach the ring of key events.
use hep_os.Prelude.{
  ==_iff, Bool, Bool-cases, List, [], arith, false, holds_to, holds_to-lt, if◌then◌else◌, inl, inr,
  leb, ltb, ltb→lt, not, refl, subst, sym, true, ℕ, ◌%◌, ◌++◌, ◌<◌, ◌==◌, ◌||◌, ◌∷◌, ◌≡◌, ◌≤◌,
}
use hep_os.Input.Keyboard.{
  KeyBuf, push, Keyboard, extended_key, is_ascii_lowercase, raw_key, plain_key, emit, handle_code,
  handle_scancode, PortByte, poll,
}

-- Scancodes of the letters.
abbrev pub is_letter : ℕ → Bool
is_letter sc = is_ascii_lowercase (raw_key false sc)

-- The key that caps lock gives: for a letter the other case, for all else no change.
abbrev pub caps_spec : Bool → ℕ → ℕ
caps_spec shift sc = plain_key (if is_letter sc then not shift else shift) false false sc

caps_table :
    (holds_to (λ sc. plain_key false true false sc == caps_spec false sc) 58 ≡ true)
    × (holds_to (λ sc. plain_key true true false sc == caps_spec true sc) 58 ≡ true)
unfolding holds_to plain_key
caps_table = (refl, refl)

raw_key_past : (shift : Bool) (sc : ℕ) → 58 ≤ sc → raw_key shift sc ≡ 0
unfolding raw_key
raw_key_past shift sc h = ground arith

caps_past : (shift : Bool) (sc : ℕ) → 58 ≤ sc → plain_key shift true false sc ≡ caps_spec shift sc
unfolding plain_key
caps_past shift sc h =
    ground (arith, raw_key_past shift sc h, raw_key_past (not shift) sc h, raw_key_past false sc h)

caps_below : (shift : Bool) (sc : ℕ) → sc < 58 → plain_key shift true false sc ≡ caps_spec shift sc
caps_below false sc lt =
    (==_iff _ _).0
      (holds_to-lt (λ c. plain_key false true false c == caps_spec false c) 58 caps_table.0 sc lt)
caps_below true sc lt =
    (==_iff _ _).0
      (holds_to-lt (λ c. plain_key true true false c == caps_spec true c) 58 caps_table.1 sc lt)

-- With caps lock on and ctrl up, a letter gives what it gives with shift reversed and caps lock off;
-- every other scancode gives what it gives with caps lock off.
pub plain_key-caps :
    (shift : Bool) (sc : ℕ)
    → plain_key shift true false sc
      ≡ plain_key (if is_letter sc then not shift else shift) false false sc
plain_key-caps shift sc = elim (Bool-cases (ltb sc 58)) [
  | inl below ↦ caps_below shift sc (ltb→lt sc 58 below)
  | inr past ↦ caps_past shift sc (ground arith)
]

-- Which key code a byte gives, 0 for none: not the prefix, no release, and no modifier.
abbrev pub key_of : ℕ → Keyboard → ℕ
key_of sc s =
    if leb 0x80 sc || (sc == 0x2A || (sc == 0x36 || (sc == 0x1D || sc == 0x3A)))
    then 0
    else if s.extended
    then extended_key sc
    else plain_key s.shift s.caps s.ctrl sc

abbrev pub is_shift : ℕ → Bool
is_shift sc = sc % 0x80 == 0x2A || sc % 0x80 == 0x36

-- The flags behind a byte: 0xE0 is remembered for one byte, shift and ctrl follow their keys down and
-- up, and caps lock turns over when its key goes down.
pub record Flags (sc : ℕ) (s s' : Keyboard) : Type 0 where
  pub prefix : s'.extended ≡ (sc == 0xE0)
  pub shifts : s'.shift ≡ (if is_shift sc then ltb sc 0x80 else s.shift)
  pub ctrls : s'.ctrl ≡ (if sc % 0x80 == 0x1D then ltb sc 0x80 else s.ctrl)
  pub locks : s'.caps ≡ (if sc == 0x3A then not s.caps else s.caps)

emit-keybuf :
    (ch : ℕ) (s : Keyboard) → (emit ch s).keybuf ≡ (if ch == 0 then s.keybuf else push ch s.keybuf)
unfolding emit
emit-keybuf ch s = ground arith

emit-flags :
    (ch : ℕ) (s : Keyboard)
    → ((emit ch s).extended ≡ s.extended)
      × ((emit ch s).shift ≡ s.shift)
      × ((emit ch s).ctrl ≡ s.ctrl)
      × ((emit ch s).caps ≡ s.caps)
unfolding emit
emit-flags ch s = ground arith

abbrev sent : ℕ → KeyBuf → KeyBuf
sent ch k = if ch == 0 then k else push ch k

-- What `handle_scancode_lem` states of one byte.
abbrev pub Handled : ℕ → Keyboard → Keyboard → Type 0
Handled sc s s' =
    (s'.keybuf ≡ (if key_of sc s == 0 then s.keybuf else push (key_of sc s) s.keybuf))
    × Flags sc s s'

handle_release :
    (sc : ℕ) (s : Keyboard)
    → sc < 256
    → 128 ≤ sc
    → (sc == 0xE0) ≡ false
    → Handled sc s (handle_code s.extended true (sc % 0x80) (record s { extended = false }))
unfolding handle_code
handle_release sc s lt up other = ground arith

handle_make :
    (sc : ℕ) (s : Keyboard)
    → sc < 128
    → Handled sc s (handle_code s.extended false (sc % 0x80) (record s { extended = false }))
unfolding handle_code
handle_make sc s lt =
    let s0 = record s { extended = false } in
    let same : sc % 0x80 ≡ sc = omega arith in
    let plain = plain_key s.shift s.caps s.ctrl sc in
    ground (
      arith,
      same,
      emit-keybuf (extended_key sc) s0,
      emit-flags (extended_key sc) s0,
      emit-keybuf plain s0,
      emit-flags plain s0,
    )

handle_scancode-prefix : (s : Keyboard) → Handled 0xE0 s (handle_scancode 0xE0 s)
unfolding handle_scancode
handle_scancode-prefix s = ground arith

handle_scancode-code :
    (sc : ℕ) (s : Keyboard)
    → (sc == 0xE0) ≡ false
    → handle_scancode sc s
      ≡ handle_code s.extended (leb 0x80 sc) (sc % 0x80) (record s { extended = false })
unfolding handle_scancode
handle_scancode-code sc s other = rw other

-- For every byte, `handle_scancode` pushes the byte's key code and nothing else, or leaves the ring
-- alone when it has none, and sets the four flags as the keyboard's state demands.
pub handle_scancode_lem : (sc : ℕ) (s : Keyboard) → sc < 256 → Handled sc s (handle_scancode sc s)
handle_scancode_lem sc s lt = elim (Bool-cases (sc == 0xE0)) [
  | inl prefix ↦ rw ((==_iff sc 0xE0).0 prefix) (handle_scancode-prefix s)
  | inr other ↦ rw (handle_scancode-code sc s other) (elim (Bool-cases (leb 0x80 sc)) [
    | inl up ↦
        subst
          (λ r. Handled sc s (handle_code s.extended r (sc % 0x80) (record s { extended = false })))
          (sym up) (handle_release sc s lt (ground arith) other)
    | inr down ↦
        subst
          (λ r. Handled sc s (handle_code s.extended r (sc % 0x80) (record s { extended = false })))
          (sym down) (handle_make sc s (ground arith))
  ])
]

-- Bytes of the keyboard, and bytes that begin with one of the mouse.
abbrev pub OwnBytes : List PortByte → Type 0
OwnBytes [] = Unit
OwnBytes (b ∷ bs) = (b.aux ≡ false) × OwnBytes bs

abbrev pub starts_aux : List PortByte → Bool
starts_aux [] = true
starts_aux (b ∷ bs) = b.aux

abbrev pub handle_all : List PortByte → Keyboard → Keyboard
handle_all [] s = s
handle_all (b ∷ bs) s = handle_all bs (handle_scancode b.value s)

-- `poll` hands the waiting bytes up to the first one of the mouse to `handle_scancode`, oldest first,
-- and leaves the mouse's byte and all behind it in the controller.
pub poll_lem :
    (own rest : List PortByte) (s : Keyboard)
    → OwnBytes own
    → starts_aux rest ≡ true
    → poll (own ++ rest) s ≡ (rest, handle_all own s)
unfolding poll
poll_lem [] [] s o a = refl
poll_lem [] (b ∷ bs) s o a = rw a
poll_lem (b ∷ bs) rest s o a = rw (o.0) (poll_lem bs rest (handle_scancode b.value s) o.1 a)
