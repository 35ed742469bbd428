-- ===== src/Input/Keyboard/Tests.antt =====
-- Keys of kernel/src/ps2.rs: shift and a letter, a full ring, an arrow key.
use hep_os.Prelude.{List, [], arith, false, map, refl, replicate, set, true, ◌++◌, ◌∷◌, ◌≡◌}
use hep_os.Input.Keyboard.{
  buf_size, KeyBuf, new_keybuf, push, pop, Keyboard, extended_key, raw_key, plain_key, emit,
  handle_code, handle_scancode, PortByte, poll,
}
use hep_os.Input.Keyboard.Queue.{enqueue, dequeue}
use hep_os.Input.Keyboard.Refine.{IsValid, contents, ring_refines}
use hep_os.Input.Keyboard.Decode.{
  plain_key-caps, Handled, handle_scancode_lem, OwnBytes, handle_all, poll_lem,
}

abbrev idle : Keyboard
idle = record { keybuf = new_keybuf; extended = false; shift = false; caps = false; ctrl = false }

-- Two bytes round the end of the ring.
abbrev wrapped : KeyBuf
wrapped = record { buf = set (set (replicate buf_size 0) 63 b'a') 0 b'b'; head = 63; tail = 1 }

wrapped-IsValid : IsValid wrapped
wrapped-IsValid = omega arith

contents-wrapped : contents wrapped ≡ b'a' ∷ b'b' ∷ []
contents-wrapped = refl

abbrev typed : List PortByte
typed = map (λ c. record { aux = false; value = c }) (0x2A ∷ 0x1E ∷ 0xAA ∷ 0xE0 ∷ 0x48 ∷ 0x1E ∷ [])

type_shift_a_up_a : contents (poll typed idle).1.keybuf ≡ b'A' ∷ 0x80 ∷ b'a' ∷ []
unfolding poll handle_scancode handle_code emit plain_key extended_key push
type_shift_a_up_a = refl

ring_refines_example :
    (contents (push b'c' wrapped) ≡ enqueue b'c' (b'a' ∷ b'b' ∷ []))
    × (((pop wrapped).0, contents (pop wrapped).1) ≡ dequeue (b'a' ∷ b'b' ∷ []))
ring_refines_example = ring_refines b'c' wrapped wrapped-IsValid

plain_key-caps_example : plain_key true true false 0x1E ≡ plain_key false false false 0x1E
unfolding raw_key
plain_key-caps_example = plain_key-caps true 0x1E

handle_scancode_lem_example : Handled 0x1E idle (handle_scancode 0x1E idle)
handle_scancode_lem_example = handle_scancode_lem 0x1E idle (omega arith)

abbrev mouse_bytes : List PortByte
mouse_bytes = record { aux = true; value = 8 } ∷ record { aux = false; value = 0x1E } ∷ []

typed-OwnBytes : OwnBytes typed
typed-OwnBytes = ground arith

poll_lem_example : poll (typed ++ mouse_bytes) idle ≡ (mouse_bytes, handle_all typed idle)
poll_lem_example = poll_lem typed mouse_bytes idle typed-OwnBytes refl
