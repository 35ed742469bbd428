-- ===== src/Input/Mouse/Tests.antt =====
-- Packets of kernel/src/mouse.rs.
use hep_os.Prelude.{[], arith, refl, ◌-◌, ◌<◌, ◌^◌, ◌∷◌, ◌≡◌}
use hep_os.Input.Mouse.{new_mouse, clamp, handle_ps2_byte}
use hep_os.Input.Mouse.Packets.{handle_ps2_byte_lem, clamp_lem}

handle_ps2_byte_lem_example :
    handle_ps2_byte 3 (handle_ps2_byte 0xFE (handle_ps2_byte 0x19 new_mouse))
    ≡ record { x = 398; y = 297; buttons = 1; cycle = 0; packet = 0x19 ∷ 0xFE ∷ 3 ∷ [] }
handle_ps2_byte_lem_example =
    handle_ps2_byte_lem 0x19 0xFE 3 new_mouse refl refl (omega arith) (omega arith) refl
      (omega arith) (omega arith)

clamp_lem_example :
    let m = record new_mouse { x = 2 ^ 32 - 5; y = 900 } in
    ((clamp 800 600 m).x < 800)
    × ((clamp 800 600 m).y < 600)
    × (clamp 800 600 m ≡ record m { x = 0; y = 599 })
    × (clamp 800 600 (clamp 800 600 m) ≡ clamp 800 600 m)
clamp_lem_example =
    clamp_lem 800 600 (record new_mouse { x = 2 ^ 32 - 5; y = 900 }) (omega arith) (omega arith)
      (omega arith) (omega arith)
