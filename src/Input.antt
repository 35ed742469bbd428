-- ===== src/Input.antt =====
-- Input from the PS/2 controller.
pub mod Keyboard
pub mod Mouse
