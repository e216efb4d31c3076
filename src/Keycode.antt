-- ===== src/Keycode.antt =====
-- The keycode part of the program: nexus/src/nexus_keycode_*.c.
pub mod State
pub mod MessageIds
pub mod Pro
pub mod Mas
pub mod Core
