-- ===== src/Keycode/Pro.antt =====
-- nexus/src/nexus_keycode_pro.c: the two protocols and what they share.
pub mod Growth
pub mod Wipe
pub mod Qc
pub mod Process
pub mod Small
pub mod Extended
pub mod Full
pub mod Restart
