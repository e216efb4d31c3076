-- ===== src/Util.antt =====
-- nexus/src/nexus_util.c and the hash of nexus/utils/siphash_24.c.
pub mod Bitset
pub mod Bitstream
pub mod Digits
pub mod Window
pub mod Check
