-- ===== src/Tests.antt =====
-- Runs of the model on concrete data.
pub mod Devices
pub mod Memory
pub mod Ids
pub mod Keycodes
pub mod Assembly
pub mod Systems
pub mod Frames
pub mod Extended
pub mod Windows
pub mod Origin
pub mod FullFrames
pub mod Linked
pub mod Restarts
