-- ===== src/Channel.antt =====
-- Nexus Channel of nexus/src: origin commands to a controller, and the link manager.
pub mod Om
pub mod Links
