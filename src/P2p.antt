-- ===== src/P2p.antt =====
-- crates/p2p/src/lib.rs: hole punching, the handshakes, and live sessions.
pub mod Message
pub mod Fresh
pub mod Punch
pub mod Handshake
pub mod Session
