-- ===== src/Crypto.antt =====
-- crates/crypto/src/lib.rs: keys, identities, encryption, and the files under ~/.sechat.
pub mod Primitives
pub mod Types
pub mod Derive
pub mod Disk
pub mod Peers
pub mod Chat
pub mod Blob
pub mod Stored
pub mod Keyfile
