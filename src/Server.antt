-- ===== src/Server.antt =====
-- crates/serverclient/src: the connection to the relay.
pub mod Structs
pub mod Services
pub mod Generators
pub mod Presence
pub mod Blobs
pub mod Handlers
pub mod Connect
pub mod Loops
