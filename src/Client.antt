-- ===== src/Client.antt =====
-- crates/client/src/lib.rs: the client's event loop, its retries, sessions and local files.
pub mod Types
pub mod Config
pub mod Identity
pub mod Facade
pub mod Aliases
pub mod State
pub mod Retry
pub mod Commands
pub mod Events
pub mod Presence
pub mod Sessions
pub mod History
pub mod EventLoop
pub mod Relay
pub mod Connect
pub mod Local
