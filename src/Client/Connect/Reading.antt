-- ===== src/Client/Connect/Reading.antt =====
-- The history of a conversation after a session, in crates/client/src/lib.rs.
use sechat_client.Base.Bytes.{Bytes}
use sechat_client.Crypto.Disk.{Disk}
use sechat_client.Crypto.Primitives.{Primitives}
use sechat_client.Crypto.Stored.Log.{Log}
use sechat_client.Server.Services.{Services}
