-- ===== src/Server/Blobs/Events.antt =====
-- The events of a blob in crates/serverclient/src/handlers.rs.
use sechat_client.Base.{◌≤◌, arith, length}
use sechat_client.Base.Bytes.{Bytes}
use sechat_client.Base.Int.{ℤ}
use sechat_client.Crypto.Disk.{Disk}
use sechat_client.Server.Blobs.{store_offline, handle_blob, process_blob}
use sechat_client.Server.Services.{Services}

module _ {D : Type 0} (x : Services D) where
  pub process_blob-events :
      (nonce : Bytes) (now : ℤ) (blob privkey : Bytes) (d : Disk D)
      → length (process_blob x nonce now blob privkey d).2 ≤ 1
  unfolding process_blob handle_blob store_offline
  process_blob-events nonce now blob privkey d = ground arith
