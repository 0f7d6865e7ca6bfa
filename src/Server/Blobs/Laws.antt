-- ===== src/Server/Blobs/Laws.antt =====
-- What a blob may change, for `handle_blob` of crates/serverclient/src/handlers.rs.
use sechat_client.Base.{◌≡◌, Bool, false, not, ◌&&◌, [], arith, ok, err, is_ok}
use sechat_client.Base.Bytes.{Bytes}
use sechat_client.Base.Int.{ℤ}
use sechat_client.Crypto.Derive.{verify_challenge}
use sechat_client.Crypto.Disk.{Disk}
use sechat_client.Crypto.Peers.{load_peer_data}
use sechat_client.Server.Blobs.{
  blob_is_stale, check_signature, open_offline, check_purge, handle_blob,
}
use sechat_client.Server.Generators.{purge_bytes, offline_bytes}
use sechat_client.Server.Services.{Services}
use sechat_client.Server.Structs.{BlobPayload, offline_message, purge}

module _ {D : Type 0} (x : Services D) where
  -- The signature and the time of a payload are accepted for the keys on disk.
  unfoldable pub authentic : ℤ → BlobPayload → Disk D → Bool
  authentic now (offline_message sender timestamp ciphertext signature) d =
      elim (load_peer_data x.primitives d sender) [
        | err e ↦ false
        | ok who ↦
            not (blob_is_stale now timestamp)
            && x.primitives.signature_valid signature
            && x.primitives.ed25519_verify who.verifying (offline_bytes x ciphertext timestamp)
                signature
      ]
  authentic now (purge sender signature timestamp) d = elim (load_peer_data x.primitives d sender) [
    | err e ↦ false
    | ok who ↦
        not (blob_is_stale now timestamp)
        && x.primitives.signature_valid signature
        && x.primitives.ed25519_verify who.verifying (purge_bytes x timestamp) signature
  ]

  -- A payload that is stale, from an unknown sender, or wrongly signed is refused, the files stay as
  -- they are, and no event is sent.
  pub handle_blob_unauthentic :
      (nonce : Bytes) (now : ℤ) (my_priv : Bytes) (payload : BlobPayload) (d : Disk D)
      → authentic now payload d ≡ false
      → (is_ok (handle_blob x nonce now my_priv payload d).0 ≡ false)
        × ((handle_blob x nonce now my_priv payload d).1 ≡ d)
        × ((handle_blob x nonce now my_priv payload d).2 ≡ [])
  unfolding handle_blob authentic open_offline check_purge check_signature verify_challenge
  handle_blob_unauthentic nonce now my_priv (offline_message sender timestamp ciphertext signature)
        d h =
      ground arith
  handle_blob_unauthentic nonce now my_priv (purge sender signature timestamp) d h = ground arith
