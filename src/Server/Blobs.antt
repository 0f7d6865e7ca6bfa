-- ===== src/Server/Blobs.antt =====
-- `handle_blob` and `process_blob` of crates/serverclient/src/handlers.rs. The nonce under which a
-- message is stored and the time are arguments; the events that are sent come back in order.
pub mod Laws
pub mod Delivery
pub mod Events
use sechat_client.Base.{
  ◌*◌, Bool, not, List, [], ◌∷◌, Result, ok, err, ◌>>=◌, ◌>>◌, ok_or, map_err, guard,
}
use sechat_client.Base.Bytes.{Bytes}
use sechat_client.Base.Int.{ℤ, pos, ltb_ℤ, sub_i64, abs_i64}
use sechat_client.Crypto.Blob.{decrypt_blob}
use sechat_client.Crypto.Derive.{load_storage_key, verify_challenge}
use sechat_client.Crypto.Disk.{Disk}
use sechat_client.Crypto.Peers.{load_peer_data, purge_peer_chat}
use sechat_client.Crypto.Stored.{
  decrypt_message_stored, save_chat, load_peer_chat_file, insert_message_stored,
}
use sechat_client.Crypto.Types.{Author, Message, from_parts, display}
use sechat_client.Server.Generators.{purge_bytes, offline_bytes}
use sechat_client.Server.Services.{Services}
use sechat_client.Server.Structs.{
  ClientErrors, deserialization_failed, invalid_message_format, invalid_signature, replay_detected,
  unknown_peer, decryption_failed, key_derivation_failed, peer_load_failed, chat_storage_failed,
  ServerEvent, blob_stored, BlobPayload, offline_message, purge,
}

-- What a handler returns: the result, the files, and the events.
abbrev pub Outcome : Type 0 → Type 0
Outcome D = Result ClientErrors (Unit {0}) × Disk D × List ServerEvent

-- The freshness test of both blobs: 30 days.
unfoldable pub blob_is_stale : ℤ → ℤ → Bool
blob_is_stale now timestamp = ltb_ℤ (pos (86400 * 30)) (abs_i64 (sub_i64 now timestamp))

module _ {D : Type 0} (x : Services D) where
  unfoldable pub check_signature : Bytes → Bytes → Bytes → Result ClientErrors (Unit {0})
  check_signature verifying signed signature = do
    guard (x.primitives.signature_valid signature) invalid_signature
    map_err (λ _. invalid_signature) (verify_challenge x.primitives verifying signed signature)

  -- The checks of an offline message, up to the storage key and the message that is to be stored.
  unfoldable pub open_offline :
      ℤ → Bytes → Bytes → ℤ → Bytes → Bytes → Disk D → Result ClientErrors (Bytes × Message)
  open_offline now my_priv sender_pub_hash timestamp ciphertext signature d = do
    guard (not (blob_is_stale now timestamp)) replay_detected
    peer_data ←
        map_err (λ e. peer_load_failed (display x.io_text e))
          (load_peer_data x.primitives d sender_pub_hash)
    check_signature peer_data.verifying (offline_bytes x ciphertext timestamp) signature
    storage_key ←
        map_err (λ _. key_derivation_failed)
          (load_storage_key x.primitives peer_data.public my_priv)
    plaintext ←
        map_err (λ _. decryption_failed)
          (decrypt_message_stored x.primitives ciphertext storage_key)
    sender_msg ← ok_or (x.message_codec.from_slice plaintext) invalid_message_format
    ok (storage_key, from_parts sender_msg.text Author.peer timestamp)

  unfoldable pub store_offline : Bytes → Bytes → Bytes → Message → Disk D → Outcome D
  store_offline nonce sender_pub_hash storage_key msg d =
      elim (load_peer_chat_file x.sled sender_pub_hash d) [
        | err e ↦ (err (chat_storage_failed (display x.io_text e)), d, [])
        | ok (db, opened) ↦
            elim (insert_message_stored x.primitives x.message_codec x.sled nonce msg storage_key
              db) [
                | err e ↦ (err (chat_storage_failed (display x.io_text e)), opened, [])
                | ok db' ↦
                    (ok tt, save_chat sender_pub_hash db' opened, blob_stored sender_pub_hash ∷ [])
              ]
      ]

  unfoldable pub check_purge : ℤ → Bytes → Bytes → ℤ → Disk D → Result ClientErrors (Unit {0})
  check_purge now sender_pub_hash signature timestamp d = do
    guard (not (blob_is_stale now timestamp)) replay_detected
    peer_data ← map_err (λ _. unknown_peer) (load_peer_data x.primitives d sender_pub_hash)
    check_signature peer_data.verifying (purge_bytes x timestamp) signature

  unfoldable pub handle_blob : Bytes → ℤ → Bytes → BlobPayload → Disk D → Outcome D
  handle_blob nonce now my_priv (offline_message sender timestamp ciphertext signature) d =
      elim (open_offline now my_priv sender timestamp ciphertext signature d) [
        | err e ↦ (err e, d, [])
        | ok (storage_key, msg) ↦ store_offline nonce sender storage_key msg d
      ]
  handle_blob nonce now my_priv (purge sender signature timestamp) d =
      elim (check_purge now sender signature timestamp d) [
        | err e ↦ (err e, d, [])
        | ok _ ↦ elim (purge_peer_chat sender d) [
          | err e ↦ (err (chat_storage_failed (display x.io_text e)), d, [])
          | ok d' ↦ (ok tt, d', [])
        ]
      ]

  -- The payload in an envelope.
  unfoldable pub open_blob : Bytes → Bytes → Result ClientErrors BlobPayload
  open_blob blob privkey = do
    decrypted ← map_err (λ _. decryption_failed) (decrypt_blob x.primitives blob privkey)
    ok_or (x.blob_codec.from_slice decrypted) (deserialization_failed x.codec_text)

  unfoldable pub process_blob : Bytes → ℤ → Bytes → Bytes → Disk D → Outcome D
  process_blob nonce now blob privkey d = elim (open_blob blob privkey) [
    | err e ↦ (err e, d, [])
    | ok payload ↦ handle_blob nonce now privkey payload d
  ]
