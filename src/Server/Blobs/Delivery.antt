-- ===== src/Server/Blobs/Delivery.antt =====
-- The way of an offline message from the sender's generator to the recipient's files.
use sechat_client.Base.{◌≡◌, inl, inr, false, some, arith, Option-cases, length, ok, Result-cases}
use sechat_client.Base.Bytes.{Bytes}
use sechat_client.Base.Int.{ℤ}
use sechat_client.Crypto.Blob.{encrypt_blob, decrypt-encrypt_blob}
use sechat_client.Crypto.Derive.{
  label_storage, identity_hash, load_storage_key, verify_challenge, sign_challenge,
}
use sechat_client.Crypto.Disk.{Disk}
use sechat_client.Crypto.Peers.{load_peer_data}
use sechat_client.Crypto.Stored.{encrypt_message_stored, read_row}
use sechat_client.Crypto.Stored.History.{read_row-encrypt}
use sechat_client.Crypto.Types.{Author, PeerPublic, from_parts}
use sechat_client.Server.Blobs.{
  blob_is_stale, check_signature, open_offline, store_offline, handle_blob, open_blob, process_blob,
}
use sechat_client.Server.Generators.{generate_blob, offline_bytes, generate_offline_message}
use sechat_client.Server.Services.{Services, ServicesLaws}
use sechat_client.Server.Structs.{
  send_blob, ClientToServer, new_client_to_server, BlobPayload, offline_message,
}

module _ {D : Type 0} (x : Services D) (laws : ServicesLaws x) where
  open laws use {primitive_laws, message_laws, blob_laws}

  -- A blob that the recipient's store takes: what the sender made, after the recipient's checks.
  pub open_blob-generate_blob :
      (secret nonce privkey verifying payload_bytes hash blob : Bytes) (payload : BlobPayload)
      → length nonce ≡ 12
      → x.blob_codec.to_vec payload ≡ some payload_bytes
      → generate_blob x secret nonce
          (record { public = x.primitives.x25519_public privkey; verifying = verifying })
          payload_bytes
        ≡ ok (send_blob hash blob)
      → open_blob x blob privkey ≡ ok payload
  unfolding generate_blob open_blob
  open_blob-generate_blob secret nonce privkey verifying payload_bytes hash blob payload ln enc h =
      elim (Result-cases (
        encrypt_blob x.primitives secret nonce (x.primitives.x25519_public privkey)
          payload_bytes)) [
            | inr (e, failed) ↦ absurd (ground arith)
            | inl (env, sealed) ↦
                let same : env ≡ blob = ground arith in
                let opened =
                  decrypt-encrypt_blob x.primitives primitive_laws secret nonce privkey
                    payload_bytes env ln sealed in
                ground (arith, opened.0, blob_laws.from_slice-to_vec payload payload_bytes enc)
          ]

  -- The sender's parameters, the recipient's key pair, and what the sender generated.
  module _ (stored_nonce secret nonce my_priv signing content : Bytes) (privkey verifying : Bytes)
      (timestamp now : ℤ) where
    abbrev sender_id : Bytes
    sender_id =
        identity_hash x.primitives (x.primitives.x25519_public my_priv)
          (x.primitives.ed25519_verifying signing)

    abbrev recipient : PeerPublic
    recipient = record { public = x.primitives.x25519_public privkey; verifying = verifying }

    abbrev sender : PeerPublic
    sender = record {
      public = x.primitives.x25519_public my_priv;
      verifying = x.primitives.ed25519_verifying signing;
    }

    -- An inner message is opened by the recipient's checks.
    open_offline-encrypt :
        (key cipher : Bytes) (now' : ℤ) (d : Disk D)
        → length stored_nonce ≡ 12
        → load_storage_key x.primitives (x.primitives.x25519_public privkey) my_priv ≡ ok key
        → encrypt_message_stored x.primitives x.message_codec stored_nonce
            (from_parts content Author.you timestamp)
            key
          ≡ ok cipher
        → load_peer_data x.primitives d sender_id ≡ ok sender
        → blob_is_stale now' timestamp ≡ false
        → open_offline x now' privkey sender_id timestamp cipher
            (sign_challenge x.primitives signing (offline_bytes x cipher timestamp))
            d
          ≡ ok (key, from_parts content Author.peer timestamp)
    unfolding open_offline check_signature verify_challenge sign_challenge load_storage_key
        from_parts read_row
    open_offline-encrypt key cipher now' d ln hk he hd fresh = ground (
      arith,
      primitive_laws.dh_symmetric my_priv privkey,
      primitive_laws.verify-sign signing (offline_bytes x cipher timestamp),
      primitive_laws.sign_is_signature signing (offline_bytes x cipher timestamp),
      read_row-encrypt x.primitives x.message_codec primitive_laws message_laws stored_nonce key
          cipher (from_parts content Author.you timestamp) ln he,
    )

    -- An offline message that a sender generates with nonces of twelve bytes, and that the
    -- recipient, who has the sender's keys on disk, processes within the window of 30 days, ends
    -- as a store of the same text under the sender's identity and the shared storage key, as the
    -- peer's, with the sender's time.
    pub process_blob-generate_offline_message :
        (hash blob store_nonce : Bytes) (now' : ℤ) (msg : ClientToServer) (d : Disk D)
        → length stored_nonce ≡ 12
        → length nonce ≡ 12
        → generate_offline_message x stored_nonce secret nonce recipient
            (x.primitives.x25519_public my_priv)
            my_priv
            content
            signing
            timestamp
            now
          ≡ ok msg
        → msg.payload ≡ send_blob hash blob
        → load_peer_data x.primitives d sender_id ≡ ok sender
        → blob_is_stale now' timestamp ≡ false
        → (key : Bytes) × (load_storage_key x.primitives
              (x.primitives.x25519_public my_priv)
              privkey
            ≡ ok key)
          × (process_blob x store_nonce now' blob privkey d
              ≡ store_offline x store_nonce sender_id key
                  (from_parts content Author.peer timestamp)
                  d)
    unfolding generate_offline_message process_blob handle_blob load_storage_key
        new_client_to_server
    process_blob-generate_offline_message hash blob store_nonce now' msg d ls ln h hp hd fresh =
        let agreed = x.primitives.diffie_hellman my_priv (x.primitives.x25519_public privkey) in
        let (key, hkdf, _) = primitive_laws.hkdf_total agreed label_storage 32 (omega arith) in
        let shared = primitive_laws.dh_symmetric my_priv privkey in
        let inner = from_parts content Author.you timestamp in
        elim (Result-cases
          (encrypt_message_stored x.primitives x.message_codec stored_nonce inner key)) [
            | inr (e, failed) ↦ absurd (ground arith)
            | inl (cipher, enc) ↦
                let signed =
                  sign_challenge x.primitives signing (offline_bytes x cipher timestamp) in
                let payload = offline_message sender_id timestamp cipher signed in
                elim (Option-cases (x.blob_codec.to_vec payload)) [
                  | inl failed ↦ absurd (ground arith)
                  | inr (bytes, encoded) ↦
                      elim (Result-cases (generate_blob x secret nonce recipient bytes)) [
                        | inr (e, failed) ↦ absurd (ground arith)
                        | inl (made, sealed) ↦
                            let sent : made ≡ send_blob hash blob = ground arith in
                            let opened =
                              open_blob-generate_blob secret nonce privkey verifying bytes hash blob
                                payload ln encoded (ground arith) in
                            let hk : load_storage_key x.primitives
                                  (x.primitives.x25519_public privkey) my_priv
                                ≡ ok key =
                              ground arith in
                            let stored =
                              open_offline-encrypt key cipher now' d ls hk enc hd fresh in
                            (key, ground arith, ground (arith, opened, stored))
                      ]
                ]
          ]
