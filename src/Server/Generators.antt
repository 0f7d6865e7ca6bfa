-- ===== src/Server/Generators.antt =====
-- crates/serverclient/src/generators.rs: the messages to the relay. Times, ephemeral secrets and
-- nonces are arguments; a message that reads the clock twice takes both readings.
use sechat_client.Base.{none, some, ◌++◌, Result, ok, ◌>>=◌, ok_or, map_err}
use sechat_client.Base.Bytes.{Bytes, Text, text, le_bytes}
use sechat_client.Base.Int.{ℤ, to_u64}
use sechat_client.Crypto.Blob.{encrypt_blob}
use sechat_client.Crypto.Derive.{identity_hash, load_storage_key, presence_token, sign_challenge}
use sechat_client.Crypto.Stored.{encrypt_message_stored}
use sechat_client.Crypto.Types.{Author, PeerPublic, CryptoErrors, from_parts}
use sechat_client.Server.Services.{Services}
use sechat_client.Server.Structs.{
  ClientErrors, serialization_failed, encryption_failed, key_derivation_failed, ClientMessage, auth,
  announce, unannounce, send_blob, ack_blob, lookup_peer, request_hole_punch, ClientToServer,
  new_client_to_server, offline_message, purge,
}

module _ {D : Type 0} (x : Services D) where
  unfoldable pub generate_peer_hash : PeerPublic → Bytes
  unfolding identity_hash
  generate_peer_hash who = identity_hash x.primitives who.public who.verifying

  unfoldable pub generate_authenticate_message :
      Bytes → Bytes → Bytes → ℤ → ℤ → Result CryptoErrors ClientToServer
  unfolding sign_challenge new_client_to_server
  generate_authenticate_message public verif signing timestamp now =
      let signed =
        sign_challenge x.primitives signing (public ++ (verif ++ le_bytes 8 (to_u64 timestamp))) in
      ok (new_client_to_server (auth public verif signed) (some timestamp) now)

  unfoldable pub generate_announce_message :
      Bytes → Bytes → ℤ → Text → Result CryptoErrors ClientMessage
  generate_announce_message privkey peer_key timestamp ip_port = do
    token ← presence_token x.primitives privkey peer_key timestamp
    ok (announce token ip_port)

  unfoldable pub generate_unannounce_message : Bytes → Bytes → ℤ → Result CryptoErrors ClientMessage
  generate_unannounce_message privkey peer_key timestamp = do
    token ← presence_token x.primitives privkey peer_key timestamp
    ok (unannounce token)

  unfoldable pub generate_blob :
      Bytes → Bytes → PeerPublic → Bytes → Result CryptoErrors ClientMessage
  generate_blob eph_secret nonce recipient message = do
    blob ← encrypt_blob x.primitives eph_secret nonce recipient.public message
    ok (send_blob (generate_peer_hash recipient) blob)

  -- What a purge order signs, and what an offline message signs.
  unfoldable pub purge_bytes : ℤ → Bytes
  purge_bytes timestamp = text "purge" ++ le_bytes 8 (to_u64 timestamp)

  unfoldable pub offline_bytes : Bytes → ℤ → Bytes
  offline_bytes cipher timestamp = text "offline" ++ (cipher ++ le_bytes 8 (to_u64 timestamp))

  unfoldable pub generate_purge_message :
      Bytes → Bytes → PeerPublic → Bytes → Bytes → ℤ → ℤ → Result ClientErrors ClientToServer
  generate_purge_message eph_secret nonce recipient my_pub sign timestamp now = do
    let signed = sign_challenge x.primitives sign (purge_bytes timestamp)
    let sender = identity_hash x.primitives my_pub (x.primitives.ed25519_verifying sign)
    payload_bytes ←
        ok_or (x.blob_codec.to_vec (purge sender signed timestamp))
          (serialization_failed x.codec_text)
    msg ←
        map_err (λ _. key_derivation_failed)
          (generate_blob eph_secret nonce recipient payload_bytes)
    ok (new_client_to_server msg none now)

  -- `stored_nonce` is the nonce of the inner message, the other two are the envelope's.
  unfoldable pub generate_offline_message :
      Bytes
      → Bytes
      → Bytes
      → PeerPublic
      → Bytes
      → Bytes
      → Text
      → Bytes
      → ℤ
      → ℤ
      → Result ClientErrors ClientToServer
  generate_offline_message stored_nonce eph_secret nonce recipient my_pub my_priv content signing
        timestamp now =
      do
        storage_key ←
            map_err (λ _. key_derivation_failed)
              (load_storage_key x.primitives recipient.public my_priv)
        cipher ←
            map_err (λ _. encryption_failed)
              (encrypt_message_stored x.primitives x.message_codec stored_nonce
                (from_parts content Author.you timestamp) storage_key)
        let signed = sign_challenge x.primitives signing (offline_bytes cipher timestamp)
        let sender = identity_hash x.primitives my_pub (x.primitives.ed25519_verifying signing)
        payload_bytes ←
            ok_or (x.blob_codec.to_vec (offline_message sender timestamp cipher signed))
              (serialization_failed x.codec_text)
        msg ←
            map_err (λ _. key_derivation_failed)
              (generate_blob eph_secret nonce recipient payload_bytes)
        ok (new_client_to_server msg none now)

  unfoldable pub generate_lookup_message : PeerPublic → ℤ → ClientToServer
  generate_lookup_message who now =
      new_client_to_server (lookup_peer (generate_peer_hash who)) none now

  unfoldable pub generate_peer_lookup : PeerPublic → ClientMessage
  generate_peer_lookup who = lookup_peer (generate_peer_hash who)

  unfoldable pub generate_p2p_request : Bytes → Bytes → ℤ → Result ClientErrors ClientMessage
  generate_p2p_request peer_key privkey now = do
    token ← map_err (λ _. encryption_failed) (presence_token x.primitives privkey peer_key now)
    ok (request_hole_punch token)

unfoldable pub generate_ack_blob : Text → ClientMessage
generate_ack_blob blob_id = ack_blob blob_id
