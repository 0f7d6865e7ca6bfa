-- ===== src/Server/Structs.antt =====
-- crates/serverclient/src/structs.rs.
use mathlib.Core.Option
use sechat_client.Base.{Option, ◌++◌}
use sechat_client.Base.Bytes.{Bytes, Text, text}
use sechat_client.Base.Int.{ℤ}

pub data ClientErrors : Type 0 where
  connection_failed : Text → ClientErrors
  connection_closed : ClientErrors
  connection_timeout : ClientErrors
  write_failed : Text → ClientErrors
  read_failed : Text → ClientErrors
  serialization_failed : Text → ClientErrors
  deserialization_failed : Text → ClientErrors
  invalid_message_format : ClientErrors
  auth_failed_error : Text → ClientErrors
  auth_timeout : ClientErrors
  unexpected_handshake_message : ClientErrors
  invalid_signature : ClientErrors
  invalid_timestamp : ClientErrors
  replay_detected : ClientErrors
  unknown_peer : ClientErrors
  invalid_public_key : ClientErrors
  decryption_failed : ClientErrors
  encryption_failed : ClientErrors
  key_derivation_failed : ClientErrors
  peer_load_failed : Text → ClientErrors
  peer_save_failed : Text → ClientErrors
  chat_storage_failed : Text → ClientErrors
  channel_closed : ClientErrors
  server_error : Text → ClientErrors

unfoldable pub display_client : ClientErrors → Text
display_client (connection_failed s) = text "connection failed: " ++ s
display_client connection_closed = text "connection closed"
display_client connection_timeout = text "connection timeout"
display_client (write_failed s) = text "write failed: " ++ s
display_client (read_failed s) = text "read failed: " ++ s
display_client (serialization_failed s) = text "serialization failed: " ++ s
display_client (deserialization_failed s) = text "deserialization failed: " ++ s
display_client invalid_message_format = text "invalid message format"
display_client (auth_failed_error s) = text "auth failed: " ++ s
display_client auth_timeout = text "auth timeout"
display_client unexpected_handshake_message = text "unexpected handshake message"
display_client invalid_signature = text "invalid signature"
display_client invalid_timestamp = text "invalid timestamp"
display_client replay_detected = text "replay attack detected"
display_client unknown_peer = text "unknown peer"
display_client invalid_public_key = text "invalid public key"
display_client decryption_failed = text "decryption failed"
display_client encryption_failed = text "encryption failed"
display_client key_derivation_failed = text "key derivation failed"
display_client (peer_load_failed s) = text "peer load failed: " ++ s
display_client (peer_save_failed s) = text "peer save failed: " ++ s
display_client (chat_storage_failed s) = text "chat storage failed: " ++ s
display_client channel_closed = text "internal channel closed"
display_client (server_error s) = text "server reported error: " ++ s

pub data ClientMessage : Type 0 where
  -- pub_key, verif, signature
  auth : Bytes → Bytes → Bytes → ClientMessage
  -- token, ip_port
  announce : Bytes → Text → ClientMessage
  unannounce : Bytes → ClientMessage
  -- recipient_hash, blob
  send_blob : Bytes → Bytes → ClientMessage
  purge_key : Bytes → ClientMessage
  ack_blob : Text → ClientMessage
  lookup_peer : Bytes → ClientMessage
  request_hole_punch : Bytes → ClientMessage
  request_denied : Bytes → ClientMessage
  request_accepted : Bytes → ClientMessage
  -- recipient_hash, payload
  relay_data : Bytes → Bytes → ClientMessage

pub record ClientToServer : Type 0 where
  pub payload : ClientMessage
  pub timestamp : ℤ

-- `ClientToServer::new` at the time `now`.
unfoldable pub new_client_to_server : ClientMessage → Option ℤ → ℤ → ClientToServer
new_client_to_server payload timestamp now = record {
  payload = payload;
  timestamp = Option.get_or timestamp now;
}

pub data RequestDeniedReason : Type 0 where
  peer_declined timed_out : RequestDeniedReason

pub data ServerMessage : Type 0 where
  auth_ok : Text → ServerMessage
  auth_failed : Text → ServerMessage
  -- blob_id, blob, timestamp
  pending_blob : Text → Bytes → ℤ → ServerMessage
  -- hash, ip_port
  peer_online : Bytes → Text → ServerMessage
  peer_offline : Bytes → ServerMessage
  -- token, peer_hash, ip_port, punchtimestamp
  punch_hole : Bytes → Bytes → Text → ℤ → ServerMessage
  error_message : Text → ServerMessage
  pending_blobs_end : ServerMessage
  -- pub_key, token
  hole_punch_requested : Bytes → Bytes → ServerMessage
  -- token, pub_key, reason
  hole_punch_refused : Bytes → Bytes → RequestDeniedReason → ServerMessage
  -- sender_hash, payload
  relayed : Bytes → Bytes → ServerMessage

pub record ServerToClient : Type 0 where
  pub payload : ServerMessage
  pub timestamp : ℤ

pub data ServerEvent : Type 0 where
  authenticated : Text → ServerEvent
  peer_came_online : Bytes → Text → ServerEvent
  peer_went_offline : Bytes → ServerEvent
  punch_hole_event : Bytes → Bytes → Text → ℤ → ServerEvent
  hole_punch_denied : Bytes → Text → ServerEvent
  blob_stored : Bytes → ServerEvent
  relay_data_event : Bytes → Bytes → ServerEvent
  disconnected : ServerEvent

pub data BlobPayload : Type 0 where
  -- sender_pub_hash, timestamp, ciphertext, signature
  offline_message : Bytes → ℤ → Bytes → Bytes → BlobPayload
  -- sender_pub_hash, signature, timestamp
  purge : Bytes → Bytes → ℤ → BlobPayload
