-- ===== src/P2p/Message.antt =====
-- Signed peer messages: `PeerMessage::new` and `PeerMessage::verify` of crates/p2p/src/lib.rs.
use sechat_client.Base.{◌≡◌, Bool, true, false, ◌++◌, arith, if◌then◌else◌, is_ok}
use sechat_client.Base.Bytes.{Bytes, Text, text, bytes_eq, bytes_eq_iff, bytes_eq_refl, le_bytes}
use sechat_client.Base.Int.{ℤ, to_u64}
use sechat_client.Crypto.Derive.{verify_challenge, sign_challenge}
use sechat_client.Crypto.Primitives.{Primitives, PrimitiveLaws}

pub data P2PError : Type 0 where
  communication_error timeout : P2PError
  storage_failed : Text → P2PError
  serialization_error deserialization_error cryptographic_failure : P2PError

pub data P2PMessage : Type 0 where
  -- the ephemeral public key
  init : Bytes → P2PMessage
  -- counter, message_bytes
  chat_message : ℤ → Bytes → P2PMessage
  heart_beat : P2PMessage
  -- last_timestamp
  sync_request : ℤ → P2PMessage
  sync_response : Bytes → P2PMessage
  end_message : P2PMessage

pub record PeerMessage : Type 0 where
  pub timestamp : ℤ
  pub payload : P2PMessage
  pub sender : Bytes
  pub signature : Bytes

unfoldable pub payload_bytes : P2PMessage → Bytes
payload_bytes (init ephemeral) = ephemeral
payload_bytes (chat_message counter message_bytes) = le_bytes 8 (to_u64 counter) ++ message_bytes
payload_bytes heart_beat = text "Heartbeat"
payload_bytes (sync_request last_timestamp) = le_bytes 8 (to_u64 last_timestamp)
payload_bytes (sync_response messages) = messages
payload_bytes end_message = text "EndOfConversation"

-- The bytes under a signature.
unfoldable pub signed_bytes : Bytes → ℤ → P2PMessage → Bytes
signed_bytes sender timestamp payload =
    sender ++ (le_bytes 8 (to_u64 timestamp) ++ payload_bytes payload)

module _ (p : Primitives) where
  -- `PeerMessage::new` at the time `now`.
  unfoldable pub new_peer_message : P2PMessage → Bytes → Bytes → ℤ → PeerMessage
  new_peer_message payload sender signing now = record {
    timestamp = now;
    payload = payload;
    sender = sender;
    signature = sign_challenge p signing (signed_bytes sender now payload);
  }

  unfoldable pub verify : PeerMessage → Bytes → Bytes → Bool
  verify m expected_x25519 expected_verifying =
      if bytes_eq m.sender expected_x25519
      then (if p.signature_valid m.signature
          then is_ok (
              verify_challenge p expected_verifying (signed_bytes m.sender m.timestamp m.payload)
                m.signature)
          else false)
      else false

  -- A message verifies under the keys of the one who made it.
  pub verify-new_peer_message :
      PrimitiveLaws p
      → (payload : P2PMessage) (sender signing : Bytes) (now : ℤ)
      → verify (new_peer_message payload sender signing now) sender (p.ed25519_verifying signing)
        ≡ true
  unfolding verify new_peer_message verify_challenge sign_challenge
  verify-new_peer_message laws payload sender signing now = ground (
    arith,
    bytes_eq_refl sender,
    laws.verify-sign signing (signed_bytes sender now payload),
    laws.sign_is_signature signing (signed_bytes sender now payload),
  )

  -- What a verified message carries.
  pub verify_lem :
      (m : PeerMessage) (expected_x25519 expected_verifying : Bytes)
      → verify m expected_x25519 expected_verifying ≡ true
      → (m.sender ≡ expected_x25519)
        × (p.ed25519_verify expected_verifying
              (signed_bytes m.sender m.timestamp m.payload)
              m.signature
            ≡ true)
  unfolding verify verify_challenge
  verify_lem m expected_x25519 expected_verifying h =
      ground (arith, h, bytes_eq_iff m.sender expected_x25519)
