-- ===== src/Crypto/Chat.antt =====
-- Encryption of the messages of a live session, in crates/crypto/src/lib.rs.
pub mod Nonce
use sechat_client.Base.{
  ℕ, ◌≤◌, ◌≡◌, Option, none, some, arith, length, Result, ok, ◌>>=◌, ◌>>◌, ok_or,
}
use sechat_client.Base.Bytes.{Bytes, Text, text}
use sechat_client.Crypto.Chat.Nonce.{nonce_for_message}
use sechat_client.Crypto.Primitives.{Primitives, PrimitiveLaws}
use sechat_client.Crypto.Types.{CryptoErrors, cryptographic_error, corrupted_file}

-- The message key and the base nonce of a directional session key; `none` is a panic of `unwrap`.
module _ (p : Primitives) where
  unfoldable pub chat_keys : Bytes → Option (Bytes × Bytes)
  chat_keys sessionkey = elim (p.hkdf_expand sessionkey (text "message") 32) [
    | none ↦ none
    | some message_key ↦ elim (p.hkdf_expand sessionkey (text "nonce") 12) [
      | none ↦ none
      | some nonce ↦ some (message_key, nonce)
    ]
  ]

  -- `none` is a panic of `unwrap`.
  unfoldable pub encrypt_message_for_chat : Text → Bytes → ℕ → Option Bytes
  encrypt_message_for_chat message sessionkey counter = elim (chat_keys sessionkey) [
    | none ↦ none
    | some (message_key, nonce) ↦
        p.aead_encrypt message_key (nonce_for_message nonce counter) (p.as_bytes message)
  ]

  -- `none` is a panic of `unwrap`.
  unfoldable pub decrypt_message_from_chat : Bytes → Bytes → ℕ → Option (Result CryptoErrors Text)
  decrypt_message_from_chat message sessionkey counter = elim (chat_keys sessionkey) [
    | none ↦ none
    | some (message_key, nonce) ↦ some (do
      decrypted ←
          ok_or (p.aead_decrypt message_key (nonce_for_message nonce counter) message)
            cryptographic_error
      ok_or (p.from_utf8 decrypted) corrupted_file)
  ]

  module _ (laws : PrimitiveLaws p) where
    -- The derivation never panics.
    pub chat_keys_total : (k : Bytes) → (ks : Bytes × Bytes) × (chat_keys k ≡ some ks)
    unfolding chat_keys
    chat_keys_total k =
        let (mk, e, _) = laws.hkdf_total k (text "message") 32 (omega arith) in
        let (nk, e', _) = laws.hkdf_total k (text "nonce") 12 (omega arith) in
        ((mk, nk), ground arith)

    -- What was encrypted under a session key and a counter is decrypted under the same key and
    -- counter.
    pub decrypt-encrypt_for_chat :
        (t : Text) (k : Bytes) (n : ℕ) (c : Bytes)
        → encrypt_message_for_chat t k n ≡ some c
        → decrypt_message_from_chat c k n ≡ some (ok t)
    unfolding encrypt_message_for_chat decrypt_message_from_chat
    decrypt-encrypt_for_chat t k n c h =
        let ((mk, base), e) = chat_keys_total k in
        let opened = laws.aead_opens mk (nonce_for_message base n) (p.as_bytes t) c in
        ground (arith, opened, laws.from_utf8-as_bytes t)

    -- Encryption of a text of ordinary length does not panic.
    pub encrypt_for_chat_total :
        (t : Text) (k : Bytes) (n : ℕ)
        → length (p.as_bytes t) ≤ 1000000
        → (c : Bytes) × (encrypt_message_for_chat t k n ≡ some c)
    unfolding encrypt_message_for_chat
    encrypt_for_chat_total t k n h =
        let ((mk, base), e) = chat_keys_total k in
        let (c, e') = laws.aead_total mk (nonce_for_message base n) (p.as_bytes t) h in
        (c, ground arith)
