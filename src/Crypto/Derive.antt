-- ===== src/Crypto/Derive.antt =====
-- Identities, derived keys, signatures and presence tokens of crates/crypto/src/lib.rs.
use sechat_client.Base.{Option, ◌++◌, Result, ok, ◌>>=◌, ok_or, guard}
use sechat_client.Base.Bytes.{Bytes, text, le_bytes}
use sechat_client.Base.Int.{ℤ, to_u64, div_i64, mul_i64}
use sechat_client.Crypto.Primitives.{Primitives}
use sechat_client.Crypto.Types.{CryptoErrors, cryptographic_error}

-- The labels of the key derivations.
abbrev pub label_session : Bytes
label_session = text "session"

abbrev pub label_storage : Bytes
label_storage = text "storage"

module _ (p : Primitives) where
  unfoldable pub identity_hash : Bytes → Bytes → Bytes
  identity_hash x25519_pub verifying = p.sha256 (x25519_pub ++ verifying)

  -- `generate_x25519` with the secret that the generator drew.
  unfoldable pub generate_x25519 : Bytes → Bytes × Bytes
  generate_x25519 secret = (secret, p.x25519_public secret)

  -- The shared step of the derivations: agree on a secret, and expand it under a label.
  unfoldable pub derive : Bytes → Bytes → Bytes → Result CryptoErrors Bytes
  derive privkey peer_pub label =
      ok_or (p.hkdf_expand (p.diffie_hellman privkey peer_pub) label 32) cryptographic_error

  unfoldable pub load_storage_key : Bytes → Bytes → Result CryptoErrors Bytes
  unfolding derive
  load_storage_key peer_pub privkey = derive privkey peer_pub label_storage

  unfoldable pub derive_session_key : Bytes → Bytes → Result CryptoErrors Bytes
  unfolding derive
  derive_session_key ephemeral_priv peer_ephemeral_pub =
      derive ephemeral_priv peer_ephemeral_pub label_session

  -- `none` is the panic of `expect`.
  unfoldable pub relay_session_key : Bytes → Bytes → Option Bytes
  relay_session_key peer_pub my_priv =
      p.hkdf_expand (p.diffie_hellman my_priv peer_pub) (text "relay-session") 32

  -- `none` is the panic of `expect`.
  unfoldable pub derive_directional_key : Bytes → Bytes → Option Bytes
  derive_directional_key session_key label = p.hkdf_expand session_key label 32

  unfoldable pub presence_token : Bytes → Bytes → ℤ → Result CryptoErrors Bytes
  unfolding derive
  presence_token privkey peer_pub timestamp = do
    presence_key ← derive privkey peer_pub (text "presence")
    let ts = mul_i64 (div_i64 timestamp 15) 15
    ok (p.hmac_sha256 presence_key (le_bytes 8 (to_u64 ts)))

  unfoldable pub verify_challenge : Bytes → Bytes → Bytes → Result CryptoErrors (Unit {0})
  verify_challenge verif bits signature =
      guard (p.ed25519_verify verif bits signature) cryptographic_error

  unfoldable pub sign_challenge : Bytes → Bytes → Bytes
  sign_challenge signing bytes = p.ed25519_sign signing bytes
