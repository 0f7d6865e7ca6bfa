-- ===== src/Client/Identity.antt =====
-- The identity of the user, as crates/client/src/lib.rs makes and opens it: `identity_exists`,
-- `unlock` and `create_identity`.
pub mod RoundTrip
use sechat_client.Base.{Bool, true, false, Option, none, some, ◌++◌, Result, ok, err}
use sechat_client.Base.Bytes.{Bytes, Text, text}
use sechat_client.Crypto.Derive.{generate_x25519}
use sechat_client.Crypto.Disk.{Disk}
use sechat_client.Crypto.Keyfile.{
  KeyfileError, argon2_error, encrypt_error, io_error, encrypt_keyfile, read_keyfile,
  decrypt_keyfile,
}
use sechat_client.Crypto.Types.{Keys}
use sechat_client.Server.Services.{Services}

-- What the generator draws for a new identity.
pub record NewIdentity : Type 0 where
  pub secret : Bytes
  pub signing : Bytes
  pub salt : Bytes
  pub nonce : Bytes

module _ {D : Type 0} where
  unfoldable pub identity_exists : Disk D → Bool
  identity_exists d = elim d.identity_key [ none ↦ false | some b ↦ true ]

module _ {D : Type 0} (x : Services D) where
  unfoldable pub keyfile_text : KeyfileError → Text
  keyfile_text argon2_error = text "Argon2 error: " ++ x.crypto_text
  keyfile_text encrypt_error = text "Encrypt error: " ++ x.crypto_text
  keyfile_text (io_error e) = x.io_text e

  -- `none` is the panic of `decrypt_keyfile`.
  unfoldable pub unlock : Text → Disk D → Option (Result Text Keys)
  unlock password d = elim (read_keyfile x.primitives d) [
    | err e ↦ some (err (text "failed to read identity file"))
    | ok file ↦ elim (decrypt_keyfile x.primitives password file) [
      | none ↦ none
      | some (err e) ↦ some (err (text "wrong password"))
      | some (ok keys) ↦ some (ok keys)
    ]
  ]

  unfoldable pub create_identity : NewIdentity → Text → Disk D → Result Text Keys × Disk D
  unfolding generate_x25519 keyfile_text
  create_identity new password d =
      let (x25519_priv, x25519_pub) = generate_x25519 x.primitives new.secret in
      let (written, d') =
        encrypt_keyfile x.primitives password new.salt new.nonce x25519_priv x25519_pub new.signing
          d in
      elim written [
        | err e ↦ (err (text "failed to write identity: " ++ keyfile_text e), d')
        | ok _ ↦ (
          ok (record {
            x25519_priv = x25519_priv;
            x25519_pub = x25519_pub;
            ed25519_signing = new.signing;
            ed25519_verifying = x.primitives.ed25519_verifying new.signing;
          }),
          d',
        )
      ]
