-- ===== src/Crypto/Blob.antt =====
-- The sealed envelope of an offline blob, in crates/crypto/src/lib.rs:
-- 32 bytes of an ephemeral key, 12 bytes of a nonce, the ciphertext.
use sechat_client.Base.{
  ◌+◌, ◌≡◌, ap, ◌∙◌, inl, inr, ◌++◌, arith, ltb, if◌then◌else◌, Option-cases, length, length-append,
  take, drop, take-append, drop-append, drop-append_two, Result, ok, err, ◌>>=◌, ok_or,
}
use sechat_client.Base.Bytes.{Bytes, text}
use sechat_client.Crypto.Derive.{derive}
use sechat_client.Crypto.Primitives.{Primitives, PrimitiveLaws}
use sechat_client.Crypto.Types.{CryptoErrors, cryptographic_error, corrupted_file}

module _ (p : Primitives) where
  -- With the ephemeral secret and the nonce that the generator drew.
  unfoldable pub encrypt_blob : Bytes → Bytes → Bytes → Bytes → Result CryptoErrors Bytes
  unfolding derive
  encrypt_blob eph_secret nonce recipient_pub plaintext = do
    key ← derive p eph_secret recipient_pub (text "blob")
    ciphertext ← ok_or (p.aead_encrypt key nonce plaintext) cryptographic_error
    ok (p.x25519_public eph_secret ++ (nonce ++ ciphertext))

  unfoldable pub decrypt_blob : Bytes → Bytes → Result CryptoErrors Bytes
  unfolding derive
  decrypt_blob blob privkey = if ltb (length blob) 44 then err corrupted_file else (do
    key ← derive p privkey (take 32 blob) (text "blob")
    ok_or (p.aead_decrypt key (take 12 (drop 32 blob)) (drop 44 blob)) cryptographic_error)

  -- What opening does to an envelope of the right shape.
  decrypt_blob_parts :
      (e n c privkey : Bytes)
      → length e ≡ 32
      → length n ≡ 12
      → decrypt_blob (e ++ (n ++ c)) privkey ≡ (do
        key ← derive p privkey e (text "blob")
        ok_or (p.aead_decrypt key n c) cryptographic_error)
  unfolding decrypt_blob
  decrypt_blob_parts e n c privkey le ln =
      rw
        (
          take-append 32 e (n ++ c) le,
          drop-append 32 e (n ++ c) le,
          take-append 12 n c ln,
          drop-append_two 32 12 e n c le ln,
        )
        (ground (arith, length-append e (n ++ c), length-append n c))

  module _ (laws : PrimitiveLaws p) where
    -- An envelope that was sealed, with a nonce of twelve bytes, for the public half of a key
    -- pair is opened by the secret half, and is 60 bytes longer than what it seals.
    pub decrypt-encrypt_blob :
        (secret nonce privkey m env : Bytes)
        → length nonce ≡ 12
        → encrypt_blob secret nonce (p.x25519_public privkey) m ≡ ok env
        → (decrypt_blob env privkey ≡ ok m) × (length env ≡ length m + 60)
    unfolding encrypt_blob
    decrypt-encrypt_blob secret nonce privkey m env ln h =
        let shared = laws.dh_symmetric privkey secret in
        let agreed = p.diffie_hellman secret (p.x25519_public privkey) in
        let (key, e, _) = laws.hkdf_total agreed (text "blob") 32 (omega arith) in
        elim (Option-cases (p.aead_encrypt key nonce m)) [
          | inl failed ↦ absurd (ground arith)
          | inr (c, sealed) ↦
              let eph = p.x25519_public secret in
              let shape : env ≡ eph ++ (nonce ++ c) = ground arith in
              let le = laws.length-x25519_public secret in
              (
                ap (λ b. decrypt_blob b privkey) shape
                    ∙ decrypt_blob_parts eph nonce c privkey le ln
                    ∙ ground (arith, laws.aead_opens key nonce m c sealed),
                ap length shape
                    ∙ omega (
                      arith,
                      length-append eph (nonce ++ c),
                      length-append nonce c,
                      laws.length-aead_encrypt key nonce m c sealed,
                    ),
              )
        ]
