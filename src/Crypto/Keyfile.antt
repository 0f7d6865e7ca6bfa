-- ===== src/Crypto/Keyfile.antt =====
-- The password-protected identity of crates/crypto/src/lib.rs, and its use by crates/client/src/lib.rs.
-- identity.key: 32 bytes of salt, 12 bytes of a nonce, 80 bytes of ciphertext.
use mathlib.Core.Option
use sechat_client.Base.{
  ◌≡◌, inl, inr, true, Option, none, some, ◌++◌, arith, ltb, if◌then◌else◌, Option-cases, length,
  length-append, take, drop, take-append, drop-append, take_all, drop-append_two, Result, ok, err,
  ◌>>=◌, ◌>>◌, ok_or,
}
use sechat_client.Base.Bytes.{Bytes, Text}
use sechat_client.Crypto.Disk.{
  Place, base_dir, peers_root, identity_key_file, identity_pub_file, Disk, read_file_to_buffer,
}
use sechat_client.Crypto.Primitives.{Primitives, PrimitiveLaws}
use sechat_client.Crypto.Types.{FileData, Keys, ErrorKind, CryptoErrors, cryptographic_error}

-- The boxed errors of `encrypt_keyfile`.
pub data KeyfileError : Type 0 where
  argon2_error encrypt_error : KeyfileError
  io_error : ErrorKind → KeyfileError

module _ {D : Type 0} where
  unfoldable pub try_place : Disk D → Place → Result KeyfileError (Unit {0})
  try_place d place = elim (d.faults place) [ none ↦ ok tt | some e ↦ err (io_error e) ]

module _ (p : Primitives) where
  -- The sealed key file: salt, nonce, ciphertext.
  unfoldable pub seal_keys : Text → Bytes → Bytes → Bytes → Bytes → Result KeyfileError Bytes
  seal_keys passwdplain salt nonce x25519_priv ed25519_signing = do
    derived_filekey ← ok_or (p.argon2 (p.as_bytes passwdplain) salt) argon2_error
    ciphertext ←
        ok_or (p.aead_encrypt derived_filekey nonce (x25519_priv ++ ed25519_signing)) encrypt_error
    ok (salt ++ (nonce ++ ciphertext))

  module _ {D : Type 0} where
    -- With the salt and the nonce that the generator drew. Files that were written before an error
    -- stay written.
    unfoldable pub encrypt_keyfile :
        Text
        → Bytes
        → Bytes
        → Bytes
        → Bytes
        → Bytes
        → Disk D
        → Result KeyfileError (Unit {0}) × Disk D
    unfolding seal_keys try_place
    encrypt_keyfile passwdplain salt nonce x25519_priv x25519_pub ed25519_signing d =
        let checked = (do
          writeable ← seal_keys passwdplain salt nonce x25519_priv ed25519_signing
          try_place d base_dir
          try_place d peers_root
          ok writeable) in
        let public_file = x25519_pub ++ p.ed25519_verifying ed25519_signing in
        elim checked [
          | err e ↦ (err e, d)
          | ok writeable ↦
              let made = record d { has_peers_root = true } in
              let with_key = record d { identity_key = some writeable; has_peers_root = true } in
              let with_pub = record d {
                identity_key = some writeable;
                identity_pub = some public_file;
                has_peers_root = true;
              } in
              elim (try_place d identity_key_file) [
                | err e ↦ (err e, made)
                | ok _ ↦ elim (try_place d identity_pub_file) [
                  | err e ↦ (err e, with_key)
                  | ok _ ↦ (ok tt, with_pub)
                ]
              ]
        ]

    unfoldable pub read_keyfile : Disk D → Result CryptoErrors FileData
    unfolding read_file_to_buffer
    read_keyfile d = do
      privkeybuf ← read_file_to_buffer d identity_key_file 124
      pubkeybuf ← read_file_to_buffer d identity_pub_file 64
      ok (record {
        salt = take 32 privkeybuf;
        nonce = take 12 (drop 32 privkeybuf);
        ciphertext = take 80 (drop 44 privkeybuf);
        pubkey = pubkeybuf;
      })

  -- The keys in a decrypted key file; `none` is the panic of a slice that is out of range.
  unfoldable pub parse_keys : Bytes → Option Keys
  parse_keys plaintext =
      if ltb (length plaintext) 64
      then none
      else some (record {
        x25519_priv = take 32 plaintext;
        x25519_pub = p.x25519_public (take 32 plaintext);
        ed25519_signing = take 32 (drop 32 plaintext);
        ed25519_verifying = p.ed25519_verifying (take 32 (drop 32 plaintext));
      })

  unfoldable pub decrypt_keyfile : Text → FileData → Option (Result CryptoErrors Keys)
  unfolding parse_keys
  decrypt_keyfile password file_data = elim (p.argon2 (p.as_bytes password) file_data.salt) [
    | none ↦ some (err cryptographic_error)
    | some derived_filekey ↦
        elim (p.aead_decrypt derived_filekey file_data.nonce file_data.ciphertext) [
          | none ↦ some (err CryptoErrors.permission_denied)
          | some plaintext ↦ Option.map ok (parse_keys plaintext)
        ]
  ]

  -- What `seal_keys` wrote is parted by `read_keyfile` into what `decrypt_keyfile` opens.
  module _ (laws : PrimitiveLaws p) where
    parse_keys_lem :
        (a b : Bytes)
        → length a ≡ 32
        → length b ≡ 32
        → parse_keys (a ++ b)
          ≡ some (record {
            x25519_priv = a;
            x25519_pub = p.x25519_public a;
            ed25519_signing = b;
            ed25519_verifying = p.ed25519_verifying b;
          })
    unfolding parse_keys
    parse_keys_lem a b la lb =
        rw (take-append 32 a b la, drop-append 32 a b la, take_all 32 b lb)
          (ground (arith, length-append a b))

    -- If two keys of 32 bytes were sealed with a salt of 32 bytes and a nonce of twelve, the
    -- file has 124 bytes, and opening its parts with the password gives the two keys and the
    -- public keys that belong to them.
    pub decrypt-seal_keys :
        (password : Text) (salt nonce a b sealed pubkey : Bytes)
        → length salt ≡ 32
        → length nonce ≡ 12
        → length a ≡ 32
        → length b ≡ 32
        → seal_keys password salt nonce a b ≡ ok sealed
        → (length sealed ≡ 124)
          × (decrypt_keyfile password (record {
            salt = take 32 sealed;
            nonce = take 12 (drop 32 sealed);
            ciphertext = take 80 (drop 44 sealed);
            pubkey = pubkey;
          })
              ≡ some (
                  ok (record {
                    x25519_priv = a;
                    x25519_pub = p.x25519_public a;
                    ed25519_signing = b;
                    ed25519_verifying = p.ed25519_verifying b;
                  })))
    unfolding seal_keys decrypt_keyfile
    decrypt-seal_keys password salt nonce a b sealed pubkey ls ln la lb h =
        elim (Option-cases (p.argon2 (p.as_bytes password) salt)) [
          | inl failed ↦ absurd (ground arith)
          | inr (filekey, derived) ↦ elim (Option-cases (p.aead_encrypt filekey nonce (a ++ b))) [
            | inl failed ↦ absurd (ground arith)
            | inr (c, enc) ↦
                let shape : sealed ≡ salt ++ (nonce ++ c) = ground arith in
                let lc : length c ≡ 80 = omega (
                  arith,
                  laws.length-aead_encrypt filekey nonce (a ++ b) c enc,
                  length-append a b,
                ) in
                rw
                  (
                    shape,
                    take-append 32 salt (nonce ++ c) ls,
                    drop-append 32 salt (nonce ++ c) ls,
                    take-append 12 nonce c ln,
                    drop-append_two 32 12 salt nonce c ls ln,
                    take_all 80 c lc,
                  )
                  (
                    omega (arith, length-append salt (nonce ++ c), length-append nonce c),
                    ground (
                      arith,
                      laws.aead_opens filekey nonce (a ++ b) c enc,
                      parse_keys_lem a b la lb,
                    ),
                  )
          ]
        ]
