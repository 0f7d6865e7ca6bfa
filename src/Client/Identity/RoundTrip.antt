-- ===== src/Client/Identity/RoundTrip.antt =====
-- An identity that `create_identity` of crates/client/src/lib.rs wrote, opened by `unlock`.
use sechat_client.Base.{
  ◌≡◌, inl, inr, true, none, some, ◌++◌, arith, Option-cases, length, length-append, take, drop,
  take_all, ok, Result-cases,
}
use sechat_client.Base.Bytes.{Bytes, Text}
use sechat_client.Client.Identity.{NewIdentity, identity_exists, unlock, create_identity}
use sechat_client.Crypto.Derive.{generate_x25519}
use sechat_client.Crypto.Disk.{
  base_dir, peers_root, identity_key_file, identity_pub_file, Disk, contents, read_file_to_buffer,
}
use sechat_client.Crypto.Keyfile.{
  try_place, seal_keys, encrypt_keyfile, read_keyfile, decrypt-seal_keys,
}
use sechat_client.Crypto.Primitives.{PrimitiveLaws}
use sechat_client.Crypto.Types.{Keys}
use sechat_client.Server.Services.{Services}

module _ {D : Type 0} (x : Services D) where
  encrypt_keyfile-files :
      (password : Text) (salt nonce a public b : Bytes) (d : Disk D)
      → (encrypt_keyfile x.primitives password salt nonce a public b d).0 ≡ ok tt
      → let d' = (encrypt_keyfile x.primitives password salt nonce a public b d).1 in
        (sealed : Bytes) × (seal_keys x.primitives password salt nonce a b ≡ ok sealed)
        × (d'.identity_key ≡ some sealed)
        × (d'.identity_pub ≡ some (public ++ x.primitives.ed25519_verifying b))
        × (d'.faults identity_key_file ≡ none)
        × (d'.faults identity_pub_file ≡ none)
  unfolding encrypt_keyfile try_place
  encrypt_keyfile-files password salt nonce a public b d h =
      elim (Result-cases (seal_keys x.primitives password salt nonce a b)) [
        | inr (e, s) ↦ absurd (ground (arith, s))
        | inl (sealed, s) ↦ elim (Option-cases (d.faults base_dir)) [
          | inr (e, s₁) ↦ absurd (ground (arith, s, s₁))
          | inl ok₁ ↦ elim (Option-cases (d.faults peers_root)) [
            | inr (e, s₂) ↦ absurd (ground (arith, s, ok₁, s₂))
            | inl ok₂ ↦ elim (Option-cases (d.faults identity_key_file)) [
              | inr (e, s₃) ↦ absurd (ground (arith, s, ok₁, ok₂, s₃))
              | inl ok₃ ↦ elim (Option-cases (d.faults identity_pub_file)) [
                | inr (e, s₄) ↦ absurd (ground (arith, s, ok₁, ok₂, ok₃, s₄))
                | inl ok₄ ↦ (
                  sealed,
                  s,
                  ground (arith, s, ok₁, ok₂, ok₃, ok₄),
                  ground (arith, s, ok₁, ok₂, ok₃, ok₄),
                  ground (arith, s, ok₁, ok₂, ok₃, ok₄),
                  ground (arith, s, ok₁, ok₂, ok₃, ok₄),
                )
              ]
            ]
          ]
        ]
      ]

  read_keyfile_lem :
      (d : Disk D) (sealed public : Bytes)
      → d.identity_key ≡ some sealed
      → d.identity_pub ≡ some public
      → d.faults identity_key_file ≡ none
      → d.faults identity_pub_file ≡ none
      → length sealed ≡ 124
      → length public ≡ 64
      → read_keyfile x.primitives d
        ≡ ok (record {
          salt = take 32 sealed;
          nonce = take 12 (drop 32 sealed);
          ciphertext = take 80 (drop 44 sealed);
          pubkey = public;
        })
  unfolding read_keyfile read_file_to_buffer contents
  read_keyfile_lem d sealed public key_is pub_is f g l m =
      ground (arith, key_is, pub_is, f, g, take_all 124 sealed l, take_all 64 public m)

  -- If `create_identity` succeeds with secrets of 32 bytes, a salt of 32 bytes and a nonce of
  -- twelve, then there is an identity afterwards, and `unlock` opens it with the same password and
  -- returns the same keys.
  pub unlock-create_identity :
      (laws : PrimitiveLaws x.primitives) (new : NewIdentity) (password : Text) (d : Disk D)
      (keys : Keys)
      → length new.secret ≡ 32
      → length new.signing ≡ 32
      → length new.salt ≡ 32
      → length new.nonce ≡ 12
      → (create_identity x new password d).0 ≡ ok keys
      → (identity_exists (create_identity x new password d).1 ≡ true)
        × (unlock x password (create_identity x new password d).1 ≡ some (ok keys))
  unfolding create_identity unlock identity_exists generate_x25519
  unlock-create_identity laws new password d keys la lb ls ln h =
      let public = x.primitives.x25519_public new.secret in
      let (r, d') =
        encrypt_keyfile x.primitives password new.salt new.nonce new.secret public new.signing d in
      elim (Result-cases r) [
        | inr (e, failed) ↦ absurd (ground (arith, failed))
        | inl (_, e) ↦
            let (sealed, s, k, p, f, g) =
              encrypt_keyfile-files password new.salt new.nonce new.secret public new.signing d e in
            let (l, opens) =
              decrypt-seal_keys x.primitives laws password new.salt new.nonce new.secret new.signing
                sealed (public ++ x.primitives.ed25519_verifying new.signing) ls ln la lb s in
            let read =
              read_keyfile_lem d' sealed (public ++ x.primitives.ed25519_verifying new.signing) k p
                f g l
                (omega (
                  arith,
                  length-append public (x.primitives.ed25519_verifying new.signing),
                  laws.length-x25519_public new.secret,
                  laws.length-ed25519_verifying new.signing,
                )) in
            (ground (arith, e, k), ground (arith, e, read, opens))
      ]
