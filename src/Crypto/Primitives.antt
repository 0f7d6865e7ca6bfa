-- ===== src/Crypto/Primitives.antt =====
-- The cryptographic crates, the MessagePack codec and the key-value store that the program calls.
-- They are parameters: a record of operations for each, and a record of the documented behaviour
-- that theorems assume where they need it. Keys, nonces, hashes and signatures are byte strings.
use sechat_client.Base.{
  ℕ, ◌+◌, ◌≤◌, ◌≡◌, Bool, true, Option, none, some, [], ◌∷◌, if◌then◌else◌, length,
}
use sechat_client.Base.Assoc.{Assoc, remove}
use sechat_client.Base.Bytes.{Bytes, Text, bytes_eq, bytes_lt}

-- sha2, x25519-dalek, hkdf, hmac, chacha20poly1305, ed25519-dalek, argon2, and std's UTF-8.
pub record Primitives : Type 0 where
  pub sha256 : Bytes → Bytes
  -- `PublicKey::from(&secret)`, and `secret.diffie_hellman(&public)`.
  pub x25519_public : Bytes → Bytes
  pub diffie_hellman : Bytes → Bytes → Bytes
  -- `Hkdf::new(None, ikm).expand(info, okm)` for an okm of that many bytes.
  pub hkdf_expand : Bytes → Bytes → ℕ → Option Bytes
  pub hmac_sha256 : Bytes → Bytes → Bytes
  -- `ChaCha20Poly1305::new(key).encrypt(nonce, plaintext)`, and `decrypt`.
  pub aead_encrypt : Bytes → Bytes → Bytes → Option Bytes
  pub aead_decrypt : Bytes → Bytes → Bytes → Option Bytes
  pub ed25519_verifying : Bytes → Bytes
  pub ed25519_sign : Bytes → Bytes → Bytes
  -- `Signature::from_slice`, `VerifyingKey::from_bytes`, `verifying.verify(data, signature)`.
  pub signature_valid : Bytes → Bool
  pub verifying_valid : Bytes → Bool
  pub ed25519_verify : Bytes → Bytes → Bytes → Bool
  pub argon2 : Bytes → Bytes → Option Bytes
  -- `str::as_bytes` and `String::from_utf8`.
  pub as_bytes : Text → Bytes
  pub from_utf8 : Bytes → Option Text
  -- The hex crate.
  pub hex_encode : Bytes → Text
  pub hex_decode : Text → Option Bytes

-- No character below the digit 0, so no white space.
abbrev pub Visible : Text → Type 0
Visible [] = Unit
Visible (c ∷ cs) = (48 ≤ c) × Visible cs

-- What the crates document.
pub record PrimitiveLaws (p : Primitives) : Type 0 where
  -- Key agreement gives both sides one secret.
  pub dh_symmetric :
      (a b : Bytes)
      → p.diffie_hellman a (p.x25519_public b) ≡ p.diffie_hellman b (p.x25519_public a)
  pub length-x25519_public : (a : Bytes) → length (p.x25519_public a) ≡ 32
  -- Expansion fails only above 255 hash lengths.
  pub hkdf_total :
      (ikm info : Bytes) (n : ℕ)
      → n ≤ 8160
      → (k : Bytes) × (p.hkdf_expand ikm info n ≡ some k) × (length k ≡ n)
  -- Decryption under the same key and nonce undoes encryption, which appends a tag of 16 bytes.
  pub aead_opens : (k n m c : Bytes) → p.aead_encrypt k n m ≡ some c → p.aead_decrypt k n c ≡ some m
  pub length-aead_encrypt :
      (k n m c : Bytes) → p.aead_encrypt k n m ≡ some c → length c ≡ length m + 16
  -- Encryption fails only for a plaintext above 2 ^ 32 blocks, far above any that is sent.
  pub aead_total :
      (k n m : Bytes) → length m ≤ 1000000 → (c : Bytes) × (p.aead_encrypt k n m ≡ some c)
  pub verify-sign :
      (s m : Bytes) → p.ed25519_verify (p.ed25519_verifying s) m (p.ed25519_sign s m) ≡ true
  pub sign_is_signature : (s m : Bytes) → p.signature_valid (p.ed25519_sign s m) ≡ true
  pub verifying_is_valid : (s : Bytes) → p.verifying_valid (p.ed25519_verifying s) ≡ true
  pub length-ed25519_verifying : (s : Bytes) → length (p.ed25519_verifying s) ≡ 32
  pub from_utf8-as_bytes : (t : Text) → p.from_utf8 (p.as_bytes t) ≡ some t
  pub hex_decode-hex_encode : (b : Bytes) → p.hex_decode (p.hex_encode b) ≡ some b
  -- Digits and the letters from `a` on only.
  pub hex_encode-Visible : (b : Bytes) → Visible (p.hex_encode b)

-- `rmp_serde::to_vec` and `rmp_serde::from_slice` at one type.
pub record Codec (A : Type 0) : Type 0 where
  pub to_vec : A → Option Bytes
  pub from_slice : Bytes → Option A

pub record CodecLaws {A : Type 0} (c : Codec A) : Type 0 where
  pub from_slice-to_vec : (a : A) (b : Bytes) → c.to_vec a ≡ some b → c.from_slice b ≡ some a

-- A sled tree of type `D`; `none` is an I/O error or a corrupted tree.
pub record Sled (D : Type 0) : Type 0 where
  pub created : D
  pub entries : D → Assoc Bytes
  pub last : D → Option (Option (Bytes × Bytes))
  pub insert : Bytes → Bytes → D → Option D
  pub remove : Bytes → D → D

-- sled orders its keys lexicographically.
unfoldable pub ordered_insert : Bytes → Bytes → Assoc Bytes → Assoc Bytes
ordered_insert k v [] = (k, v) ∷ []
ordered_insert k v ((j, w) ∷ m) =
    if bytes_lt k j
    then (k, v) ∷ (j, w) ∷ m
    else if bytes_eq k j
    then (k, v) ∷ m
    else (j, w) ∷ ordered_insert k v m

unfoldable pub last_entry : Assoc Bytes → Option (Bytes × Bytes)
last_entry [] = none
last_entry (e ∷ []) = some e
last_entry (e ∷ f ∷ m) = last_entry (f ∷ m)

-- What sled documents of a tree whose operations succeed.
pub record SledLaws {D : Type 0} (s : Sled D) : Type 0 where
  pub entries-created : s.entries s.created ≡ []
  pub last_lem : (d : D) → s.last d ≡ some (last_entry (s.entries d))
  pub entries-insert :
      (k v : Bytes) (d d' : D)
      → s.insert k v d ≡ some d'
      → s.entries d' ≡ ordered_insert k v (s.entries d)
  pub entries-remove : (k : Bytes) (d : D) → s.entries (s.remove k d) ≡ remove k (s.entries d)
