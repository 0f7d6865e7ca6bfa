-- ===== src/Tests/Toy.antt =====
-- Simple functions in place of the cryptographic crates and of sled: no secrecy, the same laws.
use sechat_client.Base.{
  ℕ, zero, suc, ◌+◌, ◌-◌, ◌≡◌, refl, ap, Option, none, some, [], ◌∷◌, ◌++◌, arith, ◌==◌,
  if◌then◌else◌, length, length-append, take, drop, take-append, drop-append,
}
use sechat_client.Base.Assoc.{Assoc, remove}
use sechat_client.Base.Bytes.{Bytes, Text, bytes_eq, bytes_eq_refl}
use sechat_client.Crypto.Primitives.{
  Primitives, Visible, PrimitiveLaws, Sled, ordered_insert, last_entry, SledLaws,
}

-- The first `n` elements, with zeros where the list ends.
unfoldable pub fit : ℕ → Bytes → Bytes
fit zero b = []
fit (suc n) [] = 0 ∷ fit n []
fit (suc n) (x ∷ xs) = x ∷ fit n xs

pub length-fit : (n : ℕ) (b : Bytes) → length (fit n b) ≡ n
unfolding fit
length-fit zero b = refl
length-fit (suc n) [] = ap suc (length-fit n [])
length-fit (suc n) (x ∷ xs) = ap suc (length-fit n xs)

-- Elementwise sums of `n` elements.
unfoldable pub mix : ℕ → Bytes → Bytes → Bytes
mix zero a b = []
mix (suc n) [] [] = 0 ∷ mix n [] []
mix (suc n) [] (y ∷ ys) = y ∷ mix n [] ys
mix (suc n) (x ∷ xs) [] = x ∷ mix n xs []
mix (suc n) (x ∷ xs) (y ∷ ys) = (x + y) ∷ mix n xs ys

pub mix-fit : (n : ℕ) (a b : Bytes) → mix n a (fit n b) ≡ mix n b (fit n a)
unfolding mix fit
mix-fit zero a b = refl
mix-fit (suc n) [] [] = ap (λ l. 0 ∷ l) (mix-fit n [] [])
mix-fit (suc n) [] (y ∷ ys) = grind (arith, mix-fit n [] ys)
mix-fit (suc n) (x ∷ xs) [] = grind (arith, mix-fit n xs [])
mix-fit (suc n) (x ∷ xs) (y ∷ ys) = grind (arith, mix-fit n xs ys)

unfoldable pub tag : Bytes → Bytes → Bytes
tag k n = fit 16 (n ++ k)

unfoldable pub open_tagged : Bytes → Bytes → Bytes → Option Bytes
open_tagged k n c = if bytes_eq (take 16 c) (tag k n) then some (drop 16 c) else none

-- Every byte as one visible character.
unfoldable pub raise : Bytes → Text
raise [] = []
raise (b ∷ bs) = (b + 48) ∷ raise bs

unfoldable pub lower : Text → Bytes
lower [] = []
lower (c ∷ cs) = (c - 48) ∷ lower cs

lower-raise : (b : Bytes) → lower (raise b) ≡ b
unfolding lower raise
lower-raise [] = refl
lower-raise (b ∷ bs) = ground (arith, lower-raise bs)

raise-Visible : (b : Bytes) → Visible (raise b)
unfolding raise
raise-Visible [] = tt
raise-Visible (b ∷ bs) = (omega arith, raise-Visible bs)

unfoldable pub toy : Primitives
unfolding tag open_tagged raise lower
toy = record {
  sha256 = λ b. fit 32 b;
  x25519_public = λ a. fit 32 a;
  diffie_hellman = λ a b. mix 32 a b;
  hkdf_expand = λ ikm info n. some (fit n (ikm ++ info));
  hmac_sha256 = λ k m. fit 32 (k ++ m);
  aead_encrypt = λ k n m. some (tag k n ++ m);
  aead_decrypt = open_tagged;
  ed25519_verifying = λ s. fit 32 s;
  ed25519_sign = λ s m. fit 64 (fit 32 s ++ m);
  signature_valid = λ b. length b == 64;
  verifying_valid = λ b. length b == 32;
  ed25519_verify = λ v m s. bytes_eq s (fit 64 (v ++ m));
  argon2 = λ password salt. some (fit 32 (password ++ salt));
  as_bytes = λ t. t;
  from_utf8 = λ b. some b;
  hex_encode = raise;
  hex_decode = λ t. some (lower t);
}

pub toy_laws : PrimitiveLaws toy
unfolding toy tag open_tagged
toy_laws = record {
  dh_symmetric = λ a b. mix-fit 32 a b;
  length-x25519_public = λ a. length-fit 32 a;
  hkdf_total = λ ikm info n h. (fit n (ikm ++ info), refl, length-fit n (ikm ++ info));
  aead_opens = opens;
  length-aead_encrypt = grows;
  aead_total = λ k n m h. (tag k n ++ m, refl);
  verify-sign = λ s m. bytes_eq_refl (fit 64 (fit 32 s ++ m));
  sign_is_signature = λ s m. rw (length-fit 64 (fit 32 s ++ m)) refl;
  verifying_is_valid = λ s. rw (length-fit 32 s) refl;
  length-ed25519_verifying = λ s. length-fit 32 s;
  from_utf8-as_bytes = λ t. refl;
  hex_decode-hex_encode = λ b. ap some (lower-raise b);
  hex_encode-Visible = raise-Visible;
}
  where
    opens : (k n m c : Bytes) → toy.aead_encrypt k n m ≡ some c → toy.aead_decrypt k n c ≡ some m
    opens k n m c h = ground (
      arith,
      bytes_eq_refl (fit 16 (n ++ k)),
      drop-append 16 (fit 16 (n ++ k)) m (length-fit 16 (n ++ k)),
      take-append 16 (fit 16 (n ++ k)) m (length-fit 16 (n ++ k)),
    )

    grows : (k n m c : Bytes) → toy.aead_encrypt k n m ≡ some c → length c ≡ length m + 16
    grows k n m c h = ground (arith, length-append (fit 16 (n ++ k)) m, length-fit 16 (n ++ k))

abbrev pub Tree : Type 0
Tree = Assoc Bytes

unfoldable pub toy_sled : Sled Tree
toy_sled = record {
  created = [];
  entries = λ d. d;
  last = λ d. some (last_entry d);
  insert = λ k v d. some (ordered_insert k v d);
  remove = λ k d. remove k d;
}

pub toy_sled_laws : SledLaws toy_sled
unfolding toy_sled
toy_sled_laws = record {
  entries-created = refl;
  last_lem = λ d. refl;
  entries-insert = λ k v d d' h. ground arith;
  entries-remove = λ k d. refl;
}
