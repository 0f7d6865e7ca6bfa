-- ===== src/Crypto/Types.antt =====
-- The data types of crates/crypto/src/lib.rs, and what its errors print.
use sechat_client.Base.{List, ◌++◌}
use sechat_client.Base.Bytes.{Bytes, Text, text}
use sechat_client.Base.Int.{ℤ}

pub data Author : Type 0 where
  you peer : Author

pub record Message : Type 0 where
  pub author : Author
  pub text : Text
  pub timestamp : ℤ

pub record PeerPublic : Type 0 where
  pub public : Bytes
  pub verifying : Bytes

pub record Messages : Type 0 where
  pub messages : List Message
  pub peer : Text

pub record FileData : Type 0 where
  pub salt : Bytes
  pub nonce : Bytes
  pub ciphertext : Bytes
  pub pubkey : Bytes

pub record Keys : Type 0 where
  pub x25519_priv : Bytes
  pub x25519_pub : Bytes
  pub ed25519_signing : Bytes
  pub ed25519_verifying : Bytes

-- `std::io::ErrorKind`, as far as the program tells the kinds apart.
pub data ErrorKind : Type 0 where
  permission_denied unexpected_eof other_kind : ErrorKind

pub data CryptoErrors : Type 0 where
  cryptographic_error : CryptoErrors
  not_a_directory : Text → CryptoErrors
  permission_denied : CryptoErrors
  bad_permission : CryptoErrors
  not_found : Text → CryptoErrors
  other : ErrorKind → CryptoErrors
  corrupted_file : CryptoErrors

-- `Message::new` at the time `now`, and `Message::from_parts`.
unfoldable pub from_parts : Text → Author → ℤ → Message
from_parts t a ts = record { author = a; text = t; timestamp = ts }

unfoldable pub new_message : Text → Author → ℤ → Message
new_message t a now = record { author = a; text = t; timestamp = now }

-- `Display` of the errors; that of an I/O error is the operating system's, a parameter.
unfoldable pub display : (ErrorKind → Text) → CryptoErrors → Text
display io cryptographic_error = text "Cryptographic error"
display io (not_a_directory s) = text "Not a directory: " ++ s
display io CryptoErrors.permission_denied = text "Permission denied"
display io bad_permission = text "Bad file permission"
display io (not_found s) = text "Not found: " ++ s
display io (other e) = text "IO error: " ++ io e
display io corrupted_file = text "Corrupted file"
