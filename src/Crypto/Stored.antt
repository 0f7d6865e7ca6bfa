-- ===== src/Crypto/Stored.antt =====
-- The conversation of a peer at rest, in crates/crypto/src/lib.rs: a sled tree from big-endian
-- counters to encrypted messages.
pub mod Log
pub mod History
use mathlib.Core.Option
use sechat_client.Base.{
  ℕ, ◌+◌, ◌%◌, ◌^◌, Option, none, some, List, [], ◌∷◌, ◌++◌, ltb, ◌==◌, if◌then◌else◌, length, take,
  drop, Result, ok, err, ◌>>=◌, ◌>>◌, ok_or,
}
use sechat_client.Base.Assoc.{Assoc}
use sechat_client.Base.Bytes.{Bytes, be_bytes, from_be}
use sechat_client.Crypto.Derive.{identity_hash}
use sechat_client.Crypto.Disk.{chat_db, Disk, set_dir, chat_of}
use sechat_client.Crypto.Primitives.{Primitives, Codec, Sled}
use sechat_client.Crypto.Types.{
  Message, PeerPublic, Messages, CryptoErrors, cryptographic_error, corrupted_file,
}

module _ (p : Primitives) (c : Codec Message) where
  -- With the nonce that the generator drew.
  unfoldable pub encrypt_message_stored : Bytes → Message → Bytes → Result CryptoErrors Bytes
  encrypt_message_stored nonce msg storagekey = do
    bytes ← ok_or (c.to_vec msg) cryptographic_error
    ciphertext ← ok_or (p.aead_encrypt storagekey nonce bytes) cryptographic_error
    ok (nonce ++ ciphertext)

unfoldable pub decrypt_message_stored : Primitives → Bytes → Bytes → Result CryptoErrors Bytes
decrypt_message_stored p stored storagekey =
    if ltb (length stored) 12
    then err corrupted_file
    else ok_or (p.aead_decrypt storagekey (take 12 stored) (drop 12 stored)) cryptographic_error

-- What an open tree holds is on disk.
unfoldable pub save_chat : {D : Type 0} → Bytes → D → Disk D → Disk D
save_chat id db d = set_dir id (λ dir. record dir { chat = some db }) d

-- The counter that follows the last row; 2 ^ 64 wraps.
unfoldable pub counter_after : Option (Bytes × Bytes) → Result CryptoErrors ℕ
counter_after none = ok 0
counter_after (some (key, _)) =
    if length key == 8 then ok ((from_be 0 key + 1) % 2 ^ 64) else err corrupted_file

module _ {D : Type 0} (s : Sled D) where
  unfoldable pub find_counter : D → Result CryptoErrors ℕ
  find_counter db = elim (s.last db) [ none ↦ err corrupted_file | some row ↦ counter_after row ]

  unfoldable pub insert_blob_to_chat : Bytes → D → Result CryptoErrors D
  insert_blob_to_chat blob db = do
    counter ← find_counter db
    ok_or (s.insert (be_bytes 8 counter) blob db) corrupted_file

  -- `sled::open`: the tree that is there, or a new one. It fails where the place has a fault.
  unfoldable pub load_peer_chat_file : Bytes → Disk D → Result CryptoErrors (D × Disk D)
  load_peer_chat_file id d = elim (d.faults (chat_db id)) [
    | some e ↦ err corrupted_file
    | none ↦
        let found = chat_of d id in
        let db = Option.get_or found s.created in
        ok (db, set_dir id (λ dir. record dir { chat = some db }) d)
  ]

module _ (p : Primitives) (c : Codec Message) where
  -- The message in one row, if it can be decrypted and decoded.
  unfoldable pub read_row : Bytes → Bytes → Option Message
  read_row storagekey value = elim (decrypt_message_stored p value storagekey) [
    | ok bytes ↦ c.from_slice bytes
    | err e ↦ none
  ]

  -- The messages in key order, and the keys of the rows that are to be removed.
  unfoldable pub read_rows : Bytes → Assoc Bytes → List Message × List Bytes
  unfolding read_row
  read_rows storagekey [] = ([], [])
  read_rows storagekey ((key, value) ∷ rows) =
      let (messages, to_remove) = read_rows storagekey rows in
      elim (read_row storagekey value) [
        | some msg ↦ (msg ∷ messages, to_remove)
        | none ↦ (messages, key ∷ to_remove)
      ]

module _ (p : Primitives) (c : Codec Message) {D : Type 0} (s : Sled D) where
  unfoldable pub insert_message_stored : Bytes → Message → Bytes → D → Result CryptoErrors D
  unfolding encrypt_message_stored
  insert_message_stored nonce msg storagekey db = do
    encrypted_data ← encrypt_message_stored p c nonce msg storagekey
    counter ← find_counter s db
    ok_or (s.insert (be_bytes 8 counter) encrypted_data db) corrupted_file

  unfoldable pub remove_keys : List Bytes → D → D
  remove_keys [] db = db
  remove_keys (k ∷ ks) db = remove_keys ks (s.remove k db)

  unfoldable pub load_peer_chat_messages :
      PeerPublic → Bytes → Disk D → Result CryptoErrors Messages × Disk D
  unfolding load_peer_chat_file identity_hash remove_keys save_chat
  load_peer_chat_messages who storagekey d =
      let id = identity_hash p who.public who.verifying in
      elim (load_peer_chat_file s id d) [
        | err e ↦ (err e, d)
        | ok (db, d') ↦
            let (messages, to_remove) = read_rows p c storagekey (s.entries db) in
            (
              ok (record { messages = messages; peer = p.hex_encode id }),
              save_chat id (remove_keys to_remove db) d',
            )
      ]
