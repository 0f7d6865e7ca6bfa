-- ===== src/Tests/CryptoRuns.antt =====
-- Runs of the keys, the messages and the conversation at rest.
use mathlib.Core.Option
use sechat_client.Base.{
  ◌≡◌, refl, ◌≢◌, false, List, [], ◌∷◌, arith, replicate, Result, is_ok, unwrap_or,
}
use sechat_client.Base.Assoc.{lookup}
use sechat_client.Base.Bytes.{Bytes, text, bytes_eq, be_bytes}
use sechat_client.Base.Int.{pos}
use sechat_client.Crypto.Chat.{encrypt_message_for_chat}
use sechat_client.Crypto.Chat.Nonce.{nonce_for_message, nonce_for_message_distinct}
use sechat_client.Crypto.Disk.{Disk, new_peer_dir}
use sechat_client.Crypto.Keyfile.{seal_keys}
use sechat_client.Crypto.Peers.{load_peers}
use sechat_client.Crypto.Peers.Removal.{load_peers-stray}
use sechat_client.Crypto.Primitives.{Codec, CodecLaws, ordered_insert, last_entry}
use sechat_client.Crypto.Stored.{
  encrypt_message_stored, counter_after, find_counter, read_rows, insert_message_stored,
}
use sechat_client.Crypto.Stored.History.{store_all, read_rows-store_all}
use sechat_client.Crypto.Types.{Author, Message, from_parts}
use sechat_client.Tests.Toy.{toy, toy_laws, Tree, toy_sled, toy_sled_laws}
use sechat_client.Tests.Wire.{
  packed, packed_laws, message_fields, message_of, message_of-message_fields,
}
use sechat_client.Tests.World.{alice_secret, bob_signing, twelve, bob_disk}

abbrev value_of : {E : Type 0} → Result E Bytes → Bytes
value_of r = unwrap_or r []

nonce_for_message_distinct_example : nonce_for_message twelve 7 ≢ nonce_for_message twelve 8
nonce_for_message_distinct_example =
    nonce_for_message_distinct twelve 7 8 (omega arith) refl (omega arith) (omega arith)
      (omega arith)

abbrev chat_cipher : Bytes
chat_cipher = Option.get_or (encrypt_message_for_chat toy (text "hi") alice_secret 4) []

abbrev sealed_keys : Bytes
sealed_keys =
    value_of (seal_keys toy (text "pw") (replicate 32 1) twelve (replicate 32 2) (replicate 32 4))

abbrev codec : Codec Message
codec = packed message_fields message_of

abbrev codec_laws : CodecLaws codec
codec_laws = packed_laws message_fields message_of message_of-message_fields

abbrev first_message : Message
first_message = from_parts (text "one") Author.you (pos 100)

abbrev second_message : Message
second_message = from_parts (text "two") Author.peer (pos 101)

abbrev two_rows : List (Bytes × Message)
two_rows = (twelve, first_message) ∷ (replicate 12 4, second_message) ∷ []

abbrev stored_tree : Tree
stored_tree = unwrap_or (store_all toy codec toy_sled alice_secret two_rows []) []

read_rows-store_all_example :
    read_rows toy codec alice_secret stored_tree ≡ (first_message ∷ second_message ∷ [], [])
unfolding toy_sled store_all insert_message_stored encrypt_message_stored packed toy find_counter
    counter_after last_entry ordered_insert be_bytes
read_rows-store_all_example =
    read_rows-store_all toy codec toy_sled toy_laws codec_laws toy_sled_laws alice_secret two_rows
      stored_tree (omega arith) (refl, (refl, tt)) refl

abbrev stray_disk : Disk Tree
stray_disk = record bob_disk { peers = (bob_signing, new_peer_dir) ∷ [] }

load_peers-stray_example : is_ok (load_peers toy stray_disk) ≡ false
unfolding lookup bytes_eq
load_peers-stray_example = load_peers-stray toy stray_disk bob_signing new_peer_dir refl refl
