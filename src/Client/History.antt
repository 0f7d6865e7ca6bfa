-- ===== src/Client/History.antt =====
-- `Client::history` of crates/client/src/lib.rs: the lines of a conversation.
use sechat_client.Base.{
  ℕ, ◌≡◌, true, false, none, some, List, [], ◌∷◌, ◌++◌, arith, Result, ok, err,
}
use sechat_client.Base.Bytes.{Bytes, Text, text, bytes_eq_iff}
use sechat_client.Client.Types.{ChatLine}
use sechat_client.Crypto.Derive.{load_storage_key}
use sechat_client.Crypto.Disk.{chat_db, Disk, set_dir, chat_of, lookup-set_dir}
use sechat_client.Crypto.Peers.{load_peer_data}
use sechat_client.Crypto.Stored.{
  save_chat, load_peer_chat_file, remove_keys, load_peer_chat_messages,
}
use sechat_client.Crypto.Stored.Log.{Log, read_rows-Log}
use sechat_client.Crypto.Types.{Author, Message, PeerPublic, Keys, display}
use sechat_client.Server.Generators.{generate_peer_hash}
use sechat_client.Server.Services.{Services}

module _ {D : Type 0} (x : Services D) where
  unfoldable pub chat_lines : List Message → List ChatLine
  chat_lines [] = []
  chat_lines (m ∷ ms) =
      record {
        from_me = elim m.author [ Author.you ↦ true | Author.peer ↦ false ];
        text = m.text;
        timestamp = m.timestamp;
      }
      ∷ chat_lines ms

  -- Reading also drops the rows that cannot be read from the files.
  unfoldable pub history : Keys → Bytes → Disk D → Result Text (List ChatLine) × Disk D
  history keys id d = elim (load_peer_data x.primitives d id) [
    | err e ↦ (err (text "unknown peer: " ++ display x.io_text e), d)
    | ok who ↦ elim (load_storage_key x.primitives who.public keys.x25519_priv) [
      | err e ↦ (err (text "key derivation failed: " ++ display x.io_text e), d)
      | ok key ↦
          let (read, d') = load_peer_chat_messages x.primitives x.message_codec x.sled who key d in
          elim read [
            | err e ↦ (err (text "failed to read history: " ++ display x.io_text e), d')
            | ok found ↦ (ok (chat_lines found.messages), d')
          ]
    ]
  ]

  -- The history of a known peer, whose directory bears its identity and whose conversation can be
  -- opened and is a log of messages under the shared storage key, is these messages in order, and
  -- reading it changes nothing in the conversation.
  pub history-Log :
      (keys : Keys) (d : Disk D) (who : PeerPublic) (key : Bytes) (db : D) (hi : ℕ)
      (ms : List Message)
      → load_peer_data x.primitives d (generate_peer_hash x who) ≡ ok who
      → load_storage_key x.primitives who.public keys.x25519_priv ≡ ok key
      → d.faults (chat_db (generate_peer_hash x who)) ≡ none
      → chat_of d (generate_peer_hash x who) ≡ some db
      → Log x.primitives x.message_codec key 0 hi (x.sled.entries db) ms
      → ((history keys (generate_peer_hash x who) d).0 ≡ ok (chat_lines ms))
        × (chat_of (history keys (generate_peer_hash x who) d).1 (generate_peer_hash x who)
            ≡ some db)
  unfolding history load_peer_chat_messages load_peer_chat_file save_chat chat_of remove_keys
      generate_peer_hash
  history-Log keys d who key db hi ms known derived free there log =
      let id = generate_peer_hash x who in
      let rows = read_rows-Log x.primitives x.message_codec key 0 hi (x.sled.entries db) ms log in
      let opened = set_dir id (λ dir. record dir { chat = some db }) d in
      let again = lookup-set_dir id id (λ dir. record dir { chat = some db }) opened in
      ground (arith, rows, again, bytes_eq_iff id id)
