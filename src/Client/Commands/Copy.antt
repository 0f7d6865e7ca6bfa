-- ===== src/Client/Commands/Copy.antt =====
-- The sender's own copy of a text that is sent.
use sechat_client.Base.{
  ℕ, suc, ◌^◌, ◌<◌, ◌≡◌, ◌⊎◌, inl, inr, true, false, none, some, List, [], ◌∷◌, ◌++◌, arith,
  Option-cases, length, ok, Result-cases,
}
use sechat_client.Base.Assoc.{lookup}
use sechat_client.Base.Bytes.{Bytes, Text, bytes_eq_iff}
use sechat_client.Base.Int.{ℤ}
use sechat_client.Client.Commands.{Randomness, persist_message, deliver, handle_send}
use sechat_client.Client.State.{ClientState, emit, post, set_disk}
use sechat_client.Client.Types.{message_arrived}
use sechat_client.Crypto.Derive.{load_storage_key}
use sechat_client.Crypto.Disk.{chat_db, Disk, set_dir, chat_of, lookup-set_dir}
use sechat_client.Crypto.Peers.{load_peer_data}
use sechat_client.Crypto.Stored.{save_chat, load_peer_chat_file, insert_message_stored}
use sechat_client.Crypto.Stored.History.{insert_message_stored-Log}
use sechat_client.Crypto.Stored.Log.{Log}
use sechat_client.Crypto.Types.{Author, Message, PeerPublic, Keys, from_parts}
use sechat_client.Server.Generators.{generate_offline_message}
use sechat_client.Server.Services.{Services, ServicesLaws}

module _ {D : Type 0} (x : Services D) (laws : ServicesLaws x) where
  -- Delivering touches neither the files nor, if the command goes on, the events.
  deliver-world :
      (rand : Randomness) (now : ℤ) (keys : Keys) (who : PeerPublic) (id : Bytes) (content : Text)
      (s : ClientState D)
      → ((deliver x rand now keys who id content s).0.world ≡ s.world)
        × (((deliver x rand now keys who id content s).1 ≡ false)
            ⊎ ((deliver x rand now keys who id content s).0.app ≡ s.app))
  unfolding deliver emit post
  deliver-world rand now keys who id content s = elim (Option-cases (lookup id s.sessions)) [
    | inr (e, found) ↦ (ground arith, ground arith)
    | inl gone ↦
        elim (Result-cases (
          generate_offline_message x rand.stored_nonce rand.eph_secret rand.eph_nonce who
            keys.x25519_pub keys.x25519_priv content keys.ed25519_signing now now)) [
              | inl (blob, made) ↦ (ground arith, ground arith)
              | inr (e, failed) ↦ (ground arith, ground arith)
            ]
  ]

  pub persist_message_lem :
      (nonce : Bytes) (keys : Keys) (who : PeerPublic) (id : Bytes) (content : Text)
      (author : Author) (now : ℤ) (d : Disk D) (key : Bytes) (db db' : D)
      → load_storage_key x.primitives who.public keys.x25519_priv ≡ ok key
      → d.faults (chat_db id) ≡ none
      → chat_of d id ≡ some db
      → insert_message_stored x.primitives x.message_codec x.sled nonce
          (from_parts content author now)
          key
          db
        ≡ ok db'
      → ((persist_message x nonce keys who id content author now d).0 ≡ ok tt)
        × (chat_of (persist_message x nonce keys who id content author now d).1 id ≡ some db')
  unfolding persist_message load_peer_chat_file save_chat chat_of
  persist_message_lem nonce keys who id content author now d key db db' derived free there stored =
      ground (
        arith,
        lookup-set_dir id id (λ dir. record dir { chat = some db }) d,
        lookup-set_dir id id (λ dir. record dir { chat = some db' })
            (set_dir id (λ dir. record dir { chat = some db }) d),
        bytes_eq_iff id id,
      )

  -- Sending to a known peer whose conversation is a log of messages below the counter `hi`, itself
  -- below 2 ^ 64: if the text could be queued or put in a blob, and the row, with a nonce of twelve
  -- bytes, could be stored, the conversation on disk is the log with the text at its end, as one's
  -- own message of that time, and the event that tells of it comes last.
  pub handle_send-Log :
      (rand : Randomness) (now : ℤ) (keys : Keys) (id : Bytes) (content : Text) (s : ClientState D)
      (who : PeerPublic) (key : Bytes) (db db' : D) (hi : ℕ) (ms : List Message)
      → load_peer_data x.primitives s.world.disk id ≡ ok who
      → (deliver x rand now keys who id content s).1 ≡ true
      → load_storage_key x.primitives who.public keys.x25519_priv ≡ ok key
      → s.world.disk.faults (chat_db id) ≡ none
      → chat_of s.world.disk id ≡ some db
      → length rand.row_nonce ≡ 12
      → hi < 2 ^ 64
      → Log x.primitives x.message_codec key 0 hi (x.sled.entries db) ms
      → insert_message_stored x.primitives x.message_codec x.sled rand.row_nonce
          (from_parts content Author.you now)
          key
          db
        ≡ ok db'
      → (chat_of (handle_send x rand now keys id content s).world.disk id ≡ some db')
        × Log x.primitives x.message_codec key 0
            (suc hi)
            (x.sled.entries db')
            (ms ++ from_parts content Author.you now ∷ [])
        × ((handle_send x rand now keys id content s).app ≡ s.app ++ message_arrived id true ∷ [])
  unfolding handle_send emit set_disk
  handle_send-Log rand now keys id content s who key db db' hi ms known queued derived free there l
        bound log stored =
      let (same, quiet) = deliver-world rand now keys who id content s in
      let (kept, saved) =
        persist_message_lem rand.row_nonce keys who id content Author.you now s.world.disk key db
          db' derived free there stored in
      let longer =
        insert_message_stored-Log x.primitives x.message_codec x.sled laws.primitive_laws
          laws.message_laws laws.sled_laws key rand.row_nonce hi db db' ms
          (from_parts content Author.you now) bound l log stored in
      (
        ground (arith, same, kept, saved, known, queued),
        longer,
        ground (arith, same, quiet, kept, known, queued),
      )
