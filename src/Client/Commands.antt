-- ===== src/Client/Commands.antt =====
-- The commands of crates/client/src/lib.rs: `handle_command`, with `persist_message` and
-- `peer_is_online`. `now` is the clock and `at` the instant. A sender waits while a queue is full, so
-- a send fails only where the receiver is gone.
pub mod Laws
pub mod Copy
use sechat_client.Base.{
  ℕ, Bool, true, false, not, ◌||◌, none, some, List, [], ◌∷◌, ◌++◌, if◌then◌else◌, Result, ok, err,
  is_ok, unwrap_or,
}
use sechat_client.Base.Assoc.{lookup, insert, remove, contains_key}
use sechat_client.Base.Bytes.{Bytes, Text, text, bytes_eq}
use sechat_client.Base.Int.{ℤ}
use sechat_client.Client.Aliases.{remove_alias}
use sechat_client.Client.Retry.{armed}
use sechat_client.Client.State.{ClientState, emit, post, set_disk}
use sechat_client.Client.Types.{
  message_arrived, app_error, Command, send, connect, purge_chat, remove_peer, announce_now,
  set_server, shutdown,
}
use sechat_client.Crypto.Derive.{load_storage_key}
use sechat_client.Crypto.Disk.{Disk}
use sechat_client.Crypto.Peers.{load_peer_data, load_peers, purge_peer_chat, delete_peer}
use sechat_client.Crypto.Stored.{save_chat, load_peer_chat_file, insert_message_stored}
use sechat_client.Crypto.Types.{Author, PeerPublic, Keys, CryptoErrors, from_parts, display}
use sechat_client.Server.Generators.{
  generate_peer_hash, generate_announce_message, generate_purge_message, generate_offline_message,
}
use sechat_client.Server.Presence.{load_online_peers, get_or_set_my_address}
use sechat_client.Server.Services.{Services, OnlinePeer, World}
use sechat_client.Server.Structs.{display_client, new_client_to_server}

-- What is drawn at random for one command: the nonce of a stored message, the nonce of the row that
-- is kept here, and the ephemeral secret and nonce of the envelope.
pub record Randomness : Type 0 where
  pub stored_nonce : Bytes
  pub row_nonce : Bytes
  pub eph_secret : Bytes
  pub eph_nonce : Bytes

module _ {D : Type 0} (x : Services D) where
  -- `peer_is_online`: also prunes the cache.
  unfoldable pub has_identity : Bytes → List OnlinePeer → Bool
  has_identity id [] = false
  has_identity id (o ∷ os) = bytes_eq (generate_peer_hash x o.keys) id || has_identity id os

  unfoldable pub peer_is_online : ℤ → Bytes → World D → Bool × World D
  unfolding has_identity
  peer_is_online now id w =
      let (r, w') = load_online_peers x now w in
      elim r [ ok peers ↦ (has_identity id peers, w') | err e ↦ (false, w') ]

  unfoldable pub persist_message :
      Bytes
      → Keys
      → PeerPublic
      → Bytes
      → Text
      → Author
      → ℤ
      → Disk D
      → Result CryptoErrors (Unit {0}) × Disk D
  persist_message nonce keys peer_pub peer_id content author timestamp d =
      elim (load_storage_key x.primitives peer_pub.public keys.x25519_priv) [
        | err e ↦ (err e, d)
        | ok storage_key ↦ elim (load_peer_chat_file x.sled peer_id d) [
          | err e ↦ (err e, d)
          | ok (db, opened) ↦
              elim (insert_message_stored x.primitives x.message_codec x.sled nonce
                (from_parts content author timestamp) storage_key db) [
                  | err e ↦ (err e, opened)
                  | ok db' ↦ (ok tt, save_chat peer_id db' opened)
                ]
        ]
      ]

  -- The text goes to the live session if there is one, and as an offline blob if there is none. The
  -- last component is false where the command ends with the failure.
  unfoldable pub deliver :
      Randomness → ℤ → Keys → PeerPublic → Bytes → Text → ClientState D → ClientState D × Bool
  unfolding post emit
  deliver rand now keys peer_pub id content s = elim (lookup id s.sessions) [
    | some e ↦
        if e.accepts
        then (
          record s {
            sessions = insert id (record e { outbound = e.outbound ++ content ∷ [] }) s.sessions;
          },
          true,
        )
        else (record s { sessions = remove id s.sessions }, true)
    | none ↦
        elim (generate_offline_message x rand.stored_nonce rand.eph_secret rand.eph_nonce peer_pub
          keys.x25519_pub keys.x25519_priv content keys.ed25519_signing now now) [
            | ok blob ↦ (post blob s, true)
            | err e ↦ (emit (app_error (text "send failed: " ++ display_client e)) s, false)
          ]
  ]

  unfoldable pub handle_send : Randomness → ℤ → Keys → Bytes → Text → ClientState D → ClientState D
  unfolding emit set_disk
  handle_send rand now keys id content s = elim (load_peer_data x.primitives s.world.disk id) [
    | err e ↦ emit (app_error (text "unknown peer: " ++ display x.io_text e)) s
    | ok peer_pub ↦
        let (s', goes_on) = deliver rand now keys peer_pub id content s in
        let (stored, d) =
          persist_message rand.row_nonce keys peer_pub id content Author.you now s'.world.disk in
        if goes_on
        then (if is_ok stored
            then emit (message_arrived id true) (set_disk d s')
            else set_disk d s')
        else s'
  ]

  -- Drops the intent and the session of a peer.
  unfoldable pub forget : Bytes → ClientState D → ClientState D
  forget id s = record s { intents = remove id s.intents; sessions = remove id s.sessions }

  unfoldable pub handle_purge : Randomness → ℤ → Keys → Bytes → ClientState D → ClientState D
  unfolding emit post set_disk forget
  handle_purge rand now keys id s₀ =
      let s = forget id s₀ in
      elim (load_peer_data x.primitives s.world.disk id) [
        | err e ↦ emit (app_error (text "unknown peer: " ++ display x.io_text e)) s
        | ok peer_pub ↦
            let sent : ClientState D =
              elim (generate_purge_message x rand.eph_secret rand.eph_nonce peer_pub keys.x25519_pub
                keys.ed25519_signing now now) [
                  | ok blob ↦ post blob s
                  | err e ↦ emit (app_error (text "purge send failed: " ++ display_client e)) s
                ] in
            elim (purge_peer_chat id sent.world.disk) [
              | err e ↦ emit (app_error (text "local purge failed: " ++ display x.io_text e)) sent
              | ok d ↦ emit (message_arrived id true) (set_disk d sent)
            ]
      ]

  -- The announcement to each peer; one that cannot be made is passed over.
  unfoldable pub announce_to : ℤ → Keys → Text → List PeerPublic → ClientState D → ClientState D
  unfolding post
  announce_to now keys address [] s = s
  announce_to now keys address (who ∷ rest) s =
      elim (generate_announce_message x keys.x25519_priv who.public now address) [
        | ok msg ↦ announce_to now keys address rest (post (new_client_to_server msg none now) s)
        | err e ↦ announce_to now keys address rest s
      ]

  unfoldable pub handle_command :
      Randomness → ℤ → ℕ → Keys → Command → ClientState D → ClientState D
  unfolding handle_send handle_purge announce_to forget emit set_disk get_or_set_my_address armed
  handle_command rand now at keys (connect id) s =
      if not (is_ok (load_peer_data x.primitives s.world.disk id))
      then emit (app_error (text "unknown peer")) s
      else if contains_key id s.sessions
      then s
      else (let (online, w) = peer_is_online now id s.world in
          record s { world = w; intents = insert id (armed online at) s.intents })
  handle_command rand now at keys (set_server _) s = s
  handle_command rand now at keys shutdown s = s
  handle_command rand now at keys (remove_peer id) s₀ =
      let s = forget id s₀ in
      elim (delete_peer id s.world.disk) [
        | err e ↦ emit (app_error (text "remove peer failed: " ++ display x.io_text e)) s
        | ok d ↦ set_disk (remove_alias x.primitives id d).1 s
      ]
  handle_command rand now at keys announce_now s = elim (get_or_set_my_address none s.world).0 [
    | none ↦ s
    | some address ↦
        announce_to now keys address (unwrap_or (load_peers x.primitives s.world.disk) []) s
  ]
  handle_command rand now at keys (purge_chat id) s = handle_purge rand now keys id s
  handle_command rand now at keys (send id content) s = handle_send rand now keys id content s
