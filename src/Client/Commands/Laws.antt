-- ===== src/Client/Commands/Laws.antt =====
-- The commands of crates/client/src/lib.rs that remove and purge.
use sechat_client.Base.{ℕ, ◌≡◌, inl, inr, none, arith, ok, err, Result-cases}
use sechat_client.Base.Assoc.{lookup, lookup-remove}
use sechat_client.Base.Bytes.{Bytes, bytes_eq_iff}
use sechat_client.Base.Int.{ℤ}
use sechat_client.Client.Aliases.{remove_alias-peers}
use sechat_client.Client.Commands.{Randomness, forget, handle_purge, handle_command}
use sechat_client.Client.State.{ClientState, emit, post, set_disk}
use sechat_client.Client.Types.{remove_peer}
use sechat_client.Crypto.Disk.{
  peer_dir, chat_db, attempt, peer_pub_of, dir_or_new, set_dir, chat_of,
}
use sechat_client.Crypto.Peers.{load_peer_data, purge_peer_chat}
use sechat_client.Crypto.Peers.Removal.{purge_peer_chat-clears, delete_peer-removes}
use sechat_client.Crypto.Types.{PeerPublic, Keys, not_found}
use sechat_client.Server.Generators.{generate_purge_message}
use sechat_client.Server.Services.{Services}

module _ {D : Type 0} (x : Services D) where
  -- A purge of a known peer, where the conversation can be removed, leaves no intent, no session
  -- and no conversation of that peer, and keeps the peer's keys.
  pub handle_purge-clears :
      (rand : Randomness) (now : ℤ) (keys : Keys) (id : Bytes) (s : ClientState D)
      (who : PeerPublic)
      → load_peer_data x.primitives s.world.disk id ≡ ok who
      → s.world.disk.faults (chat_db id) ≡ none
      → (lookup id (handle_purge x rand now keys id s).intents ≡ none)
        × (lookup id (handle_purge x rand now keys id s).sessions ≡ none)
        × (chat_of (handle_purge x rand now keys id s).world.disk id ≡ none)
        × (peer_pub_of (handle_purge x rand now keys id s).world.disk id
            ≡ peer_pub_of s.world.disk id)
  unfolding handle_purge forget emit post set_disk purge_peer_chat attempt chat_of peer_pub_of
      set_dir dir_or_new load_peer_data
  handle_purge-clears rand now keys id s who known free =
      elim (Result-cases (
        generate_purge_message x rand.eph_secret rand.eph_nonce who keys.x25519_pub
          keys.ed25519_signing now now)) [
            | inl (msg, e) ↦ ground (
              arith,
              purge_peer_chat-clears id s.world.disk free,
              lookup-remove id id s.intents,
              lookup-remove id id s.sessions,
              bytes_eq_iff id id,
            )
            | inr (e, f) ↦ ground (
              arith,
              purge_peer_chat-clears id s.world.disk free,
              lookup-remove id id s.intents,
              lookup-remove id id s.sessions,
              bytes_eq_iff id id,
            )
          ]

  -- Removing a peer, where its directory can be removed, leaves no intent and no session, and
  -- loading the peer then fails for want of the directory.
  pub remove_peer-forgets :
      (rand : Randomness) (now : ℤ) (at : ℕ) (keys : Keys) (id : Bytes) (s : ClientState D)
      → s.world.disk.faults (peer_dir id) ≡ none
      → (lookup id (handle_command x rand now at keys (remove_peer id) s).intents ≡ none)
        × (lookup id (handle_command x rand now at keys (remove_peer id) s).sessions ≡ none)
        × (load_peer_data x.primitives
              (handle_command x rand now at keys (remove_peer id) s).world.disk
              id
            ≡ err (not_found (x.primitives.hex_encode id)))
  unfolding handle_command forget set_disk load_peer_data emit
  remove_peer-forgets rand now at keys id s free =
      let (d', e, gone) = delete_peer-removes id s.world.disk free in
      ground (
        arith,
        gone id,
        remove_alias-peers x.primitives id d',
        lookup-remove id id s.intents,
        lookup-remove id id s.sessions,
        bytes_eq_iff id id,
      )
