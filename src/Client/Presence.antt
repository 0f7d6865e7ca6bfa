-- ===== src/Client/Presence.antt =====
-- The presence cache, from the relay's messages to `peer_is_online` of crates/client/src/lib.rs.
use sechat_client.Base.{◌≡◌, true, false, List, [], ◌∷◌, arith, if◌then◌else◌, ok}
use sechat_client.Base.Bytes.{Bytes, Text, bytes_eq, bytes_eq_iff, bytes_eq_refl}
use sechat_client.Base.Int.{ℤ, leb_ℤ, sub_i64}
use sechat_client.Client.Commands.{has_identity, peer_is_online}
use sechat_client.Crypto.Peers.{load_peer_data}
use sechat_client.Crypto.Types.{PeerPublic}
use sechat_client.Server.Generators.{generate_peer_hash}
use sechat_client.Server.Handlers.{handle_message}
use sechat_client.Server.Presence.{
  online_ttl_secs, retain_live, load_online_peers, upsert_online, append_online_peer, drop_online,
  remove_online_peer,
}
use sechat_client.Server.Services.{Services, OnlinePeer, World}
use sechat_client.Server.Structs.{peer_online, peer_offline}

module _ {D : Type 0} (x : Services D) where
  has_identity-drop_online :
      (id hash : Bytes) (os : List OnlinePeer)
      → has_identity x id (drop_online x hash os)
        ≡ (if bytes_eq hash id then false else has_identity x id os)
  unfolding has_identity drop_online
  has_identity-drop_online id hash [] = ground arith
  has_identity-drop_online id hash (o ∷ os) =
      let own = generate_peer_hash x o.keys in
      ground (
        arith,
        bytes_eq_iff own id,
        bytes_eq_iff own hash,
        bytes_eq_iff hash id,
        has_identity-drop_online id hash os,
      )

  has_identity-retain_live :
      (now : ℤ) (id : Bytes) (os : List OnlinePeer)
      → has_identity x id os ≡ false
      → has_identity x id (retain_live now os) ≡ false
  unfolding has_identity retain_live
  has_identity-retain_live now id [] h = ground arith
  has_identity-retain_live now id (o ∷ os) h = ground (arith, has_identity-retain_live now id os)

  -- After `PeerOffline` the peer does not count as online, at any later time.
  pub peer_offline-peer_is_online :
      (nonce : Bytes) (now sent later : ℤ) (privkey hash : Bytes) (w : World D)
      → (peer_is_online x later hash
          (handle_message x nonce now sent privkey (peer_offline hash) w).1).0
        ≡ false
  unfolding peer_is_online load_online_peers handle_message remove_online_peer
  peer_offline-peer_is_online nonce now sent later privkey hash w =
      let gone = has_identity-drop_online hash hash w.online in
      let kept = has_identity-retain_live later hash (drop_online x hash w.online) in
      ground (arith, gone, kept, bytes_eq_refl hash)

  has_identity-upsert :
      (now later : ℤ) (who : PeerPublic) (address : Text) (os : List OnlinePeer)
      → leb_ℤ (sub_i64 later now) online_ttl_secs ≡ true
      → has_identity x
          (generate_peer_hash x who)
          (retain_live later (upsert_online x (generate_peer_hash x who) who address now os))
        ≡ true
  unfolding has_identity retain_live upsert_online
  has_identity-upsert now later who address [] live =
      ground (arith, bytes_eq_refl (generate_peer_hash x who))
  has_identity-upsert now later who address (o ∷ os) live =
      ground (arith, has_identity-upsert now later who address os live)

  -- After `PeerOnline` for a peer whose directory bears its identity, the peer counts as online for
  -- as long as its time to live, if no lock was poisoned.
  pub peer_online-peer_is_online :
      (nonce : Bytes) (now sent later : ℤ) (privkey : Bytes) (address : Text) (who : PeerPublic)
      (w : World D)
      → w.peers_poisoned ≡ false
      → load_peer_data x.primitives w.disk (generate_peer_hash x who) ≡ ok who
      → leb_ℤ (sub_i64 later now) online_ttl_secs ≡ true
      → (peer_is_online x later
          (generate_peer_hash x who)
          (handle_message x nonce now sent privkey
            (peer_online (generate_peer_hash x who) address)
            w).1).0
        ≡ true
  unfolding peer_is_online load_online_peers handle_message append_online_peer
  peer_online-peer_is_online nonce now sent later privkey address who w free known live =
      ground (arith, has_identity-upsert now later who address w.online live)
