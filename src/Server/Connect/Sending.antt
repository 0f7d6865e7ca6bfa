-- ===== src/Server/Connect/Sending.antt =====
-- What `server_initial_handshake` of crates/serverclient/src/handlers.rs sends besides the
-- acknowledgements: the authentication, and the announcements.
use mathlib.Core.List.{append-nil, append_assoc}
use sechat_client.Base.{
  ◌-◌, ◌≤◌, ◌≡◌, refl, sym, ◌∙◌, none, some, List, [], ◌∷◌, ◌++◌, arith, length, ok, unwrap_or,
}
use sechat_client.Base.Bytes.{Bytes, Text, text, le_bytes}
use sechat_client.Base.Int.{ℤ, to_u64}
use sechat_client.Crypto.Derive.{derive, presence_token, sign_challenge}
use sechat_client.Crypto.Types.{PeerPublic, Keys}
use sechat_client.Server.Connect.{Connection, send_message, announce_peers}
use sechat_client.Server.Generators.{generate_announce_message}
use sechat_client.Server.Services.{Services, ServicesLaws}
use sechat_client.Server.Structs.{auth, announce, ClientToServer, new_client_to_server}

module _ {D : Type 0} (x : Services D) where
  -- What announces the client to a peer.
  abbrev pub token_for : Bytes → ℤ → PeerPublic → Bytes
  token_for privkey now who = unwrap_or (presence_token x.primitives privkey who.public now) []

  abbrev pub announcements : Bytes → ℤ → Text → List PeerPublic → List ClientToServer
  announcements privkey now address [] = []
  announcements privkey now address (who ∷ rest) =
      new_client_to_server (announce (token_for privkey now who) address) none now
      ∷ announcements privkey now address rest

  -- The first message of a connection.
  abbrev pub introduction : Keys → ℤ → ClientToServer
  introduction keys now =
      let signed = keys.x25519_pub ++ (keys.ed25519_verifying ++ le_bytes 8 (to_u64 now)) in
      new_client_to_server
        (auth keys.x25519_pub keys.ed25519_verifying
          (sign_challenge x.primitives keys.ed25519_signing signed))
        (some now) now

  module _ (laws : ServicesLaws x)
      (writes : (m : ClientToServer) → (b : Bytes) × (x.client_codec.to_vec m ≡ some b)) where
    generate_announce_message_total :
        (privkey : Bytes) (now : ℤ) (who : PeerPublic) (address : Text)
        → generate_announce_message x privkey who.public now address
          ≡ ok (announce (token_for privkey now who) address)
    unfolding presence_token derive generate_announce_message
    generate_announce_message_total privkey now who address =
        let agreed = x.primitives.diffie_hellman privkey who.public in
        let (k, e, _) = laws.primitive_laws.hkdf_total agreed (text "presence") 32 (omega arith) in
        ground (arith, e)

    pub send_message-written :
        (m : ClientToServer) (c : Connection)
        → 1 ≤ c.writable
        → send_message x m c
          ≡ (ok tt, record c { sent = c.sent ++ m ∷ []; writable = c.writable - 1 })
    unfolding send_message
    send_message-written m c room = let (b, e) = writes m in ground (arith, e)

    pub announce_peers-sent :
        (privkey : Bytes) (now : ℤ) (address : Text) (peers : List PeerPublic) (c : Connection)
        → length peers ≤ c.writable
        → ((announce_peers x privkey now now address peers c).0 ≡ ok tt)
          × ((announce_peers x privkey now now address peers c).1.sent
              ≡ c.sent ++ announcements privkey now address peers)
          × ((announce_peers x privkey now now address peers c).1.incoming ≡ c.incoming)
    unfolding announce_peers
    announce_peers-sent privkey now address [] c room = (refl, sym (append-nil c.sent), refl)
    announce_peers-sent privkey now address (who ∷ rest) c room =
        let m = new_client_to_server (announce (token_for privkey now who) address) none now in
        let c' = record c { sent = c.sent ++ m ∷ []; writable = c.writable - 1 } in
        let (a, b, e) = announce_peers-sent privkey now address rest c' (omega arith) in
        ground (
          arith,
          generate_announce_message_total privkey now who address,
          send_message-written m c (omega arith),
          a,
          b ∙ append_assoc c.sent (m ∷ []) (announcements privkey now address rest),
          e,
        )
