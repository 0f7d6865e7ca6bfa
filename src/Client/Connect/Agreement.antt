-- ===== src/Client/Connect/Agreement.antt =====
-- Two clients that run `connect_session` of crates/client/src/lib.rs for each other.
use sechat_client.Base.{◌≡◌, Bool, true, false, Option, some, List, [], ◌∷◌, ◌++◌, arith, ok, is_ok}
use sechat_client.Base.Assoc.{lookup, contains_key, lookup-insert, member}
use sechat_client.Base.Bytes.{Bytes, bytes_eq_refl}
use sechat_client.Base.Int.{ℤ, to_u64}
use sechat_client.Client.Connect.{Attempt, negotiate, session_entry, connect_session}
use sechat_client.Client.Local.{choose_transport}
use sechat_client.Client.State.{ClientState, emit}
use sechat_client.Client.Types.{session_up}
use sechat_client.Crypto.Derive.{identity_hash}
use sechat_client.Crypto.Primitives.{Primitives, Codec, CodecLaws}
use sechat_client.Crypto.Types.{PeerPublic, Keys}
use sechat_client.P2p.Fresh.{frame_is_fresh}
use sechat_client.P2p.Handshake.{
  HandshakeInput, arrived, frame, initial_handshake, Ignored, handshakes_agree,
}
use sechat_client.P2p.Message.{init, PeerMessage}
use sechat_client.P2p.Punch.{punch_hole, Ping}
use sechat_client.Server.Services.{Services, ServicesLaws}

module _ (p : Primitives) where
  -- The public part of a client's keys, as its peers hold it, and its hash.
  abbrev pub public_of : Keys → PeerPublic
  public_of k = record { public = k.x25519_pub; verifying = p.ed25519_verifying k.ed25519_signing }

  abbrev pub id_of : Keys → Bytes
  id_of k = identity_hash p k.x25519_pub (p.ed25519_verifying k.ed25519_signing)

-- The Init that an attempt sends.
abbrev pub init_frame : Primitives → Codec PeerMessage → Keys → Attempt → ℤ → Option Bytes
init_frame p peer_codec k a sent =
    frame p peer_codec (init (p.x25519_public a.eph_secret)) k.x25519_pub k.ed25519_signing sent

-- Whether the hole punch of an attempt succeeds.
abbrev pub punches : Codec Ping → Keys → PeerPublic → ℤ → Attempt → Bool
punches ping_codec k who at a =
    is_ok (punch_hole ping_codec (to_u64 at) k.x25519_pub who.public a.punched)

module _ {D : Type 0} (x : Services D) (ping_codec : Codec Ping) (peer_codec : Codec PeerMessage)
    (laws : ServicesLaws x) (codec_laws : CodecLaws peer_codec) where
  negotiate-heard :
      (keys : Keys) (who : PeerPublic) (at : ℤ) (a : Attempt) (k : Bytes)
      → punches ping_codec keys who at a ≡ true
      → initial_handshake x.primitives peer_codec a.eph_secret who a.direct ≡ ok k
      → negotiate x ping_codec peer_codec keys who at a ≡ some (k, true)
  unfolding negotiate choose_transport
  negotiate-heard keys who at a k punched over_socket = ground arith

  connect_session-starts :
      (keys : Keys) (who : PeerPublic) (at : ℤ) (a : Attempt) (direct : Bool) (k : Bytes)
      (s : ClientState D)
      → contains_key (identity_hash x.primitives who.public who.verifying) s.sessions ≡ false
      → member (identity_hash x.primitives who.public who.verifying) s.connecting ≡ false
      → negotiate x ping_codec peer_codec keys who at a ≡ some (k, direct)
      → let id = identity_hash x.primitives who.public who.verifying in
        let r = connect_session x ping_codec peer_codec keys who at a s in
        (r.0 ≡ some (k, direct))
        × (lookup id r.1.sessions
            ≡ some (session_entry x ping_codec peer_codec keys a.serial direct))
        × (r.1.app ≡ s.app ++ session_up id direct ∷ [])
  unfolding connect_session emit
  connect_session-starts keys who at a direct k s new free e =
      let id = identity_hash x.primitives who.public who.verifying in
      let entry = session_entry x ping_codec peer_codec keys a.serial direct in
      ground (arith, lookup-insert id id entry s.sessions, bytes_eq_refl id)

  -- Two clients, neither of which has a session with the other or an attempt for it in flight, run
  -- `connect_session` for each other, and both hole punches succeed. In the handshake over the
  -- socket each reads the other's Init within the window, after inputs that it ignores. Then both
  -- end with the same session key, both have a direct session, and both user interfaces were told so.
  pub connect_sessions_agree :
      (keys_a keys_b : Keys) (at_a at_b : ℤ) (a b : Attempt) (s_a s_b : ClientState D)
      (init_a init_b : Bytes) (sent_a sent_b read_a read_b : ℤ)
      (junk_a junk_b : List HandshakeInput)
      → contains_key (id_of x.primitives keys_b) s_a.sessions ≡ false
      → member (id_of x.primitives keys_b) s_a.connecting ≡ false
      → contains_key (id_of x.primitives keys_a) s_b.sessions ≡ false
      → member (id_of x.primitives keys_a) s_b.connecting ≡ false
      → punches ping_codec keys_a (public_of x.primitives keys_b) at_a a ≡ true
      → punches ping_codec keys_b (public_of x.primitives keys_a) at_b b ≡ true
      → init_frame x.primitives peer_codec keys_a a sent_a ≡ some init_a
      → init_frame x.primitives peer_codec keys_b b sent_b ≡ some init_b
      → frame_is_fresh sent_b read_a ≡ true
      → frame_is_fresh sent_a read_b ≡ true
      → Ignored x.primitives peer_codec a.eph_secret (public_of x.primitives keys_b) junk_a
      → Ignored x.primitives peer_codec b.eph_secret (public_of x.primitives keys_a) junk_b
      → a.direct ≡ junk_a ++ arrived init_b read_a ∷ []
      → b.direct ≡ junk_b ++ arrived init_a read_b ∷ []
      → let r_a =
          connect_session x ping_codec peer_codec keys_a
            (public_of x.primitives keys_b)
            at_a
            a
            s_a in
        let r_b =
          connect_session x ping_codec peer_codec keys_b
            (public_of x.primitives keys_a)
            at_b
            b
            s_b in
        (k : Bytes) × (r_a.0 ≡ some (k, true))
        × (r_b.0 ≡ some (k, true))
        × (lookup (id_of x.primitives keys_b) r_a.1.sessions
            ≡ some (session_entry x ping_codec peer_codec keys_a a.serial true))
        × (lookup (id_of x.primitives keys_a) r_b.1.sessions
            ≡ some (session_entry x ping_codec peer_codec keys_b b.serial true))
        × (r_a.1.app ≡ s_a.app ++ session_up (id_of x.primitives keys_b) true ∷ [])
        × (r_b.1.app ≡ s_b.app ++ session_up (id_of x.primitives keys_a) true ∷ [])
  connect_sessions_agree keys_a keys_b at_a at_b a b s_a s_b init_a init_b sent_a sent_b read_a
        read_b junk_a junk_b new_a free_a new_b free_b punched_a punched_b fa fb ha hb ja jb heard_a
        heard_b =
      let (k, _, _, direct_a, direct_b) =
        handshakes_agree x.primitives peer_codec laws.primitive_laws codec_laws a.eph_secret
          b.eph_secret keys_a.ed25519_signing keys_b.ed25519_signing keys_a.x25519_pub
          keys_b.x25519_pub init_a init_b sent_a sent_b read_a read_b junk_a junk_b fa fb ha hb ja
          jb in
      let (key_a, entry_a, told_a) =
        connect_session-starts keys_a (public_of x.primitives keys_b) at_a a true k s_a new_a free_a
          (negotiate-heard keys_a (public_of x.primitives keys_b) at_a a k punched_a
            (rw heard_a direct_a)) in
      let (key_b, entry_b, told_b) =
        connect_session-starts keys_b (public_of x.primitives keys_a) at_b b true k s_b new_b free_b
          (negotiate-heard keys_b (public_of x.primitives keys_a) at_b b k punched_b
            (rw heard_b direct_b)) in
      (k, key_a, key_b, entry_a, entry_b, told_a, told_b)
