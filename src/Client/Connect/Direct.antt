-- ===== src/Client/Connect/Direct.antt =====
-- The sessions of crates/client/src/lib.rs that have no queue of relayed frames.
-- Every session of the map is over the socket.
use mathlib.Core.Path.{subst}
use sechat_client.Base.{
  ℕ, zero, suc, ◌≡◌, refl, sym, inl, inr, Bool, true, false, ◌||◌, none, some, List, [], ◌∷◌, ◌++◌,
  arith, Bool-cases, Option-cases, set, ok, is_ok, unwrap_or, Result-cases,
}
use sechat_client.Base.Assoc.{Assoc, lookup, insert, remove, contains_key, member}
use sechat_client.Base.Bytes.{Bytes, Text, bytes_eq}
use sechat_client.Base.Int.{ℤ, to_u64}
use sechat_client.Client.Commands.{
  Randomness, deliver, handle_send, forget, handle_purge, announce_to, handle_command,
}
use sechat_client.Client.Connect.{Attempt, negotiate, session_entry, connect_session}
use sechat_client.Client.Events.{handle_server_event}
use sechat_client.Client.Local.{choose_transport}
use sechat_client.Client.Relay.{establish_relay}
use sechat_client.Client.State.{ClientState, emit, post, set_disk}
use sechat_client.Client.Types.{
  Command, send, connect, purge_chat, remove_peer, announce_now, set_server, shutdown, SessionEntry,
}
use sechat_client.Crypto.Derive.{identity_hash}
use sechat_client.Crypto.Peers.{load_peer_data, load_peers}
use sechat_client.Crypto.Primitives.{Primitives, Codec}
use sechat_client.Crypto.Types.{PeerPublic, Keys}
use sechat_client.P2p.Handshake.{initial_handshake, relay_handshake}
use sechat_client.P2p.Message.{PeerMessage}
use sechat_client.P2p.Punch.{punch_hole, Ping}
use sechat_client.Server.Generators.{generate_announce_message}
use sechat_client.Server.Presence.{get_or_set_my_address}
use sechat_client.Server.Services.{Services}
use sechat_client.Server.Structs.{
  new_client_to_server, ServerEvent, authenticated, peer_came_online, peer_went_offline,
  punch_hole_event, hole_punch_denied, blob_stored, relay_data_event, disconnected,
}

abbrev pub AllDirect : Assoc SessionEntry → Type 0
AllDirect [] = Unit
AllDirect ((id, e) ∷ m) = (e.relay_in ≡ none) × AllDirect m

pub lookup-AllDirect :
    (id : Bytes) (e : SessionEntry) (m : Assoc SessionEntry)
    → AllDirect m
    → lookup id m ≡ some e
    → e.relay_in ≡ none
unfolding lookup
lookup-AllDirect id e [] all found = absurd (ground arith)
lookup-AllDirect id e ((j, f) ∷ m) (direct, all) found = elim (Bool-cases (bytes_eq j id)) [
  | inl same ↦ ground arith
  | inr apart ↦ lookup-AllDirect id e m all (ground arith)
]

pub insert-AllDirect :
    (id : Bytes) (e : SessionEntry) (m : Assoc SessionEntry)
    → e.relay_in ≡ none
    → AllDirect m
    → AllDirect (insert id e m)
unfolding insert
insert-AllDirect id e [] direct all = (direct, tt)
insert-AllDirect id e ((j, f) ∷ m) direct (first, all) = elim (Bool-cases (bytes_eq j id)) [
  | inl same ↦ rw same (direct, all)
  | inr apart ↦ rw apart (first, insert-AllDirect id e m direct all)
]

pub remove-AllDirect : (id : Bytes) (m : Assoc SessionEntry) → AllDirect m → AllDirect (remove id m)
unfolding remove
remove-AllDirect id [] all = tt
remove-AllDirect id ((j, f) ∷ m) (first, all) = elim (Bool-cases (bytes_eq j id)) [
  | inl same ↦ rw same (remove-AllDirect id m all)
  | inr apart ↦ rw apart (first, remove-AllDirect id m all)
]

-- Carried over along an equation between maps.
pub along : {m m' : Assoc SessionEntry} → m' ≡ m → AllDirect m → AllDirect m'
along e all = subst AllDirect (sym e) all

establish_relay-none :
    (p : Primitives) (c : Codec PeerMessage) (eph_priv : Bytes) (who : PeerPublic) (resends : ℕ)
    → establish_relay p c eph_priv who resends ≡ none
unfolding establish_relay relay_handshake
establish_relay-none p c eph_priv who zero = refl
establish_relay-none p c eph_priv who (suc n) = establish_relay-none p c eph_priv who n

module _ {D : Type 0} (x : Services D) (keys : Keys) where
  -- A key comes from the handshake over the socket, after a hole punch that succeeded.
  pub negotiate-direct :
      (ping_codec : Codec Ping) (peer_codec : Codec PeerMessage) (who : PeerPublic) (at : ℤ)
      (a : Attempt) (k : Bytes) (direct : Bool)
      → negotiate x ping_codec peer_codec keys who at a ≡ some (k, direct)
      → (direct ≡ true)
        × (is_ok (punch_hole ping_codec (to_u64 at) keys.x25519_pub who.public a.punched) ≡ true)
        × (initial_handshake x.primitives peer_codec a.eph_secret who a.direct ≡ ok k)
  unfolding negotiate choose_transport
  negotiate-direct ping_codec peer_codec who at a k direct h =
      ground (arith, h, establish_relay-none x.primitives peer_codec a.eph_secret who a.resends)

  -- An attempt that ends with a session key found no session with the peer and no other attempt for
  -- it; its hole punch succeeded, its handshake over the socket gave that key, and the session is
  -- direct. No attempt ends with a session over the relay.
  pub connect_session-key :
      (ping_codec : Codec Ping) (peer_codec : Codec PeerMessage) (who : PeerPublic) (at : ℤ)
      (a : Attempt) (s : ClientState D) (k : Bytes) (over_socket : Bool)
      → (connect_session x ping_codec peer_codec keys who at a s).0 ≡ some (k, over_socket)
      → (over_socket ≡ true)
        × (contains_key (identity_hash x.primitives who.public who.verifying) s.sessions ≡ false)
        × (member (identity_hash x.primitives who.public who.verifying) s.connecting ≡ false)
        × (is_ok (punch_hole ping_codec (to_u64 at) keys.x25519_pub who.public a.punched) ≡ true)
        × (initial_handshake x.primitives peer_codec a.eph_secret who a.direct ≡ ok k)
  unfolding connect_session
  connect_session-key ping_codec peer_codec who at a s k over_socket h =
      let id = identity_hash x.primitives who.public who.verifying in
      elim (Option-cases (negotiate x ping_codec peer_codec keys who at a)) [
        | inl failed ↦ absurd (ground (arith, failed, h))
        | inr ((k', o), made) ↦
            let (socket, punched, shaken) =
              negotiate-direct ping_codec peer_codec who at a k' o made in
            ground (arith, h, made, socket, punched, shaken)
      ]

  pub connect_session-AllDirect :
      (ping_codec : Codec Ping) (peer_codec : Codec PeerMessage) (who : PeerPublic) (at : ℤ)
      (a : Attempt) (s : ClientState D)
      → AllDirect s.sessions
      → AllDirect (connect_session x ping_codec peer_codec keys who at a s).1.sessions
  unfolding connect_session emit session_entry
  connect_session-AllDirect ping_codec peer_codec who at a s all =
      let id = identity_hash x.primitives who.public who.verifying in
      elim (Bool-cases (contains_key id s.sessions || member id s.connecting)) [
        | inl busy ↦ along (ground (arith, busy)) all
        | inr free ↦ elim (Option-cases (negotiate x ping_codec peer_codec keys who at a)) [
          | inl failed ↦ along (ground (arith, free, failed)) all
          | inr ((k, over_socket), made) ↦
              let (socket, _, _) =
                negotiate-direct ping_codec peer_codec who at a k over_socket made in
              let e = session_entry x ping_codec peer_codec keys a.serial true in
              along (ground (arith, free, made, socket)) (insert-AllDirect id e s.sessions refl all)
        ]
      ]

  deliver-AllDirect :
      (rand : Randomness) (now : ℤ) (who : PeerPublic) (id : Bytes) (content : Text)
      (s : ClientState D)
      → AllDirect s.sessions
      → AllDirect (deliver x rand now keys who id content s).0.sessions
  unfolding deliver emit post
  deliver-AllDirect rand now who id content s all = elim (Option-cases (lookup id s.sessions)) [
    | inl missing ↦ along (ground (arith, missing)) all
    | inr (e, found) ↦ elim (Bool-cases e.accepts) [
      | inl listens ↦ along (ground (arith, found, listens)) (
          insert-AllDirect id (record e { outbound = e.outbound ++ content ∷ [] }) s.sessions
            (lookup-AllDirect id e s.sessions all found) all)
      | inr gone ↦ along (ground (arith, found, gone)) (remove-AllDirect id s.sessions all)
    ]
  ]

  handle_send-AllDirect :
      (rand : Randomness) (now : ℤ) (id : Bytes) (content : Text) (s : ClientState D)
      → AllDirect s.sessions
      → AllDirect (handle_send x rand now keys id content s).sessions
  unfolding handle_send emit set_disk
  handle_send-AllDirect rand now id content s all =
      elim (Result-cases (load_peer_data x.primitives s.world.disk id)) [
        | inl (who, known) ↦
            along (ground (arith, known)) (deliver-AllDirect rand now who id content s all)
        | inr (e, unknown) ↦ along (ground (arith, unknown)) all
      ]

  announce_to-sessions :
      (now : ℤ) (address : Text) (peers : List PeerPublic) (s : ClientState D)
      → (announce_to x now keys address peers s).sessions ≡ s.sessions
  unfolding announce_to post
  announce_to-sessions now address [] s = refl
  announce_to-sessions now address (who ∷ rest) s =
      elim (Result-cases (generate_announce_message x keys.x25519_priv who.public now address)) [
        | inl (msg, made) ↦ ground (
          arith,
          made,
          announce_to-sessions now address rest (post (new_client_to_server msg none now) s),
        )
        | inr (e, failed) ↦ ground (arith, failed, announce_to-sessions now address rest s)
      ]

  handle_purge-sessions :
      (rand : Randomness) (now : ℤ) (id : Bytes) (s : ClientState D)
      → (handle_purge x rand now keys id s).sessions ≡ remove id s.sessions
  unfolding handle_purge forget emit post set_disk
  handle_purge-sessions rand now id s = ground arith

  pub handle_command-AllDirect :
      (rand : Randomness) (now : ℤ) (at : ℕ) (c : Command) (s : ClientState D)
      → AllDirect s.sessions
      → AllDirect (handle_command x rand now at keys c s).sessions
  unfolding handle_command emit forget set_disk
  handle_command-AllDirect rand now at (connect id) s all = along (ground arith) all
  handle_command-AllDirect rand now at (set_server a) s all = all
  handle_command-AllDirect rand now at shutdown s all = all
  handle_command-AllDirect rand now at (remove_peer id) s all =
      along (ground arith) (remove-AllDirect id s.sessions all)
  handle_command-AllDirect rand now at announce_now s all =
      elim (Option-cases (get_or_set_my_address none s.world).0) [
        | inl unset ↦ along (ground (arith, unset)) all
        | inr (address, set) ↦
            let peers = unwrap_or (load_peers x.primitives s.world.disk) [] in
            along (ground (arith, set, announce_to-sessions now address peers s)) all
      ]
  handle_command-AllDirect rand now at (purge_chat id) s all =
      along (handle_purge-sessions rand now id s) (remove-AllDirect id s.sessions all)
  handle_command-AllDirect rand now at (send id content) s all =
      handle_send-AllDirect rand now id content s all

  pub handle_server_event-sessions :
      (now : ℤ) (at : ℕ) (e : ServerEvent) (s : ClientState D)
      → AllDirect s.sessions
      → (handle_server_event x now at e s).sessions ≡ s.sessions
  unfolding handle_server_event emit
  handle_server_event-sessions now at (authenticated a) s all = refl
  handle_server_event-sessions now at (relay_data_event who payload) s all =
      elim (Option-cases (lookup who s.sessions)) [
        | inl missing ↦ ground (arith, missing)
        | inr (e, found) ↦ ground (arith, found, lookup-AllDirect who e s.sessions all found)
      ]
  handle_server_event-sessions now at (peer_came_online who _) s all = refl
  handle_server_event-sessions now at (peer_went_offline who) s all = refl
  handle_server_event-sessions now at (blob_stored who) s all = refl
  handle_server_event-sessions now at (hole_punch_denied id reason) s all = refl
  handle_server_event-sessions now at (punch_hole_event a b c d) s all = ground arith
  handle_server_event-sessions now at disconnected s all = refl
