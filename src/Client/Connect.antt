-- ===== src/Client/Connect.antt =====
-- `connect_session` of crates/client/src/lib.rs from its call to its end, when no other task moves in
-- between, and the task that receives the events of the session. The tasks beside each other are in
-- Sessions.
pub mod Events
pub mod Agreement
pub mod Direct
pub mod Reachable
pub mod Reading
use sechat_client.Base.{
  ℕ, Bool, true, false, ◌||◌, Option, none, some, List, [], ◌∷◌, if◌then◌else◌,
}
use sechat_client.Base.Assoc.{insert, remove, contains_key, member, without}
use sechat_client.Base.Bytes.{Bytes}
use sechat_client.Base.Int.{ℤ, to_u64}
use sechat_client.Client.Commands.{persist_message}
use sechat_client.Client.Local.{choose_transport}
use sechat_client.Client.Relay.{establish_relay}
use sechat_client.Client.State.{ClientState, emit, set_disk}
use sechat_client.Client.Types.{message_arrived, session_up, session_down, SessionEntry}
use sechat_client.Crypto.Derive.{identity_hash}
use sechat_client.Crypto.Primitives.{Codec}
use sechat_client.Crypto.Types.{Author, PeerPublic, Keys}
use sechat_client.P2p.Handshake.{HandshakeInput, initial_handshake}
use sechat_client.P2p.Message.{PeerMessage}
use sechat_client.P2p.Punch.{punch_hole, Ping, PunchInput}
use sechat_client.P2p.Session.{SessionEvent, message, closed}
use sechat_client.Server.Services.{Services}

-- What an attempt draws, what arrives for it in the hole punch and in the handshake over the socket,
-- and the resends of a handshake over the relay, for which nothing can arrive.
pub record Attempt : Type 0 where
  pub eph_secret : Bytes
  pub punched : List PunchInput
  pub direct : List HandshakeInput
  pub resends : ℕ
  pub serial : ℕ

module _ {D : Type 0} (x : Services D) (ping_codec : Codec Ping) (peer_codec : Codec PeerMessage)
    (keys : Keys) where
  -- The key of the session, and whether it is direct.
  unfoldable pub negotiate : PeerPublic → ℤ → Attempt → Option (Bytes × Bool)
  unfolding choose_transport
  negotiate who punchtimestamp a =
      choose_transport
        (punch_hole ping_codec (to_u64 punchtimestamp) keys.x25519_pub who.public a.punched)
        (initial_handshake x.primitives peer_codec a.eph_secret who a.direct)
        (establish_relay x.primitives peer_codec a.eph_secret who a.resends)

  -- The entry of a session that has started.
  unfoldable pub session_entry : ℕ → Bool → SessionEntry
  session_entry serial direct = record {
    serial = serial;
    accepts = true;
    outbound = [];
    relay_in = if direct then none else some [];
  }

  -- The reservation is taken and, whatever happens, given back.
  unfoldable pub connect_session :
      PeerPublic → ℤ → Attempt → ClientState D → Option (Bytes × Bool) × ClientState D
  unfolding negotiate session_entry emit
  connect_session who punchtimestamp a s =
      let id = identity_hash x.primitives who.public who.verifying in
      if contains_key id s.sessions || member id s.connecting
      then (none, s)
      else elim (negotiate who punchtimestamp a) [
        | none ↦ (none, record s { connecting = without id (id ∷ s.connecting) })
        | some (key, direct) ↦ (
          some (key, direct),
          emit (session_up id direct) (record s {
            sessions = insert id (session_entry a.serial direct) s.sessions;
            connecting = without id (id ∷ s.connecting);
          }),
        )
      ]

module _ {D : Type 0} where
  unfoldable pub end_session : Bytes → ClientState D → ClientState D
  unfolding emit
  end_session id s = emit (session_down id) (record s { sessions = remove id s.sessions })

module _ {D : Type 0} (x : Services D) (keys : Keys) where
  -- The task that receives the events of a session. Each event comes with the nonce that storing it
  -- would draw.
  unfoldable pub receive_events :
      PeerPublic → Bytes → List (Bytes × SessionEvent) → ClientState D → ClientState D
  unfolding end_session emit set_disk
  receive_events who id [] s = end_session id s
  receive_events who id ((nonce, closed) ∷ rest) s = end_session id s
  receive_events who id ((nonce, message t timestamp) ∷ rest) s =
      let d = (persist_message x nonce keys who id t Author.peer timestamp s.world.disk).1 in
      receive_events who id rest (emit (message_arrived id false) (set_disk d s))
