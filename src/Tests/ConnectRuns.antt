-- ===== src/Tests/ConnectRuns.antt =====
-- Runs of a session from its start to its end.
use sechat_client.Base.{
  ◌≡◌, refl, Bool, true, false, Option, none, some, List, [], ◌∷◌, ◌++◌, arith, ok, is_ok,
  unwrap_or,
}
use sechat_client.Base.Assoc.{lookup, contains_key, member}
use sechat_client.Base.Bytes.{Bytes, Text, text, bytes_eq}
use sechat_client.Base.Int.{ℤ, pos, to_u64, abs_i64}
use sechat_client.Client.Commands.{persist_message}
use sechat_client.Client.Connect.{Attempt, session_entry, connect_session, receive_events}
use sechat_client.Client.Connect.Agreement.{id_of, connect_sessions_agree}
use sechat_client.Client.Connect.Direct.{AllDirect, connect_session-key}
use sechat_client.Client.Connect.Events.{session_events, rows_of, receive_events-Log}
use sechat_client.Client.Connect.Reachable.{
  happens, connects, delivers, Reach, here, next, Reach-direct,
}
use sechat_client.Client.EventLoop.{online, EventLoop, server_event, round}
use sechat_client.Client.Events.{handle_server_event}
use sechat_client.Client.State.{ClientState, emit, set_disk}
use sechat_client.Client.Types.{message_arrived, session_up, session_down}
use sechat_client.Crypto.Derive.{identity_hash, load_storage_key}
use sechat_client.Crypto.Disk.{chat_of}
use sechat_client.Crypto.Primitives.{last_entry}
use sechat_client.Crypto.Stored.{counter_after, find_counter, insert_message_stored}
use sechat_client.Crypto.Stored.History.{store_all}
use sechat_client.Crypto.Stored.Log.{Log}
use sechat_client.Crypto.Types.{Author, PeerPublic, Keys, from_parts}
use sechat_client.P2p.Fresh.{frame_is_fresh}
use sechat_client.P2p.Handshake.{arrived, frame, initial_handshake}
use sechat_client.P2p.Punch.{punch_hole, tick, datagram, is_ping_of}
use sechat_client.Server.Structs.{relay_data_event}
use sechat_client.Tests.FileRuns.{bob_keys, talking, row_key}
use sechat_client.Tests.SessionRuns.{codec, codec_laws, init_of, pings}
use sechat_client.Tests.Toy.{fit, toy, Tree, toy_sled}
use sechat_client.Tests.Wire.{packed, message_fields, message_of}
use sechat_client.Tests.World.{
  toy_services, toy_services_laws, alice_secret, alice_signing, bob_secret, bob_signing, twelve,
  keys_of, alice_id, alice, bob, bob_state,
}

abbrev received : List (Bytes × ℤ × Text)
received = (twelve, pos 1000, text "hi") ∷ []

abbrev received_rows : Tree
received_rows =
    unwrap_or
      (store_all toy (packed message_fields message_of) toy_sled row_key (rows_of received) []) []

abbrev over : ClientState Tree
over = receive_events toy_services bob_keys alice alice_id (session_events received) talking

receive_events-Log_example :
    (chat_of over.world.disk alice_id ≡ some received_rows)
    × Log toy
        (packed message_fields message_of)
        row_key
        0
        1
        received_rows
        ([] ++ from_parts (text "hi") Author.peer (pos 1000) ∷ [])
    × (over.app ≡ [] ++ message_arrived alice_id false ∷ session_down alice_id ∷ [])
    × (lookup alice_id over.sessions ≡ none)
unfolding toy_services load_storage_key toy chat_of lookup bytes_eq identity_hash fit toy_sled
    store_all insert_message_stored packed find_counter counter_after last_entry
receive_events-Log_example =
    receive_events-Log toy_services toy_services_laws bob_keys alice alice_id row_key received
      talking [] received_rows 0 [] refl refl refl (omega arith) (refl, tt) (omega arith) refl

abbrev alice_keys : Keys
alice_keys = keys_of alice_secret alice_signing

-- What is drawn, the peer's key, and the peer's Init.
abbrev attempt_of : Bytes → PeerPublic → Bytes → Attempt
attempt_of eph who heard_init = record {
  eph_secret = eph;
  punched = tick ∷ datagram who.public (text "b:2") ∷ [];
  direct = arrived heard_init (pos 60) ∷ [];
  resends = 3;
  serial = 1;
}

abbrev alice_attempt : Attempt
alice_attempt = attempt_of (1 ∷ []) bob (init_of (2 ∷ []) bob_secret bob_signing)

abbrev bob_attempt : Attempt
bob_attempt = attempt_of (2 ∷ []) alice (init_of (1 ∷ []) alice_secret alice_signing)

abbrev alice_side : Option (Bytes × Bool) × ClientState Tree
alice_side = connect_session toy_services pings codec alice_keys bob (pos 9) alice_attempt bob_state

abbrev bob_side : Option (Bytes × Bool) × ClientState Tree
bob_side = connect_session toy_services pings codec bob_keys alice (pos 9) bob_attempt bob_state

connect_sessions_agree_example :
    (k : Bytes) × (alice_side.0 ≡ some (k, true))
    × (bob_side.0 ≡ some (k, true))
    × (lookup (id_of toy bob_keys) alice_side.1.sessions
        ≡ some (session_entry toy_services pings codec alice_keys 1 true))
    × (lookup (id_of toy alice_keys) bob_side.1.sessions
        ≡ some (session_entry toy_services pings codec bob_keys 1 true))
    × (alice_side.1.app ≡ [] ++ session_up (id_of toy bob_keys) true ∷ [])
    × (bob_side.1.app ≡ [] ++ session_up (id_of toy alice_keys) true ∷ [])
unfolding toy_services lookup member punch_hole is_ping_of bytes_eq toy fit to_u64 frame packed
    frame_is_fresh abs_i64
connect_sessions_agree_example =
    connect_sessions_agree toy_services pings codec toy_services_laws codec_laws alice_keys bob_keys
      (pos 9) (pos 9) alice_attempt bob_attempt bob_state bob_state
      (init_of (1 ∷ []) alice_secret alice_signing) (init_of (2 ∷ []) bob_secret bob_signing)
      (pos 50) (pos 50) (pos 60) (pos 60) [] [] refl refl refl refl refl refl refl refl refl refl tt
      tt refl refl

-- Bob connects to Alice, she sends a text, and the relay passes on a frame.
abbrev start : EventLoop Tree
start = record {
  client = bob_state;
  stage = online;
  server_address = [];
  backoff_secs = 1;
  slept = [];
}

abbrev joined : EventLoop Tree
joined = record start { client = bob_side.1 }

abbrev told_once : EventLoop Tree
told_once = record joined {
  client = emit (message_arrived alice_id false) (
      set_disk
        (persist_message toy_services twelve bob_keys alice alice_id (text "hi") Author.peer
          (pos 1000) bob_side.1.world.disk).1
        bob_side.1);
}

abbrev relayed_at : EventLoop Tree
relayed_at =
    round toy_services bob_keys (server_event (pos 1001) 9 (relay_data_event alice_id (text "x")))
      told_once

way : Reach toy_services pings codec bob_keys start relayed_at
way =
    next
      (next (next here (connects alice (pos 9) bob_attempt start))
        (delivers alice alice_id twelve (text "hi") (pos 1000) joined))
      (happens (server_event (pos 1001) 9 (relay_data_event alice_id (text "x"))) told_once)

Reach-direct_example :
    AllDirect relayed_at.client.sessions
    × (handle_server_event toy_services
          (pos 1002)
          10
          (relay_data_event alice_id (text "y"))
          relayed_at.client
        ≡ relayed_at.client)
Reach-direct_example =
    Reach-direct toy_services pings codec bob_keys alice_id (text "y") (pos 1002) 10 refl way

bob_connects : (k : Bytes) × (bob_side.0 ≡ some (k, true))
unfolding toy_services lookup member punch_hole is_ping_of bytes_eq toy fit to_u64 frame packed
    frame_is_fresh abs_i64
bob_connects =
    let (k, _, at_bob, _, _, _, _) =
      connect_sessions_agree toy_services pings codec toy_services_laws codec_laws alice_keys
        bob_keys (pos 9) (pos 9) alice_attempt bob_attempt bob_state bob_state
        (init_of (1 ∷ []) alice_secret alice_signing) (init_of (2 ∷ []) bob_secret bob_signing)
        (pos 50) (pos 50) (pos 60) (pos 60) [] [] refl refl refl refl refl refl refl refl refl refl
        tt tt refl refl in
    (k, at_bob)

connect_session-key_example :
    (true ≡ true)
    × (contains_key
          (identity_hash toy_services.primitives alice.public alice.verifying)
          bob_state.sessions
        ≡ false)
    × (member
          (identity_hash toy_services.primitives alice.public alice.verifying)
          bob_state.connecting
        ≡ false)
    × (is_ok (punch_hole pings 9 bob_keys.x25519_pub alice.public bob_attempt.punched) ≡ true)
    × (initial_handshake toy_services.primitives codec bob_attempt.eph_secret alice
          bob_attempt.direct
        ≡ ok bob_connects.0)
unfolding toy_services to_u64
connect_session-key_example =
    connect_session-key toy_services bob_keys pings codec alice (pos 9) bob_attempt bob_state
      bob_connects.0 true bob_connects.1
