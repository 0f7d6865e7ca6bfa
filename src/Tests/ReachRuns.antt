-- ===== src/Tests/ReachRuns.antt =====
-- A run of the connection to the relay.
use sechat_client.Base.{◌≡◌, refl, false, Option, none, some, List, [], ◌∷◌, ◌++◌, arith, ok}
use sechat_client.Base.Bytes.{Text, text}
use sechat_client.Base.Int.{pos}
use sechat_client.Client.EventLoop.{offline, online, EventLoop}
use sechat_client.Client.EventLoop.Connecting.{Network, public_address, reach_relay}
use sechat_client.Client.EventLoop.Reaching.{reach_relay-announces}
use sechat_client.Crypto.Blob.{decrypt_blob}
use sechat_client.Crypto.Peers.{peer_file, load_entry, load_peers}
use sechat_client.Crypto.Primitives.{Codec}
use sechat_client.P2p.Punch.{StunPing, silence, reply}
use sechat_client.Server.Blobs.{open_blob, process_blob}
use sechat_client.Server.Connect.{
  binary, other_frame, Connection, read_frame, receive_message, send_message, ack_blob_now, drain,
  announce_peers, observed_by, announced, announce_all, server_initial_handshake,
}
use sechat_client.Server.Connect.Drain.{Pending, pending_frames, acks}
use sechat_client.Server.Connect.Sending.{announcements, introduction}
use sechat_client.Server.Generators.{generate_authenticate_message}
use sechat_client.Server.Loops.{Pipeline}
use sechat_client.Server.Structs.{auth_ok}
use sechat_client.Tests.FileRuns.{bob_keys}
use sechat_client.Tests.ServerRuns.{encode_reply, toy_reads, toy_writes}
use sechat_client.Tests.Toy.{fit, toy, Tree}
use sechat_client.Tests.Wire.{
  wire, unwire, pack, unpack, put, packed, server_fields, server_of, reply_fields, reply_of,
}
use sechat_client.Tests.World.{
  toy_services, toy_services_laws, bob_secret, twelve, alice, bob_world, bob_state,
}

abbrev poison : List Pending
poison = record { blob_id = text "b"; blob = text "poison"; received_at = pos 502 } ∷ []

-- A relay that saw the client at 9.9.9.9:50000, with one message after the end mark.
abbrev wire_in : Connection
wire_in = record {
  incoming =
      binary
        (encode_reply (record { payload = auth_ok (text "9.9.9.9:50000"); timestamp = pos 600 }))
      ∷ pending_frames toy_services encode_reply (pos 600) poison (other_frame ∷ []);
  sent = [];
  writable = 5;
}

abbrev internet : Network
internet = record { stun = λ a. silence ∷ reply (text "8.8.8.8:7") ∷ []; dial = λ url. ok wire_in }

abbrev stun_pings : Codec StunPing
stun_pings = record { to_vec = λ p. some []; from_slice = λ b. none }

abbrev stun_replies : Codec Text
stun_replies = record { to_vec = λ t. some t; from_slice = λ b. some b }

abbrev asleep : EventLoop Tree
asleep = record {
  client = bob_state;
  stage = offline;
  server_address = text "relay.x:443";
  backoff_secs = 8;
  slept = [];
}

abbrev seen : Option Text
seen =
    public_address toy_services stun_pings stun_replies bob_keys internet none (pos 600)
      (text "relay.x:443")

peers_loaded :
    load_peers toy
      (server_initial_handshake toy_services
        (λ n. twelve)
        (pos 600)
        bob_keys
        4000
        seen
        bob_world
        wire_in).1.disk
    ≡ ok (alice ∷ [])
unfolding load_peers server_initial_handshake generate_authenticate_message send_message
    toy_services observed_by receive_message read_frame packed reply_of unpack encode_reply pack
    unwire reply_fields wire server_of pending_frames drain process_blob open_blob decrypt_blob
    ack_blob_now announce_all announce_peers toy server_fields put text load_entry peer_file fit
peers_loaded = refl

reach_relay-announces_example :
    (tasks : Pipeline Tree) × (l : EventLoop Tree) × (reach_relay toy_services stun_pings
        stun_replies bob_keys internet none false
        (λ n. twelve)
        (pos 600)
        4000
        asleep
      ≡ some (some tasks, l))
    × (l.stage ≡ online)
    × (l.backoff_secs ≡ 1)
    × (l.client.world.my_address ≡ some (announced toy_services seen 4000 (text "9.9.9.9:50000")))
    × (tasks.sent
        ≡ []
          ++ introduction toy_services bob_keys (pos 600)
            ∷ (acks toy_services encode_reply (pos 600) (pos 600) poison
                ++ announcements toy_services bob_secret
                    (pos 600)
                    (text "9.9.9.9:50000")
                    (alice ∷ [])))
    × (tasks.incoming ≡ other_frame ∷ [])
unfolding toy_services toy
reach_relay-announces_example =
    reach_relay-announces toy_services toy_services_laws toy_writes encode_reply (pos 600) toy_reads
      stun_pings stun_replies bob_keys internet none false (λ n. twelve) (pos 600) 4000 asleep
      wire_in (text "9.9.9.9:50000") poison (other_frame ∷ []) (alice ∷ []) refl refl refl
      (omega arith) (omega arith) refl peers_loaded
