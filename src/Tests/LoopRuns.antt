-- ===== src/Tests/LoopRuns.antt =====
-- Runs of the event loop: failures to connect, and a shutdown.
use sechat_client.Base.{◌≤◌, ◌≡◌, refl, List, [], ◌∷◌, ◌++◌, map, ok}
use sechat_client.Base.Bytes.{text}
use sechat_client.Base.Int.{pos}
use sechat_client.Client.Commands.{Randomness}
use sechat_client.Client.EventLoop.{
  online, finished, EventLoop, Happening, connection_made, connect_error, ticked, server_gone,
  commanded, wait_and_double, round_at, round, orchestrate,
}
use sechat_client.Client.EventLoop.Delay.{Delays, start, orchestrate-Delays}
use sechat_client.Client.EventLoop.Shutdown.{farewell, orchestrate-shutdown}
use sechat_client.Client.Types.{shutdown}
use sechat_client.Crypto.Peers.{peer_file, load_entry, load_peers}
use sechat_client.Crypto.Types.{Keys}
use sechat_client.Server.Structs.{connection_closed}
use sechat_client.Tests.Toy.{fit, toy, toy_laws, Tree}
use sechat_client.Tests.World.{
  toy_services, bob_secret, bob_signing, twelve, keys_of, alice, bob_disk, open_link, bob_state,
}

abbrev bob_keys : Keys
bob_keys = keys_of bob_secret bob_signing

abbrev dice : Randomness
dice = record { stored_nonce = twelve; row_nonce = twelve; eph_secret = 1 ∷ []; eph_nonce = twelve }

abbrev failures : List Happening
failures =
    connect_error connection_closed
    ∷ connect_error connection_closed
    ∷ connection_made open_link
    ∷ server_gone
    ∷ []

abbrev after_failures : EventLoop Tree
after_failures = orchestrate toy_services bob_keys failures (start bob_state (text "relay.x:1"))

orchestrate-Delays_example :
    Delays after_failures.slept
    × (1 ≤ after_failures.backoff_secs)
    × (after_failures.backoff_secs ≤ 30)
orchestrate-Delays_example =
    orchestrate-Delays toy_services bob_keys failures bob_state (text "relay.x:1")

-- The delays of that run.
delays_of_failures : after_failures.slept ≡ 1 ∷ 2 ∷ 1 ∷ []
unfolding orchestrate round round_at wait_and_double
delays_of_failures = refl

abbrev at_work : EventLoop Tree
at_work = record {
  client = bob_state;
  stage = online;
  server_address = text "relay.x:1";
  backoff_secs = 1;
  slept = [];
}

abbrev stopped : EventLoop Tree
stopped =
    orchestrate toy_services bob_keys
      (commanded dice (pos 700) 9 shutdown ∷ ticked (pos 701) 10 ∷ []) at_work

bob_peers : load_peers toy bob_disk ≡ ok (alice ∷ [])
unfolding load_peers load_entry peer_file toy fit
bob_peers = refl

orchestrate-shutdown_example : stopped ≡ record at_work {
  stage = finished;
  client = record bob_state {
    link = record open_link {
      sent = [] ++ map (farewell toy_services bob_keys (pos 700)) (alice ∷ []);
    };
    sessions = [];
  };
}
unfolding toy_services
orchestrate-shutdown_example =
    orchestrate-shutdown toy_services bob_keys toy_laws dice (pos 700) 9 (ticked (pos 701) 10 ∷ [])
      at_work (alice ∷ []) refl bob_peers refl
