-- ===== src/Tests/PipelineRuns.antt =====
-- Runs of the tasks of a connection: two messages, read, queued, handled and answered.
use sechat_client.Base.{List, [], ◌∷◌, ◌++◌, map}
use sechat_client.Base.Bytes.{text}
use sechat_client.Base.Int.{pos}
use sechat_client.Server.Connect.{close_frame, Connection}
use sechat_client.Server.Generators.{generate_peer_hash}
use sechat_client.Server.Loops.{
  Stamp, Pipeline, Turn, read, dispatch, write, report, run_turns, spawn_tasks,
}
use sechat_client.Server.Loops.Fair.{relay_frame}
use sechat_client.Server.Loops.Order.{Log, inbound, InOrder}
use sechat_client.Server.Loops.Order.Schedule.{run_turns-InOrder}
use sechat_client.Server.Structs.{peer_online, hole_punch_requested, ServerToClient}
use sechat_client.Tests.ServerRuns.{encode_reply}
use sechat_client.Tests.Toy.{Tree}
use sechat_client.Tests.World.{toy_services, bob_secret, twelve, alice, bob_world}

abbrev stamp : Stamp
stamp = record { nonce = twelve; now = pos 600; sent = pos 600 }

abbrev arriving : Log
arriving =
    (
      stamp,
      record {
        payload = peer_online (generate_peer_hash toy_services alice) (text "1.2.3.4:5");
        timestamp = pos 600;
      },
    )
    ∷ (
      stamp,
      record {
        payload = hole_punch_requested (text "stranger") (text "token");
        timestamp = pos 600;
      },
    )
    ∷ []

abbrev messages : List ServerToClient
messages = map (λ e. e.1) arriving

abbrev wire : Connection
wire = record {
  incoming = map (relay_frame encode_reply) messages ++ close_frame ∷ [];
  sent = [];
  writable = 5;
}

abbrev fresh : Pipeline Tree
fresh = spawn_tasks toy_services bob_secret bob_world wire

abbrev busy : List Turn
busy =
    read ∷ dispatch stamp ∷ read ∷ report ∷ read ∷ dispatch stamp ∷ read ∷ read ∷ read ∷ report ∷ []

run_turns-InOrder_example :
    InOrder toy_services bob_secret
      (inbound fresh)
      (inbound (run_turns toy_services bob_secret busy fresh))
run_turns-InOrder_example = run_turns-InOrder toy_services bob_secret busy fresh

-- The connection when the stream ends after the messages.
abbrev ending : Pipeline Tree
ending = record fresh { incoming = map (relay_frame encode_reply) messages }

-- Parts in which the workers come in different orders.
abbrev forth : List Turn
forth = read ∷ read ∷ dispatch stamp ∷ write ∷ []

abbrev back : List Turn
back = write ∷ dispatch stamp ∷ write ∷ read ∷ []

abbrev parts : List (List Turn)
parts = forth ∷ back ∷ back ∷ forth ∷ back ∷ forth ∷ forth ∷ back ∷ back ∷ forth ∷ []
