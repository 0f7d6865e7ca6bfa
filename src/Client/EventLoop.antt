-- ===== src/Client/EventLoop.antt =====
-- `orchestrate` of crates/client/src/lib.rs: connecting with a growing delay, and the loop over
-- ticks, events of the server and commands. What happens is a list, in the order in which the loop
-- takes it up; Connecting has the attempt that ends in a connection.
pub mod Delay
pub mod Shutdown
pub mod Connecting
pub mod Reaching
use sechat_client.Base.{ℕ, ◌*◌, ◌%◌, ◌^◌, min, none, List, [], ◌∷◌, ◌++◌, ok, err, unwrap_or}
use sechat_client.Base.Bytes.{Text, text}
use sechat_client.Base.Int.{ℤ}
use sechat_client.Client.Commands.{Randomness, handle_command}
use sechat_client.Client.Config.{save_server}
use sechat_client.Client.Events.{handle_server_event}
use sechat_client.Client.Retry.{drive_retries}
use sechat_client.Client.State.{Link, ClientState, emit, post, set_disk}
use sechat_client.Client.Types.{app_disconnected, app_error, Command, set_server, shutdown}
use sechat_client.Crypto.Peers.{load_peers}
use sechat_client.Crypto.Types.{PeerPublic, Keys}
use sechat_client.Server.Generators.{generate_unannounce_message}
use sechat_client.Server.Services.{Services}
use sechat_client.Server.Structs.{
  ClientErrors, display_client, new_client_to_server, ServerEvent, disconnected,
}

pub data Stage : Type 0 where
  offline online finished : Stage

-- `slept` are the delays so far, in seconds.
pub record EventLoop (D : Type 0) : Type 0 where
  pub client : ClientState D
  pub stage : Stage
  pub server_address : Text
  pub backoff_secs : ℕ
  pub slept : List ℕ

pub data Happening : Type 0 where
  -- the outcome of `run_client`
  connection_made : Link → Happening
  connect_error : ClientErrors → Happening
  ticked : ℤ → ℕ → Happening
  server_event : ℤ → ℕ → ServerEvent → Happening
  server_gone : Happening
  commanded : Randomness → ℤ → ℕ → Command → Happening
  commands_gone : Happening

module _ {D : Type 0} (x : Services D) (keys : Keys) where
  -- The sleep before the next attempt, and the delay after it.
  unfoldable pub wait_and_double : EventLoop D → EventLoop D
  wait_and_double l = record l {
    stage = offline;
    slept = l.slept ++ l.backoff_secs ∷ [];
    backoff_secs = min ((l.backoff_secs * 2) % 2 ^ 64) 30;
  }

  unfoldable pub unannounce_to : ℤ → List PeerPublic → ClientState D → ClientState D
  unfolding post
  unannounce_to now [] s = s
  unannounce_to now (who ∷ rest) s =
      elim (generate_unannounce_message x keys.x25519_priv who.public now) [
        | ok msg ↦ unannounce_to now rest (post (new_client_to_server msg none now) s)
        | err e ↦ unannounce_to now rest s
      ]

  unfoldable pub shut_down : ℤ → ClientState D → ClientState D
  unfolding unannounce_to
  shut_down now s =
      let told = unannounce_to now (unwrap_or (load_peers x.primitives s.world.disk) []) s in
      record told { sessions = [] }

  unfoldable pub take_command : Randomness → ℤ → ℕ → Command → EventLoop D → EventLoop D
  unfolding shut_down wait_and_double set_disk save_server
  take_command rand now at (set_server addr) l =
      let s = l.client in
      wait_and_double (record l {
        client = set_disk (save_server addr s.world.disk).1 s;
        server_address = addr;
        backoff_secs = 1;
      })
  take_command rand now at shutdown l = record l {
    client = shut_down now l.client;
    stage = finished;
  }
  take_command rand now at other_command l = record l {
    client = handle_command x rand now at keys other_command l.client;
  }

  unfoldable pub take_event : ℤ → ℕ → ServerEvent → EventLoop D → EventLoop D
  unfolding wait_and_double emit
  take_event now at disconnected l =
      wait_and_double (record l { client = emit app_disconnected l.client })
  take_event now at event l = record l { client = handle_server_event x now at event l.client }

  -- One round of the loop at each stage. What belongs to another stage cannot happen, and changes
  -- nothing.
  unfoldable pub round_at : Stage → Happening → EventLoop D → EventLoop D
  unfolding take_command take_event wait_and_double emit
  round_at offline (connection_made link) l =
      let s = l.client in
      record l { client = record s { link = link }; stage = online; backoff_secs = 1 }
  round_at offline (connect_error e) l = wait_and_double (record l {
    client = emit (app_error (text "connect failed: " ++ display_client e)) l.client;
  })
  round_at online (ticked now at) l = record l { client = drive_retries x keys now at l.client }
  round_at online (server_event now at event) l = take_event now at event l
  round_at online server_gone l =
      wait_and_double (record l { client = emit app_disconnected l.client })
  round_at online (commanded rand now at command) l = take_command rand now at command l
  round_at online commands_gone l = record l { stage = finished }
  round_at _ _ l = l

  unfoldable pub round : Happening → EventLoop D → EventLoop D
  unfolding round_at
  round happening l = round_at l.stage happening l

  unfoldable pub orchestrate : List Happening → EventLoop D → EventLoop D
  orchestrate [] l = l
  orchestrate (h ∷ hs) l = orchestrate hs (round h l)
