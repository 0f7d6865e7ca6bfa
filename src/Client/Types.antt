-- ===== src/Client/Types.antt =====
-- The data types of crates/client/src/lib.rs.
use mathlib.Core.Option
use sechat_client.Base.{ℕ, Bool, Option, List}
use sechat_client.Base.Bytes.{Bytes, Text}
use sechat_client.Base.Int.{ℤ}
use sechat_client.Crypto.Types.{PeerPublic}

pub record Contact : Type 0 where
  pub id : Bytes
  pub fingerprint : Text
  pub online : Bool
  pub address : Option Text
  pub alias : Option Text

-- `Contact::label`.
unfoldable pub label : Contact → Text
label c = Option.get_or c.alias c.fingerprint

pub record ChatLine : Type 0 where
  pub from_me : Bool
  pub text : Text
  pub timestamp : ℤ

pub data AppEvent : Type 0 where
  connected : Text → AppEvent
  app_peer_online : Bytes → AppEvent
  app_peer_offline : Bytes → AppEvent
  -- peer, from_me
  message_arrived : Bytes → Bool → AppEvent
  app_hole_punch_denied : Bytes → Text → AppEvent
  -- peer, direct
  session_up : Bytes → Bool → AppEvent
  session_down : Bytes → AppEvent
  -- peer, attempt, delay_secs
  connect_retrying : Bytes → ℕ → ℕ → AppEvent
  connect_gave_up : Bytes → AppEvent
  app_disconnected : AppEvent
  app_error : Text → AppEvent

pub data Command : Type 0 where
  -- peer, text
  send : Bytes → Text → Command
  connect : Bytes → Command
  purge_chat : Bytes → Command
  remove_peer : Bytes → Command
  announce_now : Command
  set_server : Text → Command
  shutdown : Command

-- A live wish to be connected to a peer; instants are milliseconds.
pub record ConnectIntent : Type 0 where
  pub attempts : ℕ
  pub backoff_secs : ℕ
  pub due_at : ℕ
  pub online : Bool

pub data RetryAction : Type 0 where
  punch give_up wait done : RetryAction

-- A connect task that was spawned: the peer, its address, the time of the punch.
pub record Spawned : Type 0 where
  pub peer : PeerPublic
  pub ip_port : Text
  pub punchtimestamp : ℤ

-- An entry of the session map: which session it belongs to, whether its sending task still listens,
-- the texts that are queued for it, and the relay frames that are queued, if it runs over the relay.
pub record SessionEntry : Type 0 where
  pub serial : ℕ
  pub accepts : Bool
  pub outbound : List Text
  pub relay_in : Option (List Bytes)
