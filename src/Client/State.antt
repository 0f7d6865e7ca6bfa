-- ===== src/Client/State.antt =====
-- The state that the event loop of crates/client/src/lib.rs owns or shares, and its channels.
use sechat_client.Base.{Bool, true, false, List, [], ◌∷◌, ◌++◌, if◌then◌else◌}
use sechat_client.Base.Assoc.{Assoc}
use sechat_client.Base.Bytes.{Bytes}
use sechat_client.Client.Types.{AppEvent, ConnectIntent, Spawned, SessionEntry}
use sechat_client.Crypto.Disk.{Disk}
use sechat_client.Server.Services.{World}
use sechat_client.Server.Structs.{ClientToServer}

-- The channel to the connection's writer: `send` fails once it is closed.
pub record Link : Type 0 where
  pub is_open : Bool
  pub sent : List ClientToServer

pub record ClientState (D : Type 0) : Type 0 where
  pub world : World D
  pub link : Link
  -- The events for the user interface, in order.
  pub app : List AppEvent
  pub intents : Assoc ConnectIntent
  pub sessions : Assoc SessionEntry
  pub connecting : List Bytes
  pub spawned : List Spawned

unfoldable pub send_link : ClientToServer → Link → Bool × Link
send_link msg l = if l.is_open then (true, record l { sent = l.sent ++ msg ∷ [] }) else (false, l)

module _ {D : Type 0} where
  unfoldable pub emit : AppEvent → ClientState D → ClientState D
  emit e s = record s { app = s.app ++ e ∷ [] }

  -- A send whose failure is ignored.
  unfoldable pub post : ClientToServer → ClientState D → ClientState D
  unfolding send_link
  post msg s = record s { link = (send_link msg s.link).1 }

  unfoldable pub set_disk : Disk D → ClientState D → ClientState D
  set_disk d s = let w = s.world in record s { world = record w { disk = d } }
