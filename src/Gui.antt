-- ===== src/Gui.antt =====
-- The graphical client, crates/gui/src/main.rs: its state and its messages. The widgets are not
-- modelled, and a window is the number that the toolkit gave it.
pub mod Actions
pub mod Events
pub mod Start
pub mod Update
pub mod Unread
pub mod Invariant
pub mod Runs
pub mod Counting
use mathlib.Core.Option
use sechat_client.Base.{ℕ, Bool, true, Option, none, List, [], Result}
use sechat_client.Base.Assoc.{Assoc}
use sechat_client.Base.Bytes.{Bytes, Text, text}
use sechat_client.Client.Commands.{has_identity}
use sechat_client.Client.Config.{resolve_server}
use sechat_client.Client.Facade.{Front, Handle, contacts}
use sechat_client.Client.History.{history}
use sechat_client.Client.Identity.{identity_exists}
use sechat_client.Client.Types.{Contact, ChatLine, AppEvent}
use sechat_client.Crypto.Types.{Keys}

pub data RailTab : Type 0 where
  contacts_tab chat_tab : RailTab

-- `Message`.
pub data GuiMessage : Type 0 where
  password_changed : Text → GuiMessage
  server_changed : Text → GuiMessage
  submit_password_pressed : GuiMessage
  -- the handle, and the receiver of events, unless its lock is poisoned or it was taken
  started : Result Text (Handle × Option (List AppEvent)) → GuiMessage
  gui_tick : GuiMessage
  select_peer_pressed : Bytes → GuiMessage
  draft_changed : Text → GuiMessage
  send_draft_pressed : GuiMessage
  add_peer_x25519_changed : Text → GuiMessage
  add_peer_verifying_changed : Text → GuiMessage
  add_peer_pressed : GuiMessage
  server_field_changed : Text → GuiMessage
  change_server_pressed : GuiMessage
  open_settings : GuiMessage
  toggle_theme : GuiMessage
  alias_changed : Text → GuiMessage
  set_alias_pressed : GuiMessage
  purge_selected : GuiMessage
  remove_selected : GuiMessage
  select_rail : RailTab → GuiMessage
  window_close : ℕ → GuiMessage
  do_exit : GuiMessage
  ignored : GuiMessage

pub data Screen : Type 0 where
  -- password, server, error
  unlock_screen : Text → Text → Option Text → Screen
  main_screen : Screen

-- What the toolkit is asked to do after an update.
pub data GuiTask : Type 0 where
  no_task : GuiTask
  open_window : ℕ → GuiTask
  close_window : ℕ → GuiTask
  -- `Client::start`, whose result comes back as `started`
  start_client : Keys → Text → GuiTask
  exit_later : GuiTask
  exit_now : GuiTask

pub record App : Type 0 where
  pub main_id : ℕ
  pub settings_id : Option ℕ
  pub dark : Bool
  pub screen : Screen
  pub has_identity : Bool
  pub client : Option Handle
  -- the events in the queue of the receiver
  pub rx : Option (List AppEvent)
  pub contacts : List Contact
  pub selected : Option Bytes
  pub history : List ChatLine
  pub draft : Text
  pub status : Text
  pub add_x25519 : Text
  pub add_verifying : Text
  pub server_field : Text
  pub my_keys : Option (Text × Text)
  pub unread : Assoc ℕ
  pub alias_input : Text
  pub rail_tab : RailTab

-- The window's state, and what it shares with the client behind it.
pub record Gui (D : Type 0) : Type 0 where
  pub app : App
  pub front : Front D

abbrev pub default_server : Text
default_server = text "localhost:3000"

module _ {D : Type 0} where
  unfoldable pub say : Text → Gui D → Gui D
  say t g = let a = g.app in record g { app = record a { status = t } }

  -- `boot`, in a window that was just opened; `env` is the variable SECHAT_SERVER.
  unfoldable pub boot : ℕ → Option Text → Front D → Gui D
  boot window env f = record {
    app = record {
      main_id = window;
      settings_id = none;
      dark = true;
      screen =
          unlock_screen [] (Option.get_or (resolve_server env f.world.disk) default_server) none;
      has_identity = identity_exists f.world.disk;
      client = none;
      rx = none;
      contacts = [];
      selected = none;
      history = [];
      draft = [];
      status = text "Not connected";
      add_x25519 = [];
      add_verifying = [];
      server_field = [];
      my_keys = none;
      unread = [];
      alias_input = [];
      rail_tab = contacts_tab;
    };
    front = f;
  }
