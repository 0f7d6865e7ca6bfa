-- ===== src/Gui/Unread.antt =====
-- What the window of crates/gui/src/main.rs keeps true: which part of its state each handler leaves
-- alone, and what the others do to it.
use sechat_client.Base.{ℕ, ◌≡◌, Bool, true, false, Option, none, some, arith}
use sechat_client.Base.Assoc.{Assoc, lookup}
use sechat_client.Base.Bytes.{Bytes}
use sechat_client.Base.Int.{ℤ}
use sechat_client.Client.Facade.{Handle}
use sechat_client.Gui.{Screen, unlock_screen, main_screen, Gui, say}
use sechat_client.Gui.Actions.{
  refresh_contacts, reload_history, set_selected_alias, send_draft, add_typed_peer, change_server,
}
use sechat_client.Gui.Update.{purge_chosen, close_main, close_request}
use sechat_client.Server.Services.{Services}

-- The part of the state that the invariant is about.
pub record Shown : Type 0 where
  pub selected : Option Bytes
  pub unread : Assoc ℕ
  pub screen : Screen
  pub client : Option Handle

unfoldable pub shown : {D : Type 0} → Gui D → Shown
shown g = record {
  selected = g.app.selected;
  unread = g.app.unread;
  screen = g.app.screen;
  client = g.app.client;
}

abbrev pub is_main : Screen → Bool
is_main main_screen = true
is_main (unlock_screen password server error) = false

abbrev pub is_running : Option Handle → Bool
is_running none = false
is_running (some h) = true

-- The selected peer has no count of unread messages, and the main screen is shown exactly when the
-- client runs.
pub record Consistent (s : Shown) : Type 0 where
  pub selected_is_read : (id : Bytes) → s.selected ≡ some id → lookup id s.unread ≡ none
  pub main_runs : is_main s.screen ≡ is_running s.client

module _ {D : Type 0} (x : Services D) where
  pub shown-refresh_contacts : (now : ℤ) (g : Gui D) → shown (refresh_contacts x now g) ≡ shown g
  unfolding shown refresh_contacts
  shown-refresh_contacts now g = ground arith

  pub shown-reload_history : (id : Bytes) (g : Gui D) → shown (reload_history x id g) ≡ shown g
  unfolding shown reload_history say
  shown-reload_history id g = ground arith

  pub shown-set_selected_alias :
      (now : ℤ) (g : Gui D) → shown (set_selected_alias x now g) ≡ shown g
  unfolding set_selected_alias say shown refresh_contacts
  shown-set_selected_alias now g = ground arith

  pub shown-send_draft : (g : Gui D) → shown (send_draft x g) ≡ shown g
  unfolding send_draft shown
  shown-send_draft g = ground arith

  pub shown-add_typed_peer : (now : ℤ) (g : Gui D) → shown (add_typed_peer x now g) ≡ shown g
  unfolding add_typed_peer say shown refresh_contacts
  shown-add_typed_peer now g = ground arith

  pub shown-change_server : (g : Gui D) → shown (change_server x g) ≡ shown g
  unfolding change_server say shown
  shown-change_server g = ground arith

  pub shown-purge_chosen : (g : Gui D) → shown (purge_chosen x g) ≡ shown g
  unfolding purge_chosen shown
  shown-purge_chosen g = ground arith

  pub shown-close_request : (id : ℕ) (g : Gui D) → shown (close_request x id g).1 ≡ shown g
  unfolding close_request close_main shown
  shown-close_request id g = ground arith
