-- ===== src/Gui/Update.antt =====
-- The messages of crates/gui/src/main.rs: `update`.
use sechat_client.Base.{ℕ, not, Option, none, some, List, [], ◌∷◌, ◌++◌, ◌==◌, if◌then◌else◌}
use sechat_client.Base.Assoc.{remove}
use sechat_client.Base.Bytes.{Text, text}
use sechat_client.Base.Int.{ℤ}
use sechat_client.Client.Facade.{Front, submit, fingerprint}
use sechat_client.Client.Identity.{NewIdentity}
use sechat_client.Client.Types.{purge_chat, remove_peer, shutdown}
use sechat_client.Gui.{
  chat_tab, GuiMessage, password_changed, server_changed, submit_password_pressed, started,
  gui_tick, select_peer_pressed, draft_changed, send_draft_pressed, add_peer_x25519_changed,
  add_peer_verifying_changed, add_peer_pressed, server_field_changed, change_server_pressed,
  open_settings, toggle_theme, alias_changed, set_alias_pressed, purge_selected, remove_selected,
  select_rail, window_close, do_exit, ignored, Screen, unlock_screen, main_screen, GuiTask, no_task,
  open_window, close_window, exit_later, exit_now, App, Gui,
}
use sechat_client.Gui.Actions.{
  refresh_contacts, select_peer, set_selected_alias, send_draft, add_typed_peer, change_server,
}
use sechat_client.Gui.Events.{drain_events}
use sechat_client.Gui.Start.{submit_password, on_started}
use sechat_client.Server.Services.{Services}

-- What an update draws: the number of a new window, the time, and the secrets of a new identity.
pub record Draw : Type 0 where
  pub window : ℕ
  pub now : ℤ
  pub fresh : NewIdentity

module _ {D : Type 0} (x : Services D) where
  unfoldable pub purge_chosen : Gui D → Gui D
  unfolding submit
  purge_chosen g = elim g.app.client [
    | none ↦ g
    | some h ↦ elim g.app.selected [
      | none ↦ g
      | some id ↦
          let a = g.app in
          record {
            app = record a { history = []; status = text "Conversation purged" };
            front = submit (purge_chat id) g.front;
          }
    ]
  ]

  unfoldable pub remove_chosen : ℤ → Gui D → Gui D
  unfolding submit fingerprint
  remove_chosen now g = elim g.app.client [
    | none ↦ g
    | some h ↦ elim g.app.selected [
      | none ↦ g
      | some id ↦
          let a = g.app in
          refresh_contacts x now (record {
            app = record a {
              selected = none;
              history = [];
              unread = remove id a.unread;
              status = text "Removed " ++ fingerprint x id;
            };
            front = submit (remove_peer id) g.front;
          })
    ]
  ]

  -- The main window is closed: the client shuts down, and the program ends a little later.
  unfoldable pub close_main : Gui D → GuiTask × Gui D
  unfolding submit
  close_main g =
      let f : Front D = elim g.app.client [ none ↦ g.front | some h ↦ submit shutdown g.front ] in
      (exit_later, record g { front = f })

  unfoldable pub close_request : ℕ → Gui D → GuiTask × Gui D
  unfolding close_main
  close_request id g = elim g.app.settings_id [
    | none ↦ close_main g
    | some s ↦
        if s == id
        then (let a = g.app in
            (close_window id, record g { app = record a { settings_id = none } }))
        else close_main g
  ]

  unfoldable pub type_password : Text → Screen → Screen
  type_password t (unlock_screen password server error) = unlock_screen t server error
  type_password t main_screen = main_screen

  unfoldable pub type_server : Text → Screen → Screen
  type_server t (unlock_screen password server error) = unlock_screen password t error
  type_server t main_screen = main_screen

  abbrev edit : (App → App) → Gui D → Option (GuiTask × Gui D)
  edit f g = some (no_task, record g { app = f g.app })

  abbrev quiet : Gui D → Option (GuiTask × Gui D)
  quiet g = some (no_task, g)

  -- `update`; `none` is a panic.
  unfoldable pub update : Draw → GuiMessage → Gui D → Option (GuiTask × Gui D)
  unfolding drain_events select_peer send_draft change_server purge_chosen remove_chosen
      close_request type_password type_server
  update z (password_changed t) g = edit (λ a. record a { screen = type_password t a.screen }) g
  update z (server_changed t) g = edit (λ a. record a { screen = type_server t a.screen }) g
  update z submit_password_pressed g = submit_password x z.fresh g
  update z (started r) g = quiet (on_started x z.now r g)
  update z gui_tick g = quiet (drain_events x z.now g)
  update z (select_peer_pressed id) g =
      edit (λ a. record a { rail_tab = chat_tab }) (select_peer x id g)
  update z (draft_changed t) g = edit (λ a. record a { draft = t }) g
  update z send_draft_pressed g = quiet (send_draft x g)
  update z (add_peer_x25519_changed t) g = edit (λ a. record a { add_x25519 = t }) g
  update z (add_peer_verifying_changed t) g = edit (λ a. record a { add_verifying = t }) g
  update z add_peer_pressed g = quiet (add_typed_peer x z.now g)
  update z (server_field_changed t) g = edit (λ a. record a { server_field = t }) g
  update z change_server_pressed g = quiet (change_server x g)
  update z open_settings g = elim g.app.settings_id [
    | some id ↦ quiet g
    | none ↦
        let a = g.app in
        some (open_window z.window, record g { app = record a { settings_id = some z.window } })
  ]
  update z toggle_theme g = edit (λ a. record a { dark = not a.dark }) g
  update z (alias_changed t) g = edit (λ a. record a { alias_input = t }) g
  update z set_alias_pressed g = quiet (set_selected_alias x z.now g)
  update z purge_selected g = quiet (purge_chosen g)
  update z remove_selected g = quiet (remove_chosen z.now g)
  update z (select_rail tab) g = edit (λ a. record a { rail_tab = tab }) g
  update z (window_close id) g = some (close_request id g)
  update z do_exit g = some (exit_now, g)
  update z ignored g = quiet g

  -- The messages that the toolkit delivers, one after the other.
  unfoldable pub run_messages : List (Draw × GuiMessage) → Gui D → Option (Gui D)
  run_messages [] g = some g
  run_messages ((z, m) ∷ ms) g = elim (update z m g) [
    | none ↦ none
    | some (_, g') ↦ run_messages ms g'
  ]
