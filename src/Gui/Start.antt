-- ===== src/Gui/Start.antt =====
-- How crates/gui/src/main.rs starts the client: `submit_password` and `on_started`.
use sechat_client.Base.{Option, none, some, List, ◌++◌, if◌then◌else◌, Result, ok, err}
use sechat_client.Base.Bytes.{Text, text}
use sechat_client.Base.Int.{ℤ}
use sechat_client.Base.Strings.{trim, is_empty}
use sechat_client.Client.Config.{save_server}
use sechat_client.Client.Facade.{Handle, put_disk, my_keys_hex, contacts}
use sechat_client.Client.Identity.{NewIdentity, unlock, create_identity}
use sechat_client.Client.Types.{AppEvent}
use sechat_client.Crypto.Types.{Keys}
use sechat_client.Gui.{
  Screen, unlock_screen, main_screen, GuiTask, no_task, start_client, Gui, default_server, say,
}
use sechat_client.Server.Services.{Services}

module _ {D : Type 0} (x : Services D) where
  unfoldable pub show_screen : Screen → Gui D → Gui D
  show_screen s g = let a = g.app in record g { app = record a { screen = s } }

  -- The server's address is saved, and the client is to be started.
  unfoldable pub start_with : Keys → Text → Text → Gui D → GuiTask × Gui D
  unfolding show_screen put_disk
  start_with keys password server g =
      let (r, d) = save_server (trimmed_or_default server) g.front.world.disk in
      let saved = record g { front = put_disk d g.front } in
      let a = g.app in
      elim r [
        | err e ↦ (
          no_task,
          show_screen
              (unlock_screen password server
                (some (text "Failed to save server address: " ++ x.io_text e)))
              saved,
        )
        | ok _ ↦ (
          start_client keys (trimmed_or_default server),
          record saved {
            app = record a {
              screen = unlock_screen password server none;
              server_field = trimmed_or_default server;
            };
          },
        )
      ]
    where
      trimmed_or_default : Text → Text
      trimmed_or_default t = if is_empty (trim t) then default_server else trim t

  unfoldable pub refuse : Text → Text → Text → Gui D → GuiTask × Gui D
  unfolding show_screen
  refuse password server t g = (no_task, show_screen (unlock_screen password server (some t)) g)

  -- `none` is a panic.
  unfoldable pub submit_password : NewIdentity → Gui D → Option (GuiTask × Gui D)
  unfolding start_with refuse put_disk
  submit_password new g = elim g.app.screen [
    | main_screen ↦ some (no_task, g)
    | unlock_screen password server error ↦
        if is_empty password
        then some (refuse password server (text "Password must not be empty") g)
        else if g.app.has_identity
        then elim (unlock x password g.front.world.disk) [
          | none ↦ none
          | some (err e) ↦ some (refuse password server e g)
          | some (ok keys) ↦ some (start_with keys password server g)
        ]
        else (let (r, d) = create_identity x new password g.front.world.disk in
            let made = record g { front = put_disk d g.front } in
            elim r [
              | err e ↦ some (refuse password server e made)
              | ok keys ↦ some (start_with keys password server made)
            ])
  ]

  unfoldable pub on_started : ℤ → Result Text (Handle × Option (List AppEvent)) → Gui D → Gui D
  unfolding say show_screen my_keys_hex
  on_started now (ok (h, queue)) g =
      let a = g.app in
      let f = g.front in
      let (cs, w) = contacts x now f.world in
      record {
        app = record a {
          rx = queue;
          contacts = cs;
          my_keys = some (my_keys_hex x h);
          status = text "Connecting to server…";
          client = some h;
          screen = main_screen;
        };
        front = record f { world = w };
      }
  on_started now (err e) g =
      let t = text "Failed to start client: " ++ e in
      elim g.app.screen [
        | unlock_screen password server error ↦
            show_screen (unlock_screen password server (some t)) g
        | main_screen ↦ say t g
      ]
