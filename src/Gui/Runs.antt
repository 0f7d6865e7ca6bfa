-- ===== src/Gui/Runs.antt =====
-- Every run of the window of crates/gui/src/main.rs, from its start.
use mathlib.Core.Path.{subst}
use sechat_client.Base.{
  ℕ, ◌≡◌, refl, inl, inr, Option, some, List, [], ◌∷◌, arith, Option-cases, Result, ok, err,
}
use sechat_client.Base.Assoc.{lookup}
use sechat_client.Base.Bytes.{Text}
use sechat_client.Base.Int.{ℤ}
use sechat_client.Client.Facade.{Front, Handle, put_disk}
use sechat_client.Client.Identity.{NewIdentity}
use sechat_client.Client.Types.{AppEvent}
use sechat_client.Gui.{
  GuiMessage, password_changed, server_changed, submit_password_pressed, started, gui_tick,
  select_peer_pressed, draft_changed, send_draft_pressed, add_peer_x25519_changed,
  add_peer_verifying_changed, add_peer_pressed, server_field_changed, change_server_pressed,
  open_settings, toggle_theme, alias_changed, set_alias_pressed, purge_selected, remove_selected,
  select_rail, window_close, do_exit, ignored, Screen, unlock_screen, main_screen, GuiTask, Gui,
  say, boot,
}
use sechat_client.Gui.Actions.{set_selected_alias, send_draft, add_typed_peer, change_server}
use sechat_client.Gui.Events.{drain_events}
use sechat_client.Gui.Invariant.{
  Fine, moved, select_peer-Fine, remove_chosen-Fine, apply_events-Fine,
}
use sechat_client.Gui.Start.{show_screen, start_with, refuse, submit_password, on_started}
use sechat_client.Gui.Unread.{
  shown, is_main, Consistent, shown-set_selected_alias, shown-send_draft, shown-add_typed_peer,
  shown-change_server, shown-purge_chosen, shown-close_request,
}
use sechat_client.Gui.Update.{
  update, Draw, purge_chosen, close_request, type_password, type_server, run_messages,
}
use sechat_client.Server.Services.{Services}

module _ {D : Type 0} (x : Services D) where
  locked_screen :
      (g h : Gui D)
      → h.app.selected ≡ g.app.selected
      → h.app.unread ≡ g.app.unread
      → h.app.client ≡ g.app.client
      → is_main h.app.screen ≡ is_main g.app.screen
      → Fine x g
      → Fine x h
  unfolding shown
  locked_screen g h s u c m f = record {
    selected_is_read = λ id e. ground (arith, f.selected_is_read id, e, s, u);
    main_runs = ground (arith, f.main_runs, m, c);
  }

  submit_password-Fine :
      (new : NewIdentity) (g : Gui D) (t : GuiTask) (g' : Gui D)
      → submit_password x new g ≡ some (t, g')
      → Fine x g
      → Fine x g'
  unfolding submit_password refuse show_screen put_disk start_with
  submit_password-Fine new g t g' h f =
      locked_screen g g' (ground (arith, h)) (ground (arith, h)) (ground (arith, h))
        (ground (arith, h)) f

  on_started-Fine :
      (now : ℤ) (r : Result Text (Handle × Option (List AppEvent))) (g : Gui D)
      → Fine x g
      → Fine x (on_started x now r g)
  unfolding on_started shown say show_screen
  on_started-Fine now (ok (h, queue)) g f = record {
    selected_is_read = f.selected_is_read;
    main_runs = refl;
  }
  on_started-Fine now (err e) g f =
      locked_screen g (on_started x now (err e) g) (ground arith) (ground arith) (ground arith)
        (ground arith) f

  result-Fine :
      (r : GuiTask × Gui D) (t : GuiTask) (g' : Gui D)
      → some r ≡ some (t, g')
      → Fine x r.1
      → Fine x g'
  result-Fine r t g' h f = let e : r.1 ≡ g' = ground (arith, h) in subst (Fine x) e f

  drain_events-Fine : (now : ℤ) (g : Gui D) → Fine x g → Fine x (drain_events x now g)
  unfolding drain_events shown
  drain_events-Fine now g f = elim (Option-cases g.app.rx) [
    | inl e ↦ moved x (drain_events x now g) _ (ground (arith, e)) f
    | inr (es, e) ↦
        let a = g.app in
        let g₁ : Gui D = record g { app = record a { rx = some [] } } in
        moved x (drain_events x now g) _ (ground (arith, e)) (apply_events-Fine x now es g₁ f)
  ]

  type_password_main : (t : Text) (s : Screen) → is_main (type_password x t s) ≡ is_main s
  unfolding type_password
  type_password_main t (unlock_screen password server error) = refl
  type_password_main t main_screen = refl

  type_server_main : (t : Text) (s : Screen) → is_main (type_server x t s) ≡ is_main s
  unfolding type_server
  type_server_main t (unlock_screen password server error) = refl
  type_server_main t main_screen = refl

  screen-Fine :
      (s : Screen) (g : Gui D)
      → is_main s ≡ is_main g.app.screen
      → Fine x g
      → Fine x (show_screen x s g)
  unfolding show_screen
  screen-Fine s g e f = locked_screen g (show_screen x s g) refl refl refl e f

  update-Fine :
      (z : Draw) (m : GuiMessage) (g : Gui D) (t : GuiTask) (g' : Gui D)
      → update x z m g ≡ some (t, g')
      → Fine x g
      → Fine x g'
  unfolding update shown show_screen
  update-Fine z (password_changed s) g t g' h f =
      result-Fine _ t g' h
        (screen-Fine (type_password x s g.app.screen) g (type_password_main s g.app.screen) f)
  update-Fine z (server_changed s) g t g' h f =
      result-Fine _ t g' h
        (screen-Fine (type_server x s g.app.screen) g (type_server_main s g.app.screen) f)
  update-Fine z submit_password_pressed g t g' h f = submit_password-Fine z.fresh g t g' h f
  update-Fine z (started r) g t g' h f = result-Fine _ t g' h (on_started-Fine z.now r g f)
  update-Fine z gui_tick g t g' h f = result-Fine _ t g' h (drain_events-Fine z.now g f)
  update-Fine z (select_peer_pressed id) g t g' h f =
      result-Fine _ t g' h (select_peer-Fine x id g f)
  update-Fine z send_draft_pressed g t g' h f =
      result-Fine _ t g' h (moved x (send_draft x g) _ (shown-send_draft x g) f)
  update-Fine z add_peer_pressed g t g' h f =
      result-Fine _ t g' h (moved x (add_typed_peer x z.now g) _ (shown-add_typed_peer x z.now g) f)
  update-Fine z change_server_pressed g t g' h f =
      result-Fine _ t g' h (moved x (change_server x g) _ (shown-change_server x g) f)
  update-Fine z set_alias_pressed g t g' h f =
      result-Fine _ t g' h
        (moved x (set_selected_alias x z.now g) _ (shown-set_selected_alias x z.now g) f)
  update-Fine z purge_selected g t g' h f =
      result-Fine _ t g' h (moved x (purge_chosen x g) _ (shown-purge_chosen x g) f)
  update-Fine z remove_selected g t g' h f = result-Fine _ t g' h (remove_chosen-Fine x z.now g f)
  update-Fine z (window_close id) g t g' h f =
      result-Fine _ t g' h (moved x (close_request x id g).1 _ (shown-close_request x id g) f)
  update-Fine z open_settings g t g' h f = elim (Option-cases g.app.settings_id) [
    | inl e ↦ moved x g' _ (ground (arith, e, h)) f
    | inr (id, e) ↦ moved x g' _ (ground (arith, e, h)) f
  ]
  update-Fine z (draft_changed s) g t g' h f = result-Fine _ t g' h f
  update-Fine z (add_peer_x25519_changed s) g t g' h f = result-Fine _ t g' h f
  update-Fine z (add_peer_verifying_changed s) g t g' h f = result-Fine _ t g' h f
  update-Fine z (server_field_changed s) g t g' h f = result-Fine _ t g' h f
  update-Fine z toggle_theme g t g' h f = result-Fine _ t g' h f
  update-Fine z (alias_changed s) g t g' h f = result-Fine _ t g' h f
  update-Fine z (select_rail tab) g t g' h f = result-Fine _ t g' h f
  update-Fine z do_exit g t g' h f = result-Fine _ t g' h f
  update-Fine z ignored g t g' h f = result-Fine _ t g' h f

  run_messages-keeps :
      (ms : List (Draw × GuiMessage)) (g g' : Gui D)
      → run_messages x ms g ≡ some g'
      → Fine x g
      → Fine x g'
  unfolding run_messages
  run_messages-keeps [] g g' h f = let e : g ≡ g' = ground (arith, h) in subst (Fine x) e f
  run_messages-keeps ((z, m) ∷ ms) g g' h f = elim (Option-cases (update x z m g)) [
    | inl e ↦ absurd (ground (arith, h, e))
    | inr ((t, g₁), e) ↦
        run_messages-keeps ms g₁ g' (ground (arith, h, e)) (update-Fine z m g t g₁ e f)
  ]

  boot-Fine : (window : ℕ) (env : Option Text) (f : Front D) → Fine x (boot window env f)
  unfolding boot shown lookup
  boot-Fine window env f = record { selected_is_read = λ id e. refl; main_runs = refl }

  -- From its start on, whatever messages arrive, unless the program panics: the peer that is shown
  -- has no count of unread messages, and the main screen is shown exactly when the client runs.
  pub run_messages-Consistent :
      (window : ℕ) (env : Option Text) (f : Front D) (ms : List (Draw × GuiMessage)) (g : Gui D)
      → run_messages x ms (boot window env f) ≡ some g
      → Consistent (shown g)
  run_messages-Consistent window env f ms g h =
      run_messages-keeps ms (boot window env f) g h (boot-Fine window env f)
