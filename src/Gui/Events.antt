-- ===== src/Gui/Events.antt =====
-- The events of the client in crates/gui/src/main.rs: `apply_event` and `drain_events`.
use mathlib.Core.Option
use sechat_client.Base.{
  ◌+◌, ◌%◌, ◌^◌, Bool, false, not, none, some, List, [], ◌∷◌, ◌++◌, if◌then◌else◌,
}
use sechat_client.Base.Assoc.{lookup, insert}
use sechat_client.Base.Bytes.{Bytes, text, bytes_eq}
use sechat_client.Base.Int.{ℤ}
use sechat_client.Base.Strings.{decimal}
use sechat_client.Client.Facade.{fingerprint}
use sechat_client.Client.Types.{
  AppEvent, connected, app_peer_online, app_peer_offline, message_arrived, app_hole_punch_denied,
  session_up, session_down, connect_retrying, connect_gave_up, app_disconnected, app_error,
}
use sechat_client.Crypto.Disk.{attempt}
use sechat_client.Gui.{App, Gui, say}
use sechat_client.Gui.Actions.{refresh_contacts, reload_history}
use sechat_client.Server.Services.{Services}

module _ {D : Type 0} (x : Services D) where
  unfoldable pub count_unread : Bytes → App → App
  count_unread who a = record a {
    unread = insert who ((Option.get_or (lookup who a.unread) 0 + 1) % 2 ^ 64) a.unread;
  }

  unfoldable pub is_selected : Bytes → App → Bool
  is_selected who a = elim a.selected [ none ↦ false | some id ↦ bytes_eq id who ]

  unfoldable pub apply_event : ℤ → AppEvent → Gui D → Gui D
  unfolding say fingerprint refresh_contacts reload_history count_unread is_selected
  apply_event now (connected observed_address) g =
      say (text "Connected · seen as " ++ observed_address) g
  apply_event now (app_peer_online who) g = refresh_contacts x now g
  apply_event now (app_peer_offline who) g = refresh_contacts x now g
  apply_event now (message_arrived who from_me) g =
      if is_selected who g.app
      then reload_history x who g
      else if not from_me
      then record g { app = count_unread who g.app }
      else g
  apply_event now (app_hole_punch_denied who reason) g =
      say (text "Hole punch denied by " ++ (fingerprint x who ++ (text ": " ++ reason))) g
  apply_event now (session_up who direct) g =
      say
        (text "Connected to "
          ++ (fingerprint x who
              ++ (text " (" ++ ((if direct then text "direct P2P" else text "relay") ++ text ")"))))
        g
  apply_event now (session_down who) g = g
  apply_event now (connect_retrying who attempt delay_secs) g =
      say
        (text "Connecting to "
          ++ (fingerprint x who
              ++ (text "… (attempt "
                  ++ (decimal attempt
                      ++ (text ", next in " ++ (decimal delay_secs ++ text "s)"))))))
        g
  apply_event now (connect_gave_up who) g =
      say
        (text "Could not reach " ++ (fingerprint x who ++ text "; will retry when it comes online"))
        g
  apply_event now app_disconnected g = say (text "Disconnected from server") g
  apply_event now (app_error e) g = say (text "Error: " ++ e) g

  unfoldable pub apply_events : ℤ → List AppEvent → Gui D → Gui D
  apply_events now [] g = g
  apply_events now (e ∷ es) g = apply_events now es (apply_event now e g)

  unfoldable pub drain_events : ℤ → Gui D → Gui D
  unfolding apply_events
  drain_events now g = elim g.app.rx [
    | none ↦ g
    | some es ↦ let a = g.app in apply_events now es (record g { app = record a { rx = some [] } })
  ]
