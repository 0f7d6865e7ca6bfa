-- ===== src/Tests/GuiRuns.antt =====
-- Runs of the window: it starts, a message arrives, and its sender is selected.
use mathlib.Core.Option
use sechat_client.Base.{
  ◌+◌, ◌≡◌, refl, false, Option, none, some, List, [], ◌∷◌, arith, replicate, ok,
}
use sechat_client.Base.Assoc.{lookup}
use sechat_client.Base.Bytes.{bytes_eq}
use sechat_client.Base.Int.{pos}
use sechat_client.Client.Facade.{Handle, start_handle}
use sechat_client.Client.Types.{AppEvent, message_arrived, app_disconnected}
use sechat_client.Crypto.Derive.{identity_hash}
use sechat_client.Gui.{GuiMessage, started, gui_tick, select_peer_pressed, App, Gui, boot}
use sechat_client.Gui.Counting.{arrivals, unread_of, drain_events-unread}
use sechat_client.Gui.Events.{is_selected, drain_events}
use sechat_client.Gui.Runs.{run_messages-Consistent}
use sechat_client.Gui.Unread.{shown, Consistent}
use sechat_client.Gui.Update.{update, Draw, run_messages}
use sechat_client.Tests.Toy.{fit, toy, Tree}
use sechat_client.Tests.World.{
  toy_services, bob_secret, bob_signing, twelve, keys_of, alice_id, bob_world,
}

abbrev bob_draw : Draw
bob_draw = record {
  window = 2;
  now = pos 600;
  fresh = record {
    secret = replicate 32 5;
    signing = replicate 32 7;
    salt = replicate 32 9;
    nonce = twelve;
  };
}

abbrev bob_handle : Handle
bob_handle = start_handle toy_services (keys_of bob_secret bob_signing)

abbrev from_alice : List AppEvent
from_alice = app_disconnected ∷ message_arrived alice_id false ∷ []

abbrev shown_messages : List (Draw × GuiMessage)
shown_messages =
    (bob_draw, started (ok (bob_handle, some from_alice)))
    ∷ (bob_draw, gui_tick)
    ∷ (bob_draw, select_peer_pressed alice_id)
    ∷ []

abbrev first_window : Gui Tree
first_window = boot 1 none (record { world = bob_world; commands = [] })

abbrev waiting_app : App
waiting_app = let a = first_window.app in record a { rx = some from_alice }

abbrev waiting : Gui Tree
waiting = record first_window { app = waiting_app }

drain_events-unread_example :
    (unread_of alice_id (drain_events toy_services (pos 600) waiting).app ≡ 0 + 1)
    × ((drain_events toy_services (pos 600) waiting).app.selected ≡ none)
unfolding is_selected boot unread_of lookup arrivals bytes_eq identity_hash toy fit
drain_events-unread_example =
    drain_events-unread toy_services (pos 600) alice_id from_alice waiting refl refl (omega arith)

abbrev after_selection : Option (Gui Tree)
after_selection = run_messages toy_services shown_messages first_window

run_messages-Consistent_example : Consistent (shown (Option.get_or after_selection first_window))
unfolding run_messages update
run_messages-Consistent_example =
    run_messages-Consistent toy_services 1 none (record { world = bob_world; commands = [] })
      shown_messages (Option.get_or after_selection first_window) refl
