-- ===== src/Gui/Invariant.antt =====
-- Every run of the window of crates/gui/src/main.rs.
use mathlib.Core.Path.{subst}
use mathlib.Core.Option
use sechat_client.Base.{
  ◌+◌, ◌%◌, ◌^◌, ◌≡◌, sym, ◌⊎◌, inl, inr, false, none, some, List, [], ◌∷◌, arith, Bool-cases,
  Option-cases,
}
use sechat_client.Base.Assoc.{lookup, remove, lookup-insert, lookup-remove}
use sechat_client.Base.Bytes.{Bytes, bytes_eq_iff}
use sechat_client.Base.Int.{ℤ}
use sechat_client.Client.Types.{AppEvent, app_peer_online, app_peer_offline, message_arrived}
use sechat_client.Gui.{Gui, say}
use sechat_client.Gui.Actions.{refresh_contacts, reload_history, select_peer}
use sechat_client.Gui.Events.{count_unread, is_selected, apply_event, apply_events}
use sechat_client.Gui.Unread.{
  Shown, shown, Consistent, shown-refresh_contacts, shown-reload_history,
}
use sechat_client.Gui.Update.{remove_chosen}
use sechat_client.Server.Services.{Services}

module _ {D : Type 0} (x : Services D) where
  abbrev pub Fine : Gui D → Type 0
  Fine g = Consistent (shown g)

  pub moved : (h : Gui D) (s : Shown) → shown h ≡ s → Consistent s → Fine h
  moved h s e c = subst Consistent (sym e) c

  shown-select_peer :
      (id : Bytes) (g : Gui D)
      → shown (select_peer x id g) ≡ record {
        selected = some id;
        unread = remove id g.app.unread;
        screen = g.app.screen;
        client = g.app.client;
      }
  unfolding select_peer shown reload_history say
  shown-select_peer id g = ground arith

  pub select_peer-Fine : (id : Bytes) (g : Gui D) → Fine g → Fine (select_peer x id g)
  unfolding shown
  select_peer-Fine id g c = moved (select_peer x id g) _ (shown-select_peer id g) (record {
    selected_is_read = λ j e. ground (arith, e, lookup-remove id j g.app.unread, bytes_eq_iff id j);
    main_runs = c.main_runs;
  })

  count_unread-Fine :
      (who : Bytes) (g : Gui D)
      → is_selected x who g.app ≡ false
      → Fine g
      → Fine (record g { app = count_unread x who g.app })
  unfolding count_unread is_selected shown
  count_unread-Fine who g unchosen c = record {
    selected_is_read = λ j e. ground (
      arith,
      unchosen,
      e,
      c.selected_is_read j e,
      lookup-insert who j ((Option.get_or (lookup who g.app.unread) 0 + 1) % 2 ^ 64) g.app.unread,
      bytes_eq_iff who j,
      bytes_eq_iff j who,
    );
    main_runs = c.main_runs;
  }

  shown-remove_chosen :
      (now : ℤ) (g : Gui D)
      → (shown (remove_chosen x now g) ≡ shown g)
        ⊎ ((id : Bytes) × (shown (remove_chosen x now g) ≡ record {
          selected = none;
          unread = remove id g.app.unread;
          screen = g.app.screen;
          client = g.app.client;
        }))
  unfolding remove_chosen shown refresh_contacts
  shown-remove_chosen now g = elim (Option-cases g.app.selected) [
    | inl e ↦ inl (ground (arith, e))
    | inr (id, e) ↦ elim (Option-cases g.app.client) [
      | inl e' ↦ inl (ground (arith, e, e'))
      | inr (h, e') ↦ inr (id, ground (arith, e, e'))
    ]
  ]

  pub remove_chosen-Fine : (now : ℤ) (g : Gui D) → Fine g → Fine (remove_chosen x now g)
  unfolding shown
  remove_chosen-Fine now g c = elim (shown-remove_chosen now g) [
    | inl e ↦ moved (remove_chosen x now g) _ e c
    | inr (id, e) ↦
        moved (remove_chosen x now g) _ e
          (record { selected_is_read = λ j h. absurd (ground arith); main_runs = c.main_runs })
  ]

  apply_event-Fine : (now : ℤ) (e : AppEvent) (g : Gui D) → Fine g → Fine (apply_event x now e g)
  unfolding apply_event say shown
  apply_event-Fine now (message_arrived who from_me) g c =
      elim (Bool-cases (is_selected x who g.app)) [
        | inl e ↦
            moved (apply_event x now (message_arrived who from_me) g) _
              (ground (arith, e, shown-reload_history x who g)) c
        | inr e ↦ elim (Bool-cases from_me) [
          | inl m ↦
              moved (apply_event x now (message_arrived who from_me) g) _ (ground (arith, e, m)) c
          | inr m ↦
              moved (apply_event x now (message_arrived who from_me) g) _ (ground (arith, e, m))
                (count_unread-Fine who g e c)
        ]
      ]
  apply_event-Fine now (app_peer_online who) g c =
      moved (refresh_contacts x now g) _ (shown-refresh_contacts x now g) c
  apply_event-Fine now (app_peer_offline who) g c =
      moved (refresh_contacts x now g) _ (shown-refresh_contacts x now g) c
  apply_event-Fine now e g c = c

  pub apply_events-Fine :
      (now : ℤ) (es : List AppEvent) (g : Gui D) → Fine g → Fine (apply_events x now es g)
  unfolding apply_events
  apply_events-Fine now [] g c = c
  apply_events-Fine now (e ∷ es) g c =
      apply_events-Fine now es (apply_event x now e g) (apply_event-Fine now e g c)
