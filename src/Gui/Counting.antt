-- ===== src/Gui/Counting.antt =====
-- The unread counts of crates/gui/src/main.rs.
use mathlib.Core.Option
use sechat_client.Base.{
  ℕ, ◌+◌, ◌%◌, ◌^◌, ◌≤◌, ◌<◌, ◌≡◌, refl, ap, ◌∙◌, inl, inr, Bool, false, not, ◌&&◌, some, List, [],
  ◌∷◌, arith, if◌then◌else◌, Bool-cases, length,
}
use sechat_client.Base.Assoc.{lookup, lookup-insert}
use sechat_client.Base.Bytes.{Bytes, bytes_eq, bytes_eq_iff}
use sechat_client.Base.Int.{ℤ}
use sechat_client.Client.Types.{AppEvent, app_peer_online, app_peer_offline, message_arrived}
use sechat_client.Gui.{App, Gui, say}
use sechat_client.Gui.Actions.{refresh_contacts, reload_history}
use sechat_client.Gui.Events.{count_unread, is_selected, apply_event, apply_events, drain_events}
use sechat_client.Gui.Unread.{shown, shown-refresh_contacts, shown-reload_history}
use sechat_client.Server.Services.{Services}

unfoldable pub unread_of : Bytes → App → ℕ
unread_of who a = Option.get_or (lookup who a.unread) 0

-- The messages from a peer among the events.
unfoldable pub arrivals : Bytes → List AppEvent → ℕ
arrivals who [] = 0
arrivals who (message_arrived p from_me ∷ es) =
    if bytes_eq p who && not from_me then 1 + arrivals who es else arrivals who es
arrivals who (e ∷ es) = arrivals who es

arrivals_cons :
    (who : Bytes) (e : AppEvent) (es : List AppEvent)
    → arrivals who (e ∷ es) ≡ arrivals who (e ∷ []) + arrivals who es
unfolding arrivals
arrivals_cons who (message_arrived p from_me) es = ground arith
arrivals_cons who e es = omega arith

arrivals_one : (who : Bytes) (e : AppEvent) → arrivals who (e ∷ []) ≤ 1
unfolding arrivals
arrivals_one who (message_arrived p from_me) = ground arith
arrivals_one who e = omega arith

module _ {D : Type 0} (x : Services D) where
  -- What counts for `who`: the count, and who is selected.
  record Counted (who : Bytes) (n : ℕ) (g h : Gui D) : Type 0 where
    pub counted : unread_of who h.app ≡ unread_of who g.app + n
    pub same_choice : h.app.selected ≡ g.app.selected

  untouched : (who : Bytes) (g h : Gui D) → shown h ≡ shown g → Counted who 0 g h
  unfolding unread_of shown
  untouched who g h e =
      let same : unread_of who h.app ≡ unread_of who g.app =
        ap (λ s. Option.get_or (lookup who s.unread) 0) e in
      record { counted = omega (arith, same); same_choice = ap (λ s. s.selected) e }

  counts_as :
      (who : Bytes) (m n : ℕ) (g h k : Gui D)
      → m ≡ n
      → k ≡ h
      → Counted who m g h
      → Counted who n g k
  counts_as who m n g h k e f c = record {
    counted = ap (λ g. unread_of who g.app) f ∙ omega (arith, c.counted, e);
    same_choice = ap (λ g. g.app.selected) f ∙ c.same_choice;
  }

  count_unread-Counted :
      (who p : Bytes) (g : Gui D)
      → unread_of who g.app + 1 < 2 ^ 64
      → Counted who (if bytes_eq p who then 1 else 0) g (record g { app = count_unread x p g.app })
  unfolding unread_of count_unread
  count_unread-Counted who p g small = elim (Bool-cases (bytes_eq p who)) [
    | inl e ↦ record {
      counted = ground (
        arith,
        e,
        (bytes_eq_iff p who).0 e,
        lookup-insert p who ((Option.get_or (lookup p g.app.unread) 0 + 1) % 2 ^ 64) g.app.unread,
      );
      same_choice = refl;
    }
    | inr e ↦ record {
      counted = ground (
        arith,
        e,
        lookup-insert p who ((Option.get_or (lookup p g.app.unread) 0 + 1) % 2 ^ 64) g.app.unread,
      );
      same_choice = refl;
    }
  ]

  message-Counted :
      (now : ℤ) (who p : Bytes) (from_me : Bool) (g : Gui D)
      → is_selected x who g.app ≡ false
      → unread_of who g.app + 1 < 2 ^ 64
      → Counted who
          (arrivals who (message_arrived p from_me ∷ []))
          g
          (apply_event x now (message_arrived p from_me) g)
  unfolding arrivals apply_event is_selected
  message-Counted now who p from_me g unchosen small = elim (Bool-cases (is_selected x p g.app)) [
    | inl e ↦
        counts_as who 0 (arrivals who (message_arrived p from_me ∷ [])) g (reload_history x p g)
          (apply_event x now (message_arrived p from_me) g)
          (ground (arith, e, unchosen, bytes_eq_iff p who)) (ground (arith, e))
          (untouched who g (reload_history x p g) (shown-reload_history x p g))
    | inr e ↦ elim (Bool-cases from_me) [
      | inl m ↦
          counts_as who 0 (arrivals who (message_arrived p from_me ∷ [])) g g
            (apply_event x now (message_arrived p from_me) g) (ground (arith, m))
            (ground (arith, e, m)) (untouched who g g refl)
      | inr m ↦
          counts_as who (if bytes_eq p who then 1 else 0)
            (arrivals who (message_arrived p from_me ∷ [])) g
            (record g { app = count_unread x p g.app })
            (apply_event x now (message_arrived p from_me) g) (ground (arith, m))
            (ground (arith, e, m)) (count_unread-Counted who p g small)
    ]
  ]

  apply_event-Counted :
      (now : ℤ) (who : Bytes) (e : AppEvent) (g : Gui D)
      → is_selected x who g.app ≡ false
      → unread_of who g.app + 1 < 2 ^ 64
      → Counted who (arrivals who (e ∷ [])) g (apply_event x now e g)
  unfolding arrivals apply_event say shown
  apply_event-Counted now who (message_arrived p from_me) g unchosen small =
      message-Counted now who p from_me g unchosen small
  apply_event-Counted now who (app_peer_online p) g unchosen small =
      untouched who g (refresh_contacts x now g) (shown-refresh_contacts x now g)
  apply_event-Counted now who (app_peer_offline p) g unchosen small =
      untouched who g (refresh_contacts x now g) (shown-refresh_contacts x now g)
  apply_event-Counted now who e g unchosen small = untouched who g (apply_event x now e g) refl

  apply_events-Counted :
      (now : ℤ) (who : Bytes) (es : List AppEvent) (g : Gui D)
      → is_selected x who g.app ≡ false
      → unread_of who g.app + length es < 2 ^ 64
      → Counted who (arrivals who es) g (apply_events x now es g)
  unfolding apply_events arrivals is_selected
  apply_events-Counted now who [] g unchosen small = untouched who g g refl
  apply_events-Counted now who (e ∷ es) g unchosen small =
      let g₁ = apply_event x now e g in
      let first = apply_event-Counted now who e g unchosen (omega arith) in
      let still : is_selected x who g₁.app ≡ false = ground (arith, unchosen, first.same_choice) in
      let rest =
        apply_events-Counted now who es g₁ still
          (omega (arith, small, first.counted, arrivals_one who e)) in
      record {
        counted = omega (arith, first.counted, rest.counted, arrivals_cons who e es);
        same_choice = rest.same_choice ∙ first.same_choice;
      }

  -- When the window takes the events from its queue, the unread count of a peer that is not selected
  -- grows by the number of messages from that peer among them, if it stays below 2 ^ 64, and the
  -- selection stays as it is.
  pub drain_events-unread :
      (now : ℤ) (who : Bytes) (es : List AppEvent) (g : Gui D)
      → g.app.rx ≡ some es
      → is_selected x who g.app ≡ false
      → unread_of who g.app + length es < 2 ^ 64
      → (unread_of who (drain_events x now g).app ≡ unread_of who g.app + arrivals who es)
        × ((drain_events x now g).app.selected ≡ g.app.selected)
  unfolding drain_events unread_of is_selected
  drain_events-unread now who es g queued unchosen small =
      let a = g.app in
      let g₁ : Gui D = record g { app = record a { rx = some [] } } in
      let all = apply_events-Counted now who es g₁ unchosen small in
      let done : drain_events x now g ≡ apply_events x now es g₁ = ground (arith, queued) in
      rw done (all.counted, all.same_choice)
