-- ===== src/Client/Connect/Events.antt =====
-- The conversation after a session of crates/client/src/lib.rs.
use mathlib.Core.List.{append_assoc}
use sechat_client.Base.{
  ℕ, ◌+◌, ◌^◌, ◌<◌, ◌≡◌, refl, ap, ◌∙◌, inl, inr, false, none, some, List, [], ◌∷◌, ◌++◌, arith,
  length, ok, Result-cases,
}
use sechat_client.Base.Assoc.{lookup, lookup-remove}
use sechat_client.Base.Bytes.{Bytes, Text, bytes_eq_refl}
use sechat_client.Base.Int.{ℤ}
use sechat_client.Client.Commands.{persist_message}
use sechat_client.Client.Commands.Copy.{persist_message_lem}
use sechat_client.Client.Connect.{end_session, receive_events}
use sechat_client.Client.State.{ClientState, emit, set_disk}
use sechat_client.Client.Types.{AppEvent, message_arrived, session_down}
use sechat_client.Crypto.Derive.{load_storage_key}
use sechat_client.Crypto.Disk.{chat_db, Disk, set_dir, chat_of}
use sechat_client.Crypto.Stored.{save_chat, load_peer_chat_file, insert_message_stored}
use sechat_client.Crypto.Stored.History.{store_all, AllNonces, messages_of, store_all-Log}
use sechat_client.Crypto.Stored.Log.{Log}
use sechat_client.Crypto.Types.{Author, Message, PeerPublic, Keys, from_parts}
use sechat_client.P2p.Session.{SessionEvent, message, closed}
use sechat_client.Server.Services.{Services, ServicesLaws}

-- The messages of a session, each with its nonce: as events, as rows, and in the user interface.
abbrev pub session_events : List (Bytes × ℤ × Text) → List (Bytes × SessionEvent)
session_events [] = ([], closed) ∷ []
session_events ((nonce, now, t) ∷ rest) = (nonce, message t now) ∷ session_events rest

abbrev pub rows_of : List (Bytes × ℤ × Text) → List (Bytes × Message)
rows_of [] = []
rows_of ((nonce, now, t) ∷ rest) = (nonce, from_parts t Author.peer now) ∷ rows_of rest

abbrev pub told : Bytes → List (Bytes × ℤ × Text) → List AppEvent
told id [] = session_down id ∷ []
told id (m ∷ rest) = message_arrived id false ∷ told id rest

module _ {D : Type 0} (x : Services D) (laws : ServicesLaws x) (keys : Keys) where
  pub persist_message-faults :
      (nonce : Bytes) (who : PeerPublic) (id : Bytes) (t : Text) (now : ℤ) (d : Disk D)
      → (persist_message x nonce keys who id t Author.peer now d).1.faults ≡ d.faults
  unfolding persist_message load_peer_chat_file save_chat set_dir
  persist_message-faults nonce who id t now d = ground arith

  pub receive_events-stored :
      (who : PeerPublic) (id key : Bytes) (ms : List (Bytes × ℤ × Text)) (s : ClientState D)
      (db db' : D)
      → load_storage_key x.primitives who.public keys.x25519_priv ≡ ok key
      → s.world.disk.faults (chat_db id) ≡ none
      → chat_of s.world.disk id ≡ some db
      → store_all x.primitives x.message_codec x.sled key (rows_of ms) db ≡ ok db'
      → let s' = receive_events x keys who id (session_events ms) s in
        (chat_of s'.world.disk id ≡ some db')
        × (s'.app ≡ s.app ++ told id ms)
        × (lookup id s'.sessions ≡ none)
  unfolding receive_events end_session emit set_disk store_all
  receive_events-stored who id key [] s db db' derived free there stored =
      (ground arith, refl, lookup-remove id id s.sessions ∙ rw (bytes_eq_refl id) refl)
  receive_events-stored who id key ((nonce, now, t) ∷ ms) s db db' derived free there stored =
      let m = from_parts t Author.peer now in
      elim (Result-cases
        (insert_message_stored x.primitives x.message_codec x.sled nonce m key db)) [
          | inr (_, failed) ↦ absurd (ground (arith, failed))
          | inl (db₁, first) ↦
              let d = (persist_message x nonce keys who id t Author.peer now s.world.disk).1 in
              let (_, saved) =
                persist_message_lem x laws nonce keys who id t Author.peer now s.world.disk key db
                  db₁ derived free there first in
              let still = persist_message-faults nonce who id t now s.world.disk in
              let s₁ = emit (message_arrived id false) (set_disk d s) in
              let (chat, app, gone) =
                receive_events-stored who id key ms s₁ db₁ db' derived
                  (ap (λ f. f (chat_db id)) still ∙ free) saved (ground (arith, first, stored)) in
              (chat, app ∙ append_assoc s.app (message_arrived id false ∷ []) (told id ms), gone)
        ]

  -- A session with a known peer hands over messages, and then ends; their conversation is on disk and
  -- is a log of messages whose counters are below `hi`, and all of them can be stored, each with a
  -- nonce of twelve bytes, under counters below 2 ^ 64. Afterwards the conversation is the log with
  -- these messages at its end, in their order, as the peer's and with the times at which the peer
  -- sent them; the user interface was told of each, and then of the end; and the session is gone.
  pub receive_events-Log :
      (who : PeerPublic) (id key : Bytes) (received : List (Bytes × ℤ × Text)) (s : ClientState D)
      (db db' : D) (hi : ℕ) (ms : List Message)
      → load_storage_key x.primitives who.public keys.x25519_priv ≡ ok key
      → s.world.disk.faults (chat_db id) ≡ none
      → chat_of s.world.disk id ≡ some db
      → hi + length (rows_of received) < 2 ^ 64
      → AllNonces (rows_of received)
      → Log x.primitives x.message_codec key 0 hi (x.sled.entries db) ms
      → store_all x.primitives x.message_codec x.sled key (rows_of received) db ≡ ok db'
      → let s' = receive_events x keys who id (session_events received) s in
        (chat_of s'.world.disk id ≡ some db')
        × Log x.primitives x.message_codec key 0
            (hi + length (rows_of received))
            (x.sled.entries db')
            (ms ++ messages_of (rows_of received))
        × (s'.app ≡ s.app ++ told id received)
        × (lookup id s'.sessions ≡ none)
  receive_events-Log who id key received s db db' hi ms derived free there bound nonces log stored =
      let (chat, app, gone) =
        receive_events-stored who id key received s db db' derived free there stored in
      (
        chat,
        store_all-Log x.primitives x.message_codec x.sled laws.primitive_laws laws.message_laws
            laws.sled_laws key (rows_of received) hi db db' ms bound nonces log stored,
        app,
        gone,
      )
