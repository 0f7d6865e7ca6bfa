-- ===== src/Client/Retry.antt =====
-- The retries of crates/client/src/lib.rs: `next_retry_action`, `bump_backoff`,
-- `send_punch_request` and `drive_retries`.
pub mod Ladder
pub mod Budget
use sechat_client.Base.{
  ℕ, ◌+◌, ◌*◌, ◌%◌, ◌^◌, min, max, Bool, true, false, not, ◌||◌, none, List, [], ◌∷◌, ◌++◌, ltb,
  ◌==◌, if◌then◌else◌, ok, err,
}
use sechat_client.Base.Assoc.{Assoc, contains_key, member}
use sechat_client.Base.Bytes.{Bytes, text}
use sechat_client.Base.Int.{ℤ}
use sechat_client.Client.State.{Link, ClientState, send_link}
use sechat_client.Client.Types.{
  AppEvent, connect_retrying, connect_gave_up, app_error, ConnectIntent, RetryAction, punch,
  give_up, wait, done, SessionEntry,
}
use sechat_client.Crypto.Disk.{Disk}
use sechat_client.Crypto.Peers.{load_peer_data}
use sechat_client.Crypto.Types.{Keys, display}
use sechat_client.Server.Generators.{generate_p2p_request}
use sechat_client.Server.Services.{Services}
use sechat_client.Server.Structs.{display_client, new_client_to_server}

abbrev pub max_connect_attempts : ℕ
max_connect_attempts = 5

abbrev pub retry_backoff_cap_secs : ℕ
retry_backoff_cap_secs = 30

-- `ConnectIntent::armed`, `ConnectIntent::rearm`.
unfoldable pub armed : Bool → ℕ → ConnectIntent
armed online now = record { attempts = 0; backoff_secs = 1; due_at = now; online = online }

unfoldable pub rearm : ConnectIntent → ℕ → ConnectIntent
rearm i now = record i { attempts = 0; backoff_secs = 1; due_at = now }

unfoldable pub next_retry_action : ConnectIntent → Bool → ℕ → RetryAction
next_retry_action intent has_session now =
    if has_session
    then done
    else if not intent.online
    then wait
    else if ltb max_connect_attempts intent.attempts
    then wait
    else if intent.attempts == max_connect_attempts
    then give_up
    else if ltb now intent.due_at
    then wait
    else punch

unfoldable pub bump_backoff : ℕ → ℕ
bump_backoff current = min ((current * 2) % 2 ^ 64) retry_backoff_cap_secs

module _ {D : Type 0} (x : Services D) (keys : Keys) where
  -- Whether the request was sent, the link, and the events. `now` is the clock for the token and
  -- for the message.
  unfoldable pub send_punch_request : ℤ → Bytes → Disk D → Link → Bool × Link × List AppEvent
  send_punch_request now id d link = elim (load_peer_data x.primitives d id) [
    | err e ↦ (false, link, app_error (text "unknown peer: " ++ display x.io_text e) ∷ [])
    | ok who ↦ elim (generate_p2p_request x who.public keys.x25519_priv now) [
      | err e ↦ (false, link, app_error (text "connect request failed: " ++ display_client e) ∷ [])
      | ok msg ↦
          let (sent, link') = send_link (new_client_to_server msg none now) link in
          if sent
          then (true, link', [])
          else (false, link', app_error (text "not connected to relay") ∷ [])
    ]
  ]

  -- One intent in a tick at the instant `at`.
  unfoldable pub drive_one :
      ℤ → ℕ → Bytes → Bool → Disk D → ConnectIntent → Link → ConnectIntent × Link × List AppEvent
  unfolding next_retry_action bump_backoff rearm
  drive_one now at id has_session d intent link =
      let later = record intent {
        backoff_secs = bump_backoff intent.backoff_secs;
        due_at = at + max intent.backoff_secs 1 * 1000;
      } in
      let next = (intent.attempts + 1) % 2 ^ 32 in
      let advanced = record intent {
        attempts = next;
        backoff_secs = bump_backoff intent.backoff_secs;
        due_at = at + intent.backoff_secs * 1000;
      } in
      elim (next_retry_action intent has_session at) [
        | done ↦
            if not (intent.attempts == 0) || not (intent.backoff_secs == 1)
            then (rearm intent at, link, [])
            else (intent, link, [])
        | punch ↦
            let (sent, link', events) = send_punch_request now id d link in
            if sent
            then (advanced, link', events ++ connect_retrying id next intent.backoff_secs ∷ [])
            else (later, link', events)
        | give_up ↦
            (record intent { attempts = max_connect_attempts + 1 }, link, connect_gave_up id ∷ [])
        | wait ↦ (intent, link, [])
      ]

  -- All intents, in the order in which the table is iterated.
  unfoldable pub drive_all :
      ℤ
      → ℕ
      → Assoc SessionEntry
      → List Bytes
      → Disk D
      → Assoc ConnectIntent
      → Link
      → Assoc ConnectIntent × Link × List AppEvent
  drive_all now at live in_flight d [] link = ([], link, [])
  drive_all now at live in_flight d ((id, intent) ∷ rest) link =
      let has_session = contains_key id live || member id in_flight in
      let (intent', link', events) = drive_one now at id has_session d intent link in
      let (rest', link'', more) = drive_all now at live in_flight d rest link' in
      ((id, intent') ∷ rest', link'', events ++ more)

  unfoldable pub drive_retries : ℤ → ℕ → ClientState D → ClientState D
  unfolding drive_all
  drive_retries now at s =
      let (intents, link, events) =
        drive_all now at s.sessions s.connecting s.world.disk s.intents s.link in
      record s { link = link; app = s.app ++ events; intents = intents }
