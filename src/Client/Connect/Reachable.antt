-- ===== src/Client/Connect/Reachable.antt =====
-- What `orchestrate`, `connect_session` and the event tasks of crates/client/src/lib.rs can reach, as
-- steps in any order.
use sechat_client.Base.{ℕ, ◌≡◌, inl, inr, false, [], arith, Option-cases}
use sechat_client.Base.Assoc.{lookup}
use sechat_client.Base.Bytes.{Bytes, Text}
use sechat_client.Base.Int.{ℤ}
use sechat_client.Client.Commands.{Randomness, persist_message}
use sechat_client.Client.Connect.{Attempt, connect_session, end_session}
use sechat_client.Client.Connect.Direct.{
  AllDirect, lookup-AllDirect, remove-AllDirect, along, connect_session-AllDirect,
  handle_command-AllDirect, handle_server_event-sessions,
}
use sechat_client.Client.EventLoop.{
  Stage, offline, online, finished, EventLoop, Happening, connection_made, connect_error, ticked,
  server_event, server_gone, commanded, commands_gone, wait_and_double, shut_down, take_command,
  take_event, round_at, round,
}
use sechat_client.Client.Events.{handle_server_event}
use sechat_client.Client.Retry.{drive_retries}
use sechat_client.Client.State.{emit, set_disk}
use sechat_client.Client.Types.{
  message_arrived, Command, send, connect, purge_chat, remove_peer, announce_now, set_server,
  shutdown,
}
use sechat_client.Crypto.Primitives.{Codec}
use sechat_client.Crypto.Types.{Author, PeerPublic, Keys}
use sechat_client.P2p.Message.{PeerMessage}
use sechat_client.P2p.Punch.{Ping}
use sechat_client.Server.Services.{Services}
use sechat_client.Server.Structs.{
  ServerEvent, authenticated, peer_came_online, peer_went_offline, punch_hole_event,
  hole_punch_denied, blob_stored, relay_data_event, disconnected,
}

module _ {D : Type 0} (x : Services D) (keys : Keys) where
  -- A round leaves every session over the socket.
  take_command-AllDirect :
      (rand : Randomness) (now : ℤ) (at : ℕ) (c : Command) (l : EventLoop D)
      → AllDirect l.client.sessions
      → AllDirect (take_command x keys rand now at c l).client.sessions
  unfolding take_command shut_down wait_and_double set_disk
  take_command-AllDirect rand now at (set_server a) l all = all
  take_command-AllDirect rand now at shutdown l all = tt
  take_command-AllDirect rand now at (connect id) l all =
      handle_command-AllDirect x keys rand now at (connect id) l.client all
  take_command-AllDirect rand now at (remove_peer id) l all =
      handle_command-AllDirect x keys rand now at (remove_peer id) l.client all
  take_command-AllDirect rand now at announce_now l all =
      handle_command-AllDirect x keys rand now at announce_now l.client all
  take_command-AllDirect rand now at (purge_chat id) l all =
      handle_command-AllDirect x keys rand now at (purge_chat id) l.client all
  take_command-AllDirect rand now at (send id t) l all =
      handle_command-AllDirect x keys rand now at (send id t) l.client all

  take_event-AllDirect :
      (now : ℤ) (at : ℕ) (e : ServerEvent) (l : EventLoop D)
      → AllDirect l.client.sessions
      → AllDirect (take_event x keys now at e l).client.sessions
  unfolding take_event wait_and_double emit handle_server_event
  take_event-AllDirect now at (authenticated a) l all = all
  take_event-AllDirect now at (relay_data_event who payload) l all =
      along (handle_server_event-sessions x keys now at (relay_data_event who payload) l.client all)
        all
  take_event-AllDirect now at (peer_came_online who a) l all = all
  take_event-AllDirect now at (peer_went_offline who) l all = all
  take_event-AllDirect now at (blob_stored who) l all = all
  take_event-AllDirect now at (hole_punch_denied id reason) l all = all
  take_event-AllDirect now at (punch_hole_event a b c d) l all =
      along (handle_server_event-sessions x keys now at (punch_hole_event a b c d) l.client all) all
  take_event-AllDirect now at disconnected l all = all

  round_at-AllDirect :
      (stage : Stage) (h : Happening) (l : EventLoop D)
      → AllDirect l.client.sessions
      → AllDirect (round_at x keys stage h l).client.sessions
  unfolding round_at wait_and_double emit drive_retries
  round_at-AllDirect offline (connection_made link) l all = all
  round_at-AllDirect offline (connect_error e) l all = all
  round_at-AllDirect offline (ticked now at) l all = all
  round_at-AllDirect offline (server_event now at e) l all = all
  round_at-AllDirect offline server_gone l all = all
  round_at-AllDirect offline (commanded rand now at c) l all = all
  round_at-AllDirect offline commands_gone l all = all
  round_at-AllDirect online (connection_made link) l all = all
  round_at-AllDirect online (connect_error e) l all = all
  round_at-AllDirect online (ticked now at) l all = all
  round_at-AllDirect online (server_event now at e) l all = take_event-AllDirect now at e l all
  round_at-AllDirect online server_gone l all = all
  round_at-AllDirect online (commanded rand now at c) l all =
      take_command-AllDirect rand now at c l all
  round_at-AllDirect online commands_gone l all = all
  round_at-AllDirect finished h l all = all

module _ {D : Type 0} (x : Services D) (ping_codec : Codec Ping) (peer_codec : Codec PeerMessage)
    (keys : Keys) where
  -- A round of the event loop, a whole attempt to connect, and a message or the end of a session.
  pub data Step : EventLoop D → EventLoop D → Type 0 where
    happens : (h : Happening) (l : EventLoop D) → Step l (round x keys h l)
    connects :
        (who : PeerPublic) (at : ℤ) (a : Attempt) (l : EventLoop D)
        → Step l (record l {
          client = (connect_session x ping_codec peer_codec keys who at a l.client).1;
        })
    delivers :
        (who : PeerPublic) (id nonce : Bytes) (t : Text) (now : ℤ) (l : EventLoop D)
        → Step l (record l {
          client = emit (message_arrived id false) (
              set_disk
                (persist_message x nonce keys who id t Author.peer now l.client.world.disk).1
                l.client);
        })
    ends : (id : Bytes) (l : EventLoop D) → Step l (record l { client = end_session id l.client })

  pub data Reach (s : EventLoop D) : EventLoop D → Type 0 where
    here : Reach s s
    next : {t u : EventLoop D} → Reach s t → Step t u → Reach s u

  Step-AllDirect :
      {l l' : EventLoop D} → Step l l' → AllDirect l.client.sessions → AllDirect l'.client.sessions
  unfolding round end_session emit set_disk
  Step-AllDirect (happens h l) all = round_at-AllDirect x keys l.stage h l all
  Step-AllDirect (connects who at a l) all =
      connect_session-AllDirect x keys ping_codec peer_codec who at a l.client all
  Step-AllDirect (delivers who id nonce t now l) all = all
  Step-AllDirect (ends id l) all = remove-AllDirect id l.client.sessions all

  Reach-AllDirect :
      {s l : EventLoop D} → AllDirect s.client.sessions → Reach s l → AllDirect l.client.sessions
  Reach-AllDirect all here = all
  Reach-AllDirect all (next way step) = Step-AllDirect step (Reach-AllDirect all way)

  -- From a start without sessions, whatever rounds, attempts to connect, messages and ends of
  -- sessions follow, in any order: every session is over the socket, and a frame that the relay
  -- passes on, from whomever, is dropped and changes nothing in the client.
  pub Reach-direct :
      {s l : EventLoop D} (who payload : Bytes) (now : ℤ) (at : ℕ)
      → s.client.sessions ≡ []
      → Reach s l
      → AllDirect l.client.sessions
        × (handle_server_event x now at (relay_data_event who payload) l.client ≡ l.client)
  unfolding handle_server_event
  Reach-direct {l = l} who payload now at empty way =
      let all = Reach-AllDirect (along empty tt) way in
      elim (Option-cases (lookup who l.client.sessions)) [
        | inl missing ↦ (all, ground (arith, missing))
        | inr (e, found) ↦
            (all, ground (arith, found, lookup-AllDirect who e l.client.sessions all found))
      ]
