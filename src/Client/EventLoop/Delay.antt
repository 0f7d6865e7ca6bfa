-- ===== src/Client/EventLoop/Delay.antt =====
-- The delays between connections, for `orchestrate` of crates/client/src/lib.rs.
use sechat_client.Base.{ℕ, ◌≤◌, List, [], ◌∷◌, ◌++◌, arith}
use sechat_client.Base.Bytes.{Text, text}
use sechat_client.Base.Int.{ℤ}
use sechat_client.Client.Commands.{Randomness}
use sechat_client.Client.EventLoop.{
  Stage, offline, online, finished, EventLoop, Happening, connection_made, connect_error, ticked,
  server_event, server_gone, commanded, commands_gone, save_server, wait_and_double, take_command,
  take_event, round_at, round, orchestrate,
}
use sechat_client.Client.State.{ClientState, emit, set_disk}
use sechat_client.Client.Types.{
  app_disconnected, app_error, Command, send, connect, purge_chat, remove_peer, announce_now,
  set_server, shutdown,
}
use sechat_client.Crypto.Types.{Keys}
use sechat_client.Server.Services.{Services}
use sechat_client.Server.Structs.{
  display_client, ServerEvent, authenticated, peer_came_online, peer_went_offline, punch_hole_event,
  hole_punch_denied, blob_stored, relay_data_event, disconnected,
}

-- Every delay in a list is between 1 and 30 seconds.
abbrev pub Delays : List ℕ → Type 0
Delays [] = Unit
Delays (n ∷ ns) = (1 ≤ n) × (n ≤ 30) × Delays ns

Delays-append : (ns : List ℕ) (n : ℕ) → Delays ns → 1 ≤ n → n ≤ 30 → Delays (ns ++ n ∷ [])
Delays-append [] n h low high = (low, high, tt)
Delays-append (m ∷ ns) n (a, b, h) low high = (a, b, Delays-append ns n h low high)

abbrev pub start : {D : Type 0} → ClientState D → Text → EventLoop D
start s address = record {
  client = s;
  stage = offline;
  server_address = address;
  backoff_secs = 1;
  slept = [];
}

module _ {D : Type 0} (x : Services D) (keys : Keys) where
  Paced : EventLoop D → Type 0
  Paced l = (1 ≤ l.backoff_secs) × (l.backoff_secs ≤ 30) × Delays l.slept

  wait_and_double-Paced : (l : EventLoop D) → Paced l → Paced (wait_and_double x keys l)
  unfolding wait_and_double Paced
  wait_and_double-Paced l (low, high, h) =
      (ground arith, ground arith, Delays-append l.slept l.backoff_secs h low high)

  take_command-Paced :
      (rand : Randomness) (now : ℤ) (at : ℕ) (c : Command) (l : EventLoop D)
      → Paced l
      → Paced (take_command x keys rand now at c l)
  unfolding take_command Paced
  take_command-Paced rand now at (set_server addr) l h =
      let s = l.client in
      wait_and_double-Paced
        (record l {
          client = set_disk (save_server addr s.world.disk).1 s;
          server_address = addr;
          backoff_secs = 1;
        })
        (omega arith, omega arith, h.2)
  take_command-Paced rand now at shutdown l h = h
  take_command-Paced rand now at (send a b) l h = h
  take_command-Paced rand now at (connect a) l h = h
  take_command-Paced rand now at (purge_chat a) l h = h
  take_command-Paced rand now at (remove_peer a) l h = h
  take_command-Paced rand now at announce_now l h = h

  take_event-Paced :
      (now : ℤ) (at : ℕ) (e : ServerEvent) (l : EventLoop D)
      → Paced l
      → Paced (take_event x keys now at e l)
  unfolding take_event Paced
  take_event-Paced now at disconnected l h =
      wait_and_double-Paced (record l { client = emit app_disconnected l.client }) h
  take_event-Paced now at (authenticated a) l h = h
  take_event-Paced now at (peer_came_online a b) l h = h
  take_event-Paced now at (peer_went_offline a) l h = h
  take_event-Paced now at (punch_hole_event a b c e) l h = h
  take_event-Paced now at (hole_punch_denied a b) l h = h
  take_event-Paced now at (blob_stored a) l h = h
  take_event-Paced now at (relay_data_event a b) l h = h

  round_at-Paced :
      (stage : Stage) (h : Happening) (l : EventLoop D)
      → Paced l
      → Paced (round_at x keys stage h l)
  unfolding round_at Paced
  round_at-Paced offline (connection_made link) l p = (omega arith, omega arith, p.2)
  round_at-Paced offline (connect_error e) l p =
      wait_and_double-Paced
        (record l {
          client = emit (app_error (text "connect failed: " ++ display_client e)) l.client;
        })
        p
  round_at-Paced offline (ticked now at) l p = p
  round_at-Paced offline (server_event now at e) l p = p
  round_at-Paced offline server_gone l p = p
  round_at-Paced offline (commanded rand now at c) l p = p
  round_at-Paced offline commands_gone l p = p
  round_at-Paced online (connection_made link) l p = p
  round_at-Paced online (connect_error e) l p = p
  round_at-Paced online (ticked now at) l p = p
  round_at-Paced online (server_event now at e) l p = take_event-Paced now at e l p
  round_at-Paced online server_gone l p =
      wait_and_double-Paced (record l { client = emit app_disconnected l.client }) p
  round_at-Paced online (commanded rand now at c) l p = take_command-Paced rand now at c l p
  round_at-Paced online commands_gone l p = p
  round_at-Paced finished (connection_made link) l p = p
  round_at-Paced finished (connect_error e) l p = p
  round_at-Paced finished (ticked now at) l p = p
  round_at-Paced finished (server_event now at e) l p = p
  round_at-Paced finished server_gone l p = p
  round_at-Paced finished (commanded rand now at c) l p = p
  round_at-Paced finished commands_gone l p = p

  orchestrate-Paced :
      (hs : List Happening) (l : EventLoop D) → Paced l → Paced (orchestrate x keys hs l)
  unfolding orchestrate round
  orchestrate-Paced [] l h = h
  orchestrate-Paced (a ∷ hs) l h =
      orchestrate-Paced hs (round x keys a l) (round_at-Paced l.stage a l h)

  -- From the start, with no delay behind it and the next at one second: whatever happens, every
  -- delay between two connections is between 1 and 30 seconds, and so is the next.
  pub orchestrate-Delays :
      (hs : List Happening) (s : ClientState D) (address : Text)
      → Delays (orchestrate x keys hs (start s address)).slept
        × (1 ≤ (orchestrate x keys hs (start s address)).backoff_secs)
        × ((orchestrate x keys hs (start s address)).backoff_secs ≤ 30)
  unfolding Paced
  orchestrate-Delays hs s address =
      let (low, high, h) = orchestrate-Paced hs (start s address) (omega arith, omega arith, tt) in
      (h, low, high)
