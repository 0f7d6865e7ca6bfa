-- ===== src/Server/Loops.antt =====
-- The tasks of a connection in crates/serverclient/src/lib.rs: `read_loop`, `main_dispatch_loop`,
-- `write_loop`, `presence_refresh_loop` and the task that reports the end, which `run_client` spawns
-- over two queues. A schedule says whose turn it is. A task that waits for room in a queue holds
-- what it is about to put there.
pub mod Order
pub mod Fair
use sechat_client.Base.{
  ℕ, ◌-◌, Bool, true, false, not, ◌&&◌, ◌||◌, Option, none, some, List, [], ◌∷◌, ◌++◌, ltb, ◌==◌,
  if◌then◌else◌, length, Result, ok, err,
}
use sechat_client.Base.Bytes.{Bytes, Text}
use sechat_client.Base.Int.{ℤ, pos}
use sechat_client.Crypto.Peers.{load_peers}
use sechat_client.Crypto.Types.{PeerPublic, Keys}
use sechat_client.Server.Connect.{
  Frame, binary, close_frame, other_frame, read_error, Connection, parse_server_message,
  server_initial_handshake,
}
use sechat_client.Server.Generators.{generate_announce_message}
use sechat_client.Server.Handlers.{handle_message}
use sechat_client.Server.Presence.{get_or_set_my_address}
use sechat_client.Server.Services.{Services, World}
use sechat_client.Server.Structs.{
  ClientErrors, ClientToServer, new_client_to_server, ServerToClient, ServerEvent, disconnected,
}

-- What a turn of the dispatcher draws and reads from the clock.
pub record Stamp : Type 0 where
  pub nonce : Bytes
  pub now : ℤ
  pub sent : ℤ

-- One tick of the presence loop: the address, the time, and the peers that are still to be told.
pub record Refresh : Type 0 where
  pub address : Text
  pub timestamp : ℤ
  pub left : List PeerPublic

pub record Pipeline (D : Type 0) : Type 0 where
  pub incoming : List Frame
  pub reading : Bool
  pub parsed : Option ServerToClient
  pub in_queue : List ServerToClient
  pub dispatching : Bool
  pub world : World D
  pub events : List ServerEvent
  pub answer : Option ClientToServer
  pub refreshing : Bool
  pub refresh : Refresh
  pub client_holds : Bool
  pub out_queue : List ClientToServer
  pub writing : Bool
  -- The number of further sends on the socket that will succeed.
  pub writable : ℕ
  pub sent : List ClientToServer
  pub reported : Bool

abbrev pub queue_size : ℕ
queue_size = 100

pub data Turn : Type 0 where
  read : Turn
  dispatch : Stamp → Turn
  write : Turn
  -- the time of the announcement and the clock
  refresh_presence : ℤ → ℤ → Turn
  -- the event loop puts a message in the queue, or drops its end
  client_sends : ClientToServer → Turn
  client_leaves : Turn
  report : Turn

module _ {D : Type 0} (x : Services D) (privkey : Bytes) where
  -- `read_loop`: with a message in hand, and with none.
  unfoldable pub hand_over : ServerToClient → Pipeline D → Pipeline D
  hand_over m s =
      if not s.dispatching
      then record s { reading = false }
      else if ltb (length s.in_queue) queue_size
      then record s { parsed = none; in_queue = s.in_queue ++ m ∷ [] }
      else s

  unfoldable pub next_frame : List Frame → Pipeline D → Pipeline D
  next_frame [] s = record s { reading = false }
  next_frame (binary b ∷ fs) s = elim (parse_server_message x b) [
    | ok m ↦ record s { incoming = fs; parsed = some m }
    | err e ↦ record s { incoming = fs }
  ]
  next_frame (close_frame ∷ fs) s = record s { incoming = fs; reading = false }
  next_frame (other_frame ∷ fs) s = record s { incoming = fs }
  next_frame (read_error e ∷ fs) s = record s { incoming = fs; reading = false }

  unfoldable pub read_loop : Pipeline D → Pipeline D
  unfolding hand_over next_frame
  read_loop s =
      if not s.reading
      then s
      else elim s.parsed [ some m ↦ hand_over m s | none ↦ next_frame s.incoming s ]

  -- `main_dispatch_loop`: the next message, and the answer to the last one.
  unfoldable pub next_message : Stamp → List ServerToClient → Pipeline D → Pipeline D
  next_message stamp [] s = if s.reading then s else record s { dispatching = false }
  next_message stamp (m ∷ ms) s =
      let (r, w, es) =
        handle_message x stamp.nonce stamp.now stamp.sent privkey m.payload s.world in
      record s {
        in_queue = ms;
        world = w;
        events = s.events ++ es;
        answer = elim r [ ok a ↦ a | err e ↦ none ];
      }

  unfoldable pub give_answer : ClientToServer → Pipeline D → Pipeline D
  give_answer a s =
      if not s.writing
      then record s { dispatching = false }
      else if ltb (length s.out_queue) queue_size
      then record s { answer = none; out_queue = s.out_queue ++ a ∷ [] }
      else s

  unfoldable pub main_dispatch_loop : Stamp → Pipeline D → Pipeline D
  unfolding next_message give_answer
  main_dispatch_loop stamp s =
      if not s.dispatching
      then s
      else elim s.answer [ some a ↦ give_answer a s | none ↦ next_message stamp s.in_queue s ]

  -- `write_loop`: ends where nobody can send any more, or where the socket fails.
  unfoldable pub write_next : List ClientToServer → Pipeline D → Pipeline D
  write_next [] s =
      if s.dispatching || s.refreshing || s.client_holds then s else record s { writing = false }
  write_next (m ∷ ms) s = elim (x.client_codec.to_vec m) [
    | none ↦ record s { out_queue = ms }
    | some b ↦
        if s.writable == 0
        then record s { out_queue = ms; writing = false }
        else record s { out_queue = ms; writable = s.writable - 1; sent = s.sent ++ m ∷ [] }
  ]

  unfoldable pub write_loop : Pipeline D → Pipeline D
  unfolding write_next
  write_loop s = if s.writing then write_next s.out_queue s else s

  -- `presence_refresh_loop`: a tick, and one announcement of a tick.
  unfoldable pub start_refresh : ℤ → Pipeline D → Pipeline D
  start_refresh timestamp s = elim (get_or_set_my_address none s.world).0 [
    | none ↦ s
    | some address ↦ elim (load_peers x.primitives s.world.disk) [
      | err e ↦ s
      | ok peers ↦ record s {
        refresh = record { address = address; timestamp = timestamp; left = peers };
      }
    ]
  ]

  unfoldable pub announce_next : ℤ → PeerPublic → List PeerPublic → Pipeline D → Pipeline D
  announce_next now who rest s =
      let r = s.refresh in
      let told = record s { refresh = record r { left = rest } } in
      elim (generate_announce_message x privkey who.public r.timestamp r.address) [
        | err e ↦ told
        | ok m ↦
            if not s.writing
            then record s { refreshing = false }
            else if ltb (length s.out_queue) queue_size
            then record told { out_queue = s.out_queue ++ new_client_to_server m none now ∷ [] }
            else s
      ]

  unfoldable pub refresh_next : ℤ → ℤ → List PeerPublic → Pipeline D → Pipeline D
  unfolding start_refresh announce_next
  refresh_next timestamp now [] s = start_refresh timestamp s
  refresh_next timestamp now (who ∷ rest) s = announce_next now who rest s

  unfoldable pub presence_refresh_loop : ℤ → ℤ → Pipeline D → Pipeline D
  unfolding refresh_next
  presence_refresh_loop timestamp now s =
      if s.refreshing then refresh_next timestamp now s.refresh.left s else s

  unfoldable pub turn : Turn → Pipeline D → Pipeline D
  unfolding read_loop main_dispatch_loop write_loop presence_refresh_loop
  turn read s = read_loop s
  turn (dispatch stamp) s = main_dispatch_loop stamp s
  turn write s = write_loop s
  turn (refresh_presence timestamp now) s = presence_refresh_loop timestamp now s
  turn (client_sends m) s =
      if s.writing && s.client_holds && ltb (length s.out_queue) queue_size
      then record s { out_queue = s.out_queue ++ m ∷ [] }
      else s
  turn client_leaves s = record s { client_holds = false }
  turn report s =
      if (s.reading && s.dispatching && s.writing && s.refreshing) || s.reported
      then s
      else record s { events = s.events ++ disconnected ∷ []; reported = true }

  unfoldable pub run_turns : List Turn → Pipeline D → Pipeline D
  run_turns [] s = s
  run_turns (t ∷ ts) s = run_turns ts (turn t s)

  -- The tasks as `run_client` spawns them, after the handshake.
  unfoldable pub spawn_tasks : World D → Connection → Pipeline D
  spawn_tasks w c = record {
    incoming = c.incoming;
    reading = true;
    parsed = none;
    in_queue = [];
    dispatching = true;
    world = w;
    events = [];
    answer = none;
    refreshing = true;
    refresh = record { address = []; timestamp = pos 0; left = [] };
    client_holds = true;
    out_queue = [];
    writing = true;
    writable = c.writable;
    sent = c.sent;
    reported = false;
  }

  -- `run_client` on a connection that was made: the handshake, and the tasks if it succeeds.
  unfoldable pub run_client :
      (ℕ → Bytes)
      → ℤ
      → Keys
      → ℕ
      → Option Text
      → World D
      → Connection
      → Result ClientErrors (Pipeline D) × World D × List ServerEvent
  unfolding spawn_tasks
  run_client nonces now keys udp_port announce_override w c =
      let (r, w', c', events) =
        server_initial_handshake x nonces now keys udp_port announce_override w c in
      elim r [
        | err e ↦ (err e, w', events)
        | ok address ↦ (ok (record (spawn_tasks w' c') { events = events }), w', events)
      ]
