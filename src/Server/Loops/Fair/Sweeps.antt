-- ===== src/Server/Loops/Fair/Sweeps.antt =====
-- Every fair order of the turns of the reader, the dispatcher and the writer that `run_client` of
-- crates/serverclient/src/lib.rs spawns.
use sechat_client.Base.{◌≤◌, ◌<◌, ◌≡◌, ◌⊎◌, Bool, true, false, none, some, List, [], ◌∷◌, map}
use sechat_client.Base.Bytes.{Bytes}
use sechat_client.Server.Loops.{Pipeline, Turn, read, dispatch, write, run_turns}
use sechat_client.Server.Loops.Fair.{load, work, Worker, reader, dispatcher, writer, able, Live}
use sechat_client.Server.Loops.Order.{Log, Served, serve}
use sechat_client.Server.Services.{Services}
use sechat_client.Server.Structs.{ClientToServer, ServerToClient}

-- All tasks run, and none has anything in hand.
pub record Idle {D : Type 0} (s : Pipeline D) : Type 0 where
  pub reads_on : s.reading ≡ true
  pub dispatches_on : s.dispatching ≡ true
  pub writes_on : s.writing ≡ true
  pub nothing_parsed : s.parsed ≡ none
  pub nothing_queued : s.in_queue ≡ []
  pub nothing_answered : s.answer ≡ none
  pub nothing_to_send : s.out_queue ≡ []

-- Turns of the three workers alone.
abbrev pub OnlyWorkers : List Turn → Type 0
OnlyWorkers [] = Unit
OnlyWorkers (read ∷ ts) = OnlyWorkers ts
OnlyWorkers (dispatch stamp ∷ ts) = OnlyWorkers ts
OnlyWorkers (write ∷ ts) = OnlyWorkers ts
OnlyWorkers (_ ∷ ts) = ⊥

-- Whether a worker has a turn.
abbrev pub has_turn : Worker → List Turn → Bool
has_turn k [] = false
has_turn reader (read ∷ ts) = true
has_turn dispatcher (dispatch stamp ∷ ts) = true
has_turn writer (write ∷ ts) = true
has_turn k (_ ∷ ts) = has_turn k ts

-- Each part of a schedule gives every worker at least one turn, in any order and as often as it
-- likes.
abbrev pub Fair : List (List Turn) → Type 0
Fair [] = Unit
Fair (ts ∷ tss) =
    OnlyWorkers ts
    × (has_turn reader ts ≡ true)
    × (has_turn dispatcher ts ≡ true)
    × (has_turn writer ts ≡ true)
    × Fair tss

-- One part after the other.
abbrev pub run_parts :
    {D : Type 0} → Services D → Bytes → List (List Turn) → Pipeline D → Pipeline D
run_parts x privkey [] s = s
run_parts x privkey (ts ∷ tss) s = run_parts x privkey tss (run_turns x privkey ts s)

module _ {D : Type 0} (x : Services D) (privkey : Bytes) (encode : ServerToClient → Bytes)
    (reads : (m : ServerToClient) → x.server_codec.from_slice (encode m) ≡ some m)
    (writes : (m : ClientToServer) → (b : Bytes) × (x.client_codec.to_vec m ≡ some b))
    (all : List ServerToClient) (t : Served D) where
  abbrev Alive : Pipeline D → Type 0
  Alive s = Live x privkey encode all t s

  -- What turns gain: the work never grows, and it shrinks, unless there is none or the worker that
  -- can go on has no turn.
  record Gains (has : Worker → Bool) (s s' : Pipeline D) : Type 0 where
    alive : Alive s'
    no_more : work (load s') ≤ work (load s)
    gained :
        (has (able (load s)) ≡ false) ⊎ ((work (load s) ≡ 0) ⊎ (work (load s') < work (load s)))

-- Every message went through the handler, in the order of `ms`, and the connection has done no more
-- than that: `log` has the messages with what the dispatcher drew and read for each.
pub record Settled {D : Type 0} (x : Services D) (privkey : Bytes) (ms : List ServerToClient)
    (s r : Pipeline D) : Type 0 where
  pub log : Log
  pub messages : map (λ e. e.1) log ≡ ms
  pub all_read : (r.incoming ≡ []) × (r.parsed ≡ none) × (r.in_queue ≡ [])
  pub world_done :
      r.world
      ≡ (serve x privkey log
          (record { world = s.world; events = s.events; answers = s.sent })).world
  pub events_done :
      r.events
      ≡ (serve x privkey log
          (record { world = s.world; events = s.events; answers = s.sent })).events
  pub answers_sent :
      r.sent
      ≡ (serve x privkey log
          (record { world = s.world; events = s.events; answers = s.sent })).answers
