-- ===== src/Server/Loops/Fair.antt =====
-- The work on its way through a connection of crates/serverclient/src/lib.rs, and what one turn of
-- the reader, the dispatcher or the writer does to it.
pub mod Reading
pub mod Dispatching
pub mod Sweeps
use sechat_client.Base.{
  ℕ, ◌+◌, ◌*◌, ◌≤◌, ◌<◌, ◌≡◌, ◌⊎◌, true, Option, none, some, List, [], ◌∷◌, ◌++◌, map, arith,
  length,
}
use sechat_client.Base.Bytes.{Bytes}
use sechat_client.Server.Connect.{Frame, binary}
use sechat_client.Server.Loops.{Pipeline}
use sechat_client.Server.Loops.Order.{Log, held, given, Served, serve}
use sechat_client.Server.Services.{Services}
use sechat_client.Server.Structs.{ClientToServer, ServerToClient}

-- What is on its way through a connection.
pub record Load : Type 0 where
  pub frames : List Frame
  pub parsed : Option ServerToClient
  pub in_queue : List ServerToClient
  pub answer : Option ClientToServer
  pub out_queue : List ClientToServer

abbrev pub load : {D : Type 0} → Pipeline D → Load
load s = record {
  frames = s.incoming;
  parsed = s.parsed;
  in_queue = s.in_queue;
  answer = s.answer;
  out_queue = s.out_queue;
}

-- The turns that it takes at most.
abbrev pub work : Load → ℕ
work l =
    5 * length l.frames
    + 4 * length (held l.parsed)
    + 3 * length l.in_queue
    + 2 * length (given l.answer)
    + length l.out_queue

-- The task that can go on: the reader, the dispatcher or the writer.
pub data Worker : Type 0 where
  reader dispatcher writer : Worker

unfoldable pub able : Load → Worker
able l = elim l.out_queue [
  | m ∷ ms ↦ writer
  | [] ↦ elim l.answer [
    | some a ↦ dispatcher
    | none ↦ elim l.in_queue [ m ∷ ms ↦ dispatcher | [] ↦ reader ]
  ]
]

abbrev pub relay_frame : (ServerToClient → Bytes) → ServerToClient → Frame
relay_frame encode m = binary (encode m)

pub given_short : (a : Option ClientToServer) → length (given a) ≤ 1
given_short none = omega arith
given_short (some a) = omega arith

module _ {D : Type 0} (x : Services D) (privkey : Bytes) (encode : ServerToClient → Bytes) where
  -- The connection `s` is on its way through `all`, and has done what `log` says.
  pub record Live (all : List ServerToClient) (t : Served D) (s : Pipeline D) : Type 0 where
    pub log : Log
    pub left : List ServerToClient
    pub coming : s.incoming ≡ map (relay_frame encode) left
    pub order : map (λ e. e.1) log ++ (s.in_queue ++ (held s.parsed ++ left)) ≡ all
    pub same_world : s.world ≡ (serve x privkey log t).world
    pub same_events : s.events ≡ (serve x privkey log t).events
    pub same_answers : s.sent ++ (s.out_queue ++ given s.answer) ≡ (serve x privkey log t).answers
    pub writes_on : s.writing ≡ true
    pub held_on : s.client_holds ≡ true
    pub reads_on : (s.reading ≡ true) ⊎ ((s.incoming ≡ []) × (s.parsed ≡ none))
    pub dispatches_on :
        (s.dispatching ≡ true)
        ⊎ ((s.incoming ≡ []) × (s.parsed ≡ none) × (s.in_queue ≡ []) × (s.answer ≡ none))
    pub room :
        length s.out_queue
          + length (given s.answer)
          + length s.in_queue
          + length (held s.parsed)
          + length s.incoming
        ≤ s.writable

  -- A turn of a worker either gets something done, or changes nothing on the way; and if it was this
  -- worker's turn, nothing is left to do.
  pub record Advance (all : List ServerToClient) (t : Served D) (k : Worker) (s s' : Pipeline D)
      : Type 0 where
    pub live : Live all t s'
    pub gained :
        (work (load s') < work (load s))
        ⊎ ((load s' ≡ load s) × ((able (load s) ≡ k) → work (load s) ≡ 0))
