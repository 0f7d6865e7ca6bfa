-- ===== src/Client/Sessions.antt =====
-- `connect_session` of crates/client/src/lib.rs as a task among others: which locks it takes in which
-- order, the reservation that `ConnectingGuard` drops, and the task of the session's events. A
-- schedule says which task moves next.
pub mod Reservation
use sechat_client.Base.{
  ℕ, zero, suc, ◌+◌, Bool, true, false, ◌&&◌, ◌||◌, Option, none, some, List, [], ◌∷◌, ◌++◌,
  if◌then◌else◌,
}
use sechat_client.Base.Assoc.{Assoc, insert, remove, contains_key, member, without}
use sechat_client.Base.Bytes.{Bytes, bytes_eq}

-- Where a task stands: nothing done; the session map was read; the peer is reserved (hole punch and
-- handshakes run); the session is in the map; the session was closed before the guard was dropped;
-- the guard was dropped and the events run; all is over.
pub data Phase : Type 0 where
  fresh reserved up closing running ended : Phase
  checked : Bool → Phase

pub record Task : Type 0 where
  pub peer_id : Bytes
  pub phase : Phase

-- `SessionMap` with the number of the task that made each entry, and `Connecting`.
pub record Hub : Type 0 where
  pub sessions : Assoc ℕ
  pub connecting : List Bytes
  pub tasks : List Task

-- What happens to the task with that number when it moves. `goes_well` says whether the punch or a
-- handshake succeeds in phase `reserved`, and in phase `up` whether the guard drops before the
-- session ends.
unfoldable pub advance :
    ℕ → Bool → Bytes → Phase → Assoc ℕ → List Bytes → Phase × Assoc ℕ × List Bytes
advance n goes_well id fresh sessions connecting =
    (checked (contains_key id sessions), sessions, connecting)
advance n goes_well id (checked live) sessions connecting =
    if live || member id connecting
    then (ended, sessions, connecting)
    else (reserved, sessions, id ∷ connecting)
advance n goes_well id reserved sessions connecting =
    if goes_well
    then (up, insert id n sessions, connecting)
    else (ended, sessions, without id connecting)
advance n goes_well id up sessions connecting =
    if goes_well
    then (running, sessions, without id connecting)
    else (closing, remove id sessions, connecting)
advance n goes_well id closing sessions connecting = (ended, sessions, without id connecting)
advance n goes_well id running sessions connecting = (ended, remove id sessions, connecting)
advance n goes_well id ended sessions connecting = (ended, sessions, connecting)

unfoldable pub get_task : List Task → ℕ → Option Task
get_task [] n = none
get_task (t ∷ ts) zero = some t
get_task (t ∷ ts) (suc n) = get_task ts n

unfoldable pub set_task : ℕ → Task → List Task → List Task
set_task n t [] = []
set_task zero t (u ∷ us) = t ∷ us
set_task (suc n) t (u ∷ us) = u ∷ set_task n t us

pub data Action : Type 0 where
  -- the broker's `PunchHole` for a peer spawns a task
  spawn : Bytes → Action
  move : ℕ → Bool → Action

unfoldable pub act : Action → Hub → Hub
act (spawn id) h = record h { tasks = h.tasks ++ record { peer_id = id; phase = fresh } ∷ [] }
act (move n goes_well) h = elim (get_task h.tasks n) [
  | none ↦ h
  | some t ↦
      let (phase, sessions, connecting) =
        advance n goes_well t.peer_id t.phase h.sessions h.connecting in
      record {
        sessions = sessions;
        connecting = connecting;
        tasks = set_task n (record t { phase = phase }) h.tasks;
      }
]

unfoldable pub run_schedule : List Action → Hub → Hub
unfolding act
run_schedule [] h = h
run_schedule (a ∷ rest) h = run_schedule rest (act a h)

abbrev pub empty_hub : Hub
empty_hub = record { sessions = []; connecting = []; tasks = [] }

-- Whether a phase holds the reservation.
unfoldable pub holds : Phase → Bool
holds reserved = true
holds up = true
holds closing = true
holds _ = false

unfoldable pub in_flight : Bytes → List Task → ℕ
in_flight id [] = 0
in_flight id (t ∷ ts) = (if bytes_eq t.peer_id id && holds t.phase then 1 else 0) + in_flight id ts
