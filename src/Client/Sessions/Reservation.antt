-- ===== src/Client/Sessions/Reservation.antt =====
-- The reservation of `connect_session` in crates/client/src/lib.rs, counted over the tasks.
use sechat_client.Base.{
  ℕ, zero, suc, ◌+◌, ◌≤◌, ◌≡◌, refl, inl, inr, Bool, ◌&&◌, some, List, [], ◌∷◌, ◌++◌, arith,
  if◌then◌else◌, Option-cases,
}
use sechat_client.Base.Assoc.{Assoc, member, member-without}
use sechat_client.Base.Bytes.{Bytes, bytes_eq, bytes_eq_iff, bytes_eq_refl}
use sechat_client.Client.Sessions.{
  Phase, fresh, reserved, up, closing, running, ended, checked, Task, Hub, advance, get_task,
  set_task, Action, spawn, move, act, run_schedule, empty_hub, holds, in_flight,
}

abbrev weight : Bytes → Bytes → Phase → ℕ
weight id peer_id phase = if bytes_eq peer_id id && holds phase then 1 else 0

abbrev listed : Bytes → List Bytes → ℕ
listed id connecting = if member id connecting then 1 else 0

in_flight-set_task :
    (id : Bytes) (n : ℕ) (t : Task) (phase : Phase) (ts : List Task)
    → get_task ts n ≡ some t
    → in_flight id (set_task n (record t { phase = phase }) ts) + weight id t.peer_id t.phase
      ≡ in_flight id ts + weight id t.peer_id phase
unfolding in_flight get_task set_task
in_flight-set_task id n t phase [] h = ground arith
in_flight-set_task id zero t phase (u ∷ us) h = ground arith
in_flight-set_task id (suc n) t phase (u ∷ us) h =
    omega (arith, in_flight-set_task id n t phase us h)

weight_le_in_flight :
    (id : Bytes) (n : ℕ) (t : Task) (ts : List Task)
    → get_task ts n ≡ some t
    → weight id t.peer_id t.phase ≤ in_flight id ts
unfolding in_flight get_task
weight_le_in_flight id n t [] h = ground arith
weight_le_in_flight id zero t (u ∷ us) h = ground arith
weight_le_in_flight id (suc n) t (u ∷ us) h = omega (arith, weight_le_in_flight id n t us h)

-- A move changes what a task holds and what is reserved by the same amount.
advance-balance :
    (id : Bytes) (n : ℕ) (goes_well : Bool) (peer_id : Bytes) (phase : Phase) (sessions : Assoc ℕ)
    (connecting : List Bytes)
    → weight peer_id peer_id phase ≤ listed peer_id connecting
    → weight id peer_id (advance n goes_well peer_id phase sessions connecting).0
        + listed id connecting
      ≡ weight id peer_id phase
        + listed id (advance n goes_well peer_id phase sessions connecting).2
unfolding advance holds member
advance-balance id n goes_well peer_id fresh sessions connecting h = ground (
  arith,
  bytes_eq_iff peer_id id,
  bytes_eq_refl peer_id,
  member-without peer_id id connecting,
  member-without peer_id peer_id connecting,
)
advance-balance id n goes_well peer_id (checked live) sessions connecting h = ground (
  arith,
  bytes_eq_iff peer_id id,
  bytes_eq_refl peer_id,
  member-without peer_id id connecting,
  member-without peer_id peer_id connecting,
)
advance-balance id n goes_well peer_id reserved sessions connecting h = ground (
  arith,
  bytes_eq_iff peer_id id,
  bytes_eq_refl peer_id,
  member-without peer_id id connecting,
  member-without peer_id peer_id connecting,
)
advance-balance id n goes_well peer_id up sessions connecting h = ground (
  arith,
  bytes_eq_iff peer_id id,
  bytes_eq_refl peer_id,
  member-without peer_id id connecting,
  member-without peer_id peer_id connecting,
)
advance-balance id n goes_well peer_id closing sessions connecting h = ground (
  arith,
  bytes_eq_iff peer_id id,
  bytes_eq_refl peer_id,
  member-without peer_id id connecting,
  member-without peer_id peer_id connecting,
)
advance-balance id n goes_well peer_id running sessions connecting h = ground (
  arith,
  bytes_eq_iff peer_id id,
  bytes_eq_refl peer_id,
  member-without peer_id id connecting,
  member-without peer_id peer_id connecting,
)
advance-balance id n goes_well peer_id ended sessions connecting h = ground (
  arith,
  bytes_eq_iff peer_id id,
  bytes_eq_refl peer_id,
  member-without peer_id id connecting,
  member-without peer_id peer_id connecting,
)

in_flight-spawn :
    (id peer_id : Bytes) (ts : List Task)
    → in_flight id (ts ++ record { peer_id = peer_id; phase = fresh } ∷ []) ≡ in_flight id ts
unfolding in_flight holds
in_flight-spawn id peer_id [] = ground arith
in_flight-spawn id peer_id (t ∷ ts) = omega (arith, in_flight-spawn id peer_id ts)

act-balance :
    (a : Action) (h : Hub)
    → ((id : Bytes) → in_flight id h.tasks ≡ listed id h.connecting)
    → (id : Bytes) → in_flight id (act a h).tasks ≡ listed id (act a h).connecting
unfolding act
act-balance (spawn peer_id) h balanced id =
    omega (arith, in_flight-spawn id peer_id h.tasks, balanced id)
act-balance (move n goes_well) h balanced id = elim (Option-cases (get_task h.tasks n)) [
  | inl gone ↦ ground (arith, balanced id)
  | inr (t, found) ↦
      let (phase, sessions, connecting) =
        advance n goes_well t.peer_id t.phase h.sessions h.connecting in
      let w = weight_le_in_flight t.peer_id n t h.tasks found in
      let moved =
        advance-balance id n goes_well t.peer_id t.phase h.sessions h.connecting
          (omega (arith, w, balanced t.peer_id)) in
      rw (found, act)
        (omega (arith, moved, balanced id, in_flight-set_task id n t phase h.tasks found))
]

run_schedule-reserved :
    (schedule : List Action) (h : Hub)
    → ((id : Bytes) → in_flight id h.tasks ≡ listed id h.connecting)
    → (id : Bytes)
    → in_flight id (run_schedule schedule h).tasks ≡ listed id (run_schedule schedule h).connecting
unfolding run_schedule
run_schedule-reserved [] h balanced id = balanced id
run_schedule-reserved (a ∷ rest) h balanced id =
    run_schedule-reserved rest (act a h) (act-balance a h balanced) id

-- Whatever tasks are spawned and in whatever order they move: the tasks that hold a peer's
-- reservation are one while the peer is listed as connecting, and none otherwise. So two attempts
-- for one peer never run at a time, and no reservation outlives its attempt.
pub one_attempt_per_peer :
    (schedule : List Action) (id : Bytes)
    → in_flight id (run_schedule schedule empty_hub).tasks
      ≡ (if member id (run_schedule schedule empty_hub).connecting then 1 else 0)
unfolding in_flight member
one_attempt_per_peer schedule id = run_schedule-reserved schedule empty_hub (λ j. refl) id
