-- ===== src/Tests/ClientRuns.antt =====
-- Runs of the client's event loop: retries, commands, sessions and queries.
use sechat_client.Base.{
  ℕ, ◌≤◌, ◌≡◌, refl, ◌⊎◌, true, false, none, some, List, [], ◌∷◌, ◌++◌, arith, if◌then◌else◌, ok,
  err,
}
use sechat_client.Base.Assoc.{lookup, member}
use sechat_client.Base.Bytes.{text, bytes_eq}
use sechat_client.Base.Int.{pos}
use sechat_client.Base.Strings.{trim, is_empty}
use sechat_client.Client.Commands.{Randomness, handle_purge, handle_command}
use sechat_client.Client.Commands.Laws.{handle_purge-clears, remove_peer-forgets}
use sechat_client.Client.Local.{find_contact, alias_is, resolve_query}
use sechat_client.Client.Local.Query.{Matches, resolve_query_sound}
use sechat_client.Client.Retry.{armed, drive_one}
use sechat_client.Client.Retry.Budget.{
  count_retrying, count_gave_up, Tick, run_ticks, run_ticks_budget, ladder_runs_out,
}
use sechat_client.Client.Retry.Ladder.{OnLadder, armed-OnLadder, drive_one-OnLadder}
use sechat_client.Client.Sessions.{spawn, move, run_schedule, empty_hub, in_flight}
use sechat_client.Client.Sessions.Reservation.{one_attempt_per_peer}
use sechat_client.Client.State.{ClientState}
use sechat_client.Client.Types.{
  Contact, AppEvent, connect_retrying, connect_gave_up, remove_peer, SessionEntry,
}
use sechat_client.Crypto.Disk.{peer_pub_of, chat_of}
use sechat_client.Crypto.Peers.{load_peer_data}
use sechat_client.Crypto.Types.{PeerPublic, Keys, not_found}
use sechat_client.Tests.Toy.{toy, toy_laws, Tree}
use sechat_client.Tests.World.{
  toy_services, bob_secret, bob_signing, twelve, keys_of, alice_id, alice, bob_disk,
  bob_knows_alice, open_link, bob_state,
}

abbrev bob_keys : Keys
bob_keys = keys_of bob_secret bob_signing

abbrev tick_at : ℕ → Tick Tree
tick_at at = record { now = pos 700; at = at; disk = bob_disk; link = open_link }

abbrev dice : Randomness
dice = record { stored_nonce = twelve; row_nonce = twelve; eph_secret = 1 ∷ []; eph_nonce = twelve }

abbrev six_ticks : List (Tick Tree)
six_ticks =
    tick_at 0 ∷ tick_at 1000 ∷ tick_at 3000 ∷ tick_at 7000 ∷ tick_at 15000 ∷ tick_at 31000 ∷ []

abbrev run_of : List (Tick Tree) → List AppEvent
run_of ts = (run_ticks toy_services bob_keys alice_id ts (armed true 0)).1

run_ticks_budget_example :
    (count_retrying (run_of six_ticks) ≤ 5)
    × (count_gave_up (run_of six_ticks) ≤ 1)
    × ((count_gave_up (run_of six_ticks) ≡ 0) ⊎ (count_retrying (run_of six_ticks) ≡ 5))
run_ticks_budget_example = run_ticks_budget toy_services bob_keys alice_id six_ticks true 0

alice_known : (who : PeerPublic) × (load_peer_data toy bob_disk alice_id ≡ ok who)
alice_known = (alice, bob_knows_alice)

ladder_runs_out_example :
    run_of six_ticks
    ≡ connect_retrying alice_id 1 1
      ∷ connect_retrying alice_id 2 2
      ∷ connect_retrying alice_id 3 4
      ∷ connect_retrying alice_id 4 8
      ∷ connect_retrying alice_id 5 16
      ∷ connect_gave_up alice_id
      ∷ []
unfolding toy_services
ladder_runs_out_example =
    ladder_runs_out toy_services bob_keys alice_id toy_laws (tick_at 0) (tick_at 1000)
      (tick_at 3000) (tick_at 7000) (tick_at 15000) (tick_at 31000) 0
      (
        alice_known,
        refl,
        (alice_known, refl, (alice_known, refl, (alice_known, refl, (alice_known, refl, tt)))),
      )
      (omega arith) (omega arith) (omega arith) (omega arith) (omega arith)

drive_one-OnLadder_example :
    OnLadder
      (drive_one toy_services bob_keys
        (pos 700)
        50
        alice_id
        false
        bob_disk
        (armed true 0)
        open_link).0
drive_one-OnLadder_example =
    drive_one-OnLadder toy_services bob_keys (pos 700) 50 alice_id false bob_disk (armed true 0)
      open_link (armed-OnLadder true 0)

one_attempt_per_peer_example :
    in_flight alice_id
      (run_schedule
        (spawn alice_id
          ∷ spawn alice_id
          ∷ move 0 true
          ∷ move 1 true
          ∷ move 0 true
          ∷ move 1 true
          ∷ [])
        empty_hub).tasks
    ≡ (if member alice_id
          (run_schedule
            (spawn alice_id
              ∷ spawn alice_id
              ∷ move 0 true
              ∷ move 1 true
              ∷ move 0 true
              ∷ move 1 true
              ∷ [])
            empty_hub).connecting
        then 1
        else 0)
one_attempt_per_peer_example =
    one_attempt_per_peer
      (spawn alice_id ∷ spawn alice_id ∷ move 0 true ∷ move 1 true ∷ move 0 true ∷ move 1 true ∷ [])
      alice_id

-- Bob with an intent for Alice and a session with her.
abbrev session : SessionEntry
session = record { serial = 0; accepts = true; outbound = []; relay_in = none }

abbrev busy : ClientState Tree
busy = record bob_state {
  intents = (alice_id, armed true 0) ∷ [];
  sessions = (alice_id, session) ∷ [];
}

abbrev purged : ClientState Tree
purged = handle_purge toy_services dice (pos 700) bob_keys alice_id busy

handle_purge-clears_example :
    (lookup alice_id purged.intents ≡ none)
    × (lookup alice_id purged.sessions ≡ none)
    × (chat_of purged.world.disk alice_id ≡ none)
    × (peer_pub_of purged.world.disk alice_id ≡ peer_pub_of bob_disk alice_id)
unfolding toy_services
handle_purge-clears_example =
    handle_purge-clears toy_services dice (pos 700) bob_keys alice_id busy alice bob_knows_alice
      refl

abbrev left_over : ClientState Tree
left_over = handle_command toy_services dice (pos 700) 9 bob_keys (remove_peer alice_id) busy

remove_peer-forgets_example :
    (lookup alice_id left_over.intents ≡ none)
    × (lookup alice_id left_over.sessions ≡ none)
    × (load_peer_data toy left_over.world.disk alice_id ≡ err (not_found (toy.hex_encode alice_id)))
unfolding toy_services
remove_peer-forgets_example =
    remove_peer-forgets toy_services dice (pos 700) 9 bob_keys alice_id busy refl

abbrev two_contacts : List Contact
two_contacts =
    record { id = 1 ∷ []; fingerprint = text "ab12"; online = true; address = none; alias = none }
    ∷ record {
      id = 2 ∷ [];
      fingerprint = text "cd34";
      online = false;
      address = none;
      alias = some (text "ab");
    }
    ∷ []

resolve_query_sound_example :
    (before : List Contact) × (c : Contact) × (after : List Contact) × (two_contacts
      ≡ before ++ c ∷ after)
    × (c.id ≡ 2 ∷ [])
    × Matches (trim (text " ab")) c
    × ((alias_is (trim (text " ab")) c ≡ true)
        ⊎ (find_contact (alias_is (trim (text " ab"))) two_contacts ≡ none))
unfolding resolve_query is_empty trim text find_contact alias_is bytes_eq
resolve_query_sound_example = resolve_query_sound two_contacts (text " ab") (2 ∷ []) refl
