-- ===== src/Client/Events.antt =====
-- `handle_server_event` of crates/client/src/lib.rs.
use sechat_client.Base.{
  ℕ, true, false, Option, none, some, List, [], ◌∷◌, ◌++◌, ltb, if◌then◌else◌, ok, err, unwrap_or,
}
use sechat_client.Base.Assoc.{lookup, insert, update}
use sechat_client.Base.Bytes.{Bytes, Text, bytes_eq}
use sechat_client.Base.Int.{ℤ}
use sechat_client.Client.Retry.{max_connect_attempts, rearm}
use sechat_client.Client.State.{ClientState, emit}
use sechat_client.Client.Types.{
  connected, app_peer_online, app_peer_offline, message_arrived, app_hole_punch_denied,
  ConnectIntent,
}
use sechat_client.Crypto.Peers.{load_peer_data}
use sechat_client.Crypto.Types.{PeerPublic}
use sechat_client.Server.Presence.{load_online_peers}
use sechat_client.Server.Services.{Services, OnlinePeer, World}
use sechat_client.Server.Structs.{
  ServerEvent, authenticated, peer_came_online, peer_went_offline, punch_hole_event,
  hole_punch_denied, blob_stored, relay_data_event, disconnected,
}

module _ {D : Type 0} (x : Services D) where
  -- The first peer of the online cache with that address.
  unfoldable pub find_by_address : Text → List OnlinePeer → Option PeerPublic
  find_by_address ip_port [] = none
  find_by_address ip_port (o ∷ os) =
      if bytes_eq o.address ip_port then some o.keys else find_by_address ip_port os

  -- The peer of a punch: from its files, or else from the online cache, which is then pruned.
  unfoldable pub resolve_peer : ℤ → Bytes → Text → World D → Option PeerPublic × World D
  unfolding find_by_address
  resolve_peer now peer_hash ip_port w = elim (load_peer_data x.primitives w.disk peer_hash) [
    | ok who ↦ (some who, w)
    | err _ ↦
        let (r, w') = load_online_peers x now w in (find_by_address ip_port (unwrap_or r []), w')
  ]

  unfoldable pub back_online : ConnectIntent → ℕ → ConnectIntent
  unfolding rearm
  back_online i at =
      let i' = record i { online = true } in
      if ltb max_connect_attempts i'.attempts then rearm i' at else i'

  unfoldable pub handle_server_event : ℤ → ℕ → ServerEvent → ClientState D → ClientState D
  unfolding emit resolve_peer back_online
  handle_server_event now at (authenticated observed_address) s =
      emit (connected observed_address) s
  handle_server_event now at (relay_data_event sender_hash payload) s =
      elim (lookup sender_hash s.sessions) [
        | none ↦ s
        | some e ↦ elim e.relay_in [
          | none ↦ s
          | some queue ↦ record s {
            sessions =
                insert sender_hash (record e { relay_in = some (queue ++ payload ∷ []) })
                  s.sessions;
          }
        ]
      ]
  handle_server_event now at (peer_came_online hash _) s =
      emit (app_peer_online hash)
        (record s { intents = update hash (λ i. back_online i at) s.intents })
  handle_server_event now at (peer_went_offline hash) s =
      emit (app_peer_offline hash)
        (record s { intents = update hash (λ i. record i { online = false }) s.intents })
  handle_server_event now at (blob_stored sender_hash) s =
      emit (message_arrived sender_hash false) s
  handle_server_event now at (hole_punch_denied id reason) s =
      emit (app_hole_punch_denied id reason) s
  handle_server_event now at (punch_hole_event _ peer_hash ip_port punchtimestamp) s =
      let (found, w) = resolve_peer now peer_hash ip_port s.world in
      elim found [
        | none ↦ record s { world = w }
        | some who ↦ record s {
          world = w;
          spawned =
              s.spawned
              ++ record { peer = who; ip_port = ip_port; punchtimestamp = punchtimestamp } ∷ [];
        }
      ]
  handle_server_event now at disconnected s = s
