-- ===== src/Server/Presence.antt =====
-- The presence cache and the announced address of crates/serverclient/src/lib.rs.
use sechat_client.Base.{Option, none, some, List, [], ◌∷◌, if◌then◌else◌, Result, ok, err}
use sechat_client.Base.Bytes.{Bytes, Text, text, bytes_eq}
use sechat_client.Base.Int.{ℤ, pos, leb_ℤ, sub_i64}
use sechat_client.Crypto.Peers.{load_peer_data}
use sechat_client.Crypto.Types.{PeerPublic}
use sechat_client.Server.Generators.{generate_peer_hash}
use sechat_client.Server.Services.{Services, OnlinePeer, World}
use sechat_client.Server.Structs.{ClientErrors, unknown_peer, peer_load_failed, peer_save_failed}

abbrev pub online_ttl_secs : ℤ
online_ttl_secs = pos 35

-- `retain` of the entries that were seen within the time to live.
unfoldable pub retain_live : ℤ → List OnlinePeer → List OnlinePeer
retain_live now [] = []
retain_live now (o ∷ os) =
    let rest = retain_live now os in
    if leb_ℤ (sub_i64 now o.last_seen) online_ttl_secs then o ∷ rest else rest

module _ {D : Type 0} (x : Services D) where
  unfoldable pub load_online_peers : ℤ → World D → Result ClientErrors (List OnlinePeer) × World D
  load_online_peers now w =
      if w.peers_poisoned
      then (err (peer_load_failed (text "lock poisoned")), w)
      else (ok (retain_live now w.online), record w { online = retain_live now w.online })

  -- The first entry of that identity gets the address and the time; a new one goes to the end.
  unfoldable pub upsert_online : Bytes → PeerPublic → Text → ℤ → List OnlinePeer → List OnlinePeer
  upsert_online hash peer_data ip_port now [] =
      record { keys = peer_data; address = ip_port; last_seen = now } ∷ []
  upsert_online hash peer_data ip_port now (o ∷ os) =
      if bytes_eq (generate_peer_hash x o.keys) hash
      then record o { address = ip_port; last_seen = now } ∷ os
      else o ∷ upsert_online hash peer_data ip_port now os

  unfoldable pub append_online_peer :
      Bytes → Text → ℤ → World D → Result ClientErrors (Unit {0}) × World D
  append_online_peer hash ip_port now w = elim (load_peer_data x.primitives w.disk hash) [
    | err e ↦ (err unknown_peer, w)
    | ok peer_data ↦
        if w.peers_poisoned
        then (err (peer_save_failed (text "lock poisoned")), w)
        else (ok tt, record w { online = upsert_online hash peer_data ip_port now w.online })
  ]

  unfoldable pub drop_online : Bytes → List OnlinePeer → List OnlinePeer
  drop_online hash [] = []
  drop_online hash (o ∷ os) =
      let rest = drop_online hash os in
      if bytes_eq (generate_peer_hash x o.keys) hash then rest else o ∷ rest

  unfoldable pub remove_online_peer : Bytes → World D → Result ClientErrors (Unit {0}) × World D
  remove_online_peer hash w =
      if w.peers_poisoned
      then (err (peer_save_failed (text "lock poisoned")), w)
      else (ok tt, record w { online = drop_online hash w.online })

unfoldable pub get_or_set_my_address : {D : Type 0} → Option Text → World D → Option Text × World D
get_or_set_my_address new_address w = if w.address_poisoned then (none, w) else elim new_address [
  | some addr ↦ (some addr, record w { my_address = some addr })
  | none ↦ (w.my_address, w)
]
