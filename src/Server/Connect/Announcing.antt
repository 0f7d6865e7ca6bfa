-- ===== src/Server/Connect/Announcing.antt =====
-- The whole of `server_initial_handshake` of crates/serverclient/src/handlers.rs on a connection
-- that works.
use mathlib.Core.List.{append_assoc}
use sechat_client.Base.{
  ℕ, ◌+◌, ◌-◌, ◌≤◌, ◌≡◌, ap, ◌∙◌, false, Option, none, some, List, [], ◌∷◌, ◌++◌, arith, length,
  length-append, ok,
}
use sechat_client.Base.Bytes.{Bytes, Text}
use sechat_client.Base.Int.{ℤ}
use sechat_client.Crypto.Peers.{load_peers}
use sechat_client.Crypto.Types.{PeerPublic, Keys}
use sechat_client.Server.Blobs.{process_blob}
use sechat_client.Server.Blobs.Events.{process_blob-events}
use sechat_client.Server.Connect.{
  Frame, binary, Connection, Step, parse_server_message, read_frame, receive_message, drain,
  observed_by, announced, announce_all, server_initial_handshake,
}
use sechat_client.Server.Connect.Drain.{Pending, pending_frames, acks, send_ack, drain-acks}
use sechat_client.Server.Connect.Sending.{
  announcements, introduction, send_message-written, announce_peers-sent,
}
use sechat_client.Server.Generators.{generate_authenticate_message, generate_ack_blob}
use sechat_client.Server.Presence.{get_or_set_my_address}
use sechat_client.Server.Services.{Services, ServicesLaws, World}
use sechat_client.Server.Structs.{
  ClientToServer, new_client_to_server, auth_ok, pending_blob, pending_blobs_end, ServerToClient,
  ServerEvent, authenticated,
}

module _ {D : Type 0} (x : Services D) (laws : ServicesLaws x)
    (writes : (m : ClientToServer) → (b : Bytes) × (x.client_codec.to_vec m ≡ some b))
    (encode : ServerToClient → Bytes) (at : ℤ)
    (reads : (m : ServerToClient) → x.server_codec.from_slice (encode m) ≡ some m) where
  drain-room :
      (nonces : ℕ → Bytes) (now : ℤ) (privkey : Bytes) (ps : List Pending) (rest : List Frame)
      (w : World D) (c : Connection) (ev : List ServerEvent)
      → length ps ≤ c.writable
      → let r = drain x nonces now privkey (pending_frames x encode at ps rest) w c ev in
        (r.1.my_address ≡ w.my_address)
        × (r.2.writable ≡ c.writable - length ps)
        × (length r.3 ≤ length ev + length ps)
  unfolding drain read_frame parse_server_message pending_frames
  drain-room nonces now privkey [] rest w c ev room =
      let m : ServerToClient = record { payload = pending_blobs_end; timestamp = at } in
      ground (arith, reads m)
  drain-room nonces now privkey (p ∷ ps) rest w c ev room =
      let m : ServerToClient = record {
        payload = pending_blob p.blob_id p.blob p.received_at;
        timestamp = at;
      } in
      let (_, d, events) =
        process_blob x (nonces (length (pending_frames x encode at ps rest))) now p.blob privkey
          w.disk in
      let ack = new_client_to_server (generate_ack_blob p.blob_id) none now in
      let c' = record c { sent = c.sent ++ ack ∷ []; writable = c.writable - 1 } in
      let (a, b, n) =
        drain-room nonces now privkey ps rest (record w { disk = d }) c' (ev ++ events)
          (omega arith) in
      let bound : length
            (drain x nonces now privkey (pending_frames x encode at ps rest) (record w { disk = d })
              c' (ev ++ events)).3
          ≤ length ev + length (p ∷ ps) =
        omega (
          arith,
          n,
          length-append ev events,
          process_blob-events x (nonces (length (pending_frames x encode at ps rest))) now p.blob
              privkey w.disk,
        ) in
      ground (
        arith,
        reads m,
        send_ack x encode at reads writes now p.blob_id c (omega arith),
        a,
        b,
        bound,
      )

  -- The handshake up to the end mark, and the announcements after it.
  abbrev after_drain : ℤ → Keys → Text → Step (Unit {0}) D → Step Text D
  after_drain now keys observed (_, w, c, ev) =
      let (r, c') = announce_all x keys.x25519_priv now observed w c in (r, w, c', ev)

  abbrev greeted : ℤ → Keys → List Pending → List Frame → Connection → Connection
  greeted now keys ps rest c = record {
    incoming = pending_frames x encode at ps rest;
    sent = c.sent ++ introduction x keys now ∷ [];
    writable = c.writable - 1;
  }

  server_initial_handshake-greeted :
      (nonces : ℕ → Bytes) (now : ℤ) (keys : Keys) (udp_port : ℕ) (announce_override : Option Text)
      (observed : Text) (ps : List Pending) (rest : List Frame) (w : World D) (c : Connection)
      → c.incoming
        ≡ binary (encode (record { payload = auth_ok observed; timestamp = at }))
          ∷ pending_frames x encode at ps rest
      → 1 + length ps ≤ c.writable
      → w.address_poisoned ≡ false
      → server_initial_handshake x nonces now keys udp_port announce_override w c
        ≡ after_drain now keys observed (
            drain x nonces now keys.x25519_priv
              (pending_frames x encode at ps rest)
              (record w { my_address = some (announced x announce_override udp_port observed) })
              (greeted now keys ps rest c)
              (authenticated observed ∷ []))
  unfolding server_initial_handshake generate_authenticate_message receive_message read_frame
      parse_server_message observed_by get_or_set_my_address
  server_initial_handshake-greeted nonces now keys udp_port announce_override observed ps rest w c
        arrives room healthy =
      let m : ServerToClient = record { payload = auth_ok observed; timestamp = at } in
      let w₂ = record w { my_address = some (announced x announce_override udp_port observed) } in
      let (a, _, _) =
        drain-acks x encode at reads writes nonces now keys.x25519_priv ps rest w₂
          (greeted now keys ps rest c) (authenticated observed ∷ []) (omega arith) in
      ground (
        arith,
        arrives,
        reads m,
        send_message-written x laws writes (introduction x keys now) c (omega arith),
        healthy,
        a,
      )

  -- The relay accepts the authentication with the address that it observed, delivers blobs and
  -- the end mark, and takes as many messages as are sent; the peers can be loaded after the
  -- blobs are processed, and the lock of the client's address is not poisoned. Then the handshake
  -- succeeds. It sends the authentication, one acknowledgement for each blob and one announcement
  -- to each peer, in this order. It announces the observed address, while the address that it
  -- keeps as its own is the one from the STUN server or, without one, the observed host with the
  -- local port. It hands over one event, and at most one more for each blob.
  pub server_initial_handshake-announces :
      (nonces : ℕ → Bytes) (now : ℤ) (keys : Keys) (udp_port : ℕ) (announce_override : Option Text)
      (observed : Text) (ps : List Pending) (rest : List Frame) (w : World D) (c : Connection)
      (peers : List PeerPublic)
      → c.incoming
        ≡ binary (encode (record { payload = auth_ok observed; timestamp = at }))
          ∷ pending_frames x encode at ps rest
      → 1 + length ps + length peers ≤ c.writable
      → w.address_poisoned ≡ false
      → load_peers x.primitives
          (server_initial_handshake x nonces now keys udp_port announce_override w c).1.disk
        ≡ ok peers
      → let (r, w', c', ev) =
          server_initial_handshake x nonces now keys udp_port announce_override w c in
        (r ≡ ok observed)
        × (c'.sent
            ≡ c.sent
              ++ introduction x keys now
                ∷ (acks x encode at now ps ++ announcements x keys.x25519_priv now observed peers))
        × (c'.incoming ≡ rest)
        × (w'.my_address ≡ some (announced x announce_override udp_port observed))
        × (length ev ≤ 1 + length ps)
  unfolding announce_all
  server_initial_handshake-announces nonces now keys udp_port announce_override observed ps rest w c
        peers arrives room healthy loaded =
      let c₂ = greeted now keys ps rest c in
      let w₂ = record w { my_address = some (announced x announce_override udp_port observed) } in
      let ev = authenticated observed ∷ [] in
      let whole =
        server_initial_handshake-greeted nonces now keys udp_port announce_override observed ps rest
          w c arrives (omega arith) healthy in
      let (a, b, e) =
        drain-acks x encode at reads writes nonces now keys.x25519_priv ps rest w₂ c₂ ev
          (omega arith) in
      let (own, left, few) =
        drain-room nonces now keys.x25519_priv ps rest w₂ c₂ ev (omega arith) in
      let c₃ =
        (drain x nonces now keys.x25519_priv (pending_frames x encode at ps rest) w₂ c₂ ev).2 in
      let (f, g, h) =
        announce_peers-sent x laws writes keys.x25519_priv now observed peers c₃
          (omega (arith, left)) in
      let told = announcements x keys.x25519_priv now observed peers in
      let acked = acks x encode at now ps in
      let hello = introduction x keys now ∷ [] in
      let regroup =
        append_assoc (c.sent ++ hello) acked told ∙ append_assoc c.sent hello (acked ++ told) in
      ground (arith, whole, loaded, f, g ∙ ap (λ l. l ++ told) b ∙ regroup, h ∙ e, own, few)
