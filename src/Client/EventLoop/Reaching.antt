-- ===== src/Client/EventLoop/Reaching.antt =====
-- A connection of `orchestrate` of crates/client/src/lib.rs to a relay that answers.
use sechat_client.Base.{
  ℕ, ◌+◌, ◌≤◌, ◌<◌, ◌≡◌, refl, Bool, true, false, Option, some, List, [], ◌∷◌, ◌++◌, arith, length,
  ok,
}
use sechat_client.Base.Bytes.{Bytes, Text}
use sechat_client.Base.Int.{ℤ}
use sechat_client.Client.Connect.Events.{told}
use sechat_client.Client.EventLoop.{offline, online, EventLoop, round_at, round}
use sechat_client.Client.EventLoop.Connecting.{Network, relay_url, public_address, reach_relay}
use sechat_client.Crypto.Peers.{load_peers}
use sechat_client.Crypto.Primitives.{Codec}
use sechat_client.Crypto.Types.{PeerPublic, Keys}
use sechat_client.P2p.Punch.{StunPing}
use sechat_client.Server.Connect.{Frame, binary, Connection, announced, server_initial_handshake}
use sechat_client.Server.Connect.Announcing.{server_initial_handshake-announces}
use sechat_client.Server.Connect.Drain.{Pending, pending_frames, acks}
use sechat_client.Server.Connect.Sending.{announcements, introduction}
use sechat_client.Server.Loops.{Pipeline, spawn_tasks, run_client}
use sechat_client.Server.Services.{Services, ServicesLaws}
use sechat_client.Server.Structs.{ClientToServer, auth_ok, ServerToClient}

module _ {D : Type 0} (x : Services D) (laws : ServicesLaws x)
    (writes : (m : ClientToServer) → (b : Bytes) × (x.client_codec.to_vec m ≡ some b))
    (encode : ServerToClient → Bytes) (at : ℤ)
    (reads : (m : ServerToClient) → x.server_codec.from_slice (encode m) ≡ some m)
    (ping_codec : Codec StunPing) (reply_codec : Codec Text) (keys : Keys) (network : Network)
    (env : Option Text) (insecure : Bool) where
  -- The client is offline, and the relay can be reached. It accepts the authentication with the
  -- address that it observed, delivers fewer than 100 blobs and the end mark, and takes as many
  -- messages as are sent; the peers can be loaded after the blobs are processed, and the lock of the
  -- client's address is not poisoned. Then the attempt returns, the client is online, the next delay
  -- is one second, and the tasks of the connection start. The authentication, one acknowledgement
  -- for each blob and one announcement to each peer were sent, in this order. The announcements
  -- carry the address that the relay observed, while the client keeps as its own the public address
  -- that the STUN server told or, without one, the observed host with the local port.
  pub reach_relay-announces :
      (nonces : ℕ → Bytes) (now : ℤ) (udp_port : ℕ) (l : EventLoop D) (c : Connection)
      (observed : Text) (ps : List Pending) (rest : List Frame) (peers : List PeerPublic)
      → l.stage ≡ offline
      → network.dial (relay_url insecure l.server_address) ≡ ok c
      → c.incoming
        ≡ binary (encode (record { payload = auth_ok observed; timestamp = at }))
          ∷ pending_frames x encode at ps rest
      → length ps < 100
      → 1 + length ps + length peers ≤ c.writable
      → l.client.world.address_poisoned ≡ false
      → load_peers x.primitives
          (server_initial_handshake x nonces now keys udp_port
            (public_address x ping_codec reply_codec keys network env now l.server_address)
            l.client.world
            c).1.disk
        ≡ ok peers
      → (tasks : Pipeline D) × (l' : EventLoop D) × (reach_relay x ping_codec reply_codec keys
            network env insecure nonces now udp_port l
          ≡ some (some tasks, l'))
        × (l'.stage ≡ online)
        × (l'.backoff_secs ≡ 1)
        × (l'.client.world.my_address
            ≡ some (
                announced x
                  (public_address x ping_codec reply_codec keys network env now l.server_address)
                  udp_port
                  observed))
        × (tasks.sent
            ≡ c.sent
              ++ introduction x keys now
                ∷ (acks x encode at now ps ++ announcements x keys.x25519_priv now observed peers))
        × (tasks.incoming ≡ rest)
  unfolding reach_relay run_client spawn_tasks round round_at
  reach_relay-announces nonces now udp_port l c observed ps rest peers idle reached arrives few room
        healthy loaded =
      let public = public_address x ping_codec reply_codec keys network env now l.server_address in
      let (_, w, c', events) =
        server_initial_handshake x nonces now keys udp_port public l.client.world c in
      let s = l.client in
      let (settled, sent, left, own, told) =
        server_initial_handshake-announces x laws writes encode at reads nonces now keys udp_port
          public observed ps rest l.client.world c peers arrives room healthy loaded in
      let tasks = record (spawn_tasks x keys.x25519_priv w c') { events = events } in
      let l' = record l {
        client = record s { world = w; link = record { is_open = true; sent = [] } };
        stage = online;
        backoff_secs = 1;
      } in
      (tasks, l', ground (arith, idle, reached, settled, told), refl, refl, own, sent, left)
