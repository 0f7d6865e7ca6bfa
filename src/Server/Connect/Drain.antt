-- ===== src/Server/Connect/Drain.antt =====
-- The drain of the pending blobs in `server_initial_handshake` of
-- crates/serverclient/src/handlers.rs.
use mathlib.Core.List.{append-nil, append_assoc}
use sechat_client.Base.{ℕ, ◌-◌, ◌≤◌, ◌≡◌, ◌∙◌, none, some, List, [], ◌∷◌, ◌++◌, arith, length, ok}
use sechat_client.Base.Bytes.{Bytes, Text}
use sechat_client.Base.Int.{ℤ}
use sechat_client.Server.Blobs.{process_blob}
use sechat_client.Server.Connect.{
  Frame, binary, Connection, parse_server_message, read_frame, send_message, ack_blob_now, drain,
}
use sechat_client.Server.Generators.{generate_ack_blob}
use sechat_client.Server.Services.{Services, World}
use sechat_client.Server.Structs.{
  ClientToServer, new_client_to_server, pending_blob, pending_blobs_end, ServerToClient,
  ServerEvent,
}

-- A blob that the relay keeps for the client.
pub record Pending : Type 0 where
  pub blob_id : Text
  pub blob : Bytes
  pub received_at : ℤ

module _ {D : Type 0} (x : Services D) (encode : ServerToClient → Bytes) (at : ℤ) where
  -- The frames of a drain: one for each blob, the end mark, and whatever follows.
  unfoldable pub pending_frames : List Pending → List Frame → List Frame
  pending_frames [] rest =
      binary (encode (record { payload = pending_blobs_end; timestamp = at })) ∷ rest
  pending_frames (p ∷ ps) rest =
      binary
        (encode (record { payload = pending_blob p.blob_id p.blob p.received_at; timestamp = at }))
      ∷ pending_frames ps rest

  unfoldable pub acks : ℤ → List Pending → List ClientToServer
  acks now [] = []
  acks now (p ∷ ps) = new_client_to_server (generate_ack_blob p.blob_id) none now ∷ acks now ps

  module _ (reads : (m : ServerToClient) → x.server_codec.from_slice (encode m) ≡ some m)
      (writes : (m : ClientToServer) → (b : Bytes) × (x.client_codec.to_vec m ≡ some b)) where
    pub send_ack :
        (now : ℤ) (i : Text) (c : Connection)
        → 1 ≤ c.writable
        → ack_blob_now x now i c ≡ (
          ok tt,
          record c {
            sent = c.sent ++ new_client_to_server (generate_ack_blob i) none now ∷ [];
            writable = c.writable - 1;
          },
        )
    unfolding ack_blob_now send_message
    send_ack now i c room =
        let (b, e) = writes (new_client_to_server (generate_ack_blob i) none now) in
        ground (arith, e)

    pub drain-acks :
        (nonces : ℕ → Bytes) (now : ℤ) (privkey : Bytes) (ps : List Pending) (rest : List Frame)
        (w : World D) (c : Connection) (ev : List ServerEvent)
        → length ps ≤ c.writable
        → ((drain x nonces now privkey (pending_frames ps rest) w c ev).0 ≡ ok tt)
          × ((drain x nonces now privkey (pending_frames ps rest) w c ev).2.sent
              ≡ c.sent ++ acks now ps)
          × ((drain x nonces now privkey (pending_frames ps rest) w c ev).2.incoming ≡ rest)
    unfolding drain read_frame parse_server_message pending_frames acks
    drain-acks nonces now privkey [] rest w c ev room =
        let m : ServerToClient = record { payload = pending_blobs_end; timestamp = at } in
        ground (arith, reads m, append-nil c.sent)
    drain-acks nonces now privkey (p ∷ ps) rest w c ev room =
        let m : ServerToClient = record {
          payload = pending_blob p.blob_id p.blob p.received_at;
          timestamp = at;
        } in
        let (_, d, events) =
          process_blob x (nonces (length (pending_frames ps rest))) now p.blob privkey w.disk in
        let ack = new_client_to_server (generate_ack_blob p.blob_id) none now in
        let c' = record c { sent = c.sent ++ ack ∷ []; writable = c.writable - 1 } in
        let (a, b, e) =
          drain-acks nonces now privkey ps rest (record w { disk = d }) c' (ev ++ events)
            (omega arith) in
        ground (
          arith,
          reads m,
          send_ack now p.blob_id c (omega arith),
          a,
          b ∙ append_assoc c.sent (ack ∷ []) (acks now ps),
          e,
        )
