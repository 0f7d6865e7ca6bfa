-- ===== src/P2p/Session/Replay.antt =====
-- The last counter of a session of crates/p2p/src/lib.rs, and frames that come again.
use sechat_client.Base.{
  ◌≡◌, refl, ◌≢◌, inl, inr, Bool, true, some, [], ◌∷◌, arith, Option-cases, ok,
}
use sechat_client.Base.Bytes.{Bytes, Text}
use sechat_client.Base.Int.{ℤ, ◌≤ℤ◌, ◌<ℤ◌, to_u64}
use sechat_client.Crypto.Chat.{decrypt_message_from_chat}
use sechat_client.Crypto.Primitives.{Primitives, Codec}
use sechat_client.P2p.Fresh.{frame_is_fresh}
use sechat_client.P2p.Message.{
  P2PMessage, init, chat_message, heart_beat, sync_request, sync_response, end_message, PeerMessage,
  signed_bytes, verify, verify_lem,
}
use sechat_client.P2p.Session.{Inbound, message, handle_chat, handle_inbound_frame}

module _ (p : Primitives) (c : Codec PeerMessage) (recv_key peer_x verifying : Bytes)
    (evt_open : Bool) where
  -- A frame never lowers the last counter.
  pub last_counter_mono :
      (bytes : Bytes) (now last : ℤ) (r : Inbound)
      → handle_inbound_frame p c recv_key peer_x verifying evt_open bytes now last ≡ some r
      → last ≤ℤ r.last_counter
  unfolding handle_inbound_frame handle_chat
  last_counter_mono bytes now last r h = ground arith

  -- Once a frame has given a message, the same bytes give none at any later point of the session,
  -- whenever they are read: they leave the last counter as it is, and send no event.
  pub replay_refused :
      (bytes : Bytes) (now last now' last' : ℤ) (r r' : Inbound)
      → handle_inbound_frame p c recv_key peer_x verifying evt_open bytes now last ≡ some r
      → r.events ≢ []
      → r.last_counter ≤ℤ last'
      → handle_inbound_frame p c recv_key peer_x verifying evt_open bytes now' last' ≡ some r'
      → (r'.events ≡ []) × (r'.last_counter ≡ last')
  unfolding handle_inbound_frame handle_chat
  replay_refused bytes now last now' last' r r' h accepted later h' = ground arith

  -- A message comes only out of a frame that names the peer's key as its sender, whose signature
  -- holds over the sender, the time and the payload, that is within the window, and whose text
  -- decrypts under its counter, and that counter is above the last one and becomes the last
  -- one.
  pub accepted_frame :
      (bytes : Bytes) (now last ts : ℤ) (t : Text) (r : Inbound)
      → handle_inbound_frame p c recv_key peer_x verifying evt_open bytes now last ≡ some r
      → r.events ≡ message t ts ∷ []
      → (pm : PeerMessage) × (n : ℤ) × (m : Bytes) × (c.from_slice bytes ≡ some pm)
        × (verify p pm peer_x verifying ≡ true)
        × (pm.sender ≡ peer_x)
        × (p.ed25519_verify verifying (signed_bytes pm.sender pm.timestamp pm.payload) pm.signature
            ≡ true)
        × (frame_is_fresh pm.timestamp now ≡ true)
        × (pm.payload ≡ chat_message n m)
        × (pm.timestamp ≡ ts)
        × (last <ℤ n)
        × (r.last_counter ≡ n)
        × (decrypt_message_from_chat p m recv_key (to_u64 n) ≡ some (ok t))
  unfolding handle_inbound_frame handle_chat
  accepted_frame bytes now last ts t r h e = elim (Option-cases (c.from_slice bytes)) [
    | inl undecodable ↦ absurd (ground arith)
    | inr (pm, decoded) ↦ from_payload pm decoded pm.payload refl
  ]
    where
      from_payload :
          (pm : PeerMessage)
          → c.from_slice bytes ≡ some pm
          → (payload : P2PMessage) → pm.payload ≡ payload
          → (pm : PeerMessage) × (n : ℤ) × (m : Bytes) × (c.from_slice bytes ≡ some pm)
            × (verify p pm peer_x verifying ≡ true)
            × (pm.sender ≡ peer_x)
            × (p.ed25519_verify verifying
                  (signed_bytes pm.sender pm.timestamp pm.payload)
                  pm.signature
                ≡ true)
            × (frame_is_fresh pm.timestamp now ≡ true)
            × (pm.payload ≡ chat_message n m)
            × (pm.timestamp ≡ ts)
            × (last <ℤ n)
            × (r.last_counter ≡ n)
            × (decrypt_message_from_chat p m recv_key (to_u64 n) ≡ some (ok t))
      from_payload pm decoded (chat_message n m) ep = (
        pm,
        n,
        m,
        decoded,
        ground arith,
        (verify_lem p pm peer_x verifying (ground arith)).0,
        (verify_lem p pm peer_x verifying (ground arith)).1,
        ground arith,
        ep,
        ground arith,
        ground arith,
        ground arith,
        ground arith,
      )
      from_payload pm decoded (init k) ep = absurd (ground arith)
      from_payload pm decoded heart_beat ep = absurd (ground arith)
      from_payload pm decoded (sync_request n) ep = absurd (ground arith)
      from_payload pm decoded (sync_response m) ep = absurd (ground arith)
      from_payload pm decoded end_message ep = absurd (ground arith)
