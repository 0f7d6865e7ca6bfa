-- ===== src/P2p/Session/Delivery.antt =====
-- The two ends of a session of crates/p2p/src/lib.rs: their keys, and frames on their way.
use mathlib.Core.Option
use sechat_client.Base.{
  ℕ, suc, ◌+◌, ◌-◌, ◌^◌, ◌≤◌, ◌<◌, ◌≡◌, refl, inl, inr, true, false, Option, none, some, List, [],
  ◌∷◌, arith, Option-cases, length,
}
use sechat_client.Base.Bytes.{Bytes, Text}
use sechat_client.Base.Int.{ℤ, pos, ◌≤ℤ◌, ◌<ℤ◌, to_u64, add_i64}
use sechat_client.Crypto.Chat.{
  encrypt_message_for_chat, decrypt-encrypt_for_chat, encrypt_for_chat_total,
}
use sechat_client.Crypto.Derive.{derive_directional_key}
use sechat_client.Crypto.Primitives.{Primitives, PrimitiveLaws, Codec, CodecLaws}
use sechat_client.P2p.Fresh.{frame_is_fresh}
use sechat_client.P2p.Handshake.{frame}
use sechat_client.P2p.Message.{
  P2PMessage, chat_message, heart_beat, PeerMessage, new_peer_message, verify-new_peer_message,
}
use sechat_client.P2p.Session.{
  SessionEvent, message, closed, Arrival, Outgoing, outgoing_text, heartbeat, a2b, b2a,
  session_keys, handle_chat, handle_inbound_frame, receive_relay, send_relay,
}

-- What the sending task takes up: a text or a heartbeat, with the time at which it is sent, the
-- time at which the other end reads its frame, and the address that it comes from.
pub record Passage : Type 0 where
  pub sent_at : ℤ
  pub read_at : ℤ
  pub from : Text
  -- `none` is a heartbeat
  pub content : Option Text

-- Texts that can be encrypted, and times that are fresh when the frame is read.
abbrev pub Sendable : Primitives → List Passage → Type 0
Sendable p [] = Unit
Sendable p (m ∷ rest) =
    (length (p.as_bytes (Option.get_or m.content [])) ≤ 1000000)
    × (frame_is_fresh m.sent_at m.read_at ≡ true)
    × Sendable p rest

abbrev pub outgoing : List Passage → List (ℤ × Outgoing)
outgoing [] = []
outgoing (m ∷ rest) =
    (m.sent_at, elim m.content [ none ↦ heartbeat | some t ↦ outgoing_text t ]) ∷ outgoing rest

abbrev pub expected_events : List Passage → List SessionEvent
expected_events [] = closed ∷ []
expected_events (m ∷ rest) = elim m.content [
  | none ↦ expected_events rest
  | some t ↦ message t m.sent_at ∷ expected_events rest
]

-- The frames as they are read at the other end, one for each input.
abbrev pub arrivals : List Passage → List Bytes → List Arrival
arrivals ms [] = []
arrivals [] (b ∷ bs) = []
arrivals (m ∷ ms) (b ∷ bs) = record { source = m.from; bytes = b; now = m.read_at } ∷ arrivals ms bs

module _ (p : Primitives) (c : Codec PeerMessage) (laws : PrimitiveLaws p) (cl : CodecLaws c) where
  -- For every session key both ends derive two keys, and the sending key of the end that is
  -- first is the receiving key of the other, and the other way round.
  pub session_keys_crossed :
      (session_key : Bytes)
      → (k : Bytes) × (k' : Bytes) × (session_keys p c session_key true ≡ some (k, k'))
        × (session_keys p c session_key false ≡ some (k', k))
  unfolding session_keys derive_directional_key
  session_keys_crossed session_key =
      let (k, e, _) = laws.hkdf_total session_key a2b 32 (omega arith) in
      let (k', e', _) = laws.hkdf_total session_key b2a 32 (omega arith) in
      (k, k', ground arith, ground arith)

  module _ (encodes : (m : PeerMessage) → (b : Bytes) × (c.to_vec m ≡ some b))
      (key my_pub my_signing : Bytes) where
    -- A frame with the next counter is taken.
    chat_frame_taken :
        (n : ℕ) (last now when : ℤ) (t : Text) (cipher b : Bytes)
        → n < 2 ^ 63
        → last <ℤ pos n
        → encrypt_message_for_chat p t key (to_u64 (pos n)) ≡ some cipher
        → frame p c (chat_message (pos n) cipher) my_pub my_signing now ≡ some b
        → frame_is_fresh now when ≡ true
        → handle_inbound_frame p c key my_pub (p.ed25519_verifying my_signing) true b when last
          ≡ some (record { keep = true; last_counter = pos n; events = message t now ∷ [] })
    unfolding handle_inbound_frame handle_chat frame new_peer_message
    chat_frame_taken n last now when t cipher b bound above enc framed fresh =
        let m = new_peer_message p (chat_message (pos n) cipher) my_pub my_signing now in
        ground (
          arith,
          cl.from_slice-to_vec m b framed,
          verify-new_peer_message p laws (chat_message (pos n) cipher) my_pub my_signing now,
          decrypt-encrypt_for_chat p laws t key (to_u64 (pos n)) cipher enc,
        )

    next_counter : (n : ℕ) → suc n < 2 ^ 63 → add_i64 (pos n) (pos 1) ≡ pos (suc n)
    unfolding add_i64
    next_counter n h = ground arith

    framed_total :
        (payload : P2PMessage) (now : ℤ)
        → (b : Bytes) × (frame p c payload my_pub my_signing now ≡ some b)
    unfolding frame
    framed_total payload now = encodes (new_peer_message p payload my_pub my_signing now)

    -- A heartbeat is taken and changes nothing.
    heartbeat_taken :
        (last now when : ℤ) (b : Bytes)
        → frame p c heart_beat my_pub my_signing now ≡ some b
        → frame_is_fresh now when ≡ true
        → handle_inbound_frame p c key my_pub (p.ed25519_verifying my_signing) true b when last
          ≡ some (record { keep = true; last_counter = last; events = [] })
    unfolding handle_inbound_frame frame new_peer_message
    heartbeat_taken last now when b framed fresh =
        let m = new_peer_message p heart_beat my_pub my_signing now in
        ground (
          arith,
          cl.from_slice-to_vec m b framed,
          verify-new_peer_message p laws heart_beat my_pub my_signing now,
        )

    -- The sending task takes texts and heartbeats, each at its own time; every frame arrives in
    -- order and is read at a time of its own within the window, while the receiver's events are
    -- listened to. Each text has at most a million bytes, the channel has room for all frames, every
    -- frame can be encoded, and the counters stay below 2 ^ 63 and start no lower than the
    -- receiver's last one. Then the receiving task hands over every text, once, in order, with the
    -- time at which it was sent, and then the end of the session; heartbeats leave no trace.
    pub receive-send_relay :
        (ms : List Passage) (room n : ℕ) (last : ℤ)
        → length ms ≤ room
        → n + length ms < 2 ^ 63
        → last ≤ℤ pos n
        → Sendable p ms
        → receive_relay p c key my_pub
            (p.ed25519_verifying my_signing)
            true
            (arrivals ms (send_relay p c key my_pub my_signing room (outgoing ms) (pos n)))
            last
          ≡ expected_events ms
    unfolding receive_relay send_relay
    receive-send_relay [] room n last hr hn hl hs = refl
    receive-send_relay (m ∷ rest) room n last hr hn hl (short, fresh, hs) =
        elim (Option-cases m.content) [
          | inl beat ↦
              let (b, framed) = framed_total heart_beat m.sent_at in
              let taken = heartbeat_taken last m.sent_at m.read_at b framed fresh in
              let ih =
                receive-send_relay rest (room - 1) n last (omega arith) (omega arith) hl hs in
              ground (arith, beat, framed, taken, ih)
          | inr (t, content) ↦
              let short_text : length (p.as_bytes t) ≤ 1000000 = ground (arith, short, content) in
              let next = next_counter n (omega arith) in
              let (cipher, enc) =
                encrypt_for_chat_total p laws t key (to_u64 (pos (suc n))) short_text in
              let (b, framed) = framed_total (chat_message (pos (suc n)) cipher) m.sent_at in
              let taken =
                chat_frame_taken (suc n) last m.sent_at m.read_at t cipher b (omega arith)
                  (omega arith) enc framed fresh in
              let ih =
                receive-send_relay rest (room - 1) (suc n) (pos (suc n)) (omega arith) (omega arith)
                  (omega arith) hs in
              ground (arith, content, next, enc, framed, taken, ih)
        ]
