-- ===== src/Tests/SessionRuns.antt =====
-- Runs of the handshakes and of a session over the relay.
use mathlib.Core.Option
use sechat_client.Base.{
  ◌-◌, ◌^◌, ◌≤◌, ◌≡◌, refl, ◌↔◌, ◌⊎◌, true, none, some, List, [], ◌∷◌, ◌++◌, arith, get_or, ok,
}
use sechat_client.Base.Bytes.{Bytes, text, bytes_eq, le_bytes}
use sechat_client.Base.Int.{
  ℤ, pos, ◌+ℤ◌, ◌-ℤ◌, ◌<ℤ◌, to_u64, of_u64, add_i64, sub_i64, abs_i64, dist,
}
use sechat_client.Crypto.Chat.{chat_keys, encrypt_message_for_chat, decrypt_message_from_chat}
use sechat_client.Crypto.Chat.Nonce.{xor_bytes, nonce_for_message}
use sechat_client.Crypto.Derive.{verify_challenge, sign_challenge}
use sechat_client.Crypto.Primitives.{Codec, CodecLaws}
use sechat_client.P2p.Fresh.{frame_is_fresh, frame_is_fresh_iff}
use sechat_client.P2p.Handshake.{frame}
use sechat_client.P2p.Message.{
  init, chat_message, PeerMessage, payload_bytes, signed_bytes, new_peer_message, verify,
}
use sechat_client.P2p.Punch.{
  punch_hole, Ping, PunchInput, tick, datagram, is_ping_of, KeepsWaiting, punch_hole_source,
}
use sechat_client.P2p.Session.{
  Inbound, message, closed, Arrival, handle_chat, handle_inbound_frame, receive_relay, send_relay,
  send_direct,
}
use sechat_client.P2p.Session.Delivery.{Passage, outgoing, arrivals, receive-send_relay}
use sechat_client.P2p.Session.Replay.{replay_refused, accepted_frame}
use sechat_client.Tests.Toy.{fit, mix, tag, open_tagged, toy, toy_laws}
use sechat_client.Tests.Wire.{
  wire, unwire, pack, unpack, put, get, packed, packed_laws, payload_fields, payload_of,
  frame_fields, frame_of, frame_of-frame_fields,
}
use sechat_client.Tests.World.{alice_signing, bob_signing, alice, bob}

abbrev pub codec : Codec PeerMessage
codec = packed frame_fields frame_of

abbrev pub codec_laws : CodecLaws codec
codec_laws = packed_laws frame_fields frame_of frame_of-frame_fields

abbrev session_key : Bytes
session_key = fit 32 (1 ∷ 2 ∷ 3 ∷ [])

-- Two texts with a heartbeat in between, over six minutes.
abbrev passages : List Passage
passages =
    record { sent_at = pos 1000; read_at = pos 1002; from = text "a:1"; content = some (text "hi") }
    ∷ record { sent_at = pos 1015; read_at = pos 1020; from = text "a:1"; content = none }
    ∷ record {
      sent_at = pos 1360;
      read_at = pos 1361;
      from = text "b:2";
      content = some (text "you");
    }
    ∷ []

abbrev sent_frames : List Bytes
sent_frames =
    send_relay toy codec session_key alice.public alice_signing 4 (outgoing passages) (pos 0)

pub encodes : (m : PeerMessage) → (b : Bytes) × (codec.to_vec m ≡ some b)
unfolding packed
encodes m = (pack (frame_fields m), refl)

receive-send_relay_example :
    receive_relay toy codec session_key alice.public alice.verifying true
      (arrivals passages sent_frames)
      (pos 0)
    ≡ message (text "hi") (pos 1000) ∷ message (text "you") (pos 1360) ∷ closed ∷ []
unfolding toy text frame_is_fresh abs_i64
receive-send_relay_example =
    receive-send_relay toy codec toy_laws codec_laws encodes session_key alice.public alice_signing
      passages 4 0 (pos 0) (omega arith) (omega arith) (omega arith)
      (omega arith, refl, (omega arith, refl, (omega arith, refl, tt)))

-- The same over the socket, with a datagram of a stranger first.
abbrev datagrams : List Passage
datagrams =
    record { sent_at = pos 1000; read_at = pos 1002; from = text "a:1"; content = some (text "hi") }
    ∷ record {
      sent_at = pos 1360;
      read_at = pos 1361;
      from = text "a:1";
      content = some (text "you");
    }
    ∷ []

abbrev heard : List Arrival
heard =
    record { source = text "b:2"; bytes = []; now = pos 1001 }
    ∷ arrivals datagrams (
        send_direct toy codec session_key alice.public alice_signing 4 (outgoing datagrams) (pos 0))

-- The frame with the first message, as Bob reads it.
abbrev chat_bytes : Bytes
chat_bytes = get_or sent_frames 0 []

abbrev after_chat : Inbound
after_chat = record {
  keep = true;
  last_counter = pos 1;
  events = message (text "hi") (pos 1000) ∷ [];
}

abbrev after_replay : Inbound
after_replay = record { keep = true; last_counter = pos 4; events = [] }

taken :
    handle_inbound_frame toy codec session_key alice.public alice.verifying true chat_bytes
      (pos 1002)
      (pos 0)
    ≡ some after_chat
unfolding handle_inbound_frame packed frame_of unpack send_relay encrypt_message_for_chat chat_keys
    toy frame pack unwire frame_fields wire put new_peer_message fit payload_of bytes_eq le_bytes
    text abs_i64 add_i64 of_u64 sub_i64 to_u64 ◌+ℤ◌ ◌-ℤ◌ nonce_for_message xor_bytes
    decrypt_message_from_chat sign_challenge verify_challenge frame_is_fresh payload_bytes
    signed_bytes verify handle_chat mix open_tagged tag get payload_fields
taken = refl

refused :
    handle_inbound_frame toy codec session_key alice.public alice.verifying true chat_bytes
      (pos 1003)
      (pos 4)
    ≡ some (after_replay)
unfolding handle_inbound_frame packed frame_of unpack send_relay encrypt_message_for_chat chat_keys
    toy frame pack unwire frame_fields wire put new_peer_message fit payload_of bytes_eq le_bytes
    text abs_i64 add_i64 of_u64 sub_i64 to_u64 ◌+ℤ◌ ◌-ℤ◌ nonce_for_message xor_bytes
    decrypt_message_from_chat sign_challenge verify_challenge frame_is_fresh payload_bytes
    signed_bytes verify handle_chat mix open_tagged tag get payload_fields
refused = refl

replay_refused_example : (after_replay.events ≡ []) × (pos 4 ≡ pos 4)
replay_refused_example =
    replay_refused toy codec session_key alice.public alice.verifying true chat_bytes (pos 1002)
      (pos 0) (pos 1003) (pos 4) after_chat (after_replay) taken (λ e. absurd (cc)) (omega arith)
      refused

accepted_frame_example :
    (pm : PeerMessage) × (n : ℤ) × (m : Bytes) × (codec.from_slice chat_bytes ≡ some pm)
    × (verify toy pm alice.public alice.verifying ≡ true)
    × (pm.sender ≡ alice.public)
    × (toy.ed25519_verify alice.verifying
          (signed_bytes pm.sender pm.timestamp pm.payload)
          pm.signature
        ≡ true)
    × (frame_is_fresh pm.timestamp (pos 1002) ≡ true)
    × (pm.payload ≡ chat_message n m)
    × (pm.timestamp ≡ pos 1000)
    × (pos 0 <ℤ n)
    × (pos 1 ≡ n)
    × (decrypt_message_from_chat toy m session_key (to_u64 n) ≡ some (ok (text "hi")))
accepted_frame_example =
    accepted_frame toy codec session_key alice.public alice.verifying true chat_bytes (pos 1002)
      (pos 0) (pos 1000) (text "hi") after_chat taken refl

abbrev pub init_of : Bytes → Bytes → Bytes → Bytes
init_of eph secret signing =
    Option.get_or
      (frame toy codec (init (toy.x25519_public eph)) (toy.x25519_public secret) signing (pos 50))
      []

frame_is_fresh_iff_example : (frame_is_fresh (pos 900) (pos 1000) ≡ true) ↔ (
    (dist (pos 1000) (pos 900) ≤ 120)
    ⊎ ((dist (pos 1000) (pos 900) ≡ 2 ^ 63) ⊎ (2 ^ 64 - 120 ≤ dist (pos 1000) (pos 900))))
frame_is_fresh_iff_example =
    frame_is_fresh_iff (pos 900) (pos 1000) (omega arith, omega arith) (omega arith, omega arith)

abbrev pub pings : Codec Ping
pings = record {
  to_vec = λ p. some p.pubkey;
  from_slice = λ b. some (record { pubkey = b; timestamp = 9 });
}

punch_hole_source_example :
    (before : List PunchInput) × (b : Bytes) × (after : List PunchInput) × ((tick
        ∷ datagram bob_signing (text "a:1")
        ∷ datagram bob.public (text "b:2")
        ∷ [])
      ≡ before ++ (datagram b (text "b:2") ∷ after))
    × (pings.from_slice b ≡ some (record { pubkey = bob.public; timestamp = 9 }))
    × KeepsWaiting pings 9 bob.public before
unfolding punch_hole is_ping_of bytes_eq toy fit
punch_hole_source_example =
    punch_hole_source pings 9 alice.public bob.public
      (tick ∷ datagram bob_signing (text "a:1") ∷ datagram bob.public (text "b:2") ∷ [])
      (text "b:2") refl
