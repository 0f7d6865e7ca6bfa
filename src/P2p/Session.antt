-- ===== src/P2p/Session.antt =====
-- Live sessions of crates/p2p/src/lib.rs: `handle_inbound_frame`, and the sending and receiving
-- tasks of `start_session`.
pub mod Replay
pub mod Delivery
pub mod Direct
use sechat_client.Base.{
  ℕ, ◌-◌, Bool, true, false, Option, none, some, List, [], ◌∷◌, ◌++◌, ◌==◌, if◌then◌else◌, ok, err,
}
use sechat_client.Base.Bytes.{Bytes, Text, text, bytes_eq}
use sechat_client.Base.Int.{ℤ, pos, leb_ℤ, to_u64, add_i64}
use sechat_client.Crypto.Chat.{encrypt_message_for_chat, decrypt_message_from_chat}
use sechat_client.Crypto.Derive.{derive_directional_key}
use sechat_client.Crypto.Primitives.{Primitives, Codec}
use sechat_client.P2p.Fresh.{frame_is_fresh}
use sechat_client.P2p.Handshake.{frame}
use sechat_client.P2p.Message.{chat_message, heart_beat, end_message, PeerMessage, verify}

pub data SessionEvent : Type 0 where
  -- text, timestamp
  message : Text → ℤ → SessionEvent
  closed : SessionEvent

-- What a frame does: whether the loop goes on, the last counter, and the events.
pub record Inbound : Type 0 where
  pub keep : Bool
  pub last_counter : ℤ
  pub events : List SessionEvent

-- What reaches the receiving task; after the last input, the idle timeout or a receive error.
pub record Arrival : Type 0 where
  pub source : Text
  pub bytes : Bytes
  pub now : ℤ

-- What reaches the sending task.
pub data Outgoing : Type 0 where
  outgoing_text : Text → Outgoing
  outgoing_closed : Outgoing
  heartbeat : Outgoing

abbrev pub a2b : Bytes
a2b = text "a2b"

abbrev pub b2a : Bytes
b2a = text "b2a"

module _ (p : Primitives) (c : Codec PeerMessage) where
  -- The keys for sending and for receiving; `none` is a panic of `expect`.
  unfoldable pub session_keys : Bytes → Bool → Option (Bytes × Bytes)
  session_keys session_key am_first =
      let send_label = if am_first then a2b else b2a in
      let recv_label = if am_first then b2a else a2b in
      elim (derive_directional_key p session_key send_label) [
        | none ↦ none
        | some send_key ↦ elim (derive_directional_key p session_key recv_label) [
          | none ↦ none
          | some recv_key ↦ some (send_key, recv_key)
        ]
      ]

  -- The frame of a chat message that passed the signature and the time. `evt_open` says whether the
  -- receiver of events still listens; `none` is a panic.
  unfoldable pub handle_chat : Bytes → Bool → ℤ → ℤ → ℤ → Bytes → Option Inbound
  handle_chat recv_key evt_open timestamp last counter message_bytes =
      let ignored : Inbound = record { keep = true; last_counter = last; events = [] } in
      let decrypted = decrypt_message_from_chat p message_bytes recv_key (to_u64 counter) in
      if leb_ℤ counter last then some ignored else elim decrypted [
        | none ↦ none
        | some (err e) ↦ some ignored
        | some (ok content) ↦ some (
            if evt_open
            then record {
              keep = true;
              last_counter = counter;
              events = message content timestamp ∷ [];
            }
            else record { keep = false; last_counter = counter; events = [] })
      ]

  unfoldable pub handle_inbound_frame :
      Bytes → Bytes → Bytes → Bool → Bytes → ℤ → ℤ → Option Inbound
  handle_inbound_frame recv_key peer_x verifying evt_open bytes now last =
      let ignored : Inbound = record { keep = true; last_counter = last; events = [] } in
      elim (c.from_slice bytes) [
        | none ↦ some ignored
        | some pm ↦
            if verify p pm peer_x verifying
            then (if frame_is_fresh pm.timestamp now
                then elim pm.payload [
                  | chat_message counter message_bytes ↦
                      handle_chat recv_key evt_open pm.timestamp last counter message_bytes
                  | end_message ↦ some (record { keep = false; last_counter = last; events = [] })
                  | _ ↦ some ignored
                ]
                else some ignored)
            else some ignored
      ]

  -- The receiving task over the relay: the events in order, the last one `closed`.
  unfoldable pub receive_relay : Bytes → Bytes → Bytes → Bool → List Arrival → ℤ → List SessionEvent
  receive_relay recv_key peer_x verifying evt_open [] last = closed ∷ []
  receive_relay recv_key peer_x verifying evt_open (a ∷ rest) last =
      elim (handle_inbound_frame recv_key peer_x verifying evt_open a.bytes a.now last) [
        | none ↦ []
        | some r ↦
            let more = receive_relay recv_key peer_x verifying evt_open rest r.last_counter in
            r.events ++ (if r.keep then more else closed ∷ [])
      ]

  -- Over the socket, datagrams of other sources are passed over.
  unfoldable pub receive_direct :
      Bytes → Bytes → Bytes → Bool → Text → List Arrival → ℤ → List SessionEvent
  receive_direct recv_key peer_x verifying evt_open remote [] last = closed ∷ []
  receive_direct recv_key peer_x verifying evt_open remote (a ∷ rest) last =
      let skipped = receive_direct recv_key peer_x verifying evt_open remote rest last in
      let handled =
        elim (handle_inbound_frame recv_key peer_x verifying evt_open a.bytes a.now last)
          as (λ _. List SessionEvent) [
            | none ↦ []
            | some r ↦
                let more =
                  receive_direct recv_key peer_x verifying evt_open remote rest r.last_counter in
                r.events ++ (if r.keep then more else closed ∷ [])
          ] in
      if bytes_eq a.source remote then handled else skipped

  -- The sending task over the relay, with the times of its inputs: the frames that it hands on.
  -- `room` is the number of frames that the channel still takes.
  unfoldable pub send_relay : Bytes → Bytes → Bytes → ℕ → List (ℤ × Outgoing) → ℤ → List Bytes
  send_relay send_key my_pub my_signing room [] counter = []
  send_relay send_key my_pub my_signing room ((now, outgoing_closed) ∷ rest) counter =
      elim (frame p c end_message my_pub my_signing now) [
        | none ↦ []
        | some b ↦ if room == 0 then [] else b ∷ []
      ]
  send_relay send_key my_pub my_signing room ((now, heartbeat) ∷ rest) counter =
      elim (frame p c heart_beat my_pub my_signing now) [
        | none ↦ send_relay send_key my_pub my_signing room rest counter
        | some b ↦
            let more = send_relay send_key my_pub my_signing (room - 1) rest counter in
            if room == 0 then [] else b ∷ more
      ]
  send_relay send_key my_pub my_signing room ((now, outgoing_text t) ∷ rest) counter =
      let next = add_i64 counter (pos 1) in
      elim (encrypt_message_for_chat p t send_key (to_u64 next)) [
        | none ↦ []
        | some cipher ↦ elim (frame p c (chat_message next cipher) my_pub my_signing now) [
          | none ↦ send_relay send_key my_pub my_signing room rest next
          | some b ↦
              let more = send_relay send_key my_pub my_signing (room - 1) rest next in
              if room == 0 then [] else b ∷ more
        ]
      ]

  -- Over the socket a message that cannot be encoded ends the task as a failed send does.
  unfoldable pub send_direct : Bytes → Bytes → Bytes → ℕ → List (ℤ × Outgoing) → ℤ → List Bytes
  send_direct send_key my_pub my_signing room [] counter = []
  send_direct send_key my_pub my_signing room ((now, outgoing_closed) ∷ rest) counter =
      elim (frame p c end_message my_pub my_signing now) [
        | none ↦ []
        | some b ↦ if room == 0 then [] else b ∷ []
      ]
  send_direct send_key my_pub my_signing room ((now, heartbeat) ∷ rest) counter =
      elim (frame p c heart_beat my_pub my_signing now) [
        | none ↦ []
        | some b ↦
            let more = send_direct send_key my_pub my_signing (room - 1) rest counter in
            if room == 0 then [] else b ∷ more
      ]
  send_direct send_key my_pub my_signing room ((now, outgoing_text t) ∷ rest) counter =
      let next = add_i64 counter (pos 1) in
      elim (encrypt_message_for_chat p t send_key (to_u64 next)) [
        | none ↦ []
        | some cipher ↦ elim (frame p c (chat_message next cipher) my_pub my_signing now) [
          | none ↦ []
          | some b ↦
              let more = send_direct send_key my_pub my_signing (room - 1) rest next in
              if room == 0 then [] else b ∷ more
        ]
      ]
