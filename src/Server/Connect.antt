-- ===== src/Server/Connect.antt =====
-- The connection of crates/serverclient: reading messages, and `server_initial_handshake`. The
-- receiver of the events has room for all that are sent.
pub mod Drain
pub mod Sending
pub mod Announcing
use sechat_client.Base.{
  ℕ, ◌-◌, Option, none, some, List, [], ◌∷◌, ◌++◌, ◌==◌, if◌then◌else◌, length, Result, ok, err,
  ◌>>=◌, ok_or,
}
use sechat_client.Base.Bytes.{Bytes, Text, text}
use sechat_client.Base.Int.{ℤ}
use sechat_client.Base.Strings.{colon, rsplit_once, decimal}
use sechat_client.Crypto.Peers.{load_peers}
use sechat_client.Crypto.Types.{PeerPublic, Keys, display}
use sechat_client.Server.Blobs.{process_blob}
use sechat_client.Server.Generators.{
  generate_authenticate_message, generate_announce_message, generate_ack_blob,
}
use sechat_client.Server.Presence.{get_or_set_my_address}
use sechat_client.Server.Services.{Services, World}
use sechat_client.Server.Structs.{
  ClientErrors, connection_closed, write_failed, read_failed, serialization_failed,
  deserialization_failed, auth_failed_error, unexpected_handshake_message, key_derivation_failed,
  peer_load_failed, server_error, ClientToServer, new_client_to_server, auth_ok, auth_failed,
  pending_blob, error_message, pending_blobs_end, ServerToClient, ServerEvent, authenticated,
}

-- What the WebSocket stream yields.
pub data Frame : Type 0 where
  binary : Bytes → Frame
  close_frame : Frame
  other_frame : Frame
  read_error : Text → Frame

-- The frames that will arrive (the stream ends after the last), the messages that were sent, and
-- the number of further sends that will succeed.
pub record Connection : Type 0 where
  pub incoming : List Frame
  pub sent : List ClientToServer
  pub writable : ℕ

-- A result, the state after it, the connection, and the events that were sent.
abbrev pub Step : Type 0 → Type 0 → Type 0
Step A D = Result ClientErrors A × World D × Connection × List ServerEvent

module _ {D : Type 0} (x : Services D) where
  unfoldable pub parse_server_message : Bytes → Result ClientErrors ServerToClient
  parse_server_message msg =
      ok_or (x.server_codec.from_slice msg) (deserialization_failed x.codec_text)

  -- One round of the loop of `receive_message`; `none` goes on to the next frame.
  unfoldable pub read_frame : Frame → Option (Result ClientErrors ServerToClient)
  unfolding parse_server_message
  read_frame (binary b) = some (parse_server_message b)
  read_frame close_frame = some (err connection_closed)
  read_frame other_frame = none
  read_frame (read_error s) = some (err (read_failed s))

  unfoldable pub receive_message : List Frame → Result ClientErrors ServerToClient × List Frame
  receive_message [] = (err connection_closed, [])
  receive_message (f ∷ fs) = elim (read_frame f) [ none ↦ receive_message fs | some r ↦ (r, fs) ]

  -- A message goes out, unless it cannot be encoded or the connection is broken.
  unfoldable pub send_message :
      ClientToServer → Connection → Result ClientErrors (Unit {0}) × Connection
  send_message msg c = elim (x.client_codec.to_vec msg) [
    | none ↦ (err (serialization_failed x.codec_text), c)
    | some _ ↦
        if c.writable == 0
        then (err (write_failed (text "closed")), c)
        else (ok tt, record c { sent = c.sent ++ msg ∷ []; writable = c.writable - 1 })
  ]

  -- `ack_blob` at the time `now`.
  unfoldable pub ack_blob_now : ℤ → Text → Connection → Result ClientErrors (Unit {0}) × Connection
  ack_blob_now now blob_id c =
      send_message (new_client_to_server (generate_ack_blob blob_id) none now) c

  -- The loop that drains the pending blobs. A blob is stored under the nonce that `nonces` has for
  -- the number of frames behind it; the clock reads `now` throughout; `ev` are the events so far.
  unfoldable pub drain :
      (ℕ → Bytes)
      → ℤ
      → Bytes
      → List Frame
      → World D
      → Connection
      → List ServerEvent
      → Step (Unit {0}) D
  drain nonces now privkey [] w c ev = (err connection_closed, w, record c { incoming = [] }, ev)
  drain nonces now privkey (f ∷ fs) w c ev = elim (read_frame f) [
    | none ↦ drain nonces now privkey fs w c ev
    | some (err e) ↦ (err e, w, record c { incoming = fs }, ev)
    | some (ok msg) ↦ elim msg.payload [
      | pending_blobs_end ↦ (ok tt, w, record c { incoming = fs }, ev)
      | pending_blob blob_id blob _ ↦
          let (_, d, events) = process_blob x (nonces (length fs)) now blob privkey w.disk in
          let (acked, c') = ack_blob_now now blob_id c in
          let w' = record w { disk = d } in
          elim acked [
            | err e ↦ (err e, w', record c' { incoming = fs }, ev ++ events)
            | ok _ ↦ drain nonces now privkey fs w' c' (ev ++ events)
          ]
      | auth_failed reason ↦ (err (auth_failed_error reason), w, record c { incoming = fs }, ev)
      | error_message reason ↦ (err (server_error reason), w, record c { incoming = fs }, ev)
      | _ ↦ drain nonces now privkey fs w c ev
    ]
  ]

  -- The announcement to every peer; `timestamp` and `now` are the two clock readings.
  unfoldable pub announce_peers :
      Bytes
      → ℤ
      → ℤ
      → Text
      → List PeerPublic
      → Connection
      → Result ClientErrors (Unit {0}) × Connection
  announce_peers privkey timestamp now address [] c = (ok tt, c)
  announce_peers privkey timestamp now address (who ∷ rest) c =
      elim (generate_announce_message x privkey who.public timestamp address) [
        | err e ↦ (err key_derivation_failed, c)
        | ok msg ↦
            let (sent, c') = send_message (new_client_to_server msg none now) c in
            elim sent [
              | err e ↦ (err e, c')
              | ok _ ↦ announce_peers privkey timestamp now address rest c'
            ]
      ]

  -- The address in the first reply to the authentication.
  unfoldable pub observed_by : Result ClientErrors ServerToClient → Result ClientErrors Text
  observed_by (err e) = err e
  observed_by (ok msg) = elim msg.payload [
    | auth_ok observed_address ↦ ok observed_address
    | auth_failed reason ↦ err (auth_failed_error reason)
    | _ ↦ err unexpected_handshake_message
  ]

  -- The address that the client will announce from then on.
  unfoldable pub announced : Option Text → ℕ → Text → Text
  announced announce_override udp_port observed_address = elim announce_override [
    | some a ↦ a
    | none ↦ elim (rsplit_once colon observed_address) [
      | none ↦ observed_address
      | some (ip, _) ↦ ip ++ (colon ∷ decimal udp_port)
    ]
  ]

  -- The last part of the handshake: load the peers, and announce to each.
  unfoldable pub announce_all :
      Bytes → ℤ → Text → World D → Connection → Result ClientErrors Text × Connection
  unfolding announce_peers
  announce_all privkey now address w c = elim (load_peers x.primitives w.disk) [
    | err e ↦ (err (peer_load_failed (display x.io_text e)), c)
    | ok peers ↦
        let (r, c') = announce_peers privkey now now address peers c in
        (r >>= (λ _. ok address), c')
  ]

  unfoldable pub server_initial_handshake :
      (ℕ → Bytes) → ℤ → Keys → ℕ → Option Text → World D → Connection → Step Text D
  unfolding get_or_set_my_address
  server_initial_handshake nonces now keys udp_port announce_override w c =
      elim (generate_authenticate_message x keys.x25519_pub keys.ed25519_verifying
        keys.ed25519_signing now now) [
          | err e ↦ (err key_derivation_failed, w, c, [])
          | ok auth_message ↦
              let (sent, c₁) = send_message auth_message c in
              elim sent [
                | err e ↦ (err e, w, c₁, [])
                | ok _ ↦
                    let (response, fs) = receive_message c₁.incoming in
                    let c₂ = record c₁ { incoming = fs } in
                    elim (observed_by response) [
                      | err e ↦ (err e, w, c₂, [])
                      | ok observed_address ↦
                          let mine = announced announce_override udp_port observed_address in
                          let w₂ = (get_or_set_my_address (some mine) w).1 in
                          let (drained, w₃, c₃, ev) =
                            drain nonces now keys.x25519_priv fs w₂ c₂
                              (authenticated observed_address ∷ []) in
                          elim drained [
                            | err e ↦ (err e, w₃, c₃, ev)
                            | ok _ ↦
                                let (r, c₄) =
                                  announce_all keys.x25519_priv now observed_address w₃ c₃ in
                                (r, w₃, c₄, ev)
                          ]
                    ]
              ]
        ]
