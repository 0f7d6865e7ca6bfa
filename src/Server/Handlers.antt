-- ===== src/Server/Handlers.antt =====
-- `handle_message` of crates/serverclient/src/handlers.rs: what the client does with each message
-- of the relay after the handshake.
pub mod Laws
use sechat_client.Base.{Option, none, some, List, [], ◌∷◌, if◌then◌else◌, Result, ok, err, is_ok}
use sechat_client.Base.Bytes.{Bytes, Text, text}
use sechat_client.Base.Int.{ℤ}
use sechat_client.Crypto.Peers.{load_peer_data}
use sechat_client.Server.Blobs.{process_blob}
use sechat_client.Server.Generators.{generate_ack_blob}
use sechat_client.Server.Presence.{append_online_peer, remove_online_peer, get_or_set_my_address}
use sechat_client.Server.Services.{Services, World}
use sechat_client.Server.Structs.{
  ClientErrors, auth_failed_error, server_error, request_denied, request_accepted, ClientToServer,
  new_client_to_server, RequestDeniedReason, peer_declined, timed_out, ServerMessage, auth_ok,
  auth_failed, pending_blob, peer_online, peer_offline, punch_hole, error_message,
  pending_blobs_end, hole_punch_requested, hole_punch_refused, relayed, ServerEvent,
  punch_hole_event, hole_punch_denied, relay_data_event,
}

-- A handler's result, the state after it, and the events that it sent.
abbrev pub Handled : Type 0 → Type 0
Handled D = Result ClientErrors (Option ClientToServer) × World D × List ServerEvent

unfoldable pub denial_text : RequestDeniedReason → Text
denial_text peer_declined = text "Peer declined your p2p request"
denial_text timed_out = text "Request timed out try again later"

module _ {D : Type 0} (x : Services D) where
  -- `nonce` is for a message that is stored, `sent` the clock when a reply is made.
  unfoldable pub handle_message : Bytes → ℤ → ℤ → Bytes → ServerMessage → World D → Handled D
  handle_message nonce now sent privkey (pending_blob blob_id blob _) w =
      let (_, d, events) = process_blob x nonce now blob privkey w.disk in
      (
        ok (some (new_client_to_server (generate_ack_blob blob_id) none sent)),
        record w { disk = d },
        events,
      )
  handle_message nonce now sent privkey pending_blobs_end w = (ok none, w, [])
  handle_message nonce now sent privkey (peer_online hash ip_port) w =
      let (r, w') = append_online_peer x hash ip_port now w in
      elim r [ ok _ ↦ (ok none, w', []) | err e ↦ (err e, w', []) ]
  handle_message nonce now sent privkey (peer_offline hash) w =
      let (r, w') = remove_online_peer x hash w in
      elim r [ ok _ ↦ (ok none, w', []) | err e ↦ (err e, w', []) ]
  handle_message nonce now sent privkey (punch_hole token peer_hash ip_port punchtimestamp) w =
      (ok none, w, punch_hole_event token peer_hash ip_port punchtimestamp ∷ [])
  handle_message nonce now sent privkey (auth_ok observed_address) w =
      (ok none, (get_or_set_my_address (some observed_address) w).1, [])
  handle_message nonce now sent privkey (auth_failed reason) w =
      (err (auth_failed_error reason), w, [])
  handle_message nonce now sent privkey (error_message reason) w =
      (err (server_error reason), w, [])
  handle_message nonce now sent privkey (hole_punch_requested pub_key token) w =
      let response =
        if is_ok (load_peer_data x.primitives w.disk pub_key)
        then request_accepted token
        else request_denied token in
      (ok (some (new_client_to_server response none sent)), w, [])
  handle_message nonce now sent privkey (hole_punch_refused _ pub_key reason) w =
      (ok none, w, hole_punch_denied pub_key (denial_text reason) ∷ [])
  handle_message nonce now sent privkey (relayed sender_hash payload) w =
      (ok none, w, relay_data_event sender_hash payload ∷ [])
