-- ===== src/Server/Handlers/Laws.antt =====
-- Which events `handle_message` of crates/serverclient/src/handlers.rs sends.
use sechat_client.Base.{ℕ, suc, ◌≡◌, refl, inl, inr, List, [], ◌∷◌, arith, Result-cases}
use sechat_client.Base.Bytes.{Bytes}
use sechat_client.Base.Int.{ℤ}
use sechat_client.Crypto.Disk.{Disk}
use sechat_client.Server.Blobs.{store_offline, handle_blob, open_blob, process_blob}
use sechat_client.Server.Handlers.{handle_message}
use sechat_client.Server.Services.{Services, World}
use sechat_client.Server.Structs.{
  ServerMessage, auth_ok, auth_failed, pending_blob, peer_online, peer_offline, punch_hole,
  error_message, pending_blobs_end, hole_punch_requested, hole_punch_refused, relayed, ServerEvent,
  peer_came_online, peer_went_offline, offline_message, purge,
}

-- The events that say that a peer came or went.
unfoldable pub presence_events : List ServerEvent → ℕ
presence_events [] = 0
presence_events (peer_came_online hash ip_port ∷ es) = suc (presence_events es)
presence_events (peer_went_offline hash ∷ es) = suc (presence_events es)
presence_events (_ ∷ es) = presence_events es

module _ {D : Type 0} (x : Services D) where
  process_blob-presence :
      (nonce : Bytes) (now : ℤ) (blob privkey : Bytes) (d : Disk D)
      → presence_events (process_blob x nonce now blob privkey d).2 ≡ 0
  unfolding process_blob handle_blob store_offline presence_events
  process_blob-presence nonce now blob privkey d = elim (Result-cases (open_blob x blob privkey)) [
    | inr (e, h) ↦ ground (arith)
    | inl (offline_message sender timestamp cipher signature, h) ↦ ground (arith)
    | inl (purge sender signature timestamp, h) ↦ ground (arith)
  ]

  -- No message of the relay leads to an event that a peer came online or went offline: the
  -- handler constructs neither.
  pub handle_message-presence :
      (nonce : Bytes) (now sent : ℤ) (privkey : Bytes) (m : ServerMessage) (w : World D)
      → presence_events (handle_message x nonce now sent privkey m w).2 ≡ 0
  unfolding handle_message presence_events
  handle_message-presence nonce now sent privkey (pending_blob i b t) w =
      process_blob-presence nonce now b privkey w.disk
  handle_message-presence nonce now sent privkey (peer_online hash ip_port) w = ground arith
  handle_message-presence nonce now sent privkey (peer_offline hash) w = ground arith
  handle_message-presence nonce now sent privkey (punch_hole t h i p) w = refl
  handle_message-presence nonce now sent privkey (auth_ok a) w = refl
  handle_message-presence nonce now sent privkey (auth_failed r) w = refl
  handle_message-presence nonce now sent privkey (error_message r) w = refl
  handle_message-presence nonce now sent privkey (hole_punch_requested k t) w = refl
  handle_message-presence nonce now sent privkey (hole_punch_refused t k r) w = refl
  handle_message-presence nonce now sent privkey (relayed h p) w = refl
  handle_message-presence nonce now sent privkey pending_blobs_end w = refl
