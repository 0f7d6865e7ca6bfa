-- ===== src/Tests/ServerRuns.antt =====
-- Runs of the relay client: a blob from Alice to Bob, the drain, and the presence cache.
use sechat_client.Base.{◌≡◌, refl, true, false, some, List, [], ◌∷◌, Result, ok, is_ok, unwrap_or}
use sechat_client.Base.Assoc.{lookup}
use sechat_client.Base.Bytes.{Bytes, text, bytes_eq}
use sechat_client.Base.Int.{pos, sub_i64, abs_i64}
use sechat_client.Client.Commands.{peer_is_online}
use sechat_client.Client.Presence.{peer_offline-peer_is_online, peer_online-peer_is_online}
use sechat_client.Crypto.Blob.{encrypt_blob}
use sechat_client.Crypto.Derive.{identity_hash, load_storage_key}
use sechat_client.Crypto.Peers.{peer_file, load_peer_data}
use sechat_client.Crypto.Stored.{encrypt_message_stored}
use sechat_client.Crypto.Types.{Author, from_parts}
use sechat_client.Server.Blobs.{blob_is_stale, store_offline, handle_blob, process_blob}
use sechat_client.Server.Blobs.Delivery.{process_blob-generate_offline_message}
use sechat_client.Server.Blobs.Laws.{authentic, handle_blob_unauthentic}
use sechat_client.Server.Connect.{close_frame, Connection, Step, drain}
use sechat_client.Server.Connect.Drain.{Pending, pending_frames}
use sechat_client.Server.Generators.{generate_peer_hash, generate_blob, generate_offline_message}
use sechat_client.Server.Handlers.{handle_message}
use sechat_client.Server.Handlers.Laws.{presence_events, handle_message-presence}
use sechat_client.Server.Structs.{
  ClientErrors, unannounce, send_blob, ClientToServer, new_client_to_server, peer_online,
  peer_offline, ServerToClient, BlobPayload, offline_message,
}
use sechat_client.Tests.Toy.{fit, toy, Tree}
use sechat_client.Tests.Wire.{pack, unpack-pack, packed, reply_fields, reply_of-reply_fields}
use sechat_client.Tests.World.{
  toy_services, toy_services_laws, alice_secret, alice_signing, bob_secret, twelve, alice_id, alice,
  bob, bob_disk, bob_knows_alice, bob_world,
}

abbrev letter : Result ClientErrors ClientToServer
letter =
    generate_offline_message toy_services twelve (1 ∷ []) twelve bob alice.public alice_secret
      (text "hi") alice_signing (pos 500) (pos 500)

abbrev letter_message : ClientToServer
letter_message = unwrap_or letter (record { payload = unannounce []; timestamp = pos 0 })

abbrev letter_blob : Bytes
letter_blob = elim letter_message.payload [ send_blob hash blob ↦ blob | _ ↦ [] ]

abbrev letter_hash : Bytes
letter_hash = elim letter_message.payload [ send_blob hash blob ↦ hash | _ ↦ [] ]

process_blob-generate_offline_message_example :
    (key : Bytes) × (load_storage_key toy alice.public bob_secret ≡ ok key)
    × (process_blob toy_services twelve (pos 600) letter_blob bob_secret bob_disk
        ≡ store_offline toy_services twelve alice_id key
            (from_parts (text "hi") Author.peer (pos 500))
            bob_disk)
unfolding toy_services generate_offline_message load_storage_key toy encrypt_message_stored packed
    generate_blob encrypt_blob new_client_to_server blob_is_stale abs_i64
process_blob-generate_offline_message_example =
    process_blob-generate_offline_message toy_services toy_services_laws twelve (1 ∷ []) twelve
      alice_secret alice_signing (text "hi") bob_secret bob.verifying (pos 500) (pos 500)
      letter_hash letter_blob twelve (pos 600) letter_message bob_disk refl refl refl refl
      bob_knows_alice refl

abbrev forged : BlobPayload
forged = offline_message alice_id (pos 500) (text "hi") (text "no signature")

handle_blob_unauthentic_example :
    (is_ok (handle_blob toy_services twelve (pos 600) bob_secret forged bob_disk).0 ≡ false)
    × ((handle_blob toy_services twelve (pos 600) bob_secret forged bob_disk).1 ≡ bob_disk)
    × ((handle_blob toy_services twelve (pos 600) bob_secret forged bob_disk).2 ≡ [])
unfolding authentic load_peer_data lookup bytes_eq identity_hash toy fit peer_file toy_services
    blob_is_stale abs_i64 text
handle_blob_unauthentic_example =
    handle_blob_unauthentic toy_services twelve (pos 600) bob_secret forged bob_disk refl

unfoldable pub encode_reply : ServerToClient → Bytes
encode_reply m = pack (reply_fields m)

pub toy_reads :
    (m : ServerToClient) → toy_services.server_codec.from_slice (encode_reply m) ≡ some m
unfolding toy_services packed encode_reply
toy_reads m = rw (unpack-pack (reply_fields m)) (reply_of-reply_fields m)

pub toy_writes : (m : ClientToServer) → (b : Bytes) × (toy_services.client_codec.to_vec m ≡ some b)
unfolding toy_services
toy_writes m = ([], refl)

-- A letter, and a blob that cannot be opened.
abbrev two_pending : List Pending
two_pending =
    record { blob_id = text "a"; blob = letter_blob; received_at = pos 501 }
    ∷ record { blob_id = text "b"; blob = text "poison"; received_at = pos 502 }
    ∷ []

abbrev line : Connection
line = record { incoming = []; sent = []; writable = 5 }

abbrev drained : Step (Unit {0}) Tree
drained =
    drain toy_services (λ n. twelve) (pos 600) bob_secret
      (pending_frames toy_services encode_reply (pos 600) two_pending (close_frame ∷ [])) bob_world
      line []

handle_message-presence_example :
    presence_events
      (handle_message toy_services twelve
        (pos 600)
        (pos 600)
        bob_secret
        (peer_online alice_id (text "1.2.3.4:5"))
        bob_world).2
    ≡ 0
handle_message-presence_example =
    handle_message-presence toy_services twelve (pos 600) (pos 600) bob_secret
      (peer_online alice_id (text "1.2.3.4:5")) bob_world

peer_offline-peer_is_online_example :
    (peer_is_online toy_services
      (pos 601)
      alice_id
      (handle_message toy_services twelve
        (pos 600)
        (pos 600)
        bob_secret
        (peer_offline alice_id)
        bob_world).1).0
    ≡ false
peer_offline-peer_is_online_example =
    peer_offline-peer_is_online toy_services twelve (pos 600) (pos 600) (pos 601) bob_secret
      alice_id bob_world

peer_online-peer_is_online_example :
    (peer_is_online toy_services
      (pos 601)
      (generate_peer_hash toy_services alice)
      (handle_message toy_services twelve
        (pos 600)
        (pos 600)
        bob_secret
        (peer_online (generate_peer_hash toy_services alice) (text "1.2.3.4:5"))
        bob_world).1).0
    ≡ true
unfolding toy_services toy generate_peer_hash identity_hash sub_i64
peer_online-peer_is_online_example =
    peer_online-peer_is_online toy_services twelve (pos 600) (pos 600) (pos 601) bob_secret
      (text "1.2.3.4:5") alice bob_world refl bob_knows_alice refl
