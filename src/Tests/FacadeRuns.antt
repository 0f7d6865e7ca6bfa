-- ===== src/Tests/FacadeRuns.antt =====
-- Runs of the handle: a new identity that is opened again, and a peer that is added.
use sechat_client.Base.{◌≡◌, refl, true, some, List, [], ◌∷◌, ◌++◌, replicate, ok}
use sechat_client.Base.Bytes.{text}
use sechat_client.Base.Int.{pos}
use sechat_client.Client.Facade.{Front, fingerprint, start_handle, contacts, add_peer}
use sechat_client.Client.Facade.Adding.{add_peer-contacts}
use sechat_client.Client.Identity.{NewIdentity, identity_exists, unlock, create_identity}
use sechat_client.Client.Identity.RoundTrip.{unlock-create_identity}
use sechat_client.Client.Types.{Contact, announce_now}
use sechat_client.Crypto.Keyfile.{encrypt_keyfile}
use sechat_client.Crypto.Peers.{peer_file, initialize_peer, load_entry, load_entries}
use sechat_client.Crypto.Types.{PeerPublic, Keys}
use sechat_client.Tests.Toy.{fit, toy, toy_laws, Tree}
use sechat_client.Tests.World.{
  toy_services, bob_secret, bob_signing, twelve, keys_of, public_of, id_of, alice, bob_disk,
  bob_world,
}

abbrev new_identity : NewIdentity
new_identity = record {
  secret = replicate 32 5;
  signing = replicate 32 7;
  salt = replicate 32 9;
  nonce = twelve;
}

abbrev opened_keys : Keys
opened_keys = keys_of (replicate 32 5) (replicate 32 7)

unlock-create_identity_example :
    (identity_exists (create_identity toy_services new_identity (text "secret") bob_disk).1 ≡ true)
    × (unlock toy_services
          (text "secret")
          (create_identity toy_services new_identity (text "secret") bob_disk).1
        ≡ some (ok opened_keys))
unfolding toy_services create_identity encrypt_keyfile toy
unlock-create_identity_example =
    unlock-create_identity toy_services toy_laws new_identity (text "secret") bob_disk opened_keys
      refl refl refl refl refl

abbrev bob_front : Front Tree
bob_front = record { world = bob_world; commands = [] }

abbrev carol : PeerPublic
carol = public_of (1 ∷ 2 ∷ []) (3 ∷ 4 ∷ [])

add_peer-contacts_example :
    let f' =
      (add_peer toy_services
        (start_handle toy_services (keys_of bob_secret bob_signing))
        carol.public
        carol.verifying
        bob_front).1 in
    (before : List Contact) × (c : Contact) × (after : List Contact) × ((contacts toy_services
        (pos 600)
        f'.world).0
      ≡ before ++ c ∷ after)
    × (c.id ≡ id_of (1 ∷ 2 ∷ []) (3 ∷ 4 ∷ []))
    × (c.fingerprint ≡ fingerprint toy_services (id_of (1 ∷ 2 ∷ []) (3 ∷ 4 ∷ [])))
    × (f'.commands ≡ announce_now ∷ [])
unfolding toy_services add_peer toy fit load_entries load_entry peer_file initialize_peer
add_peer-contacts_example =
    add_peer-contacts toy_services (start_handle toy_services (keys_of bob_secret bob_signing))
      carol.public carol.verifying (id_of (1 ∷ 2 ∷ []) (3 ∷ 4 ∷ [])) bob_front (alice ∷ [])
      (pos 600) refl refl refl refl refl
