-- ===== src/Tests/World.antt =====
-- Two people, their keys, the files of each and the services that the runs use.
use sechat_client.Base.{◌≡◌, refl, true, false, none, some, [], ◌∷◌, replicate, ok}
use sechat_client.Base.Assoc.{lookup}
use sechat_client.Base.Bytes.{Bytes, bytes_eq}
use sechat_client.Client.State.{Link, ClientState}
use sechat_client.Crypto.Derive.{identity_hash}
use sechat_client.Crypto.Disk.{Disk, peer_pub_of, contents, read_file_to_buffer}
use sechat_client.Crypto.Peers.{peer_file, parse_peer, load_peer_data}
use sechat_client.Crypto.Types.{PeerPublic, Keys}
use sechat_client.Server.Services.{Services, ServicesLaws, World}
use sechat_client.Tests.Toy.{fit, toy, toy_laws, Tree, toy_sled, toy_sled_laws}
use sechat_client.Tests.Wire.{
  packed, packed_laws, blob_fields, blob_of, blob_of-blob_fields, message_fields, message_of,
  message_of-message_fields, reply_fields, reply_of,
}

unfoldable pub toy_services : Services Tree
toy_services = record {
  primitives = toy;
  sled = toy_sled;
  message_codec = packed message_fields message_of;
  blob_codec = packed blob_fields blob_of;
  client_codec = record { to_vec = λ m. some []; from_slice = λ b. none };
  server_codec = packed reply_fields reply_of;
  io_text = λ e. [];
  codec_text = [];
  crypto_text = [];
}

pub toy_services_laws : ServicesLaws toy_services
unfolding toy_services
toy_services_laws = record {
  primitive_laws = toy_laws;
  sled_laws = toy_sled_laws;
  message_laws = packed_laws message_fields message_of message_of-message_fields;
  blob_laws = packed_laws blob_fields blob_of blob_of-blob_fields;
}

abbrev pub alice_secret : Bytes
alice_secret = 5 ∷ 6 ∷ 7 ∷ []

abbrev pub alice_signing : Bytes
alice_signing = 11 ∷ 12 ∷ []

abbrev pub bob_secret : Bytes
bob_secret = 8 ∷ 9 ∷ []

abbrev pub bob_signing : Bytes
bob_signing = 21 ∷ 22 ∷ 23 ∷ []

abbrev pub twelve : Bytes
twelve = replicate 12 3

abbrev pub keys_of : Bytes → Bytes → Keys
keys_of secret signing = record {
  x25519_priv = secret;
  x25519_pub = toy.x25519_public secret;
  ed25519_signing = signing;
  ed25519_verifying = toy.ed25519_verifying signing;
}

abbrev pub public_of : Bytes → Bytes → PeerPublic
public_of secret signing = record {
  public = toy.x25519_public secret;
  verifying = toy.ed25519_verifying signing;
}

abbrev pub id_of : Bytes → Bytes → Bytes
id_of secret signing = identity_hash toy (toy.x25519_public secret) (toy.ed25519_verifying signing)

abbrev pub alice_id : Bytes
alice_id = id_of alice_secret alice_signing

abbrev pub alice : PeerPublic
alice = public_of alice_secret alice_signing

abbrev pub bob : PeerPublic
bob = public_of bob_secret bob_signing

-- Bob's files: he knows Alice.
abbrev pub bob_disk : Disk Tree
bob_disk = record {
  identity_key = none;
  identity_pub = none;
  server = none;
  aliases = none;
  has_peers_root = true;
  peers =
      (alice_id, record { peer_pub = some (peer_file alice.public alice.verifying); chat = none })
      ∷ [];
  faults = λ place. none;
}

pub bob_knows_alice : load_peer_data toy bob_disk alice_id ≡ ok alice
unfolding load_peer_data read_file_to_buffer contents peer_pub_of parse_peer peer_file lookup toy
    fit bytes_eq identity_hash
bob_knows_alice = refl

abbrev pub bob_world : World Tree
bob_world = record {
  disk = bob_disk;
  my_address = none;
  online = [];
  address_poisoned = false;
  peers_poisoned = false;
}

abbrev pub open_link : Link
open_link = record { is_open = true; sent = [] }

abbrev pub bob_state : ClientState Tree
bob_state = record {
  world = bob_world;
  link = open_link;
  app = [];
  intents = [];
  sessions = [];
  connecting = [];
  spawned = [];
}
