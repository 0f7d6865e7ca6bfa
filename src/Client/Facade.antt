-- ===== src/Client/Facade.antt =====
-- The handle that crates/client/src/lib.rs gives to a user interface, `Client`: it puts commands in
-- the queue of the event loop, and reads and writes the files by itself.
pub mod Adding
use sechat_client.Base.{
  true, false, Option, none, some, List, [], ◌∷◌, ◌++◌, map, if◌then◌else◌, take, Result, ok, err,
  unwrap_or,
}
use sechat_client.Base.Assoc.{Assoc, lookup, insert}
use sechat_client.Base.Bytes.{Bytes, Text, text}
use sechat_client.Base.Int.{ℤ}
use sechat_client.Client.Aliases.{AliasError, bad_alias, alias_file_failed, load_aliases}
use sechat_client.Client.Local.{resolve_query}
use sechat_client.Client.Types.{Contact, Command, announce_now}
use sechat_client.Crypto.Derive.{identity_hash}
use sechat_client.Crypto.Disk.{Disk}
use sechat_client.Crypto.Peers.{initialize_peer, load_peers}
use sechat_client.Crypto.Types.{PeerPublic, Keys, display}
use sechat_client.Server.Generators.{generate_peer_hash}
use sechat_client.Server.Presence.{load_online_peers}
use sechat_client.Server.Services.{Services, OnlinePeer, World}

-- What the handles share with the event loop: the files and the caches, and the queue of commands.
pub record Front (D : Type 0) : Type 0 where
  pub world : World D
  pub commands : List Command

-- `Client`.
pub record Handle : Type 0 where
  pub keys : Keys
  pub my_id : Bytes
  pub my_fingerprint : Text

module _ {D : Type 0} where
  -- `cmd_tx.send(…)`, whose failure is ignored.
  unfoldable pub submit : Command → Front D → Front D
  submit c f = record f { commands = f.commands ++ c ∷ [] }

  unfoldable pub put_disk : Disk D → Front D → Front D
  put_disk d f = let w = f.world in record f { world = record w { disk = d } }

module _ {D : Type 0} (x : Services D) where
  unfoldable pub fingerprint : Bytes → Text
  fingerprint id = x.primitives.hex_encode (take 6 id)

  -- The handle that `Client::start` makes.
  unfoldable pub start_handle : Keys → Handle
  unfolding fingerprint
  start_handle keys =
      let my_id = identity_hash x.primitives keys.x25519_pub keys.ed25519_verifying in
      record { keys = keys; my_id = my_id; my_fingerprint = fingerprint my_id }

  unfoldable pub my_keys_hex : Handle → Text × Text
  my_keys_hex h =
      (x.primitives.hex_encode h.keys.x25519_pub, x.primitives.hex_encode h.keys.ed25519_verifying)

  -- The addresses of the online peers, by identity; a later entry replaces an earlier one.
  unfoldable pub addresses : List OnlinePeer → Assoc Text → Assoc Text
  addresses [] m = m
  addresses (o ∷ os) m = addresses os (insert (generate_peer_hash x o.keys) o.address m)

  unfoldable pub contact_of : Assoc Text → Assoc Text → PeerPublic → Contact
  unfolding fingerprint
  contact_of online_peers aliases who =
      let id = generate_peer_hash x who in
      let address = lookup id online_peers in
      record {
        id = id;
        fingerprint = fingerprint id;
        online = elim address [ none ↦ false | some a ↦ true ];
        address = address;
        alias = lookup id aliases;
      }

  -- `now` is the time of the presence check, which also drops expired entries.
  unfoldable pub contacts : ℤ → World D → List Contact × World D
  unfolding addresses contact_of
  contacts now w =
      let all = unwrap_or (load_peers x.primitives w.disk) [] in
      let (live, w') = load_online_peers x now w in
      let online_peers = addresses (unwrap_or live []) [] in
      let aliases = load_aliases x.primitives w.disk in
      (map (contact_of online_peers aliases) all, w')

  unfoldable pub resolve_peer : ℤ → Text → World D → Option Bytes × World D
  resolve_peer now query w = let (cs, w') = contacts now w in (resolve_query cs query, w')

  unfoldable pub add_peer : Handle → Bytes → Bytes → Front D → Result Text Bytes × Front D
  unfolding put_disk submit
  add_peer h x25519 verifying f =
      if x.primitives.verifying_valid verifying
      then (let (r, d) =
            initialize_peer x.primitives x25519 verifying h.keys.x25519_priv f.world.disk in
          elim r [
            | err e ↦ (err (text "failed to add peer: " ++ display x.io_text e), put_disk d f)
            | ok _ ↦ (
              ok (identity_hash x.primitives x25519 verifying),
              submit announce_now (put_disk d f),
            )
          ])
      else (err (text "invalid ed25519 key"), f)

  unfoldable pub alias_text : AliasError → Text
  alias_text bad_alias = text "alias must be 1-32 characters"
  alias_text (alias_file_failed e) = x.io_text e
