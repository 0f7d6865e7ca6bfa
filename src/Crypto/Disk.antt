-- ===== src/Crypto/Disk.antt =====
-- The files under ~/.sechat, as std::fs shows them to crates/crypto/src/lib.rs. A directory of a
-- peer is filed under the peer's identity, whose hex form is its name.
use mathlib.Core.Option
use sechat_client.Base.{
  ℕ, ◌≡◌, Bool, true, Option, none, some, ltb, if◌then◌else◌, length, take, Result, ok, err,
}
use sechat_client.Base.Assoc.{Assoc, lookup, insert, lookup-insert}
use sechat_client.Base.Bytes.{Bytes, Text, bytes_eq}
use sechat_client.Crypto.Types.{ErrorKind, other_kind, CryptoErrors, other, corrupted_file}

pub record PeerDir (D : Type 0) : Type 0 where
  pub peer_pub : Option Bytes
  pub chat : Option D

-- The places at which a system call may fail.
pub data Place : Type 0 where
  base_dir peers_root identity_key_file identity_pub_file server_file aliases_file : Place
  peer_dir peer_pub_file chat_db : Bytes → Place

pub record Disk (D : Type 0) : Type 0 where
  pub identity_key : Option Bytes
  pub identity_pub : Option Bytes
  pub server : Option Text
  pub aliases : Option Text
  pub has_peers_root : Bool
  pub peers : Assoc (PeerDir D)
  -- The error of opening, creating or removing what stands at a place, if any.
  pub faults : Place → Option ErrorKind

module _ {D : Type 0} where
  abbrev pub new_peer_dir : PeerDir D
  new_peer_dir = record { peer_pub = none; chat = none }

  -- `create_dir_all`, `open` for writing, `remove_dir_all`: the fault of the place, or a success.
  unfoldable pub attempt : Disk D → Place → Result CryptoErrors (Unit {0})
  attempt d place = elim (d.faults place) [ none ↦ ok tt | some e ↦ err (other e) ]

  unfoldable pub peer_pub_of : Disk D → Bytes → Option Bytes
  peer_pub_of d id = elim (lookup id d.peers) [ none ↦ none | some dir ↦ dir.peer_pub ]

  -- The bytes of the file at a place.
  unfoldable pub contents : Disk D → Place → Option Bytes
  unfolding peer_pub_of
  contents d identity_key_file = d.identity_key
  contents d identity_pub_file = d.identity_pub
  contents d (peer_pub_file id) = peer_pub_of d id
  contents d _ = none

  unfoldable pub dir_or_new : Bytes → Disk D → PeerDir D
  dir_or_new id d = Option.get_or (lookup id d.peers) new_peer_dir

  -- The directory of a peer with a change; it is made if it is not there.
  unfoldable pub set_dir : Bytes → (PeerDir D → PeerDir D) → Disk D → Disk D
  unfolding dir_or_new
  set_dir id f d = record d {
    has_peers_root = true;
    peers = insert id (f (dir_or_new id d)) d.peers;
  }

unfoldable pub open_error : ErrorKind → CryptoErrors
open_error ErrorKind.permission_denied = CryptoErrors.permission_denied
open_error e = other e

module _ {D : Type 0} where
  -- `read_file_to_buffer`: exactly that many bytes from the front of the file.
  unfoldable pub read_file_to_buffer : Disk D → Place → ℕ → Result CryptoErrors Bytes
  unfolding contents open_error
  read_file_to_buffer d place sizeinbytes = elim (d.faults place) [
    | some e ↦ err (open_error e)
    | none ↦ elim (contents d place) [
      | none ↦ err (other other_kind)
      | some b ↦ if ltb (length b) sizeinbytes then err corrupted_file else ok (take sizeinbytes b)
    ]
  ]

module _ {D : Type 0} where
  -- The conversation tree of a peer.
  unfoldable pub chat_of : Disk D → Bytes → Option D
  chat_of d id = elim (lookup id d.peers) [ none ↦ none | some dir ↦ dir.chat ]

  -- Where a disk with a changed directory differs from the old one.
  pub lookup-set_dir :
      (id j : Bytes) (f : PeerDir D → PeerDir D) (d : Disk D)
      → lookup j (set_dir id f d).peers
        ≡ (if bytes_eq id j then some (f (dir_or_new id d)) else lookup j d.peers)
  unfolding set_dir
  lookup-set_dir id j f d = lookup-insert id j (f (dir_or_new id d)) d.peers
