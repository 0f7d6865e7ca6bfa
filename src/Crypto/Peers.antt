-- ===== src/Crypto/Peers.antt =====
-- The peer store of crates/crypto/src/lib.rs: one directory per peer, with the peer's two keys.
pub mod Removal
pub mod Adding
use sechat_client.Base.{
  none, some, List, [], ◌∷◌, ◌++◌, ltb, if◌then◌else◌, length, take, drop, Result, ok, err, ◌>>=◌,
  ◌>>◌,
}
use sechat_client.Base.Assoc.{Assoc, lookup, remove, contains_key}
use sechat_client.Base.Bytes.{Bytes, text}
use sechat_client.Crypto.Derive.{label_session, label_storage, identity_hash, derive}
use sechat_client.Crypto.Disk.{
  PeerDir, peers_root, peer_dir, peer_pub_file, chat_db, Disk, attempt, set_dir,
  read_file_to_buffer,
}
use sechat_client.Crypto.Primitives.{Primitives}
use sechat_client.Crypto.Types.{
  PeerPublic, unexpected_eof, other_kind, CryptoErrors, not_found, other, corrupted_file,
}

-- A peer's two keys as they stand in its `peer.pub`.
unfoldable pub peer_file : Bytes → Bytes → Bytes
peer_file public verifying = public ++ verifying

module _ (p : Primitives) where
  -- The keys in the 64 bytes of a `peer.pub`.
  unfoldable pub parse_peer : Bytes → Result CryptoErrors PeerPublic
  parse_peer buf =
      if p.verifying_valid (take 32 (drop 32 buf))
      then ok (record { public = take 32 buf; verifying = take 32 (drop 32 buf) })
      else err corrupted_file

  module _ {D : Type 0} where
    -- Writes the peer's keys, and returns the session and storage keys; the disk comes back in
    -- either case, since the file is written before the keys are derived.
    unfoldable pub initialize_peer :
        Bytes → Bytes → Bytes → Disk D → Result CryptoErrors (Bytes × Bytes) × Disk D
    unfolding attempt set_dir derive identity_hash peer_file
    initialize_peer peer_key peer_verifying privkey d =
        let id = identity_hash p peer_key peer_verifying in
        let made = set_dir id (λ dir. dir) d in
        let written =
          set_dir id (λ dir. record dir { peer_pub = some (peer_file peer_key peer_verifying) })
            d in
        elim (attempt d (peer_dir id)) [
          | err e ↦ (err e, d)
          | ok _ ↦ elim (attempt d (peer_pub_file id)) [
            | err e ↦ (err e, made)
            | ok _ ↦ (
              (do
                session_key ← derive p privkey peer_key label_session
                storage_key ← derive p privkey peer_key label_storage
                ok (session_key, storage_key)),
              written,
            )
          ]
        ]

    unfoldable pub load_peer_data : Disk D → Bytes → Result CryptoErrors PeerPublic
    unfolding read_file_to_buffer parse_peer
    load_peer_data d id =
        if contains_key id d.peers
        then (do buf ← read_file_to_buffer d (peer_pub_file id) 64; parse_peer buf)
        else err (not_found (p.hex_encode id))

    -- One entry of the directory of peers.
    unfoldable pub load_entry : Disk D → Bytes × PeerDir D → Result CryptoErrors PeerPublic
    unfolding parse_peer
    load_entry d (id, dir) = elim (d.faults (peer_pub_file id)) [
      | some e ↦ err (other e)
      | none ↦ elim dir.peer_pub [
        | none ↦ err (other other_kind)
        | some b ↦ if ltb (length b) 64 then err (other unexpected_eof) else parse_peer (take 64 b)
      ]
    ]

    -- `collect` into a result: the first error is the result.
    unfoldable pub load_entries : Disk D → Assoc (PeerDir D) → Result CryptoErrors (List PeerPublic)
    load_entries d [] = ok []
    load_entries d (entry ∷ rest) =
        let others = load_entries d rest in
        do first ← load_entry d entry; peers ← others; ok (first ∷ peers)

    unfoldable pub load_peers : Disk D → Result CryptoErrors (List PeerPublic)
    unfolding load_entries
    load_peers d =
        if d.has_peers_root
        then elim (d.faults peers_root) [
          | none ↦ load_entries d d.peers
          | some e ↦ err (not_found (text "peers"))
        ]
        else err (not_found (text "peers"))

module _ {D : Type 0} where
  -- The chat goes, the keys stay.
  unfoldable pub purge_peer_chat : Bytes → Disk D → Result CryptoErrors (Disk D)
  unfolding attempt
  purge_peer_chat id d = elim (lookup id d.peers) [
    | none ↦ ok d
    | some dir ↦ elim dir.chat [
      | none ↦ ok d
      | some db ↦ (do attempt d (chat_db id); ok (set_dir id (λ dir. record dir { chat = none }) d))
    ]
  ]

  unfoldable pub delete_peer : Bytes → Disk D → Result CryptoErrors (Disk D)
  unfolding attempt
  delete_peer id d =
      if contains_key id d.peers
      then (do attempt d (peer_dir id); ok (record d { peers = remove id d.peers }))
      else ok d
