-- ===== src/Crypto/Peers/Removal.antt =====
-- What `purge_peer_chat` and `delete_peer` leave behind, and what a directory without keys does.
use sechat_client.Base.{
  ◌≡◌, inl, inr, false, none, some, [], ◌∷◌, arith, if◌then◌else◌, Option-cases, ok, is_ok,
}
use sechat_client.Base.Assoc.{Assoc, lookup, remove, lookup-remove}
use sechat_client.Base.Bytes.{Bytes, bytes_eq, bytes_eq_iff}
use sechat_client.Crypto.Disk.{
  PeerDir, peer_dir, chat_db, Disk, attempt, peer_pub_of, dir_or_new, set_dir, chat_of,
  lookup-set_dir,
}
use sechat_client.Crypto.Peers.{load_entry, load_entries, load_peers, purge_peer_chat, delete_peer}
use sechat_client.Crypto.Primitives.{Primitives}

module _ {D : Type 0} where
  pub purge_peer_chat-clears :
      (id : Bytes) (d : Disk D)
      → d.faults (chat_db id) ≡ none
      → (d' : Disk D) × (purge_peer_chat id d ≡ ok d')
        × (chat_of d' id ≡ none)
        × (peer_pub_of d' id ≡ peer_pub_of d id)
  unfolding purge_peer_chat attempt chat_of peer_pub_of dir_or_new
  purge_peer_chat-clears id d free =
      let facts = lookup-set_dir id id (λ dir. record dir { chat = none }) d in
      elim (Option-cases (lookup id d.peers)) [
        | inl e ↦ (d, ground arith, ground arith, ground arith)
        | inr (dir, e) ↦ elim (Option-cases dir.chat) [
          | inl f ↦ (d, ground arith, ground arith, ground arith)
          | inr (db, f) ↦ (
            set_dir id (λ dir. record dir { chat = none }) d,
            ground (arith, facts, bytes_eq_iff id id),
            ground (arith, facts, bytes_eq_iff id id),
            ground (arith, facts, bytes_eq_iff id id),
          )
        ]
      ]

  pub delete_peer-removes :
      (id : Bytes) (d : Disk D)
      → d.faults (peer_dir id) ≡ none
      → (d' : Disk D) × (delete_peer id d ≡ ok d')
        × ((j : Bytes) → lookup j d'.peers ≡ (if bytes_eq id j then none else lookup j d.peers))
  unfolding delete_peer attempt
  delete_peer-removes id d free = elim (Option-cases (lookup id d.peers)) [
    | inl e ↦ (d, ground arith, λ j. ground (arith, bytes_eq_iff id j))
    | inr (dir, e) ↦
        (record d { peers = remove id d.peers }, ground arith, λ j. lookup-remove id j d.peers)
  ]

module _ (p : Primitives) {D : Type 0} where
  load_entries-stray :
      (d : Disk D) (id : Bytes) (dir : PeerDir D) (m : Assoc (PeerDir D))
      → lookup id m ≡ some dir
      → dir.peer_pub ≡ none
      → is_ok (load_entries p d m) ≡ false
  unfolding lookup load_entries load_entry
  load_entries-stray d id dir [] found none_there = ground arith
  load_entries-stray d id dir ((j, other_dir) ∷ m) found none_there =
      ground (arith, bytes_eq_iff j id, load_entries-stray d id dir m)

  -- One directory of a peer that has no `peer.pub` makes loading all the peers fail.
  pub load_peers-stray :
      (d : Disk D) (id : Bytes) (dir : PeerDir D)
      → lookup id d.peers ≡ some dir
      → dir.peer_pub ≡ none
      → is_ok (load_peers p d) ≡ false
  unfolding load_peers
  load_peers-stray d id dir found none_there =
      ground (arith, load_entries-stray d id dir d.peers found none_there)
