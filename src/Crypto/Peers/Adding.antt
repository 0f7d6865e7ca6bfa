-- ===== src/Crypto/Peers/Adding.antt =====
-- The peers that crates/crypto/src/lib.rs loads after `initialize_peer`.
use sechat_client.Base.{
  ◌≡◌, refl, ap, ◌∙◌, inl, inr, true, none, some, List, [], ◌∷◌, ◌++◌, arith, Bool-cases,
  Option-cases, length, length-append, take-append, drop-append, take_all, ok, Result-cases,
}
use sechat_client.Base.Assoc.{Assoc, insert}
use sechat_client.Base.Bytes.{Bytes, bytes_eq, bytes_eq_iff}
use sechat_client.Client.State.{post}
use sechat_client.Crypto.Derive.{identity_hash}
use sechat_client.Crypto.Disk.{
  PeerDir, peers_root, peer_dir, peer_pub_file, Disk, attempt, dir_or_new, set_dir,
}
use sechat_client.Crypto.Peers.{
  peer_file, parse_peer, initialize_peer, load_entry, load_entries, load_peers,
}
use sechat_client.Crypto.Primitives.{Primitives}
use sechat_client.Crypto.Types.{PeerPublic}

parse_peer_lem :
    (p : Primitives) (k v : Bytes)
    → length k ≡ 32
    → length v ≡ 32
    → p.verifying_valid v ≡ true
    → parse_peer p (k ++ v) ≡ ok (record { public = k; verifying = v })
unfolding parse_peer
parse_peer_lem p k v lk lv valid =
    rw (drop-append 32 k v lk, take_all 32 v lv, valid, take-append 32 k v lk) refl

module _ (p : Primitives) {D : Type 0} where
  -- Loading looks at the faults of the disk only.
  load_entries_faults :
      (d e : Disk D) (m : Assoc (PeerDir D))
      → e.faults ≡ d.faults
      → load_entries p e m ≡ load_entries p d m
  unfolding load_entries load_entry
  load_entries_faults d e [] h = refl
  load_entries_faults d e ((id, dir) ∷ m) h = grind (arith, h, load_entries_faults d e m h)

  load_entries-insert :
      (d : Disk D) (id : Bytes) (dir : PeerDir D) (who : PeerPublic) (m : Assoc (PeerDir D))
      (ps : List PeerPublic)
      → load_entries p d m ≡ ok ps
      → load_entry p d (id, dir) ≡ ok who
      → (before : List PeerPublic) × (after : List PeerPublic) × (load_entries p d (insert id dir m)
          ≡ ok (before ++ who ∷ after))
  unfolding load_entries insert
  load_entries-insert d id dir who [] ps h e = ([], [], ground (arith, e))
  load_entries-insert d id dir who ((j, v) ∷ m) ps h e =
      elim (Result-cases (load_entry p d (j, v))) [
        | inr (_, bad) ↦ absurd (ground (arith, bad))
        | inl (a, first) ↦ elim (Result-cases (load_entries p d m)) [
          | inr (_, bad) ↦ absurd (ground (arith, first, bad))
          | inl (qs, rest) ↦ elim (Bool-cases (bytes_eq j id)) [
            | inl same ↦
                let here : load_entry p d (j, dir) ≡ ok who =
                  ap (λ i. load_entry p d (i, dir)) ((bytes_eq_iff j id).0 same) ∙ e in
                ([], qs, ground (arith, same, here, rest))
            | inr differs ↦
                let (pre, post, ih) = load_entries-insert d id dir who m qs rest e in
                (a ∷ pre, post, ground (arith, differs, first, ih))
          ]
        ]
      ]

  written_entry :
      (k v id : Bytes) (dir : PeerDir D) (d : Disk D)
      → length k ≡ 32
      → length v ≡ 32
      → p.verifying_valid v ≡ true
      → d.faults (peer_pub_file id) ≡ none
      → load_entry p d (id, record dir { peer_pub = some (peer_file k v) })
        ≡ ok (record { public = k; verifying = v })
  unfolding load_entry peer_file
  written_entry k v id dir d lk lv valid free =
      let l : length (k ++ v) ≡ 64 = omega (arith, length-append k v) in
      let whole = take_all 64 (k ++ v) l in
      let parsed = parse_peer_lem p k v lk lv valid in ground (arith, free, l, whole, parsed)

  -- If every stored peer loads and a new one with two keys of 32 bytes is written, the peers that
  -- load afterwards have the new one among them.
  pub load_peers-initialize_peer :
      (k v privkey : Bytes) (d : Disk D) (ps : List PeerPublic) (keys : Bytes × Bytes)
      → length k ≡ 32
      → length v ≡ 32
      → p.verifying_valid v ≡ true
      → load_entries p d d.peers ≡ ok ps
      → d.faults peers_root ≡ none
      → (initialize_peer p k v privkey d).0 ≡ ok keys
      → (before : List PeerPublic) × (after : List PeerPublic) × (load_peers p
            (initialize_peer p k v privkey d).1
          ≡ ok (before ++ record { public = k; verifying = v } ∷ after))
  unfolding initialize_peer attempt load_peers set_dir
  load_peers-initialize_peer k v privkey d ps keys lk lv valid loads root success =
      let id = identity_hash p k v in
      elim (Option-cases (d.faults (peer_dir id))) [
        | inr (_, bad) ↦ absurd (ground (arith, bad))
        | inl dir_made ↦ elim (Option-cases (d.faults (peer_pub_file id))) [
          | inr (_, bad) ↦ absurd (ground (arith, dir_made, bad))
          | inl written ↦
              let dir = dir_or_new id d in
              let dir' : PeerDir D = record dir { peer_pub = some (peer_file k v) } in
              let d' = set_dir id (λ dir. record dir { peer_pub = some (peer_file k v) }) d in
              let parsed : load_entry p d (id, dir') ≡ ok (record { public = k; verifying = v }) =
                written_entry k v id dir d lk lv valid written in
              let (pre, post, e) =
                load_entries-insert d id dir' (record { public = k; verifying = v }) d.peers ps
                  loads parsed in
              let moved = load_entries_faults d d' (insert id dir' d.peers) refl in
              (pre, post, ground (arith, dir_made, written, root, e, moved))
        ]
      ]
