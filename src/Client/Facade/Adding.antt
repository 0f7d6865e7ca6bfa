-- ===== src/Client/Facade/Adding.antt =====
-- The contacts that the handle of crates/client/src/lib.rs shows after `Client::add_peer`.
use mathlib.Core.List.{map-append}
use sechat_client.Base.{
  ◌≡◌, ap, ◌∙◌, inl, inr, none, List, [], ◌∷◌, ◌++◌, map, arith, Bool-cases, length, ok, unwrap_or,
  Result-cases,
}
use sechat_client.Base.Assoc.{Assoc}
use sechat_client.Base.Bytes.{Bytes, Text}
use sechat_client.Base.Int.{ℤ}
use sechat_client.Client.Aliases.{load_aliases}
use sechat_client.Client.Facade.{
  Front, Handle, submit, put_disk, fingerprint, addresses, contact_of, contacts, add_peer,
}
use sechat_client.Client.Types.{Contact, announce_now}
use sechat_client.Crypto.Derive.{identity_hash}
use sechat_client.Crypto.Disk.{peers_root}
use sechat_client.Crypto.Peers.{initialize_peer, load_entries}
use sechat_client.Crypto.Peers.Adding.{load_peers-initialize_peer}
use sechat_client.Crypto.Types.{PeerPublic}
use sechat_client.Server.Generators.{generate_peer_hash}
use sechat_client.Server.Presence.{load_online_peers}
use sechat_client.Server.Services.{Services}

module _ {D : Type 0} (x : Services D) where
  map-splits :
      (m n : Assoc Text) (bs cs : List PeerPublic) (who : PeerPublic)
      → map (contact_of x m n) (bs ++ who ∷ cs)
        ≡ map (contact_of x m n) bs ++ contact_of x m n who ∷ map (contact_of x m n) cs
  map-splits m n bs cs who = map-append (contact_of x m n) bs (who ∷ cs)

  -- Two keys of 32 bytes are added on a disk on which every stored peer loads and whose directory of
  -- peers can be read. If this succeeds with an identity, then the contacts have one with this
  -- identity and its fingerprint, and an announcement goes to the event loop, behind the commands
  -- that were there.
  pub add_peer-contacts :
      (h : Handle) (k v id : Bytes) (f : Front D) (ps : List PeerPublic) (now : ℤ)
      → length k ≡ 32
      → length v ≡ 32
      → load_entries x.primitives f.world.disk f.world.disk.peers ≡ ok ps
      → f.world.disk.faults peers_root ≡ none
      → (add_peer x h k v f).0 ≡ ok id
      → let f' = (add_peer x h k v f).1 in
        (before : List Contact) × (c : Contact) × (after : List Contact) × ((contacts x now
            f'.world).0
          ≡ before ++ c ∷ after)
        × (c.id ≡ id)
        × (c.fingerprint ≡ fingerprint x id)
        × (f'.commands ≡ f.commands ++ announce_now ∷ [])
  unfolding add_peer put_disk submit contacts contact_of generate_peer_hash
  add_peer-contacts h k v id f ps now lk lv loads root success =
      let d = f.world.disk in
      elim (Bool-cases (x.primitives.verifying_valid v)) [
        | inr bad ↦ absurd (ground (arith, bad))
        | inl valid ↦
            elim (Result-cases (initialize_peer x.primitives k v h.keys.x25519_priv d).0) [
              | inr (_, bad) ↦ absurd (ground (arith, valid, bad))
              | inl (keys, made) ↦
                  let (bs, cs, e) =
                    load_peers-initialize_peer x.primitives k v h.keys.x25519_priv d ps keys lk lv
                      valid loads root made in
                  let who : PeerPublic = record { public = k; verifying = v } in
                  let d' = (initialize_peer x.primitives k v h.keys.x25519_priv d).1 in
                  let w' = (put_disk d' f).world in
                  let m = addresses x (unwrap_or (load_online_peers x now w').0 []) [] in
                  let n = load_aliases x.primitives d' in
                  let ran : add_peer x h k v f
                      ≡ (ok (identity_hash x.primitives k v), submit announce_now (put_disk d' f)) =
                    ground (arith, valid, made) in
                  let same : identity_hash x.primitives k v ≡ id = ground (arith, success, ran) in
                  (
                    map (contact_of x m n) bs,
                    contact_of x m n who,
                    map (contact_of x m n) cs,
                    ap (λ r. (contacts x now r.1.world).0) ran
                        ∙ ap (λ l. map (contact_of x m n) (unwrap_or l [])) e
                        ∙ map-splits m n bs cs who,
                    same,
                    ap (fingerprint x) same,
                    ap (λ r. r.1.commands) ran,
                  )
            ]
      ]
