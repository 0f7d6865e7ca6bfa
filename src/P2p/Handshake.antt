-- ===== src/P2p/Handshake.antt =====
-- `initial_handshake` and `relay_handshake` of crates/p2p/src/lib.rs. What `select!` yields before
-- the deadline is a list of inputs; after the last one the deadline passes.
use sechat_client.Base.{
  ◌≡◌, refl, ◌∙◌, true, Option, none, some, List, [], ◌∷◌, ◌++◌, arith, if◌then◌else◌, Result, ok,
  err, map_err,
}
use sechat_client.Base.Bytes.{Bytes}
use sechat_client.Base.Int.{ℤ}
use sechat_client.Crypto.Derive.{label_session, derive_session_key}
use sechat_client.Crypto.Primitives.{Primitives, PrimitiveLaws, Codec, CodecLaws}
use sechat_client.Crypto.Types.{PeerPublic}
use sechat_client.P2p.Fresh.{frame_is_fresh}
use sechat_client.P2p.Message.{
  P2PError, communication_error, timeout, cryptographic_failure, P2PMessage, init, PeerMessage,
  new_peer_message, verify, verify-new_peer_message,
}

pub data HandshakeInput : Type 0 where
  resend : HandshakeInput
  -- a frame, and the time at which it is read
  arrived : Bytes → ℤ → HandshakeInput
  -- a receive error on the socket, or a closed relay channel
  receive_failed : HandshakeInput

module _ (p : Primitives) (c : Codec PeerMessage) where
  unfoldable pub frame : P2PMessage → Bytes → Bytes → ℤ → Option Bytes
  frame payload my_pub signing now = c.to_vec (new_peer_message p payload my_pub signing now)

  -- What a handshake does with a frame: `none` ignores it.
  unfoldable pub accept_init : Bytes → PeerPublic → Bytes → ℤ → Option (Result P2PError Bytes)
  accept_init eph_priv remote b now = elim (c.from_slice b) [
    | none ↦ none
    | some msg ↦
        if verify p msg remote.public remote.verifying
        then (if frame_is_fresh msg.timestamp now
            then elim msg.payload [
              | init ephemeral ↦
                  some
                    (map_err (λ _. cryptographic_failure) (derive_session_key p eph_priv ephemeral))
              | _ ↦ none
            ]
            else none)
        else none
  ]

  -- Over the socket a receive error is ignored.
  unfoldable pub initial_handshake :
      Bytes → PeerPublic → List HandshakeInput → Result P2PError Bytes
  initial_handshake eph_priv remote [] = err timeout
  initial_handshake eph_priv remote (resend ∷ rest) = initial_handshake eph_priv remote rest
  initial_handshake eph_priv remote (receive_failed ∷ rest) = initial_handshake eph_priv remote rest
  initial_handshake eph_priv remote (arrived b now ∷ rest) =
      elim (accept_init eph_priv remote b now) [
        | none ↦ initial_handshake eph_priv remote rest
        | some r ↦ r
      ]

  -- Over the relay a closed channel ends the handshake.
  unfoldable pub relay_handshake : Bytes → PeerPublic → List HandshakeInput → Result P2PError Bytes
  relay_handshake eph_priv remote [] = err timeout
  relay_handshake eph_priv remote (resend ∷ rest) = relay_handshake eph_priv remote rest
  relay_handshake eph_priv remote (receive_failed ∷ rest) = err communication_error
  relay_handshake eph_priv remote (arrived b now ∷ rest) =
      elim (accept_init eph_priv remote b now) [
        | none ↦ relay_handshake eph_priv remote rest
        | some r ↦ r
      ]

  -- Inputs that a handshake passes over.
  abbrev pub Ignored : Bytes → PeerPublic → List HandshakeInput → Type 0
  Ignored eph_priv remote [] = Unit
  Ignored eph_priv remote (resend ∷ rest) = Ignored eph_priv remote rest
  Ignored eph_priv remote (receive_failed ∷ rest) = ⊥
  Ignored eph_priv remote (arrived b now ∷ rest) =
      (accept_init eph_priv remote b now ≡ none) × Ignored eph_priv remote rest

  pub relay_handshake-Ignored :
      (eph_priv : Bytes) (remote : PeerPublic) (junk rest : List HandshakeInput)
      → Ignored eph_priv remote junk
      → (relay_handshake eph_priv remote (junk ++ rest) ≡ relay_handshake eph_priv remote rest)
        × (initial_handshake eph_priv remote (junk ++ rest)
            ≡ initial_handshake eph_priv remote rest)
  unfolding relay_handshake initial_handshake
  relay_handshake-Ignored eph_priv remote [] rest h = (refl, refl)
  relay_handshake-Ignored eph_priv remote (resend ∷ junk) rest h =
      relay_handshake-Ignored eph_priv remote junk rest h
  relay_handshake-Ignored eph_priv remote (receive_failed ∷ junk) rest h = absurd h
  relay_handshake-Ignored eph_priv remote (arrived b now ∷ junk) rest h =
      ground (arith, relay_handshake-Ignored eph_priv remote junk rest h.1)

  ends_with :
      (eph_priv : Bytes) (remote : PeerPublic) (junk : List HandshakeInput) (b : Bytes) (now : ℤ)
      (k : Bytes)
      → Ignored eph_priv remote junk
      → accept_init eph_priv remote b now ≡ some (ok k)
      → (relay_handshake eph_priv remote (junk ++ arrived b now ∷ []) ≡ ok k)
        × (initial_handshake eph_priv remote (junk ++ arrived b now ∷ []) ≡ ok k)
  unfolding relay_handshake initial_handshake
  ends_with eph_priv remote junk b now k ignored e =
      let skipped = relay_handshake-Ignored eph_priv remote junk (arrived b now ∷ []) ignored in
      (skipped.0 ∙ ground arith, skipped.1 ∙ ground arith)

  module _ (laws : PrimitiveLaws p) (cl : CodecLaws c) where
    -- The Init of a peer, framed by the peer, is accepted within the window.
    accept_init-frame :
        (eph_a eph_b signing public b : Bytes) (sent now : ℤ)
        → frame (init (p.x25519_public eph_b)) public signing sent ≡ some b
        → frame_is_fresh sent now ≡ true
        → accept_init eph_a
            (record { public = public; verifying = p.ed25519_verifying signing })
            b
            now
          ≡ some (
              map_err
                (λ _. cryptographic_failure)
                (derive_session_key p eph_a (p.x25519_public eph_b)))
    unfolding accept_init frame new_peer_message
    accept_init-frame eph_a eph_b signing public b sent now e fresh =
        let m = new_peer_message p (init (p.x25519_public eph_b)) public signing sent in
        ground (
          arith,
          cl.from_slice-to_vec m b e,
          verify-new_peer_message p laws (init (p.x25519_public eph_b)) public signing sent,
        )

    derive_session_key_symmetric :
        (a b : Bytes)
        → (k : Bytes) × (derive_session_key p a (p.x25519_public b) ≡ ok k)
          × (derive_session_key p b (p.x25519_public a) ≡ ok k)
    unfolding derive_session_key
    derive_session_key_symmetric a b =
        let agreed = p.diffie_hellman a (p.x25519_public b) in
        let (k, e, _) = laws.hkdf_total agreed label_session 32 (omega arith) in
        (k, ground arith, ground (arith, laws.dh_symmetric a b))

    -- Two peers that read each other's Init, each after inputs that it ignores and within the
    -- window, end the direct and the relay handshake with one session key.
    pub handshakes_agree :
        (eph_a eph_b sign_a sign_b pub_a pub_b init_a init_b : Bytes)
        (sent_a sent_b read_a read_b : ℤ) (junk_a junk_b : List HandshakeInput)
        → frame (init (p.x25519_public eph_a)) pub_a sign_a sent_a ≡ some init_a
        → frame (init (p.x25519_public eph_b)) pub_b sign_b sent_b ≡ some init_b
        → frame_is_fresh sent_b read_a ≡ true
        → frame_is_fresh sent_a read_b ≡ true
        → Ignored eph_a (record { public = pub_b; verifying = p.ed25519_verifying sign_b }) junk_a
        → Ignored eph_b (record { public = pub_a; verifying = p.ed25519_verifying sign_a }) junk_b
        → (k : Bytes) × (relay_handshake eph_a
              (record { public = pub_b; verifying = p.ed25519_verifying sign_b })
              (junk_a ++ arrived init_b read_a ∷ [])
            ≡ ok k)
          × (relay_handshake eph_b
                (record { public = pub_a; verifying = p.ed25519_verifying sign_a })
                (junk_b ++ arrived init_a read_b ∷ [])
              ≡ ok k)
          × (initial_handshake eph_a
                (record { public = pub_b; verifying = p.ed25519_verifying sign_b })
                (junk_a ++ arrived init_b read_a ∷ [])
              ≡ ok k)
          × (initial_handshake eph_b
                (record { public = pub_a; verifying = p.ed25519_verifying sign_a })
                (junk_b ++ arrived init_a read_b ∷ [])
              ≡ ok k)
    handshakes_agree eph_a eph_b sign_a sign_b pub_a pub_b init_a init_b sent_a sent_b read_a read_b
          junk_a junk_b fa fb ha hb ja jb =
        let (k, ka, kb) = derive_session_key_symmetric eph_a eph_b in
        let accepted_a = accept_init-frame eph_a eph_b sign_b pub_b init_b sent_b read_a fb ha in
        let accepted_b = accept_init-frame eph_b eph_a sign_a pub_a init_a sent_a read_b fa hb in
        let ends_a = ends_with eph_a _ junk_a init_b read_a k ja (accepted_a ∙ rw ka) in
        let ends_b = ends_with eph_b _ junk_b init_a read_b k jb (accepted_b ∙ rw kb) in
        (k, ends_a.0, ends_b.0, ends_a.1, ends_b.1)
