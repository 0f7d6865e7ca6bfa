-- ===== src/P2p/Punch.antt =====
-- `punch_hole` and `stun_discover` of crates/p2p/src/lib.rs. What `select!` yields is a list of
-- inputs; the deadline comes after the last.
use sechat_client.Base.{
  ℕ, zero, suc, ◌≡◌, ap, ◌≢◌, inl, inr, Bool, true, false, not, ◌&&◌, Option, none, some, List, [],
  ◌∷◌, ◌++◌, arith, ◌==◌, if◌then◌else◌, Bool-cases, Option-cases, Result, ok, err,
}
use sechat_client.Base.Bytes.{
  Bytes, Text, bytes_eq, bytes_eq_iff, bytes_eq_refl, bytes_lt, bytes_lt_asymm, bytes_lt_total,
  le_bytes,
}
use sechat_client.Base.Int.{ℤ, to_u64}
use sechat_client.Crypto.Derive.{sign_challenge}
use sechat_client.Crypto.Primitives.{Primitives, Codec}

pub record Ping : Type 0 where
  pub pubkey : Bytes
  pub timestamp : ℕ

pub data PunchHoleResult : Type 0 where
  send_error recv_error punch_timeout : PunchHoleResult

pub data PunchInput : Type 0 where
  tick : PunchInput
  -- a datagram and its source
  datagram : Bytes → Text → PunchInput
  recv_failed : PunchInput

module _ (c : Codec Ping) where
  -- Whether a datagram is the ping that is waited for.
  unfoldable pub is_ping_of : Bytes → ℕ → Bytes → Bool
  is_ping_of remote_pubkey timestamp b = elim (c.from_slice b) [
    | none ↦ false
    | some ping ↦ bytes_eq ping.pubkey remote_pubkey && ping.timestamp == timestamp
  ]

  unfoldable pub punch_loop : ℕ → Bytes → List PunchInput → Result PunchHoleResult Text
  punch_loop timestamp remote_pubkey [] = err punch_timeout
  punch_loop timestamp remote_pubkey (tick ∷ rest) = punch_loop timestamp remote_pubkey rest
  punch_loop timestamp remote_pubkey (datagram b addr ∷ rest) =
      let others = punch_loop timestamp remote_pubkey rest in
      if is_ping_of remote_pubkey timestamp b then ok addr else others
  punch_loop timestamp remote_pubkey (recv_failed ∷ rest) = err recv_error

  unfoldable pub punch_hole : ℕ → Bytes → Bytes → List PunchInput → Result PunchHoleResult Text
  unfolding punch_loop
  punch_hole timestamp mypubkey remote_pubkey inputs =
      elim (c.to_vec (record { pubkey = mypubkey; timestamp = timestamp })) [
        | none ↦ err send_error
        | some ping ↦ punch_loop timestamp remote_pubkey inputs
      ]

  -- Inputs that leave a hole punch waiting: ticks, and datagrams that are no ping of the peer with
  -- the agreed time.
  abbrev pub KeepsWaiting : ℕ → Bytes → List PunchInput → Type 0
  KeepsWaiting timestamp remote_pubkey [] = Unit
  KeepsWaiting timestamp remote_pubkey (tick ∷ rest) = KeepsWaiting timestamp remote_pubkey rest
  KeepsWaiting timestamp remote_pubkey (recv_failed ∷ rest) = ⊥
  KeepsWaiting timestamp remote_pubkey (datagram b src ∷ rest) =
      (c.from_slice b ≢ some (record { pubkey = remote_pubkey; timestamp = timestamp }))
      × KeepsWaiting timestamp remote_pubkey rest

  is_ping_of_lem :
      (remote_pubkey : Bytes) (timestamp : ℕ) (b : Bytes)
      → is_ping_of remote_pubkey timestamp b ≡ true
      → c.from_slice b ≡ some (record { pubkey = remote_pubkey; timestamp = timestamp })
  unfolding is_ping_of
  is_ping_of_lem remote_pubkey timestamp b h = elim (Option-cases (c.from_slice b)) [
    | inl none_there ↦ absurd (ground (arith, h, none_there))
    | inr (ping, decoded) ↦ ground (arith, h, decoded, bytes_eq_iff ping.pubkey remote_pubkey)
  ]

  not_ping_of_lem :
      (remote_pubkey : Bytes) (timestamp : ℕ) (b : Bytes)
      → is_ping_of remote_pubkey timestamp b ≡ false
      → c.from_slice b ≢ some (record { pubkey = remote_pubkey; timestamp = timestamp })
  unfolding is_ping_of
  not_ping_of_lem remote_pubkey timestamp b h decoded =
      ground (arith, h, decoded, bytes_eq_refl remote_pubkey)

  -- Whatever address a hole punch returns is the source of the first datagram that decodes to a
  -- ping with the peer's key and exactly the agreed time; the receiving did not fail before it, and
  -- everything before it left the punch waiting.
  pub punch_hole_source :
      (timestamp : ℕ) (mypubkey remote_pubkey : Bytes) (inputs : List PunchInput) (addr : Text)
      → punch_hole timestamp mypubkey remote_pubkey inputs ≡ ok addr
      → (before : List PunchInput) × (b : Bytes) × (after : List PunchInput) × (inputs
          ≡ before ++ (datagram b addr ∷ after))
        × (c.from_slice b ≡ some (record { pubkey = remote_pubkey; timestamp = timestamp }))
        × KeepsWaiting timestamp remote_pubkey before
  unfolding punch_hole
  punch_hole_source timestamp mypubkey remote_pubkey inputs addr h =
      elim (Option-cases (c.to_vec (record { pubkey = mypubkey; timestamp = timestamp }))) [
        | inl failed ↦ absurd (ground arith)
        | inr (ping, e) ↦ go inputs (ground arith)
      ]
    where
      go :
          (inputs : List PunchInput)
          → punch_loop timestamp remote_pubkey inputs ≡ ok addr
          → (before : List PunchInput) × (b : Bytes) × (after : List PunchInput) × (inputs
              ≡ before ++ (datagram b addr ∷ after))
            × (c.from_slice b ≡ some (record { pubkey = remote_pubkey; timestamp = timestamp }))
            × KeepsWaiting timestamp remote_pubkey before
      go [] h = absurd (cc)
      go (tick ∷ rest) h =
          let (pre, b, post, e, t, waits) = go rest h in
          (tick ∷ pre, b, post, ap (λ l. tick ∷ l) e, t, waits)
      go (recv_failed ∷ rest) h = absurd (cc)
      go (datagram b src ∷ rest) h = elim (Bool-cases (is_ping_of remote_pubkey timestamp b)) [
        | inl hit ↦ ([], b, rest, ground arith, is_ping_of_lem remote_pubkey timestamp b hit, tt)
        | inr miss ↦
            let (pre, b', post, e, t, waits) = go rest (ground arith) in
            (
              datagram b src ∷ pre,
              b',
              post,
              ap (λ l. datagram b src ∷ l) e,
              t,
              (not_ping_of_lem remote_pubkey timestamp b miss, waits),
            )
      ]

-- `mypubkey > remote_pubkey`, in the order of arrays.
unfoldable pub am_i_first : Bytes → Bytes → Bool
am_i_first mypubkey remote_pubkey = bytes_lt remote_pubkey mypubkey

-- Of two peers with different keys exactly one is first.
pub am_i_first_exclusive : (a b : Bytes) → a ≢ b → am_i_first b a ≡ not (am_i_first a b)
unfolding am_i_first
am_i_first_exclusive a b h =
    ground (arith, bytes_lt_asymm a b, bytes_lt_asymm b a, bytes_lt_total a b, bytes_eq_iff a b)

pub record StunPing : Type 0 where
  pub pub_key : Bytes
  pub verif : Bytes
  pub timestamp : ℤ
  pub signature : Bytes

-- The three attempts: whether the send succeeds, and what arrives within two seconds.
pub data StunRound : Type 0 where
  send_failed : StunRound
  silence : StunRound
  reply : Bytes → StunRound

module _ (p : Primitives) (pings : Codec StunPing) (replies : Codec Text) where
  unfoldable pub stun_ping : Bytes → Bytes → ℤ → StunPing
  stun_ping pub_key signing now =
      let verif = p.ed25519_verifying signing in
      record {
        pub_key = pub_key;
        verif = verif;
        timestamp = now;
        signature = sign_challenge p signing (pub_key ++ (verif ++ le_bytes 8 (to_u64 now)));
      }

  unfoldable pub stun_rounds : ℕ → List StunRound → Option Text
  stun_rounds zero rounds = none
  stun_rounds (suc k) [] = none
  stun_rounds (suc k) (send_failed ∷ rest) = none
  stun_rounds (suc k) (silence ∷ rest) = stun_rounds k rest
  stun_rounds (suc k) (reply b ∷ rest) = elim (replies.from_slice b) [
    | some observed ↦ some observed
    | none ↦ stun_rounds k rest
  ]

  unfoldable pub stun_discover : Bytes → Bytes → ℤ → List StunRound → Option Text
  unfolding stun_rounds stun_ping
  stun_discover pub_key signing now rounds = elim (pings.to_vec (stun_ping pub_key signing now)) [
    | none ↦ none
    | some b ↦ stun_rounds 3 rounds
  ]
