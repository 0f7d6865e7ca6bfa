-- ===== src/Client/Retry/Budget.antt =====
-- How often `drive_retries` of crates/client/src/lib.rs punches a peer, and when it gives up.
use sechat_client.Base.{
  ℕ, suc, ◌+◌, ◌-◌, ◌*◌, ◌≤◌, ◌<◌, min, ◌≡◌, refl, ◌⊎◌, Bool, true, false, List, [], ◌∷◌, ◌++◌,
  arith, ok,
}
use sechat_client.Base.Bytes.{Bytes, text, le_bytes}
use sechat_client.Base.Int.{ℤ, to_u64, div_i64, mul_i64}
use sechat_client.Client.Retry.{armed, send_punch_request, drive_one}
use sechat_client.Client.State.{Link, send_link}
use sechat_client.Client.Types.{AppEvent, connect_retrying, connect_gave_up, ConnectIntent}
use sechat_client.Crypto.Derive.{derive, presence_token}
use sechat_client.Crypto.Disk.{Disk}
use sechat_client.Crypto.Peers.{load_peer_data}
use sechat_client.Crypto.Primitives.{PrimitiveLaws}
use sechat_client.Crypto.Types.{PeerPublic, Keys}
use sechat_client.Server.Generators.{generate_p2p_request}
use sechat_client.Server.Services.{Services}
use sechat_client.Server.Structs.{ClientMessage, request_hole_punch}

abbrev pub count_retrying : List AppEvent → ℕ
count_retrying [] = 0
count_retrying (connect_retrying id n delay ∷ es) = suc (count_retrying es)
count_retrying (e ∷ es) = count_retrying es

abbrev pub count_gave_up : List AppEvent → ℕ
count_gave_up [] = 0
count_gave_up (connect_gave_up id ∷ es) = suc (count_gave_up es)
count_gave_up (e ∷ es) = count_gave_up es

count_retrying-append :
    (es fs : List AppEvent) → count_retrying (es ++ fs) ≡ count_retrying es + count_retrying fs
count_retrying-append [] fs = omega arith
count_retrying-append (connect_retrying id n delay ∷ es) fs =
    omega (arith, count_retrying-append es fs)
count_retrying-append (_ ∷ es) fs = count_retrying-append es fs

count_gave_up-append :
    (es fs : List AppEvent) → count_gave_up (es ++ fs) ≡ count_gave_up es + count_gave_up fs
count_gave_up-append [] fs = omega arith
count_gave_up-append (connect_gave_up id ∷ es) fs = omega (arith, count_gave_up-append es fs)
count_gave_up-append (_ ∷ es) fs = count_gave_up-append es fs

-- A tick of one intent with no session: the clock, the instant, the files, and the link, which may
-- have changed since the tick before.
pub record Tick (D : Type 0) : Type 0 where
  pub now : ℤ
  pub at : ℕ
  pub disk : Disk D
  pub link : Link

module _ {D : Type 0} (x : Services D) (keys : Keys) (id : Bytes) where
  -- The intent and the events after ticks with no session, none of which is re-armed in between.
  unfoldable pub run_ticks : List (Tick D) → ConnectIntent → ConnectIntent × List AppEvent
  run_ticks [] i = (i, [])
  run_ticks (t ∷ ts) i =
      let (i', _, events) = drive_one x keys t.now t.at id false t.disk i t.link in
      let (i'', more) = run_ticks ts i' in (i'', events ++ more)

  -- One tick counts each attempt that it reports, and the step past the last attempt.
  drive_one-count :
      (now : ℤ) (at : ℕ) (d : Disk D) (i : ConnectIntent) (link : Link)
      → i.attempts ≤ 6
      → ((drive_one x keys now at id false d i link).0.attempts
          ≡ i.attempts
            + count_retrying (drive_one x keys now at id false d i link).2
            + count_gave_up (drive_one x keys now at id false d i link).2)
        × ((drive_one x keys now at id false d i link).0.attempts - 5
            ≡ i.attempts - 5 + count_gave_up (drive_one x keys now at id false d i link).2)
        × ((drive_one x keys now at id false d i link).0.attempts ≤ 6)
  unfolding drive_one send_punch_request
  drive_one-count now at d i link h = ground arith

  run_ticks-count :
      (ts : List (Tick D)) (i : ConnectIntent)
      → i.attempts ≤ 6
      → ((run_ticks ts i).0.attempts
          ≡ i.attempts + count_retrying (run_ticks ts i).1 + count_gave_up (run_ticks ts i).1)
        × ((run_ticks ts i).0.attempts - 5 ≡ i.attempts - 5 + count_gave_up (run_ticks ts i).1)
        × ((run_ticks ts i).0.attempts ≤ 6)
  unfolding run_ticks
  run_ticks-count [] i h = omega arith
  run_ticks-count (t ∷ ts) i h =
      let (i', _, events) = drive_one x keys t.now t.at id false t.disk i t.link in
      let (a, b, c) = drive_one-count t.now t.at t.disk i t.link h in
      let (a', b', c') = run_ticks-count ts i' c in
      let e = count_retrying-append events (run_ticks ts i').1 in
      let f = count_gave_up-append events (run_ticks ts i').1 in
      (omega (arith, a, a', e, f), omega (arith, b, b', f), c')

  -- From a newly armed intent and without a session, whatever the ticks bring, at most five
  -- attempts are reported, the client gives up at most once, and if it gives up then after
  -- exactly five reported attempts.
  pub run_ticks_budget :
      (ts : List (Tick D)) (online : Bool) (start : ℕ)
      → (count_retrying (run_ticks ts (armed online start)).1 ≤ 5)
        × (count_gave_up (run_ticks ts (armed online start)).1 ≤ 1)
        × ((count_gave_up (run_ticks ts (armed online start)).1 ≡ 0)
            ⊎ (count_retrying (run_ticks ts (armed online start)).1 ≡ 5))
  unfolding armed
  run_ticks_budget ts online start =
      let counted =
        run_ticks-count ts
          (record { attempts = 0; backoff_secs = 1; due_at = start; online = online })
          (omega arith) in
      (omega (arith, counted), omega (arith, counted), omega (arith, counted))

  module _ (laws : PrimitiveLaws x.primitives) where
    token_total :
        (pub_key : Bytes) (now : ℤ)
        → (m : ClientMessage) × (generate_p2p_request x pub_key keys.x25519_priv now ≡ ok m)
    unfolding generate_p2p_request presence_token derive
    token_total pub_key now =
        let agreed = x.primitives.diffie_hellman keys.x25519_priv pub_key in
        let (k, e, _) = laws.hkdf_total agreed (text "presence") 32 (omega arith) in
        (
          request_hole_punch
              (x.primitives.hmac_sha256 k (le_bytes 8 (to_u64 (mul_i64 (div_i64 now 15) 15)))),
          ground arith,
        )

    pub punch_tick :
        (now : ℤ) (at : ℕ) (d : Disk D) (n b due : ℕ) (link : Link) (who : PeerPublic)
        → n < 5
        → 1 ≤ b
        → b ≤ 30
        → due ≤ at
        → link.is_open ≡ true
        → load_peer_data x.primitives d id ≡ ok who
        → ((drive_one x keys now at id false d
              (record { attempts = n; backoff_secs = b; due_at = due; online = true })
              link).0
            ≡ record {
              attempts = suc n;
              backoff_secs = min (b * 2) 30;
              due_at = at + b * 1000;
              online = true;
            })
          × ((drive_one x keys now at id false d
                (record { attempts = n; backoff_secs = b; due_at = due; online = true })
                link).2
              ≡ connect_retrying id (suc n) b ∷ [])
    unfolding drive_one send_punch_request send_link
    punch_tick now at d n b due link who hn lo hi hd open_link known =
        let (m, made) = token_total who.public now in ground (arith, made)

  -- The conditions under which each tick of a run can punch: a known peer, an open link.
  abbrev pub CanPunch : List (Tick D) → Type 0
  CanPunch [] = Unit
  CanPunch (t ∷ ts) =
      ((who : PeerPublic) × (load_peer_data x.primitives t.disk id ≡ ok who))
      × (t.link.is_open ≡ true)
      × CanPunch ts

  give_up_tick :
      (now : ℤ) (at : ℕ) (d : Disk D) (b due : ℕ) (link : Link)
      → ((drive_one x keys now at id false d
            (record { attempts = 5; backoff_secs = b; due_at = due; online = true })
            link).2
          ≡ connect_gave_up id ∷ [])
  unfolding drive_one
  give_up_tick now at d b due link = ground arith

  -- An online peer that is known and never answers, over an open link: six ticks, each no
  -- earlier than the delay after the one before, report five attempts with the delays 1, 2, 4, 8
  -- and 16 seconds, and then that the client gives up.
  pub ladder_runs_out :
      PrimitiveLaws x.primitives
      → (t₀ t₁ t₂ t₃ t₄ t₅ : Tick D) (start : ℕ) → CanPunch (t₀ ∷ t₁ ∷ t₂ ∷ t₃ ∷ t₄ ∷ [])
      → start ≤ t₀.at
      → t₀.at + 1000 ≤ t₁.at
      → t₁.at + 2000 ≤ t₂.at
      → t₂.at + 4000 ≤ t₃.at
      → t₃.at + 8000 ≤ t₄.at
      → (run_ticks (t₀ ∷ t₁ ∷ t₂ ∷ t₃ ∷ t₄ ∷ t₅ ∷ []) (armed true start)).1
        ≡ connect_retrying id 1 1
          ∷ connect_retrying id 2 2
          ∷ connect_retrying id 3 4
          ∷ connect_retrying id 4 8
          ∷ connect_retrying id 5 16
          ∷ connect_gave_up id
          ∷ []
  unfolding run_ticks armed
  ladder_runs_out laws t₀ t₁ t₂ t₃ t₄ t₅ start can h₀ h₁ h₂ h₃ h₄ =
      let ((w₀, k₀), o₀, ((w₁, k₁), o₁, ((w₂, k₂), o₂, ((w₃, k₃), o₃, ((w₄, k₄), o₄, _))))) = can in
      let (i₀, e₀) =
        punch_tick laws t₀.now t₀.at t₀.disk 0 1 start t₀.link w₀ (omega arith) (omega arith)
          (omega arith) h₀ o₀ k₀ in
      let (i₁, e₁) =
        punch_tick laws t₁.now t₁.at t₁.disk 1 2 (t₀.at + 1000) t₁.link w₁ (omega arith)
          (omega arith) (omega arith) h₁ o₁ k₁ in
      let (i₂, e₂) =
        punch_tick laws t₂.now t₂.at t₂.disk 2 4 (t₁.at + 2000) t₂.link w₂ (omega arith)
          (omega arith) (omega arith) h₂ o₂ k₂ in
      let (i₃, e₃) =
        punch_tick laws t₃.now t₃.at t₃.disk 3 8 (t₂.at + 4000) t₃.link w₃ (omega arith)
          (omega arith) (omega arith) h₃ o₃ k₃ in
      let (i₄, e₄) =
        punch_tick laws t₄.now t₄.at t₄.disk 4 16 (t₃.at + 8000) t₄.link w₄ (omega arith)
          (omega arith) (omega arith) h₄ o₄ k₄ in
      let e₅ = give_up_tick t₅.now t₅.at t₅.disk 30 (t₄.at + 16000) t₅.link in
      rw (i₀, e₀, i₁, e₁, i₂, e₂, i₃, e₃, i₄, e₄, e₅) refl
