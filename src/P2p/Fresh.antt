-- ===== src/P2p/Fresh.antt =====
-- `frame_is_fresh` of crates/p2p/src/lib.rs, as a release build computes it: `i64` wraps.
use sechat_client.Base.{ℕ, ◌-◌, ◌^◌, ◌≤◌, ◌≡◌, ◌↔◌, ◌⊎◌, Bool, true, arith}
use sechat_client.Base.Int.{ℤ, pos, leb_ℤ, IsI64, sub_i64, abs_i64, dist}

abbrev pub max_frame_age_secs : ℕ
max_frame_age_secs = 120

unfoldable pub frame_is_fresh : ℤ → ℤ → Bool
frame_is_fresh frame_ts now = leb_ℤ (abs_i64 (sub_i64 now frame_ts)) (pos max_frame_age_secs)

-- Of two 64-bit times, the frame is fresh exactly if they are at most 120 seconds apart, or if
-- they differ by 2 ^ 63 exactly, or by at least 2 ^ 64 - 120: there the subtraction or `abs`
-- overflows.
pub frame_is_fresh_iff :
    (frame_ts now : ℤ)
    → IsI64 frame_ts
    → IsI64 now
    → (frame_is_fresh frame_ts now ≡ true) ↔ (
        (dist now frame_ts ≤ 120)
        ⊎ ((dist now frame_ts ≡ 2 ^ 63) ⊎ (2 ^ 64 - 120 ≤ dist now frame_ts)))
unfolding frame_is_fresh abs_i64
frame_is_fresh_iff frame_ts now hf hn = ground arith
