-- ===== src/Client/Retry/Ladder.antt =====
-- The bounds of an intent, for `drive_retries` of crates/client/src/lib.rs.
use sechat_client.Base.{ℕ, ◌≤◌, Bool, arith}
use sechat_client.Base.Bytes.{Bytes}
use sechat_client.Base.Int.{ℤ}
use sechat_client.Client.Retry.{armed, rearm, drive_one}
use sechat_client.Client.State.{Link}
use sechat_client.Client.Types.{ConnectIntent}
use sechat_client.Crypto.Disk.{Disk}
use sechat_client.Crypto.Types.{Keys}
use sechat_client.Server.Services.{Services}

-- At most one step past the last attempt, and a delay between one second and the cap.
pub record OnLadder (i : ConnectIntent) : Type 0 where
  pub attempts_bound : i.attempts ≤ 6
  pub backoff_low : 1 ≤ i.backoff_secs
  pub backoff_high : i.backoff_secs ≤ 30

pub armed-OnLadder : (online : Bool) (now : ℕ) → OnLadder (armed online now)
unfolding armed
armed-OnLadder online now = omega arith

pub rearm-OnLadder : (i : ConnectIntent) (now : ℕ) → OnLadder (rearm i now)
unfolding rearm
rearm-OnLadder i now = omega arith

module _ {D : Type 0} (x : Services D) (keys : Keys) where
  -- A tick keeps an intent at no more than six counted attempts and at a delay between 1 and 30
  -- seconds, whatever happens to the request.
  pub drive_one-OnLadder :
      (now : ℤ) (at : ℕ) (id : Bytes) (has_session : Bool) (d : Disk D) (i : ConnectIntent)
      (link : Link)
      → OnLadder i
      → OnLadder (drive_one x keys now at id has_session d i link).0
  unfolding drive_one
  drive_one-OnLadder now at id has_session d i link h = ground arith
