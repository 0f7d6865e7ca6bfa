-- ===== src/Client/EventLoop/Connecting.antt =====
-- How `orchestrate` of crates/client/src/lib.rs connects: the lookup of the public address, and
-- `run_client` of crates/serverclient/src/lib.rs. A network says what answers at an address.
use mathlib.Core.Option
use sechat_client.Base.{
  ℕ, Bool, true, Option, none, some, List, [], ◌++◌, ltb, if◌then◌else◌, length, Result, ok, err,
}
use sechat_client.Base.Bytes.{Bytes, Text, text}
use sechat_client.Base.Int.{ℤ}
use sechat_client.Client.Config.{nonempty}
use sechat_client.Client.EventLoop.{EventLoop, connection_made, connect_error, round}
use sechat_client.Client.Local.{default_stun_addr}
use sechat_client.Crypto.Primitives.{Codec}
use sechat_client.Crypto.Types.{Keys}
use sechat_client.P2p.Punch.{StunPing, StunRound, stun_discover}
use sechat_client.Server.Connect.{Connection}
use sechat_client.Server.Loops.{Pipeline, queue_size, run_client}
use sechat_client.Server.Services.{Services}
use sechat_client.Server.Structs.{ClientErrors}

pub record Network : Type 0 where
  pub stun : Text → List StunRound
  -- a WebSocket to a URL
  pub dial : Text → Result ClientErrors Connection

-- The address of the STUN server; `env` is the variable SECHAT_STUN.
unfoldable pub stun_address : Option Text → Text → Text
unfolding nonempty
stun_address env server_address =
    Option.get_or (elim env [ none ↦ none | some s ↦ nonempty s ])
      (default_stun_addr server_address)

-- The URL that `connect_to_server` opens; `insecure` says whether SECHAT_DEV_INSECURE is set.
unfoldable pub relay_url : Bool → Text → Text
relay_url insecure server_address =
    (if insecure then text "ws" else text "wss") ++ (text "://" ++ (server_address ++ text "/ws"))

module _ {D : Type 0} (x : Services D) (ping_codec : Codec StunPing) (reply_codec : Codec Text)
    (keys : Keys) (network : Network) (env : Option Text) where
  unfoldable pub public_address : ℤ → Text → Option Text
  unfolding stun_address
  public_address now server_address =
      stun_discover x.primitives ping_codec reply_codec keys.x25519_pub keys.ed25519_signing now
        (network.stun (stun_address env server_address))

module _ {D : Type 0} (x : Services D) (ping_codec : Codec StunPing) (reply_codec : Codec Text)
    (keys : Keys) (network : Network) (env : Option Text) (insecure : Bool) where
  -- One attempt of the outer loop: the tasks of the connection if it succeeds. The queue of events
  -- is not read before `run_client` returns; the outer `none` is an attempt that waits for room in
  -- it, for ever.
  unfoldable pub reach_relay :
      (ℕ → Bytes) → ℤ → ℕ → EventLoop D → Option (Option (Pipeline D) × EventLoop D)
  unfolding public_address relay_url
  reach_relay nonces now udp_port l =
      let announce_override =
        public_address x ping_codec reply_codec keys network env now l.server_address in
      elim (network.dial (relay_url insecure l.server_address)) [
        | err e ↦ some (none, round x keys (connect_error e) l)
        | ok c ↦
            let (r, w, events) =
              run_client x keys.x25519_priv nonces now keys udp_port announce_override
                l.client.world c in
            let s = l.client in
            let l' = record l { client = record s { world = w } } in
            if ltb queue_size (length events)
            then none
            else some (elim r [
              | err e ↦ (none, round x keys (connect_error e) l')
              | ok tasks ↦ (
                some tasks,
                round x keys (connection_made (record { is_open = true; sent = [] })) l',
              )
            ])
      ]
