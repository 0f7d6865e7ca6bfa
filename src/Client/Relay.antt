-- ===== src/Client/Relay.antt =====
-- Sessions over the relay in crates/client/src/lib.rs: the task of `make_relay`, which wraps each
-- outgoing frame in a message for the relay, and `establish_relay`.
use sechat_client.Base.{ℕ, Option, none, List, [], ◌∷◌, if◌then◌else◌, replicate, to_option}
use sechat_client.Base.Bytes.{Bytes}
use sechat_client.Base.Int.{ℤ}
use sechat_client.Client.State.{Link, send_link}
use sechat_client.Crypto.Primitives.{Primitives, Codec}
use sechat_client.Crypto.Types.{PeerPublic}
use sechat_client.P2p.Handshake.{resend, relay_handshake}
use sechat_client.P2p.Message.{PeerMessage}
use sechat_client.Server.Structs.{relay_data, new_client_to_server}

-- The task that `make_relay` spawns, on the frames it takes: it ends when the link is closed.
unfoldable pub make_relay : ℤ → Bytes → List Bytes → Link → Link
unfolding send_link
make_relay now peer_id [] l = l
make_relay now peer_id (payload ∷ rest) l =
    let msg = new_client_to_server (relay_data peer_id payload) none now in
    let more = make_relay now peer_id rest (send_link msg l).1 in
    if (send_link msg l).0 then more else (send_link msg l).1

-- The key of a session over the relay, if the handshake succeeds. The other end of the handshake's
-- inbound channel joins the session map only when `establish_relay` has returned it, and no other
-- task holds it. So the channel stays open and empty: what happens before the deadline is a number of
-- resends.
unfoldable pub establish_relay :
    Primitives → Codec PeerMessage → Bytes → PeerPublic → ℕ → Option Bytes
unfolding relay_handshake
establish_relay p c eph_priv who resends =
    to_option (relay_handshake p c eph_priv who (replicate resends resend))
