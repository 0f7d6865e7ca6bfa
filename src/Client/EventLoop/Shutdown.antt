-- ===== src/Client/EventLoop/Shutdown.antt =====
-- What a shutdown sends and leaves.
use mathlib.Core.List.{append-nil, append_assoc}
use sechat_client.Base.{
  ℕ, ◌≡◌, refl, sym, ap, ◌∙◌, true, none, List, [], ◌∷◌, ◌++◌, map, arith, ok, unwrap_or,
}
use sechat_client.Base.Bytes.{text}
use sechat_client.Base.Int.{ℤ}
use sechat_client.Client.Commands.{Randomness}
use sechat_client.Client.EventLoop.{
  online, finished, EventLoop, Happening, commanded, unannounce_to, shut_down, take_command,
  round_at, round, orchestrate,
}
use sechat_client.Client.State.{ClientState, send_link, post}
use sechat_client.Client.Types.{shutdown}
use sechat_client.Crypto.Derive.{derive, presence_token}
use sechat_client.Crypto.Peers.{load_peers}
use sechat_client.Crypto.Primitives.{PrimitiveLaws}
use sechat_client.Crypto.Types.{PeerPublic, Keys}
use sechat_client.Server.Generators.{generate_unannounce_message}
use sechat_client.Server.Services.{Services}
use sechat_client.Server.Structs.{unannounce, ClientToServer, new_client_to_server}

module _ {D : Type 0} (x : Services D) (keys : Keys) where
  orchestrate-finished :
      (hs : List Happening) (l : EventLoop D) → l.stage ≡ finished → orchestrate x keys hs l ≡ l
  unfolding orchestrate round round_at
  orchestrate-finished [] l h = refl
  orchestrate-finished (a ∷ hs) l h =
      let stays : round x keys a l ≡ l = rw (h, round) refl in
      rw stays (orchestrate-finished hs l h)

  -- The message that takes back the presence of the client for a peer, in the interval of `now`.
  abbrev pub farewell : ℤ → PeerPublic → ClientToServer
  farewell now who =
      new_client_to_server
        (unannounce (unwrap_or (presence_token x.primitives keys.x25519_priv who.public now) []))
        none now

  module _ (laws : PrimitiveLaws x.primitives) where
    unannounce_total :
        (who : PeerPublic) (now : ℤ)
        → generate_unannounce_message x keys.x25519_priv who.public now
          ≡ ok (
              unannounce
                (unwrap_or (presence_token x.primitives keys.x25519_priv who.public now) []))
    unfolding generate_unannounce_message presence_token derive
    unannounce_total who now =
        let agreed = x.primitives.diffie_hellman keys.x25519_priv who.public in
        let (k, e, _) = laws.hkdf_total agreed (text "presence") 32 (omega arith) in
        ground (arith, e)

    unannounce_to-map :
        (now : ℤ) (peers : List PeerPublic) (s : ClientState D)
        → s.link.is_open ≡ true
        → let link = s.link in
          unannounce_to x keys now peers s
          ≡ record s { link = record link { sent = link.sent ++ map (farewell now) peers } }
    unfolding unannounce_to post send_link
    unannounce_to-map now [] s h =
        let link = s.link in
        ap (λ sent. record s { link = record link { sent = sent } }) (sym (append-nil s.link.sent))
    unannounce_to-map now (who ∷ rest) s h =
        let msg = farewell now who in
        let s' = post msg s in
        let link = s.link in
        let next : unannounce_to x keys now (who ∷ rest) s ≡ unannounce_to x keys now rest s' =
          ground (arith, unannounce_total who now) in
        let one : s' ≡ record s { link = record link { sent = link.sent ++ msg ∷ [] } } =
          ground (arith, h) in
        next
        ∙ unannounce_to-map now rest s' (ground arith)
        ∙ ap
            (λ (u : ClientState D).
              let k = u.link in
              record u { link = record k { sent = k.sent ++ map (farewell now) rest } })
            one
        ∙ ap (λ sent. record s { link = record link { sent = sent } })
            (append_assoc s.link.sent (msg ∷ []) (map (farewell now) rest))

    -- A shutdown of a connected client whose peers can be loaded and whose link is open: the loop is
    -- finished, and nothing that happens afterwards changes anything. To the messages sent before,
    -- exactly one unannouncement for each peer is added, under the token that the client shares with
    -- that peer, in the order of the peers; no session is left; all else is as it was.
    pub orchestrate-shutdown :
        (rand : Randomness) (now : ℤ) (at : ℕ) (hs : List Happening) (l : EventLoop D)
        (peers : List PeerPublic)
        → l.stage ≡ online
        → load_peers x.primitives l.client.world.disk ≡ ok peers
        → l.client.link.is_open ≡ true
        → let s = l.client in
          let link = s.link in
          orchestrate x keys (commanded rand now at shutdown ∷ hs) l ≡ record l {
            stage = finished;
            client = record s {
              link = record link { sent = link.sent ++ map (farewell now) peers };
              sessions = [];
            };
          }
    unfolding orchestrate round round_at take_command shut_down
    orchestrate-shutdown rand now at hs l peers connected_now known line_open =
        let last : EventLoop D = record l {
          client = shut_down x keys now l.client;
          stage = finished;
        } in
        let first : round x keys (commanded rand now at shutdown) l ≡ last =
          rw (connected_now, round) refl in
        let whole : orchestrate x keys (commanded rand now at shutdown ∷ hs) l ≡ last =
          ap (orchestrate x keys hs) first ∙ orchestrate-finished hs last refl in
        whole
        ∙ rw known (
            ap (λ t. record l { client = record t { sessions = [] }; stage = finished })
              (unannounce_to-map now peers l.client line_open))
