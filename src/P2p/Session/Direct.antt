-- ===== src/P2p/Session/Direct.antt =====
-- Sessions over the socket in crates/p2p/src/lib.rs, against those over the relay.
use sechat_client.Base.{List, [], ◌∷◌, if◌then◌else◌}
use sechat_client.Base.Bytes.{Bytes, Text, bytes_eq}
use sechat_client.Crypto.Primitives.{Primitives}
use sechat_client.P2p.Session.{Arrival}

-- The datagrams that come from an address.
abbrev pub those_from : Text → List Arrival → List Arrival
those_from remote [] = []
those_from remote (a ∷ rest) =
    if bytes_eq a.source remote then a ∷ those_from remote rest else those_from remote rest
