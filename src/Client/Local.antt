-- ===== src/Client/Local.antt =====
-- Pure helpers of crates/client/src/lib.rs: `default_stun_addr`, `resolve_query`, and the choice of
-- a transport in `connect_session`.
pub mod Query
use mathlib.Core.Option
use sechat_client.Base.{
  Bool, true, false, Option, none, some, List, [], ◌∷◌, ◌++◌, if◌then◌else◌, Result, ok, err,
}
use sechat_client.Base.Bytes.{Bytes, Text, text, bytes_eq}
use sechat_client.Base.Strings.{colon, rsplit_once, starts_with, strip_prefix, trim, is_empty}
use sechat_client.Client.Types.{Contact}
use sechat_client.P2p.Message.{P2PError}
use sechat_client.P2p.Punch.{PunchHoleResult}

unfoldable pub default_stun_addr : Text → Text
default_stun_addr server_address =
    let host : Text = elim (rsplit_once colon server_address) [
      | some (h, _) ↦ h
      | none ↦ server_address
    ] in
    let named : Text = elim (strip_prefix host (text "relay.")) [
      | some rest ↦ text "stun." ++ rest
      | none ↦ host
    ] in
    named ++ text ":3478"

-- The first contact that a test accepts.
unfoldable pub find_contact : (Contact → Bool) → List Contact → Option Contact
find_contact test [] = none
find_contact test (c ∷ cs) = if test c then some c else find_contact test cs

unfoldable pub alias_is : Text → Contact → Bool
alias_is q c = elim c.alias [ none ↦ false | some a ↦ bytes_eq a q ]

unfoldable pub alias_starts : Text → Contact → Bool
alias_starts q c = elim c.alias [ none ↦ false | some a ↦ starts_with a q ]

unfoldable pub fingerprint_starts : Text → Contact → Bool
fingerprint_starts q c = starts_with c.fingerprint q

unfoldable pub or_else : {A : Type 0} → Option A → Option A → Option A
or_else (some a) b = some a
or_else none b = b

unfoldable pub resolve_query : List Contact → Text → Option Bytes
unfolding or_else
resolve_query contacts query =
    let q = trim query in
    if is_empty q
    then none
    else (Option.map (λ c. c.id)
        (or_else (find_contact (alias_is q) contacts) (
          or_else (find_contact (alias_starts q) contacts)
            (find_contact (fingerprint_starts q) contacts))))

-- The transport of a session: the key, and whether it is direct.
unfoldable pub choose_transport :
    Result PunchHoleResult Text → Result P2PError Bytes → Option Bytes → Option (Bytes × Bool)
choose_transport punched direct relayed_key =
    let over_relay : Option (Bytes × Bool) = Option.map (λ k. (k, false)) relayed_key in
    elim punched [
      | ok _ ↦ elim direct [ ok k ↦ some (k, true) | err _ ↦ over_relay ]
      | err _ ↦ over_relay
    ]
