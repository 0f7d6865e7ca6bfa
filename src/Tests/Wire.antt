-- ===== src/Tests/Wire.antt =====
-- An encoding of lists of byte strings, and from it one codec for each type that is sent or stored.
use sechat_client.Base.{
  ℕ, zero, suc, ◌≡◌, refl, sym, ap, Option, none, some, List, [], ◌∷◌, ◌++◌, arith, length, take,
  drop, take-append, drop-append,
}
use sechat_client.Base.Bytes.{Bytes}
use sechat_client.Base.Int.{ℤ, pos, negsuc}
use sechat_client.Crypto.Primitives.{Codec, CodecLaws}
use sechat_client.Crypto.Types.{Author, Message, from_parts}
use sechat_client.P2p.Message.{
  P2PMessage, init, chat_message, heart_beat, sync_request, sync_response, end_message, PeerMessage,
}
use sechat_client.Server.Structs.{
  peer_declined, timed_out, ServerMessage, auth_ok, auth_failed, pending_blob, peer_online,
  peer_offline, error_message, pending_blobs_end, hole_punch_requested, hole_punch_refused, relayed,
  ServerToClient, BlobPayload, offline_message, purge,
}

-- Each field behind its length.
unfoldable pub wire : List Bytes → Bytes
wire [] = []
wire (f ∷ fs) = length f ∷ f ++ wire fs

unfoldable pub unwire : ℕ → Bytes → List Bytes
unwire zero b = []
unwire (suc k) [] = [] ∷ unwire k []
unwire (suc k) (n ∷ b) = take n b ∷ unwire k (drop n b)

unwire-wire : (fs : List Bytes) → unwire (length fs) (wire fs) ≡ fs
unfolding unwire wire
unwire-wire [] = refl
unwire-wire (f ∷ fs) =
    rw (take-append (length f) f (wire fs) refl, drop-append (length f) f (wire fs) refl)
      (ap (λ l. f ∷ l) (unwire-wire fs))

unfoldable pub pack : List Bytes → Bytes
pack fs = length fs ∷ wire fs

unfoldable pub unpack : Bytes → List Bytes
unpack [] = []
unpack (n ∷ b) = unwire n b

pub unpack-pack : (fs : List Bytes) → unpack (pack fs) ≡ fs
unfolding unpack pack
unpack-pack fs = unwire-wire fs

-- Integers.
unfoldable pub put : ℤ → Bytes
put (pos n) = 0 ∷ n ∷ []
put (negsuc n) = 1 ∷ n ∷ []

unfoldable pub get : Bytes → ℤ
get (zero ∷ n ∷ _) = pos n
get (suc _ ∷ n ∷ _) = negsuc n
get _ = pos 0

get-put : (z : ℤ) → get (put z) ≡ z
unfolding get put
get-put (pos n) = refl
get-put (negsuc n) = refl

-- A codec from the fields of a value, and what makes it one.
unfoldable pub packed : {A : Type 0} → (A → List Bytes) → (List Bytes → Option A) → Codec A
packed fields of = record { to_vec = λ a. some (pack (fields a)); from_slice = λ b. of (unpack b) }

pub packed_laws :
    {A : Type 0} (fields : A → List Bytes) (of : List Bytes → Option A)
    → ((a : A) → of (fields a) ≡ some a)
    → CodecLaws (packed fields of)
unfolding packed
packed_laws fields of inverse = record { from_slice-to_vec = λ a b h. go a b h }
  where
    go : (a : _) (b : Bytes) → some (pack (fields a)) ≡ some b → of (unpack b) ≡ some a
    go a b h =
        let e : pack (fields a) ≡ b = ground arith in rw (sym e, unpack-pack (fields a)) (inverse a)

unfoldable pub blob_fields : BlobPayload → List Bytes
blob_fields (offline_message a b c d) = (0 ∷ []) ∷ a ∷ put b ∷ c ∷ d ∷ []
blob_fields (purge a b c) = (1 ∷ []) ∷ a ∷ b ∷ put c ∷ []

unfoldable pub blob_of : List Bytes → Option BlobPayload
blob_of ((zero ∷ []) ∷ a ∷ b ∷ c ∷ d ∷ []) = some (offline_message a (get b) c d)
blob_of ((suc zero ∷ []) ∷ a ∷ b ∷ c ∷ []) = some (purge a b (get c))
blob_of _ = none

pub blob_of-blob_fields : (v : BlobPayload) → blob_of (blob_fields v) ≡ some v
unfolding blob_fields blob_of
blob_of-blob_fields (offline_message a b c d) = rw (get-put b) refl
blob_of-blob_fields (purge a b c) = rw (get-put c) refl

unfoldable pub payload_fields : P2PMessage → List Bytes
payload_fields (init a) = (0 ∷ []) ∷ a ∷ []
payload_fields (chat_message a b) = (1 ∷ []) ∷ put a ∷ b ∷ []
payload_fields heart_beat = (2 ∷ []) ∷ []
payload_fields (sync_request a) = (3 ∷ []) ∷ put a ∷ []
payload_fields (sync_response a) = (4 ∷ []) ∷ a ∷ []
payload_fields end_message = (5 ∷ []) ∷ []

unfoldable pub payload_of : List Bytes → Option P2PMessage
payload_of ((zero ∷ []) ∷ a ∷ []) = some (init a)
payload_of ((suc zero ∷ []) ∷ a ∷ b ∷ []) = some (chat_message (get a) b)
payload_of ((suc (suc zero) ∷ []) ∷ []) = some heart_beat
payload_of ((suc (suc (suc zero)) ∷ []) ∷ a ∷ []) = some (sync_request (get a))
payload_of ((suc (suc (suc (suc zero))) ∷ []) ∷ a ∷ []) = some (sync_response a)
payload_of ((suc (suc (suc (suc (suc zero)))) ∷ []) ∷ []) = some end_message
payload_of _ = none

pub payload_of-payload_fields : (v : P2PMessage) → payload_of (payload_fields v) ≡ some v
unfolding payload_fields payload_of
payload_of-payload_fields (init a) = refl
payload_of-payload_fields (chat_message a b) = rw (get-put a) refl
payload_of-payload_fields heart_beat = refl
payload_of-payload_fields (sync_request a) = rw (get-put a) refl
payload_of-payload_fields (sync_response a) = refl
payload_of-payload_fields end_message = refl

unfoldable pub server_fields : ServerMessage → List Bytes
server_fields (auth_ok a) = (0 ∷ []) ∷ a ∷ []
server_fields (auth_failed a) = (1 ∷ []) ∷ a ∷ []
server_fields (pending_blob a b c) = (2 ∷ []) ∷ a ∷ b ∷ put c ∷ []
server_fields (peer_online a b) = (3 ∷ []) ∷ a ∷ b ∷ []
server_fields (peer_offline a) = (4 ∷ []) ∷ a ∷ []
server_fields (ServerMessage.punch_hole a b c d) = (5 ∷ []) ∷ a ∷ b ∷ c ∷ put d ∷ []
server_fields (error_message a) = (6 ∷ []) ∷ a ∷ []
server_fields pending_blobs_end = (7 ∷ []) ∷ []
server_fields (hole_punch_requested a b) = (8 ∷ []) ∷ a ∷ b ∷ []
server_fields (hole_punch_refused a b peer_declined) = (10 ∷ []) ∷ a ∷ b ∷ []
server_fields (hole_punch_refused a b timed_out) = (11 ∷ []) ∷ a ∷ b ∷ []
server_fields (relayed a b) = (9 ∷ []) ∷ a ∷ b ∷ []

unfoldable pub server_of : List Bytes → Option ServerMessage
server_of ((zero ∷ []) ∷ a ∷ []) = some (auth_ok a)
server_of ((suc zero ∷ []) ∷ a ∷ []) = some (auth_failed a)
server_of ((suc (suc zero) ∷ []) ∷ a ∷ b ∷ c ∷ []) = some (pending_blob a b (get c))
server_of ((suc (suc (suc zero)) ∷ []) ∷ a ∷ b ∷ []) = some (peer_online a b)
server_of ((suc (suc (suc (suc zero))) ∷ []) ∷ a ∷ []) = some (peer_offline a)
server_of ((suc (suc (suc (suc (suc zero)))) ∷ []) ∷ a ∷ b ∷ c ∷ d ∷ []) =
    some (ServerMessage.punch_hole a b c (get d))
server_of ((suc (suc (suc (suc (suc (suc zero))))) ∷ []) ∷ a ∷ []) = some (error_message a)
server_of ((suc (suc (suc (suc (suc (suc (suc zero)))))) ∷ []) ∷ []) = some pending_blobs_end
server_of ((suc (suc (suc (suc (suc (suc (suc (suc zero))))))) ∷ []) ∷ a ∷ b ∷ []) =
    some (hole_punch_requested a b)
server_of ((suc (suc (suc (suc (suc (suc (suc (suc (suc zero)))))))) ∷ []) ∷ a ∷ b ∷ []) =
    some (relayed a b)
server_of ((suc (suc (suc (suc (suc (suc (suc (suc (suc (suc zero))))))))) ∷ []) ∷ a ∷ b ∷ []) =
    some (hole_punch_refused a b peer_declined)
server_of
      ((suc (suc (suc (suc (suc (suc (suc (suc (suc (suc (suc zero)))))))))) ∷ []) ∷ a ∷ b ∷ []) =
    some (hole_punch_refused a b timed_out)
server_of _ = none

pub server_of-server_fields : (v : ServerMessage) → server_of (server_fields v) ≡ some v
unfolding server_fields server_of
server_of-server_fields (auth_ok a) = refl
server_of-server_fields (auth_failed a) = refl
server_of-server_fields (pending_blob a b c) = rw (get-put c) refl
server_of-server_fields (peer_online a b) = refl
server_of-server_fields (peer_offline a) = refl
server_of-server_fields (ServerMessage.punch_hole a b c d) = rw (get-put d) refl
server_of-server_fields (error_message a) = refl
server_of-server_fields pending_blobs_end = refl
server_of-server_fields (hole_punch_requested a b) = refl
server_of-server_fields (hole_punch_refused a b peer_declined) = refl
server_of-server_fields (hole_punch_refused a b timed_out) = refl
server_of-server_fields (relayed a b) = refl

unfoldable pub message_fields : Message → List Bytes
message_fields m =
    m.text ∷ put m.timestamp ∷ (elim m.author [ Author.you ↦ [] | Author.peer ↦ [] ∷ [] ])

unfoldable pub message_of : List Bytes → Option Message
message_of (t ∷ z ∷ []) = some (from_parts t Author.you (get z))
message_of (t ∷ z ∷ _ ∷ []) = some (from_parts t Author.peer (get z))
message_of _ = none

pub message_of-message_fields : (m : Message) → message_of (message_fields m) ≡ some m
unfolding message_fields message_of from_parts
message_of-message_fields m =
    elim m.author
      as (λ a.
        message_of (m.text ∷ put m.timestamp ∷ (elim a [ Author.you ↦ [] | Author.peer ↦ [] ∷ [] ]))
        ≡ some (record { author = a; text = m.text; timestamp = m.timestamp })) [
          | Author.you ↦ rw (get-put m.timestamp) refl
          | Author.peer ↦ rw (get-put m.timestamp) refl
        ]

unfoldable pub frame_fields : PeerMessage → List Bytes
frame_fields m = put m.timestamp ∷ m.sender ∷ m.signature ∷ payload_fields m.payload

unfoldable pub frame_of : List Bytes → Option PeerMessage
frame_of (z ∷ s ∷ g ∷ fs) = elim (payload_of fs) [
  | none ↦ none
  | some p ↦ some (record { timestamp = get z; payload = p; sender = s; signature = g })
]
frame_of _ = none

pub frame_of-frame_fields : (m : PeerMessage) → frame_of (frame_fields m) ≡ some m
unfolding frame_fields frame_of
frame_of-frame_fields m =
    rw (payload_of-payload_fields m.payload, get-put m.timestamp, frame_of) refl

unfoldable pub reply_fields : ServerToClient → List Bytes
reply_fields m = put m.timestamp ∷ server_fields m.payload

unfoldable pub reply_of : List Bytes → Option ServerToClient
reply_of (z ∷ fs) = elim (server_of fs) [
  | none ↦ none
  | some p ↦ some (record { payload = p; timestamp = get z })
]
reply_of _ = none

pub reply_of-reply_fields : (m : ServerToClient) → reply_of (reply_fields m) ≡ some m
unfolding reply_fields reply_of
reply_of-reply_fields m = rw (server_of-server_fields m.payload, get-put m.timestamp, reply_of) refl
