-- ===== src/Crypto/Stored/History.antt =====
-- A sequence of messages stored in a conversation of crates/crypto/src/lib.rs, and read again.
use mathlib.Core.List.{append-nil, append_assoc}
use native.Mathlib.Nat.{add-zero, add-suc, suc-add}
use sechat_client.Base.{
  ℕ, suc, ◌+◌, ◌^◌, ◌≤◌, ◌<◌, ◌≡◌, refl, inl, inr, some, List, [], ◌∷◌, ◌++◌, arith, Option-cases,
  length, length-append, take-append, drop-append, Result, ok, ◌>>=◌, ok_or, Result-cases,
}
use sechat_client.Base.Assoc.{Assoc}
use sechat_client.Base.Bytes.{Bytes, be_bytes, length-be_bytes, from_be-be_bytes}
use sechat_client.Crypto.Primitives.{
  Primitives, PrimitiveLaws, Codec, CodecLaws, Sled, last_entry, SledLaws,
}
use sechat_client.Crypto.Stored.{
  encrypt_message_stored, decrypt_message_stored, counter_after, find_counter, read_row, read_rows,
  insert_message_stored,
}
use sechat_client.Crypto.Stored.Log.{Log, read_rows-Log, last-Log, append-Log, Log-mono}
use sechat_client.Crypto.Types.{Message, CryptoErrors, cryptographic_error}

module _ (p : Primitives) (c : Codec Message) {D : Type 0} (s : Sled D) where
  -- Stores messages one after another, each with its nonce.
  unfoldable pub store_all : Bytes → List (Bytes × Message) → D → Result CryptoErrors D
  store_all key [] db = ok db
  store_all key ((nonce, m) ∷ rest) db = do
    db' ← insert_message_stored p c s nonce m key db
    store_all key rest db'

abbrev pub AllNonces : List (Bytes × Message) → Type 0
AllNonces [] = Unit
AllNonces ((nonce, m) ∷ rest) = (length nonce ≡ 12) × AllNonces rest

abbrev pub messages_of : List (Bytes × Message) → List Message
messages_of [] = []
messages_of ((nonce, m) ∷ rest) = m ∷ messages_of rest

module _ (p : Primitives) (c : Codec Message) where
  pub decrypt_parts :
      (nonce sealed key : Bytes)
      → length nonce ≡ 12
      → decrypt_message_stored p (nonce ++ sealed) key
        ≡ ok_or (p.aead_decrypt key nonce sealed) cryptographic_error
  unfolding decrypt_message_stored
  decrypt_parts nonce sealed key ln =
      rw (take-append 12 nonce sealed ln, drop-append 12 nonce sealed ln)
        (ground (arith, length-append nonce sealed))

  -- The next counter is above every counter of the log.
  counter_after-Log :
      (key : Bytes) (hi : ℕ) (rows : Assoc Bytes) (ms : List Message)
      → hi < 2 ^ 64
      → Log p c key 0 hi rows ms
      → (n : ℕ) × (counter_after (last_entry rows) ≡ ok n) × (n ≤ hi) × Log p c key 0 n rows ms
  unfolding counter_after last_entry
  counter_after-Log key hi [] [] b log = (0, refl, omega arith, omega arith)
  counter_after-Log key hi [] (m ∷ ms) b log = absurd log
  counter_after-Log key hi (row ∷ rows) ms b log =
      let (i, v, e, lt, log') = last-Log p c key 0 hi row rows ms log in
      (
        suc i,
        rw e (ground (arith, length-be_bytes 8 i, from_be-be_bytes 8 i (omega arith))),
        lt,
        log',
      )

  -- What encryption stores under a nonce of twelve bytes is read back.
  pub read_row-encrypt :
      PrimitiveLaws p
      → CodecLaws c
      → (nonce key v : Bytes) (m : Message) → length nonce ≡ 12
      → encrypt_message_stored p c nonce m key ≡ ok v
      → read_row p c key v ≡ some m
  unfolding encrypt_message_stored read_row
  read_row-encrypt pl cl nonce key v m ln h = elim (Option-cases (c.to_vec m)) [
    | inl failed ↦ absurd (ground arith)
    | inr (bytes, enc) ↦ elim (Option-cases (p.aead_encrypt key nonce bytes)) [
      | inl failed ↦ absurd (ground arith)
      | inr (sealed, e) ↦
          let shape : v ≡ nonce ++ sealed = ground arith in
          rw shape (
            ground (
              arith,
              decrypt_parts nonce sealed key ln,
              pl.aead_opens key nonce bytes sealed e,
              cl.from_slice-to_vec m bytes enc,
            ))
    ]
  ]

module _ (p : Primitives) (c : Codec Message) {D : Type 0} (s : Sled D) (pl : PrimitiveLaws p)
    (cl : CodecLaws c) (sl : SledLaws s) where
  counted :
      (db : D) (n : ℕ) → counter_after (last_entry (s.entries db)) ≡ ok n → find_counter s db ≡ ok n
  unfolding find_counter
  counted db n e = rw (sl.last_lem db, find_counter) e

  -- Storing a message, with a nonce of twelve bytes and without a failure, in a log whose
  -- counters are below `hi`, itself below 2 ^ 64, leaves a log with that message at the end.
  pub insert_message_stored-Log :
      (key nonce : Bytes) (hi : ℕ) (db db' : D) (ms : List Message) (m : Message)
      → hi < 2 ^ 64
      → length nonce ≡ 12
      → Log p c key 0 hi (s.entries db) ms
      → insert_message_stored p c s nonce m key db ≡ ok db'
      → Log p c key 0 (suc hi) (s.entries db') (ms ++ m ∷ [])
  unfolding insert_message_stored
  insert_message_stored-Log key nonce hi db db' ms m b ln log h =
      let (n, e, n_le, log') = counter_after-Log p c key hi (s.entries db) ms b log in
      elim (Result-cases (encrypt_message_stored p c nonce m key)) [
        | inr (f, failed) ↦ absurd (ground (arith))
        | inl (v, enc) ↦ elim (Option-cases (s.insert (be_bytes 8 n) v db)) [
          | inl failed ↦ absurd (ground (arith, counted db n e))
          | inr (db'', added) ↦
              let same : db'' ≡ db' = ground (arith, counted db n e) in
              rw (← same, sl.entries-insert (be_bytes 8 n) v db db'' added)
                (Log-mono p c key 0 (suc n) (suc hi) _ _ (omega arith) (
                  append-Log p c key 0 n (s.entries db) ms n v m (omega arith) (omega arith)
                    (read_row-encrypt p c pl cl nonce key v m ln enc) log'))
        ]
      ]

  pub store_all-Log :
      (key : Bytes) (rows : List (Bytes × Message)) (hi : ℕ) (db db' : D) (ms : List Message)
      → hi + length rows < 2 ^ 64
      → AllNonces rows
      → Log p c key 0 hi (s.entries db) ms
      → store_all p c s key rows db ≡ ok db'
      → Log p c key 0 (hi + length rows) (s.entries db') (ms ++ messages_of rows)
  unfolding store_all
  store_all-Log key [] hi db db' ms b ln log h =
      let same : db ≡ db' = ground arith in rw (← same, append-nil, add-zero) log
  store_all-Log key ((nonce, m) ∷ rest) hi db db' ms b ln log h =
      elim (Result-cases (insert_message_stored p c s nonce m key db)) [
        | inr (f, failed) ↦ absurd (ground arith)
        | inl (db'', stored) ↦
            let log' =
              insert_message_stored-Log key nonce hi db db'' ms m (omega arith) ln.0 log stored in
            rw (← append_assoc ms (m ∷ []) (messages_of rest), add-suc, ← suc-add)
              (store_all-Log key rest (suc hi) db'' db' (ms ++ m ∷ []) (omega arith) ln.1 log'
                (ground arith))
      ]

  -- Fewer than 2 ^ 64 messages that are stored in a new conversation, each with a nonce of
  -- twelve bytes and without a failure, are read back whole and in order, and no row is dropped.
  pub read_rows-store_all :
      (key : Bytes) (rows : List (Bytes × Message)) (db : D)
      → length rows < 2 ^ 64
      → AllNonces rows
      → store_all p c s key rows s.created ≡ ok db
      → read_rows p c key (s.entries db) ≡ (messages_of rows, [])
  read_rows-store_all key rows db b ln h =
      read_rows-Log p c key 0 (0 + length rows) (s.entries db) (messages_of rows) (
        store_all-Log key rows 0 s.created db [] (omega arith) ln
          (rw sl.entries-created (omega arith)) h)
