-- ===== src/Crypto/Stored/Log.antt =====
-- The rows of a conversation of crates/crypto/src/lib.rs as a log of messages.
use sechat_client.Base.{ℕ, suc, ◌^◌, ◌≤◌, ◌<◌, ◌≡◌, refl, false, some, List, [], ◌∷◌, ◌++◌, arith}
use sechat_client.Base.Assoc.{Assoc}
use sechat_client.Base.Bytes.{
  Bytes, bytes_eq, bytes_lt, be_bytes, bytes_eq-be_bytes, bytes_lt-be_bytes,
}
use sechat_client.Crypto.Primitives.{Primitives, Codec, ordered_insert, last_entry}
use sechat_client.Crypto.Stored.{read_row, read_rows}
use sechat_client.Crypto.Types.{Message}

module _ (p : Primitives) (c : Codec Message) where
  -- The rows hold the messages under increasing counters from `lo`, below `hi`.
  abbrev pub Log : Bytes → ℕ → ℕ → Assoc Bytes → List Message → Type 0
  Log key lo hi [] [] = lo ≤ hi
  Log key lo hi [] (m ∷ ms) = ⊥
  Log key lo hi (row ∷ rows) [] = ⊥
  Log key lo hi ((k, v) ∷ rows) (m ∷ ms) =
      (i : ℕ) × (lo ≤ i)
      × (i < hi)
      × (k ≡ be_bytes 8 i)
      × (read_row p c key v ≡ some m)
      × Log key (suc i) hi rows ms

  -- A log is read to its messages, and nothing is dropped.
  pub read_rows-Log :
      (key : Bytes) (lo hi : ℕ) (rows : Assoc Bytes) (ms : List Message)
      → Log key lo hi rows ms
      → read_rows p c key rows ≡ (ms, [])
  unfolding read_rows
  read_rows-Log key lo hi [] [] h = refl
  read_rows-Log key lo hi [] (m ∷ ms) h = absurd h
  read_rows-Log key lo hi (row ∷ rows) [] h = absurd h
  read_rows-Log key lo hi ((k, v) ∷ rows) (m ∷ ms) (i, _, _, _, read, rest) =
      ground (arith, read_rows-Log key (suc i) hi rows ms rest, read)

  Log-lt :
      (key : Bytes) (lo hi : ℕ) (row : Bytes × Bytes) (rows : Assoc Bytes) (ms : List Message)
      → Log key lo hi (row ∷ rows) ms
      → lo ≤ hi
  Log-lt key lo hi row rows [] h = absurd h
  Log-lt key lo hi row rows (m ∷ ms) (i, l, u, _, _, _) = omega arith

  -- The last row of a log has the largest counter.
  pub last-Log :
      (key : Bytes) (lo hi : ℕ) (row : Bytes × Bytes) (rows : Assoc Bytes) (ms : List Message)
      → Log key lo hi (row ∷ rows) ms
      → (i : ℕ) × (v : Bytes) × (last_entry (row ∷ rows) ≡ some (be_bytes 8 i, v))
        × (i < hi)
        × Log key lo (suc i) (row ∷ rows) ms
  unfolding last_entry
  last-Log key lo hi row rows [] h = absurd h
  last-Log key lo hi (k, v) [] (m ∷ []) (i, l, u, e, r, rest) =
      (i, v, ground arith, u, (i, l, omega arith, e, r, omega arith))
  last-Log key lo hi (k, v) [] (m ∷ n ∷ ms) (i, l, u, e, r, rest) = absurd rest
  last-Log key lo hi (k, v) (row' ∷ rows) (m ∷ ms) (i, l, u, e, r, rest) =
      let (j, w, e', u', rest') = last-Log key (suc i) hi row' rows ms rest in
      (
        j,
        w,
        e',
        u',
        (i, l, omega (arith, Log-lt key (suc i) (suc j) row' rows ms rest'), e, r, rest'),
      )

  -- A row above all counters goes to the end.
  pub append-Log :
      (key : Bytes) (lo hi : ℕ) (rows : Assoc Bytes) (ms : List Message) (n : ℕ) (v : Bytes)
      (m : Message)
      → hi ≤ n
      → n < 2 ^ 64
      → read_row p c key v ≡ some m
      → Log key lo hi rows ms
      → Log key lo (suc n) (ordered_insert (be_bytes 8 n) v rows) (ms ++ m ∷ [])
  unfolding ordered_insert
  append-Log key lo hi [] [] n v m b u r h = (n, omega arith, omega arith, refl, r, omega arith)
  append-Log key lo hi [] (x ∷ ms) n v m b u r h = absurd h
  append-Log key lo hi (row ∷ rows) [] n v m b u r h = absurd h
  append-Log key lo hi ((k, w) ∷ rows) (x ∷ ms) n v m b u r (i, l, i_lt, e, read, rest) =
      let below : bytes_lt (be_bytes 8 n) k ≡ false =
        rw (e, bytes_lt-be_bytes 8 n i u (omega arith)) (ground arith) in
      let differs : bytes_eq (be_bytes 8 n) k ≡ false =
        rw (e, bytes_eq-be_bytes 8 n i u (omega arith)) (ground arith) in
      rw (below, differs)
        (i, l, omega arith, e, read, append-Log key (suc i) hi rows ms n v m b u r rest)

  pub Log-mono :
      (key : Bytes) (lo hi hi' : ℕ) (rows : Assoc Bytes) (ms : List Message)
      → hi ≤ hi'
      → Log key lo hi rows ms
      → Log key lo hi' rows ms
  Log-mono key lo hi hi' [] [] b h = omega arith
  Log-mono key lo hi hi' [] (m ∷ ms) b h = absurd h
  Log-mono key lo hi hi' (row ∷ rows) [] b h = absurd h
  Log-mono key lo hi hi' ((k, v) ∷ rows) (m ∷ ms) b (i, l, u, e, r, rest) =
      (i, l, omega arith, e, r, Log-mono key (suc i) hi hi' rows ms b rest)
