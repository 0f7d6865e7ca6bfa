-- ===== src/Base/Assoc.antt =====
-- `HashMap<[u8; 32], V>` as an association list, and `HashSet<[u8; 32]>` as a list, keyed by bytes.
-- The order of the entries stands for the order in which the table is iterated.
use mathlib.Core.Path.{◌≡◌, refl}
use mathlib.Core.Bool.{Bool, true, false, ◌||◌}
use mathlib.Core.List.{List, [], ◌∷◌}
use mathlib.Core.Option
use mathlib.Core.Option.{Option, none, some}
use native.Mathlib.Omega.{arith}
use sechat_client.Base.{if◌then◌else◌}
use sechat_client.Base.Bytes.{Bytes, bytes_eq, bytes_eq_iff}

abbrev pub Assoc {ℓ} : Type ℓ → Type ℓ
Assoc V = List (Bytes × V)

module _ {ℓ} {V : Type ℓ} where
  unfoldable pub lookup : Bytes → Assoc V → Option V
  lookup k [] = none
  lookup k ((j, v) ∷ m) = if bytes_eq j k then some v else lookup k m

  unfoldable pub insert : Bytes → V → Assoc V → Assoc V
  insert k v [] = (k, v) ∷ []
  insert k v ((j, w) ∷ m) = if bytes_eq j k then (j, v) ∷ m else (j, w) ∷ insert k v m

  unfoldable pub remove : Bytes → Assoc V → Assoc V
  remove k [] = []
  remove k ((j, v) ∷ m) = let rest = remove k m in if bytes_eq j k then rest else (j, v) ∷ rest

  -- `get_mut` and a change of the value found.
  unfoldable pub update : Bytes → (V → V) → Assoc V → Assoc V
  update k f [] = []
  update k f ((j, v) ∷ m) = if bytes_eq j k then (j, f v) ∷ m else (j, v) ∷ update k f m

  abbrev pub contains_key : Bytes → Assoc V → Bool
  contains_key k m = elim (lookup k m) [ none ↦ false | some v ↦ true ]

  pub lookup-insert :
      (k j : Bytes) (v : V) (m : Assoc V)
      → lookup j (insert k v m) ≡ (if bytes_eq k j then some v else lookup j m)
  unfolding lookup insert
  lookup-insert k j v [] = refl
  lookup-insert k j v ((i, w) ∷ m) =
      ground (arith, bytes_eq_iff k j, bytes_eq_iff i k, bytes_eq_iff i j, lookup-insert k j v m)

  pub lookup-remove :
      (k j : Bytes) (m : Assoc V)
      → lookup j (remove k m) ≡ (if bytes_eq k j then none else lookup j m)
  unfolding lookup remove
  lookup-remove k j [] = ground arith
  lookup-remove k j ((i, w) ∷ m) =
      ground (arith, bytes_eq_iff k j, bytes_eq_iff i k, bytes_eq_iff i j, lookup-remove k j m)

  pub lookup-update :
      (k j : Bytes) (f : V → V) (m : Assoc V)
      → lookup j (update k f m) ≡ (if bytes_eq k j then Option.map f (lookup j m) else lookup j m)
  unfolding lookup update
  lookup-update k j f [] = ground arith
  lookup-update k j f ((i, w) ∷ m) =
      ground (arith, bytes_eq_iff k j, bytes_eq_iff i k, bytes_eq_iff i j, lookup-update k j f m)

unfoldable pub member : Bytes → List Bytes → Bool
member k [] = false
member k (j ∷ s) = bytes_eq j k || member k s

unfoldable pub without : Bytes → List Bytes → List Bytes
without k [] = []
without k (j ∷ s) = let rest = without k s in if bytes_eq j k then rest else j ∷ rest

pub member-without :
    (k j : Bytes) (s : List Bytes)
    → member j (without k s) ≡ (if bytes_eq k j then false else member j s)
unfolding member without
member-without k j [] = ground arith
member-without k j (i ∷ s) =
    ground (arith, bytes_eq_iff k j, bytes_eq_iff i k, bytes_eq_iff i j, member-without k j s)
