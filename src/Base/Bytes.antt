-- ===== src/Base/Bytes.antt =====
-- Byte strings as lists of numbers, and the byte orders of Rust's integers.
use Prim.Native.Nat.{ℕ, zero, suc, ◌+◌, ◌*◌, ◌/◌, ◌%◌, ◌^◌, ◌<◌}
use Prim.Native.Char.{code}
use Prim.Native.String.{String}
use mathlib.Core.Path.{◌≡◌, refl, sym, ap, ◌∙◌}
use mathlib.Core.Logic.{◌↔◌}
use mathlib.Core.Bool.{Bool, true, false, ◌&&◌, ◌||◌}
use mathlib.Core.List.{List, [], ◌∷◌, ◌++◌}
use native.Mathlib.Nat.{pow-suc}
use native.Mathlib.Omega.{arith}
use sechat_client.Base.{ltb, ◌==◌, length, length-append}

abbrev pub Bytes : Type 0
Bytes = List ℕ

-- A Rust `str` as its code points.
abbrev pub Text : Type 0
Text = List ℕ

-- A literal; `String` has its own `[]` and `∷`.
unfoldable pub text : String → Text
text String.[] = []
text (String.◌∷◌ c s) = code c ∷ text s

unfoldable pub bytes_eq : Bytes → Bytes → Bool
bytes_eq [] [] = true
bytes_eq [] (y ∷ ys) = false
bytes_eq (x ∷ xs) [] = false
bytes_eq (x ∷ xs) (y ∷ ys) = x == y && bytes_eq xs ys

pub bytes_eq_iff : (a b : Bytes) → (bytes_eq a b ≡ true) ↔ (a ≡ b)
unfolding bytes_eq
bytes_eq_iff [] [] = ground arith
bytes_eq_iff [] (y ∷ ys) = ground arith
bytes_eq_iff (x ∷ xs) [] = ground arith
bytes_eq_iff (x ∷ xs) (y ∷ ys) = ground (arith, bytes_eq_iff xs ys)

pub bytes_eq_refl : (a : Bytes) → bytes_eq a a ≡ true
bytes_eq_refl a = (bytes_eq_iff a a).1 refl

-- The derived order of byte arrays and of sled's keys: lexicographic, a prefix first.
unfoldable pub bytes_lt : Bytes → Bytes → Bool
bytes_lt [] [] = false
bytes_lt [] (y ∷ ys) = true
bytes_lt (x ∷ xs) [] = false
bytes_lt (x ∷ xs) (y ∷ ys) = ltb x y || (x == y && bytes_lt xs ys)

pub bytes_lt_irrefl : (a : Bytes) → bytes_lt a a ≡ false
unfolding bytes_lt
bytes_lt_irrefl [] = refl
bytes_lt_irrefl (x ∷ xs) = ground (arith, bytes_lt_irrefl xs)

pub bytes_lt_asymm : (a b : Bytes) → bytes_lt a b ≡ true → bytes_lt b a ≡ false
unfolding bytes_lt
bytes_lt_asymm [] [] h = ground arith
bytes_lt_asymm [] (y ∷ ys) h = refl
bytes_lt_asymm (x ∷ xs) [] h = ground arith
bytes_lt_asymm (x ∷ xs) (y ∷ ys) h = ground (arith, bytes_lt_asymm xs ys)

-- Of two different byte strings one is the smaller.
pub bytes_lt_total :
    (a b : Bytes) → bytes_eq a b ≡ false → bytes_lt a b ≡ false → bytes_lt b a ≡ true
unfolding bytes_lt bytes_eq
bytes_lt_total [] [] h k = ground arith
bytes_lt_total [] (y ∷ ys) h k = ground arith
bytes_lt_total (x ∷ xs) [] h k = refl
bytes_lt_total (x ∷ xs) (y ∷ ys) h k = ground (arith, bytes_lt_total xs ys)

-- `to_le_bytes` of an integer of k bytes.
unfoldable pub le_bytes : ℕ → ℕ → Bytes
le_bytes zero n = []
le_bytes (suc k) n = (n % 256) ∷ le_bytes k (n / 256)

-- `to_be_bytes` of an integer of k bytes.
unfoldable pub be_bytes : ℕ → ℕ → Bytes
be_bytes zero n = []
be_bytes (suc k) n = be_bytes k (n / 256) ++ (n % 256) ∷ []

-- `from_be_bytes`, after the bytes that make `acc`.
unfoldable pub from_be : ℕ → Bytes → ℕ
from_be acc [] = acc
from_be acc (b ∷ bs) = from_be (acc * 256 + b) bs

pub length-le_bytes : (k n : ℕ) → length (le_bytes k n) ≡ k
unfolding le_bytes
length-le_bytes zero n = refl
length-le_bytes (suc k) n = ap suc (length-le_bytes k (n / 256))

pub length-be_bytes : (k n : ℕ) → length (be_bytes k n) ≡ k
unfolding be_bytes
length-be_bytes zero n = refl
length-be_bytes (suc k) n =
    length-append (be_bytes k (n / 256)) _ ∙ omega (arith, length-be_bytes k (n / 256))

from_be-append :
    (acc : ℕ) (xs : Bytes) (b : ℕ) → from_be acc (xs ++ b ∷ []) ≡ from_be acc xs * 256 + b
unfolding from_be
from_be-append acc [] b = refl
from_be-append acc (x ∷ xs) b = from_be-append (acc * 256 + x) xs b

-- One byte fewer.
pub div-lt-pow : (k n : ℕ) → n < 256 ^ suc k → n / 256 < 256 ^ k
div-lt-pow k n h = omega (arith, pow-suc 256 k)

pub from_be-be_bytes : (k n : ℕ) → n < 256 ^ k → from_be 0 (be_bytes k n) ≡ n
unfolding be_bytes from_be
from_be-be_bytes zero n h = omega arith
from_be-be_bytes (suc k) n h =
    from_be-append 0 (be_bytes k (n / 256)) (n % 256)
    ∙ omega (arith, from_be-be_bytes k (n / 256) (div-lt-pow k n h))

pub be_bytes_injective :
    (k m n : ℕ) → m < 256 ^ k → n < 256 ^ k → be_bytes k m ≡ be_bytes k n → m ≡ n
be_bytes_injective k m n hm hn e =
    omega (arith, from_be-be_bytes k m hm, from_be-be_bytes k n hn, ap (from_be 0) e)

bytes_lt-append :
    (xs ys : Bytes) (a b : ℕ)
    → length xs ≡ length ys
    → bytes_lt (xs ++ a ∷ []) (ys ++ b ∷ []) ≡ (bytes_lt xs ys || (bytes_eq xs ys && ltb a b))
unfolding bytes_lt bytes_eq
bytes_lt-append [] [] a b h = ground arith
bytes_lt-append [] (y ∷ ys) a b h = absurd (omega arith)
bytes_lt-append (x ∷ xs) [] a b h = absurd (omega arith)
bytes_lt-append (x ∷ xs) (y ∷ ys) a b h = ground (arith, bytes_lt-append xs ys a b)

be_bytes_congr : (k m n : ℕ) → m ≡ n → be_bytes k m ≡ be_bytes k n
be_bytes_congr k m n e = ap (be_bytes k) e

pub bytes_eq-be_bytes :
    (k m n : ℕ) → m < 256 ^ k → n < 256 ^ k → bytes_eq (be_bytes k m) (be_bytes k n) ≡ (m == n)
bytes_eq-be_bytes k m n hm hn = ground (
  arith,
  bytes_eq_iff (be_bytes k m) (be_bytes k n),
  be_bytes_injective k m n hm hn,
  be_bytes_congr k m n,
)

-- Big-endian bytes are ordered as the numbers are.
pub bytes_lt-be_bytes :
    (k m n : ℕ) → m < 256 ^ k → n < 256 ^ k → bytes_lt (be_bytes k m) (be_bytes k n) ≡ ltb m n
unfolding be_bytes bytes_lt
bytes_lt-be_bytes zero m n hm hn = ground arith
bytes_lt-be_bytes (suc k) m n hm hn =
    bytes_lt-append (be_bytes k (m / 256)) (be_bytes k (n / 256)) (m % 256) (n % 256)
      (length-be_bytes k (m / 256) ∙ sym (length-be_bytes k (n / 256)))
    ∙ ground (
      arith,
      bytes_lt-be_bytes k (m / 256) (n / 256) (div-lt-pow k m hm) (div-lt-pow k n hn),
      bytes_eq-be_bytes k (m / 256) (n / 256) (div-lt-pow k m hm) (div-lt-pow k n hn),
    )

pub le_bytes_injective :
    (k m n : ℕ) → m < 256 ^ k → n < 256 ^ k → le_bytes k m ≡ le_bytes k n → m ≡ n
unfolding le_bytes
le_bytes_injective zero m n hm hn e = omega arith
le_bytes_injective (suc k) m n hm hn e =
    ground (arith, le_bytes_injective k (m / 256) (n / 256) (div-lt-pow k m hm) (div-lt-pow k n hn))
