-- ===== src/Crypto/Chat/Nonce.antt =====
-- `nonce_for_message` of crates/crypto/src/lib.rs: the counter is mixed into the last eight bytes.
use Prim.Native.Nat.{bit_xor}
use sechat_client.Base.{
  ℕ, zero, suc, ◌/◌, ◌^◌, ◌<◌, ◌≡◌, refl, sym, ap, ◌∙◌, ◌≢◌, Bool, true, false, [], ◌∷◌, ◌++◌,
  arith, ◌==◌, if◌then◌else◌, ==_iff, length, take, drop, length-drop,
}
use sechat_client.Base.Bytes.{Bytes, le_bytes, length-le_bytes, le_bytes_injective}

unfoldable pub xor_bytes : Bytes → Bytes → Bytes
xor_bytes [] c = []
xor_bytes (b ∷ bs) [] = b ∷ bs
xor_bytes (b ∷ bs) (c ∷ cs) = bit_xor b c ∷ xor_bytes bs cs

unfoldable pub nonce_for_message : Bytes → ℕ → Bytes
unfolding xor_bytes
nonce_for_message base counter = take 4 base ++ xor_bytes (drop 4 base) (le_bytes 8 counter)

-- All bytes are below 256.
abbrev pub AllBytes : Bytes → Type 0
AllBytes [] = Unit
AllBytes (b ∷ bs) = (b < 256) × AllBytes bs

-- Whether two exclusive ors with one byte cancel, checked for all pairs of bytes.
undoes : ℕ → ℕ → Bool
undoes a x = bit_xor a (bit_xor a x) == x

row_undone : ℕ → ℕ → Bool
row_undone a zero = true
row_undone a (suc width) =
    let before = row_undone a width in if undoes a width then before else false

table_undone : ℕ → Bool
table_undone zero = true
table_undone (suc height) =
    let above = table_undone height in if row_undone height 256 then above else false

row_entry : (a x width : ℕ) → x < width → row_undone a width ≡ true → undoes a x ≡ true
unfolding row_undone
row_entry a x zero inside whole = absurd (omega arith)
row_entry a x (suc width) inside whole = ground (arith, row_entry a x width)

table_row : (a height : ℕ) → a < height → table_undone height ≡ true → row_undone a 256 ≡ true
unfolding table_undone
table_row a zero inside whole = absurd (omega arith)
table_row a (suc height) inside whole = ground (arith, table_row a height)

whole_table : table_undone 256 ≡ true
unfolding table_undone row_undone undoes
whole_table = refl

xor_undo : (a x : ℕ) → a < 256 → x < 256 → bit_xor a (bit_xor a x) ≡ x
unfolding undoes
xor_undo a x ha hx = (==_iff _ x).0 (row_entry a x 256 hx (table_row a 256 ha whole_table))

xor_injective : (a x y : ℕ) → a < 256 → x < 256 → y < 256 → bit_xor a x ≡ bit_xor a y → x ≡ y
xor_injective a x y ha hx hy e = sym (xor_undo a x ha hx) ∙ ap (bit_xor a) e ∙ xor_undo a y ha hy

xor_bytes_injective :
    (b c d : Bytes)
    → AllBytes b
    → AllBytes c
    → AllBytes d
    → length c ≡ length b
    → length d ≡ length b
    → xor_bytes b c ≡ xor_bytes b d
    → c ≡ d
unfolding xor_bytes
xor_bytes_injective [] [] [] hb hc hd lc ld e = refl
xor_bytes_injective [] [] (y ∷ ys) hb hc hd lc ld e = absurd (omega arith)
xor_bytes_injective [] (x ∷ xs) d hb hc hd lc ld e = absurd (omega arith)
xor_bytes_injective (b ∷ bs) [] d hb hc hd lc ld e = absurd (omega arith)
xor_bytes_injective (b ∷ bs) (x ∷ xs) [] hb hc hd lc ld e = absurd (omega arith)
xor_bytes_injective (b ∷ bs) (x ∷ xs) (y ∷ ys) hb hc hd lc ld e =
    ground (arith, xor_injective b x y, xor_bytes_injective bs xs ys hb.1 hc.1 hd.1)

AllBytes-le_bytes : (k n : ℕ) → AllBytes (le_bytes k n)
unfolding le_bytes
AllBytes-le_bytes zero n = tt
AllBytes-le_bytes (suc k) n = (omega arith, AllBytes-le_bytes k (n / 256))

AllBytes-drop : (k : ℕ) (b : Bytes) → AllBytes b → AllBytes (drop k b)
AllBytes-drop zero b h = h
AllBytes-drop (suc k) [] h = tt
AllBytes-drop (suc k) (x ∷ xs) h = AllBytes-drop k xs h.1

append_cancel : (a b c : Bytes) → a ++ b ≡ a ++ c → b ≡ c
append_cancel [] b c e = e
append_cancel (x ∷ xs) b c e = append_cancel xs b c (cc)

-- Under one base nonce of twelve bytes, two counters below 2 ^ 64 that give the same nonce are equal.
pub nonce_for_message_injective :
    (base : Bytes) (m n : ℕ)
    → AllBytes base
    → length base ≡ 12
    → m < 2 ^ 64
    → n < 2 ^ 64
    → nonce_for_message base m ≡ nonce_for_message base n
    → m ≡ n
unfolding nonce_for_message
nonce_for_message_injective base m n hb l hm hn e = le_bytes_injective 8 m n hm hn (
    xor_bytes_injective (drop 4 base) (le_bytes 8 m) (le_bytes 8 n) (AllBytes-drop 4 base hb)
      (AllBytes-le_bytes 8 m) (AllBytes-le_bytes 8 n)
      (omega (arith, length-drop 4 base, length-le_bytes 8 m))
      (omega (arith, length-drop 4 base, length-le_bytes 8 n)) (append_cancel (take 4 base) _ _ e))

-- Two counters below 2 ^ 64 never share a nonce under one base nonce of 12 bytes.
pub nonce_for_message_distinct :
    (base : Bytes) (m n : ℕ)
    → AllBytes base
    → length base ≡ 12
    → m < 2 ^ 64
    → n < 2 ^ 64
    → m ≢ n
    → nonce_for_message base m ≢ nonce_for_message base n
nonce_for_message_distinct base m n bytes l hm hn differ same =
    differ (nonce_for_message_injective base m n bytes l hm hn same)
