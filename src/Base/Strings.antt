-- ===== src/Base/Strings.antt =====
-- The operations of Rust's `str` that the program uses, over code points.
use sechat_client.Base.{
  ℕ, zero, suc, ◌+◌, ◌/◌, ◌%◌, Bool, true, false, ◌&&◌, ◌||◌, Option, none, some, List, [], ◌∷◌,
  ◌++◌, ltb, leb, ◌==◌, if◌then◌else◌,
}
use sechat_client.Base.Bytes.{Text}

abbrev pub colon : ℕ
colon = b':'

-- `rsplit_once(ch)`: at the last occurrence.
unfoldable pub rsplit_once : ℕ → Text → Option (Text × Text)
rsplit_once ch [] = none
rsplit_once ch (c ∷ cs) =
    let rest = rsplit_once ch cs in
    elim rest [
      | some (before, after) ↦ some (c ∷ before, after)
      | none ↦ if c == ch then some ([], cs) else none
    ]

-- `split_once(ch)`: at the first occurrence.
unfoldable pub split_once : ℕ → Text → Option (Text × Text)
split_once ch [] = none
split_once ch (c ∷ cs) =
    let rest = split_once ch cs in
    if c == ch
    then some ([], cs)
    else elim rest [ none ↦ none | some (before, after) ↦ some (c ∷ before, after) ]

-- `starts_with(prefix)`, and `strip_prefix(prefix)`.
unfoldable pub starts_with : Text → Text → Bool
starts_with t [] = true
starts_with [] (p ∷ ps) = false
starts_with (c ∷ cs) (p ∷ ps) = c == p && starts_with cs ps

unfoldable pub strip_prefix : Text → Text → Option Text
strip_prefix t [] = some t
strip_prefix [] (p ∷ ps) = none
strip_prefix (c ∷ cs) (p ∷ ps) = let rest = strip_prefix cs ps in if c == p then rest else none

-- `char::is_whitespace`.
unfoldable pub is_whitespace : ℕ → Bool
is_whitespace c =
    (leb 9 c && leb c 13)
    || c == 32
    || c == 0x85
    || c == 0xa0
    || c == 0x1680
    || (leb 0x2000 c && leb c 0x200a)
    || c == 0x2028
    || c == 0x2029
    || c == 0x202f
    || c == 0x205f
    || c == 0x3000

unfoldable pub trim_start : Text → Text
unfolding is_whitespace
trim_start [] = []
trim_start (c ∷ cs) = let rest = trim_start cs in if is_whitespace c then rest else c ∷ cs

-- `trim_end`: drops the white space behind the last other character.
unfoldable pub trim_end : Text → Text
unfolding is_whitespace
trim_end [] = []
trim_end (c ∷ cs) = elim (trim_end cs) [
  | [] ↦ if is_whitespace c then [] else c ∷ []
  | d ∷ ds ↦ c ∷ d ∷ ds
]

unfoldable pub trim : Text → Text
unfolding trim_start trim_end
trim t = trim_end (trim_start t)

unfoldable pub is_empty : Text → Bool
is_empty [] = true
is_empty (c ∷ cs) = false

-- The digits of `{n}` for a number below 10 ^ k, by k divisions.
unfoldable pub digits_of : ℕ → ℕ → Text
digits_of zero n = []
digits_of (suc k) n =
    let more = digits_of k (n / 10) in
    if ltb n 10 then (48 + n) ∷ [] else more ++ (48 + n % 10) ∷ []

-- `{n}` for a `u16`, `u32` or `u64`.
unfoldable pub decimal : ℕ → Text
unfolding digits_of
decimal n = digits_of 20 n

-- `lines()`: split at line feeds, less a carriage return before the line feed; no line after the
-- last line feed if nothing stands there.
unfoldable pub last_line : Text → List Text
last_line [] = []
last_line (c ∷ cs) = (c ∷ cs) ∷ []

unfoldable pub strip_return : Text → Text
strip_return [] = []
strip_return (c ∷ []) = if c == 13 then [] else c ∷ []
strip_return (c ∷ d ∷ cs) = c ∷ strip_return (d ∷ cs)

unfoldable pub split_lines : Text → Text → List Text
unfolding last_line strip_return
split_lines line [] = last_line line
split_lines line (c ∷ cs) =
    let next = split_lines [] cs in
    let same = split_lines (line ++ c ∷ []) cs in if c == 10 then strip_return line ∷ next else same

unfoldable pub lines : Text → List Text
unfolding split_lines
lines t = split_lines [] t

-- `splitn(n, ch)`: at most `n` parts, the last with the rest of the text.
unfoldable pub splitn : ℕ → ℕ → Text → List Text
splitn zero ch t = []
splitn (suc zero) ch t = t ∷ []
splitn (suc (suc n)) ch t = elim (split_once ch t) [
  | none ↦ t ∷ []
  | some (part, rest) ↦ part ∷ splitn (suc n) ch rest
]
