-- ===== src/Client/Aliases/File.antt =====
-- The lines of the file of aliases of crates/client/src/lib.rs, printed and parsed.
use mathlib.Core.Path.{subst}
use mathlib.Core.List.{append-nil, append_assoc}
use sechat_client.Base.{
  ℕ, ◌≡◌, refl, sym, ap, ◌∙◌, ◌≢◌, inl, inr, none, some, List, [], ◌∷◌, ◌++◌, arith, ◌==◌,
  if◌then◌else◌, Bool-cases, Option-cases, length,
}
use sechat_client.Base.Assoc.{Assoc, lookup, insert, lookup-insert}
use sechat_client.Base.Bytes.{Bytes, Text, bytes_eq, bytes_eq_iff}
use sechat_client.Base.Strings.{split_once, last_line, strip_return, split_lines}
use sechat_client.Client.Aliases.{parse_alias, parse_aliases, print_aliases}
use sechat_client.Crypto.Primitives.{Primitives, Visible, PrimitiveLaws}

-- No line feed.
abbrev pub NoFeed : Text → Type 0
NoFeed [] = Unit
NoFeed (c ∷ cs) = (c ≢ 10) × NoFeed cs

-- The same of each line.
abbrev pub Lines : List Text → Type 0
Lines [] = Unit
Lines (l ∷ ls) = NoFeed l × Lines ls

NoFeed-append : (t u : Text) → NoFeed t → NoFeed u → NoFeed (t ++ u)
NoFeed-append [] u ht hu = hu
NoFeed-append (c ∷ t) u (h, ht) hu = (h, NoFeed-append t u ht hu)

NoFeed-Visible : (t : Text) → Visible t → NoFeed t
NoFeed-Visible [] h = tt
NoFeed-Visible (c ∷ t) (h, ht) = (omega arith, NoFeed-Visible t ht)

NoFeed-strip_return : (t : Text) → NoFeed t → NoFeed (strip_return t)
unfolding strip_return
NoFeed-strip_return [] h = tt
NoFeed-strip_return (c ∷ []) h = elim (Bool-cases (c == 13)) [
  | inl e ↦ subst (λ b. NoFeed (if b then [] else c ∷ [])) (sym e) tt
  | inr e ↦ subst (λ b. NoFeed (if b then [] else c ∷ [])) (sym e) h
]
NoFeed-strip_return (c ∷ d ∷ t) (h, ht) = (h, NoFeed-strip_return (d ∷ t) ht)

split_lines-feed :
    (acc t rest : Text)
    → NoFeed t
    → split_lines acc (t ++ 10 ∷ rest) ≡ strip_return (acc ++ t) ∷ split_lines [] rest
unfolding split_lines
split_lines-feed acc [] rest h =
    ap (λ u. strip_return u ∷ split_lines [] rest) (sym (append-nil acc))
split_lines-feed acc (c ∷ t) rest (h, ht) =
    ground (arith, split_lines-feed (acc ++ c ∷ []) t rest ht, append_assoc acc (c ∷ []) t)

split_once-Visible : (h name : Text) → Visible h → split_once 9 (h ++ (9 ∷ name)) ≡ some (h, name)
unfolding split_once
split_once-Visible [] name v = refl
split_once-Visible (c ∷ h) name (v, vs) = ground (arith, split_once-Visible h name vs)

strip_return-tab : (name : Text) → strip_return (9 ∷ name) ≡ 9 ∷ strip_return name
unfolding strip_return
strip_return-tab [] = refl
strip_return-tab (c ∷ cs) = refl

strip_return-cons :
    (c d : ℕ) (t u : Text) → strip_return (c ∷ t ++ d ∷ u) ≡ c ∷ strip_return (t ++ d ∷ u)
unfolding strip_return
strip_return-cons c d [] u = refl
strip_return-cons c d (x ∷ t) u = refl

strip_return-line : (h name : Text) → strip_return (h ++ (9 ∷ name)) ≡ h ++ (9 ∷ strip_return name)
strip_return-line [] name = strip_return-tab name
strip_return-line (c ∷ h) name =
    strip_return-cons c 9 h name ∙ ap (λ t. c ∷ t) (strip_return-line h name)

-- What a loaded table has: identities of 32 bytes, each once, and names of one line.
abbrev pub Written : Assoc Text → Type 0
Written [] = Unit
Written ((id, name) ∷ m) = (length id ≡ 32) × NoFeed name × (lookup id m ≡ none) × Written m

pub insert-Written :
    (id : Bytes) (name : Text) (m : Assoc Text)
    → length id ≡ 32
    → NoFeed name
    → Written m
    → Written (insert id name m)
unfolding insert lookup
insert-Written id name [] l n w = (l, n, refl, tt)
insert-Written id name ((j, v) ∷ m) l n (lj, nv, free, w) = elim (Bool-cases (bytes_eq j id)) [
  | inl e ↦ rw e (lj, n, free, w)
  | inr e ↦ rw e (
    lj,
    nv,
    ground (arith, lookup-insert id j name m, bytes_eq_iff id j, bytes_eq_iff j id),
    insert-Written id name m l n w,
  )
]

-- The table that is read from lines, on top of `m`.
unfoldable pub replay : Assoc Text → Assoc Text → Assoc Text
replay [] m = m
replay ((id, name) ∷ rest) m = replay rest (insert id (strip_return name) m)

pub lookup-replay :
    (j : Bytes) (ms m : Assoc Text)
    → Written ms
    → lookup j (replay ms m)
      ≡ (elim (lookup j ms) [ none ↦ lookup j m | some name ↦ some (strip_return name) ])
unfolding replay lookup
lookup-replay j [] m w = refl
lookup-replay j ((id, name) ∷ rest) m (l, n, free, w) =
    let ih = lookup-replay j rest (insert id (strip_return name) m) w in
    ground (arith, ih, lookup-insert id j (strip_return name) m, bytes_eq_iff id j, free)

module _ (p : Primitives) (laws : PrimitiveLaws p) where
  parse_alias-line :
      (id : Bytes) (name : Text)
      → length id ≡ 32
      → parse_alias p (strip_return (p.hex_encode id ++ (9 ∷ name))) ≡ some (id, strip_return name)
  unfolding parse_alias
  parse_alias-line id name l =
      let whole = strip_return-line (p.hex_encode id) name in
      let cut =
        split_once-Visible (p.hex_encode id) (strip_return name) (laws.hex_encode-Visible id) in
      rw whole (ground (arith, cut, laws.hex_decode-hex_encode id))

  parse_aliases-hit :
      (l : Text) (ls : List Text) (m : Assoc Text) (id : Bytes) (name : Text)
      → parse_alias p l ≡ some (id, name)
      → parse_aliases p (l ∷ ls) m ≡ parse_aliases p ls (insert id name m)
  unfolding parse_aliases
  parse_aliases-hit l ls m id name h = ground (arith, h)

  parse_aliases-miss :
      (l : Text) (ls : List Text) (m : Assoc Text)
      → parse_alias p l ≡ none
      → parse_aliases p (l ∷ ls) m ≡ parse_aliases p ls m
  unfolding parse_aliases
  parse_aliases-miss l ls m h = ground (arith, h)

  no_lines : (m : Assoc Text) → parse_aliases p (split_lines [] []) m ≡ m
  unfolding parse_aliases split_lines
  no_lines m = refl

  no_more : (m : Assoc Text) → parse_aliases p [] m ≡ m
  unfolding parse_aliases
  no_more m = refl

  pub parse_aliases-print_aliases :
      (ms m : Assoc Text)
      → Written ms
      → parse_aliases p (split_lines [] (print_aliases p ms)) m ≡ replay ms m
  unfolding print_aliases replay
  parse_aliases-print_aliases [] m w = no_lines m
  parse_aliases-print_aliases ((id, name) ∷ rest) m (l, n, free, w) =
      let hex = p.hex_encode id in
      let more = print_aliases p rest in
      let no_feed : NoFeed (hex ++ (9 ∷ name)) =
        NoFeed-append hex (9 ∷ name) (NoFeed-Visible hex (laws.hex_encode-Visible id))
          (omega arith, n) in
      let whole =
        ap (split_lines []) (sym (append_assoc hex (9 ∷ name) (10 ∷ more)))
        ∙ split_lines-feed [] (hex ++ (9 ∷ name)) more no_feed in
      ap (λ ls. parse_aliases p ls m) whole
      ∙ parse_aliases-hit (strip_return (hex ++ (9 ∷ name))) (split_lines [] more) m id
          (strip_return name) (parse_alias-line id name l)
      ∙ parse_aliases-print_aliases rest (insert id (strip_return name) m) w

  split_once-NoFeed : (t a b : Text) → split_once 9 t ≡ some (a, b) → NoFeed t → NoFeed b
  unfolding split_once
  split_once-NoFeed [] a b h n = absurd (ground arith)
  split_once-NoFeed (c ∷ t) a b h (k, n) = elim (Bool-cases (c == 9)) [
    | inl e ↦ subst NoFeed (ground arith) n
    | inr e ↦ elim (Option-cases (split_once 9 t)) [
      | inl f ↦ absurd (ground arith)
      | inr ((a', b'), f) ↦ split_once-NoFeed t a' b (ground arith) n
    ]
  ]

  parse_alias_sound :
      (t : Text) (id : Bytes) (name : Text)
      → parse_alias p t ≡ some (id, name)
      → NoFeed t
      → (length id ≡ 32) × NoFeed name
  unfolding parse_alias
  parse_alias_sound t id name h n = elim (Option-cases (split_once 9 t)) [
    | inl e ↦ absurd (ground arith)
    | inr ((a, b), e) ↦ (ground arith, split_once-NoFeed t a name (ground arith) n)
  ]

  pub parse_aliases-Written :
      (ls : List Text) (m : Assoc Text) → Lines ls → Written m → Written (parse_aliases p ls m)
  parse_aliases-Written [] m h w = subst Written (sym (no_more m)) w
  parse_aliases-Written (l ∷ ls) m (h, hs) w = elim (Option-cases (parse_alias p l)) [
    | inl e ↦ subst Written (sym (parse_aliases-miss l ls m e)) (parse_aliases-Written ls m hs w)
    | inr ((id, name), e) ↦
        let (k, n) = parse_alias_sound l id name e h in
        subst Written (sym (parse_aliases-hit l ls m id name e))
          (parse_aliases-Written ls (insert id name m) hs (insert-Written id name m k n w))
  ]

pub Lines-split_lines : (acc t : Text) → NoFeed acc → Lines (split_lines acc t)
unfolding split_lines last_line
Lines-split_lines [] [] n = tt
Lines-split_lines (a ∷ acc) [] n = (n, tt)
Lines-split_lines acc (c ∷ t) n = elim (Bool-cases (c == 10)) [
  | inl e ↦
      let cut : split_lines acc (c ∷ t) ≡ strip_return acc ∷ split_lines [] t = ground arith in
      subst Lines (sym cut) (NoFeed-strip_return acc n, Lines-split_lines [] t tt)
  | inr e ↦
      let longer : split_lines acc (c ∷ t) ≡ split_lines (acc ++ c ∷ []) t = ground arith in
      subst Lines (sym longer)
        (Lines-split_lines (acc ++ c ∷ []) t (NoFeed-append acc (c ∷ []) n (ground arith, tt)))
]
