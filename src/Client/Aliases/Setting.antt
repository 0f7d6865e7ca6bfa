-- ===== src/Client/Aliases/Setting.antt =====
-- `set_alias` and `alias_of` of crates/client/src/lib.rs together.
use mathlib.Core.Path.{subst}
use mathlib.Core.Option
use sechat_client.Base.{
  ℕ, ◌≤◌, ◌≡◌, refl, sym, ap, ◌∙◌, inl, inr, false, none, some, [], ◌∷◌, arith, if◌then◌else◌,
  Option-cases, length, ok,
}
use sechat_client.Base.Assoc.{lookup, insert, lookup-insert}
use sechat_client.Base.Bytes.{Bytes, Text, bytes_eq}
use sechat_client.Base.Strings.{
  is_whitespace, trim_start, trim_end, trim, is_empty, strip_return, split_lines, lines,
}
use sechat_client.Client.Aliases.{
  parse_aliases, print_aliases, load_aliases, write_aliases, set_alias, alias_of,
}
use sechat_client.Client.Aliases.File.{
  NoFeed, Written, insert-Written, lookup-replay, parse_aliases-print_aliases,
  parse_aliases-Written, Lines-split_lines,
}
use sechat_client.Crypto.Disk.{base_dir, aliases_file, Disk}
use sechat_client.Crypto.Primitives.{Primitives, PrimitiveLaws}

strip_return-trimmed :
    (c : ℕ) (r : Text)
    → strip_return r ≡ r
    → strip_return (elim r as (λ _. Text) [
      | [] ↦ if is_whitespace c then [] else c ∷ []
      | d ∷ ds ↦ c ∷ d ∷ ds
    ])
      ≡ (elim r as (λ _. Text) [
        | [] ↦ if is_whitespace c then [] else c ∷ []
        | d ∷ ds ↦ c ∷ d ∷ ds
      ])
unfolding strip_return is_whitespace
strip_return-trimmed c [] h = ground arith
strip_return-trimmed c (d ∷ ds) h = ap (λ t. c ∷ t) h

-- A trimmed text does not end in a carriage return.
strip_return-trim_end : (t : Text) → strip_return (trim_end t) ≡ trim_end t
unfolding strip_return trim_end
strip_return-trim_end [] = refl
strip_return-trim_end (c ∷ t) = strip_return-trimmed c (trim_end t) (strip_return-trim_end t)

not_empty : (t : Text) → 1 ≤ length t → is_empty t ≡ false
unfolding is_empty
not_empty [] h = ground arith
not_empty (c ∷ t) h = refl

module _ (p : Primitives) (laws : PrimitiveLaws p) {D : Type 0} where
  load_aliases-content :
      (d : Disk D) (content : Text)
      → d.faults aliases_file ≡ none
      → d.aliases ≡ some content
      → load_aliases p d ≡ parse_aliases p (split_lines [] content) []
  unfolding load_aliases lines
  load_aliases-content d content f g = ground (arith, f, g)

  load_aliases-Written : (d : Disk D) → d.faults aliases_file ≡ none → Written (load_aliases p d)
  unfolding load_aliases
  load_aliases-Written d f = elim (Option-cases d.aliases) [
    | inl g ↦ let e : load_aliases p d ≡ [] = ground arith in subst Written (sym e) tt
    | inr (content, g) ↦ subst Written (sym (load_aliases-content d content f g)) (
        parse_aliases-Written p laws (split_lines [] content) [] (Lines-split_lines [] content tt)
          tt)
  ]

  set_alias_lem :
      (id : Bytes) (raw : Text) (d : Disk D)
      → d.faults base_dir ≡ none
      → d.faults aliases_file ≡ none
      → 1 ≤ length (trim raw)
      → length (trim raw) ≤ 32
      → set_alias p id raw d ≡ (
        ok tt,
        record d { aliases = some (print_aliases p (insert id (trim raw) (load_aliases p d))) },
      )
  unfolding set_alias write_aliases
  set_alias_lem id raw d base file low high = ground (arith, not_empty (trim raw) low)

  -- Setting an alias, where the file can be written: a name that trims to between 1 and 32
  -- characters without a line feed is read back as it was trimmed, whatever the file held before,
  -- and every other alias is as before, less a carriage return at its end.
  pub alias_of-set_alias :
      (id j : Bytes) (raw : Text) (d : Disk D)
      → length id ≡ 32
      → d.faults base_dir ≡ none
      → d.faults aliases_file ≡ none
      → 1 ≤ length (trim raw)
      → length (trim raw) ≤ 32
      → NoFeed (trim raw)
      → ((set_alias p id raw d).0 ≡ ok tt)
        × (alias_of p j (set_alias p id raw d).1
            ≡ (if bytes_eq id j then some (trim raw) else Option.map strip_return (alias_of p j d)))
  unfolding alias_of trim lookup
  alias_of-set_alias id j raw d l base file low high feed =
      let name = trim raw in
      let m = insert id name (load_aliases p d) in
      let table = insert-Written id name (load_aliases p d) l feed (load_aliases-Written d file) in
      let after : Disk D = record d { aliases = some (print_aliases p m) } in
      let back =
        load_aliases-content after (print_aliases p m) file refl
        ∙ parse_aliases-print_aliases p laws m [] table in
      let found = lookup-replay j m [] table in
      let added = lookup-insert id j name (load_aliases p d) in
      let trimmed : strip_return name ≡ name = strip_return-trim_end (trim_start raw) in
      let stored = set_alias_lem id raw d base file low high in
      (
        ap (λ r. r.0) stored,
        ap (λ r. alias_of p j r.1) stored
            ∙ ap (lookup j) back
            ∙ ground (arith, found, added, trimmed),
      )
