-- ===== src/Client/Aliases.antt =====
-- The file of aliases of crates/client/src/lib.rs: one line per peer, with the hex form of its
-- identity, a tab and its alias. `load_aliases`, `set_alias`, `alias_of` and `remove_alias`.
pub mod File
pub mod Setting
use sechat_client.Base.{
  ◌≡◌, ◌||◌, Option, none, some, List, [], ◌∷◌, ◌++◌, arith, ltb, ◌==◌, if◌then◌else◌, length,
  Result, ok, err,
}
use sechat_client.Base.Assoc.{Assoc, lookup, insert, remove, contains_key}
use sechat_client.Base.Bytes.{Bytes, Text}
use sechat_client.Base.Strings.{split_once, trim, is_empty, lines}
use sechat_client.Crypto.Disk.{base_dir, aliases_file, Disk}
use sechat_client.Crypto.Primitives.{Primitives}
use sechat_client.Crypto.Types.{ErrorKind}

pub data AliasError : Type 0 where
  bad_alias : AliasError
  alias_file_failed : ErrorKind → AliasError

module _ (p : Primitives) where
  -- The entry in one line, if there is one.
  unfoldable pub parse_alias : Text → Option (Bytes × Text)
  parse_alias line = elim (split_once 9 line) [
    | none ↦ none
    | some (hex_id, name) ↦ elim (p.hex_decode hex_id) [
      | none ↦ none
      | some id ↦ if length id == 32 then some (id, name) else none
    ]
  ]

  unfoldable pub parse_aliases : List Text → Assoc Text → Assoc Text
  unfolding parse_alias
  parse_aliases [] m = m
  parse_aliases (l ∷ ls) m = elim (parse_alias l) [
    | none ↦ parse_aliases ls m
    | some (id, name) ↦ parse_aliases ls (insert id name m)
  ]

  unfoldable pub print_aliases : Assoc Text → Text
  print_aliases [] = []
  print_aliases ((id, name) ∷ m) = p.hex_encode id ++ (9 ∷ (name ++ (10 ∷ print_aliases m)))

  module _ {D : Type 0} where
    unfoldable pub load_aliases : Disk D → Assoc Text
    load_aliases d = elim (d.faults aliases_file) [
      | some e ↦ []
      | none ↦ elim d.aliases [ none ↦ [] | some content ↦ parse_aliases (lines content) [] ]
    ]

    -- `std::fs::write`.
    unfoldable pub write_aliases : Assoc Text → Disk D → Result AliasError (Unit {0}) × Disk D
    write_aliases m d = elim (d.faults aliases_file) [
      | some e ↦ (err (alias_file_failed e), d)
      | none ↦ (ok tt, record d { aliases = some (print_aliases m) })
    ]

    unfoldable pub set_alias : Bytes → Text → Disk D → Result AliasError (Unit {0}) × Disk D
    unfolding load_aliases write_aliases
    set_alias id raw d =
        let name = trim raw in
        if is_empty name || ltb 32 (length name)
        then (err bad_alias, d)
        else elim (d.faults base_dir) [
          | some e ↦ (err (alias_file_failed e), d)
          | none ↦ write_aliases (insert id name (load_aliases d)) d
        ]

    unfoldable pub alias_of : Bytes → Disk D → Option Text
    unfolding load_aliases
    alias_of id d = lookup id (load_aliases d)

    unfoldable pub remove_alias : Bytes → Disk D → Result AliasError (Unit {0}) × Disk D
    unfolding load_aliases write_aliases
    remove_alias id d =
        let m = load_aliases d in
        if contains_key id m then write_aliases (remove id m) d else (ok tt, d)

    pub remove_alias-peers : (id : Bytes) (d : Disk D) → (remove_alias id d).1.peers ≡ d.peers
    unfolding remove_alias
    remove_alias-peers id d = ground arith
