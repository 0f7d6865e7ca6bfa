-- ===== src/Client/Config.antt =====
-- The server's address in the files of crates/client/src/lib.rs: `load_server`, `save_server` and
-- `resolve_server`.
use sechat_client.Base.{Option, none, some, if◌then◌else◌, Result, ok, err}
use sechat_client.Base.Bytes.{Text}
use sechat_client.Base.Strings.{trim, is_empty}
use sechat_client.Client.Local.{or_else}
use sechat_client.Crypto.Disk.{base_dir, server_file, Disk}
use sechat_client.Crypto.Types.{ErrorKind}

unfoldable pub nonempty : Text → Option Text
nonempty t = if is_empty t then none else some t

module _ {D : Type 0} where
  unfoldable pub load_server : Disk D → Option Text
  unfolding nonempty
  load_server d = elim (d.faults server_file) [
    | some e ↦ none
    | none ↦ elim d.server [ none ↦ none | some content ↦ nonempty (trim content) ]
  ]

  unfoldable pub save_server : Text → Disk D → Result ErrorKind (Unit {0}) × Disk D
  save_server addr d = elim (d.faults base_dir) [
    | some e ↦ (err e, d)
    | none ↦ elim (d.faults server_file) [
      | some e ↦ (err e, d)
      | none ↦ (ok tt, record d { server = some (trim addr) })
    ]
  ]

  -- `env` is the variable SECHAT_SERVER.
  unfoldable pub resolve_server : Option Text → Disk D → Option Text
  unfolding load_server nonempty or_else
  resolve_server env d = or_else (elim env [ none ↦ none | some s ↦ nonempty s ]) (load_server d)
