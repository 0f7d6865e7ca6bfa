-- ===== src/Cli/Actions.antt =====
-- What each command of crates/client/src/bin/sechat-cli.rs does.
use mathlib.Core.Option
use sechat_client.Base.{Option, none, some, List, [], ◌∷◌, ◌++◌, if◌then◌else◌, ok, err}
use sechat_client.Base.Bytes.{Bytes, Text, text}
use sechat_client.Base.Int.{ℤ}
use sechat_client.Cli.{Cli, println, print_all, command, parse32}
use sechat_client.Client.Aliases.{set_alias}
use sechat_client.Client.Config.{resolve_server}
use sechat_client.Client.Facade.{
  put_disk, fingerprint, my_keys_hex, contacts, resolve_peer, add_peer, alias_text,
}
use sechat_client.Client.History.{history}
use sechat_client.Client.Types.{Contact, label, ChatLine, purge_chat, remove_peer, set_server}
use sechat_client.Server.Services.{Services, World}

abbrev pub no_such_peer : Text
no_such_peer = text "no such peer"

module _ {D : Type 0} (x : Services D) where
  unfoldable pub contact_lines : List Contact → List Text
  contact_lines [] = []
  contact_lines (c ∷ cs) =
      let dot = if c.online then text "🟢" else text "⚪" in
      (text "  "
        ++ (dot
            ++ (text " "
                ++ (label c
                    ++ (text " ("
                        ++ (c.fingerprint ++ (text ") " ++ Option.get_or c.address [])))))))
      ∷ contact_lines cs

  unfoldable pub history_lines : List ChatLine → List Text
  history_lines [] = []
  history_lines (l ∷ ls) =
      (text "  " ++ ((if l.from_me then text "you" else text "peer") ++ (text ": " ++ l.text)))
      ∷ history_lines ls

  unfoldable pub set_world : World D → Cli D → Cli D
  set_world w c = let f = c.front in record c { front = record f { world = w } }

  unfoldable pub name_peer : Text → Bytes → Cli D → Cli D
  unfolding println put_disk alias_text
  name_peer name id c =
      let (r, d) = set_alias x.primitives id name c.front.world.disk in
      let told = record c { front = put_disk d c.front } in
      elim r [
        | ok _ ↦ println (text "alias set: " ++ name) told
        | err e ↦ println (text "alias failed: " ++ alias_text x e) told
      ]

  unfoldable pub show_my_keys : Cli D → Cli D
  unfolding print_all my_keys_hex
  show_my_keys c =
      let (k, v) = my_keys_hex x c.handle in
      print_all
        (text "share these two keys with your peer so they can add you:"
          ∷ (text "  x25519:   " ++ k)
          ∷ (text "  verifying:" ++ v)
          ∷ [])
        c

  unfoldable pub switch_server : Text → Cli D → Cli D
  unfolding println command
  switch_server addr c =
      println (text "switching to " ++ (addr ++ text " …")) (command (set_server addr) c)

  unfoldable pub add_keys : Text → Text → Cli D → Cli D
  unfolding println fingerprint
  add_keys k v c = elim (parse32 x k) [
    | none ↦ println (text "both keys must be 32-byte hex") c
    | some k' ↦ elim (parse32 x v) [
      | none ↦ println (text "both keys must be 32-byte hex") c
      | some v' ↦
          let (r, f) = add_peer x c.handle k' v' c.front in
          let told = record c { front = f } in
          elim r [
            | ok id ↦ println (text "added " ++ fingerprint x id) told
            | err e ↦ println (text "add failed: " ++ e) told
          ]
    ]
  ]

  unfoldable pub purge_peer : Bytes → Cli D → Cli D
  unfolding println command fingerprint
  purge_peer id c =
      println (text "purged conversation with " ++ fingerprint x id) (command (purge_chat id) c)

  unfoldable pub drop_peer : Bytes → Cli D → Cli D
  unfolding println command fingerprint
  drop_peer id c = println (text "removed peer " ++ fingerprint x id) (command (remove_peer id) c)

  unfoldable pub show_history : Bytes → Cli D → Cli D
  unfolding println print_all put_disk history_lines
  show_history id c =
      let (r, d) = history x c.handle.keys id c.front.world.disk in
      let read = record c { front = put_disk d c.front } in
      elim r [
        | ok found ↦ print_all (history_lines found) read
        | err e ↦ println (text "history failed: " ++ e) read
      ]

  module _ (now : ℤ) where
    -- `find_peer`, and what follows if there is such a peer.
    unfoldable pub with_peer : Text → (Bytes → Cli D → Cli D) → Cli D → Cli D
    unfolding set_world println
    with_peer query then_do c =
        let (found, w) = resolve_peer x now query c.front.world in
        elim found [
          | none ↦ println no_such_peer (set_world w c)
          | some id ↦ then_do id (set_world w c)
        ]

    unfoldable pub show_peers : Cli D → Cli D
    unfolding set_world print_all contact_lines
    show_peers c =
        let (cs, w) = contacts x now c.front.world in print_all (contact_lines cs) (set_world w c)

  module _ (env : Option Text) where
    unfoldable pub show_server : Cli D → Cli D
    unfolding println
    show_server c =
        println
          (text "current server: "
            ++ Option.get_or (resolve_server env c.front.world.disk) (text "(unset)"))
          c
