-- ===== src/Gui/Actions.antt =====
-- The handlers of crates/gui/src/main.rs.
use mathlib.Core.Option
use sechat_client.Base.{none, some, List, [], ◌++◌, ◌==◌, if◌then◌else◌, length, Result, ok, err}
use sechat_client.Base.Assoc.{remove}
use sechat_client.Base.Bytes.{Bytes, Text, text, bytes_eq}
use sechat_client.Base.Int.{ℤ}
use sechat_client.Base.Strings.{trim, is_empty, decimal}
use sechat_client.Client.Aliases.{set_alias}
use sechat_client.Client.Facade.{submit, put_disk, fingerprint, contacts, add_peer, alias_text}
use sechat_client.Client.History.{history}
use sechat_client.Client.Local.{find_contact}
use sechat_client.Client.Types.{Contact, send, connect, set_server}
use sechat_client.Gui.{Gui, say}
use sechat_client.Server.Services.{Services}

module _ {D : Type 0} (x : Services D) where
  unfoldable pub parse_key_hex : Text → Text → Result Text Bytes
  parse_key_hex input label_text = elim (x.primitives.hex_decode (trim input)) [
    | none ↦ err (text "Invalid " ++ (label_text ++ (text " key hex: " ++ x.crypto_text)))
    | some b ↦
        if length b == 32
        then ok b
        else err (
            label_text
            ++ (text " key must be 32 bytes, got " ++ (decimal (length b) ++ text " bytes")))
  ]

  -- `now` is the time of the presence check.
  unfoldable pub refresh_contacts : ℤ → Gui D → Gui D
  refresh_contacts now g = elim g.app.client [
    | none ↦ g
    | some h ↦
        let a = g.app in
        let f = g.front in
        let (cs, w) = contacts x now f.world in
        record { app = record a { contacts = cs }; front = record f { world = w } }
  ]

  unfoldable pub reload_history : Bytes → Gui D → Gui D
  unfolding put_disk say
  reload_history who g = elim g.app.client [
    | none ↦ g
    | some h ↦
        let (r, d) = history x h.keys who g.front.world.disk in
        let a = g.app in
        let f = put_disk d g.front in
        elim r [
          | ok found ↦ record { app = record a { history = found }; front = f }
          | err e ↦ say (text "Failed to load history: " ++ e) (record g { front = f })
        ]
  ]

  unfoldable pub alias_in : Bytes → List Contact → Text
  unfolding find_contact
  alias_in id cs = elim (find_contact (λ c. bytes_eq c.id id) cs) [
    | none ↦ []
    | some c ↦ Option.get_or c.alias []
  ]

  unfoldable pub select_peer : Bytes → Gui D → Gui D
  unfolding alias_in submit
  select_peer id g =
      let a = g.app in
      let chosen = record a {
        selected = some id;
        unread = remove id a.unread;
        alias_input = alias_in id a.contacts;
      } in
      reload_history id (record {
        app = chosen;
        front = elim a.client [ none ↦ g.front | some h ↦ submit (connect id) g.front ];
      })

  unfoldable pub set_selected_alias : ℤ → Gui D → Gui D
  unfolding say put_disk alias_text
  set_selected_alias now g = elim g.app.client [
    | none ↦ say (text "Select a peer first") g
    | some h ↦ elim g.app.selected [
      | none ↦ say (text "Select a peer first") g
      | some id ↦
          let (r, d) = set_alias x.primitives id g.app.alias_input g.front.world.disk in
          let g' = record g { front = put_disk d g.front } in
          elim r [
            | ok _ ↦
                refresh_contacts now
                  (say (text "Alias set to '" ++ (trim g.app.alias_input ++ text "'")) g')
            | err e ↦ say (text "Alias failed: " ++ alias_text x e) g'
          ]
    ]
  ]

  unfoldable pub send_draft : Gui D → Gui D
  unfolding submit
  send_draft g =
      let content = trim g.app.draft in
      if is_empty content then g else elim g.app.client [
        | none ↦ g
        | some h ↦ elim g.app.selected [
          | none ↦ g
          | some id ↦
              let a = g.app in
              record { app = record a { draft = [] }; front = submit (send id content) g.front }
        ]
      ]

  unfoldable pub add_typed_peer : ℤ → Gui D → Gui D
  unfolding say parse_key_hex fingerprint
  add_typed_peer now g = elim (parse_key_hex g.app.add_x25519 (text "x25519")) [
    | err e ↦ say e g
    | ok k ↦ elim (parse_key_hex g.app.add_verifying (text "verifying")) [
      | err e ↦ say e g
      | ok v ↦ elim g.app.client [
        | none ↦ say (text "Client not started yet") g
        | some h ↦
            let (r, f) = add_peer x h k v g.front in
            let a = g.app in
            elim r [
              | ok id ↦ refresh_contacts now (record {
                app = record a {
                  status = text "Added peer " ++ fingerprint x id;
                  add_x25519 = [];
                  add_verifying = [];
                };
                front = f;
              })
              | err e ↦ say (text "Failed to add peer: " ++ e) (record g { front = f })
            ]
      ]
    ]
  ]

  unfoldable pub change_server : Gui D → Gui D
  unfolding say submit
  change_server g =
      let addr = trim g.app.server_field in
      if is_empty addr then say (text "Server address must not be empty") g else elim g.app.client [
        | none ↦ say (text "Client not started yet") g
        | some h ↦
            let a = g.app in
            record {
              app = record a {
                server_field = addr;
                status = text "Reconnecting to " ++ (addr ++ text "…");
              };
              front = submit (set_server addr) g.front;
            }
      ]
