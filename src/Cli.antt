-- ===== src/Cli.antt =====
-- The command line client, crates/client/src/bin/sechat-cli.rs: how it signs in, what it prints for
-- an event, and what it does with a line of input. Printed lines are collected in order.
pub mod Actions
pub mod Lines
use sechat_client.Base.{
  Option, none, some, List, [], ◌∷◌, ◌++◌, ◌==◌, if◌then◌else◌, length, Result, ok, err,
}
use sechat_client.Base.Bytes.{Bytes, Text, text, bytes_eq}
use sechat_client.Base.Strings.{trim, decimal}
use sechat_client.Client.Config.{save_server, resolve_server}
use sechat_client.Client.Facade.{Front, Handle, submit, put_disk, fingerprint}
use sechat_client.Client.History.{history}
use sechat_client.Client.Identity.{NewIdentity, identity_exists, unlock, create_identity}
use sechat_client.Client.Types.{
  ChatLine, AppEvent, connected, app_peer_online, app_peer_offline, message_arrived,
  app_hole_punch_denied, session_up, session_down, connect_retrying, connect_gave_up,
  app_disconnected, app_error, Command,
}
use sechat_client.Crypto.Disk.{Disk, attempt}
use sechat_client.Crypto.Types.{Keys}
use sechat_client.Server.Services.{Services}

pub record Cli (D : Type 0) : Type 0 where
  pub handle : Handle
  pub front : Front D
  pub printed : List Text

module _ {D : Type 0} where
  unfoldable pub println : Text → Cli D → Cli D
  println t c = record c { printed = c.printed ++ t ∷ [] }

  unfoldable pub print_all : List Text → Cli D → Cli D
  print_all ts c = record c { printed = c.printed ++ ts }

  unfoldable pub command : Command → Cli D → Cli D
  unfolding submit
  command m c = record c { front = submit m c.front }

module _ {D : Type 0} (x : Services D) where
  -- The identity: opened, or made with a password that was typed twice. `none` is a panic.
  unfoldable pub sign_in : NewIdentity → Text → Text → Disk D → Option (Result Text Keys) × Disk D
  sign_in new password confirm d =
      if identity_exists d
      then (unlock x password d, d)
      else if bytes_eq password confirm
      then (let (r, d') = create_identity x new password d in (some r, d'))
      else (some (err (text "passwords do not match")), d)

  -- The relay's address, asked for and saved where none is known. `typed` is the line typed.
  unfoldable pub choose_server : Option Text → Text → Disk D → Result Text Text × Disk D
  choose_server env typed d = elim (resolve_server env d) [
    | some s ↦ (ok s, d)
    | none ↦
        let s = trim typed in
        let (r, d') = save_server s d in (elim r [ ok _ ↦ ok s | err e ↦ err (x.io_text e) ], d')
  ]

  unfoldable pub last_line_of : List ChatLine → Option ChatLine
  last_line_of [] = none
  last_line_of (l ∷ []) = some l
  last_line_of (l ∷ m ∷ ls) = last_line_of (m ∷ ls)

  -- What the task that receives events prints.
  unfoldable pub print_event : AppEvent → Cli D → Cli D
  unfolding println put_disk fingerprint
  print_event (connected observed_address) c =
      println (text "[connected] observed as " ++ observed_address) c
  print_event (app_peer_online who) c = c
  print_event (app_peer_offline who) c = c
  print_event (message_arrived who from_me) c =
      let (r, d) = history x c.handle.keys who c.front.world.disk in
      let read = record c { front = put_disk d c.front } in
      elim r [
        | err e ↦ read
        | ok found ↦ elim (last_line_of found) [
          | none ↦ read
          | some l ↦
              println
                (text "[msg] "
                  ++ ((if l.from_me then text "you" else fingerprint x who)
                      ++ (text ": " ++ l.text)))
                read
        ]
      ]
  print_event (app_hole_punch_denied who reason) c =
      println (text "[denied] " ++ (fingerprint x who ++ (text ": " ++ reason))) c
  print_event (session_up who direct) c =
      println
        (text "[session] "
          ++ (fingerprint x who
              ++ (text " connected ("
                  ++ ((if direct then text "direct" else text "relay") ++ text ")"))))
        c
  print_event (session_down who) c =
      println (text "[session] " ++ (fingerprint x who ++ text " ended")) c
  print_event (connect_retrying who attempt delay_secs) c =
      println
        (text "[retry] "
          ++ (fingerprint x who
              ++ (text " attempt "
                  ++ (decimal attempt
                      ++ (text " (next in " ++ (decimal delay_secs ++ text "s)"))))))
        c
  print_event (connect_gave_up who) c =
      println
        (text "[gave up] " ++ (fingerprint x who ++ text " — will retry when it comes online")) c
  print_event app_disconnected c = println (text "[disconnected]") c
  print_event (app_error e) c = println (text "[error] " ++ e) c

  -- `parse32`.
  unfoldable pub parse32 : Text → Option Bytes
  parse32 hex_str = elim (x.primitives.hex_decode hex_str) [
    | none ↦ none
    | some b ↦ if length b == 32 then some b else none
  ]
