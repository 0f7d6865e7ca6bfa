-- ===== src/Cli/Lines.antt =====
-- A line of input at the prompt of crates/client/src/bin/sechat-cli.rs.
pub mod Sending
pub mod Queue
use sechat_client.Base.{String, Bool, true, false, ◌||◌, Option, List, [], ◌∷◌, ◌++◌, if◌then◌else◌}
use sechat_client.Base.Bytes.{Text, text, bytes_eq}
use sechat_client.Base.Int.{ℤ}
use sechat_client.Base.Strings.{trim, splitn}
use sechat_client.Cli.{Cli, println, print_all, command}
use sechat_client.Cli.Actions.{
  name_peer, show_my_keys, switch_server, add_keys, purge_peer, drop_peer, show_history, with_peer,
  show_peers, show_server,
}
use sechat_client.Client.Types.{send, connect, shutdown}
use sechat_client.Server.Services.{Services}

unfoldable pub help_lines : List Text
help_lines =
    text "Available commands:"
    ∷ text "  peers                           list known contacts + online status"
    ∷ text "  mykeys                          print your two public keys to share with peers"
    ∷ text "  server [host:port]              show, or change + persist, the relay address"
    ∷ text "  add <x25519_hex> <verif_hex>    trust a peer by their two 32-byte keys"
    ∷ text "  alias <peer> <name>             set a local name for a peer"
    ∷ text "  connect <peer>                  ask the relay to broker a P2P hole-punch"
    ∷ text "  msg <peer> <text>               send a message (P2P if live, else offline)"
    ∷ text "  history <peer>                  print the stored conversation"
    ∷ text "  purge <peer>                    delete the conversation (both sides)"
    ∷ text "  remove <peer>                   remove the peer entirely (keys + chat + alias)"
    ∷ text "  (<peer> = alias, alias prefix, or fingerprint prefix)"
    ∷ text "  help, ?                         show this help message"
    ∷ text "  quit, exit                      exit the application"
    ∷ []

module _ {D : Type 0} (x : Services D) (now : ℤ) (env : Option Text) where
  -- The words of a line, up to three, and what each command does; `false` ends the loop.
  unfoldable pub is_word : String → Text → Bool
  is_word s t = bytes_eq t (text s)

  unfoldable pub one_argument : Text → List Text → (Text → Cli D → Cli D) → Cli D → Cli D
  unfolding println
  one_argument usage [] f c = println usage c
  one_argument usage (a ∷ more) f c = f a c

  unfoldable pub two_arguments : Text → List Text → (Text → Text → Cli D → Cli D) → Cli D → Cli D
  unfolding println
  two_arguments usage (a ∷ b ∷ more) f c = f a b c
  two_arguments usage _ f c = println usage c

  unfoldable pub run_words : Text → List Text → Cli D → Bool × Cli D
  unfolding println print_all command is_word
  run_words word args c =
      if is_word "peers" word
      then (true, show_peers x now c)
      else if is_word "alias" word
      then (
        true,
        two_arguments (text "usage: alias <peer> <name>") args
            (λ who name c. with_peer x now who (name_peer x name) c) c,
      )
      else if is_word "mykeys" word
      then (true, show_my_keys x c)
      else if is_word "server" word
      then (true, elim args [ [] ↦ show_server x env c | addr ∷ more ↦ switch_server x addr c ])
      else if is_word "add" word
      then (true, two_arguments (text "usage: add <x25519_hex> <verif_hex>") args (add_keys x) c)
      else if is_word "connect" word
      then (
        true,
        one_argument (text "usage: connect <fingerprint>") args
            (λ who c. with_peer x now who (λ id c. command (connect id) c) c) c,
      )
      else if is_word "msg" word
      then (
        true,
        two_arguments (text "usage: msg <fingerprint> <text>") args
            (λ who t c. with_peer x now who (λ id c. command (send id t) c) c) c,
      )
      else if is_word "purge" word
      then (
        true,
        one_argument (text "usage: purge <peer>") args
            (λ who c. with_peer x now who (purge_peer x) c) c,
      )
      else if is_word "remove" word
      then (
        true,
        one_argument (text "usage: remove <peer>") args
            (λ who c. with_peer x now who (drop_peer x) c) c,
      )
      else if is_word "history" word
      then (
        true,
        one_argument (text "usage: history <fingerprint>") args
            (λ who c. with_peer x now who (show_history x) c) c,
      )
      else if is_word "help" word || is_word "?" word
      then (true, print_all help_lines c)
      else if is_word "quit" word || is_word "exit" word
      then (false, command shutdown c)
      else if is_word "" word
      then (true, c)
      else (true, println (text "unknown command: " ++ (word ++ text " (try `help`)")) c)

  unfoldable pub run_line : Text → Cli D → Bool × Cli D
  run_line line c = elim (splitn 3 32 (trim line)) [
    | [] ↦ (true, c)
    | word ∷ args ↦ run_words word args c
  ]

  -- The loop over the lines of the input.
  unfoldable pub run_lines : List Text → Cli D → Cli D
  run_lines [] c = c
  run_lines (l ∷ ls) c = let (more, c') = run_line l c in if more then run_lines ls c' else c'
