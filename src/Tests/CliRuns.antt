-- ===== src/Tests/CliRuns.antt =====
-- Lines typed at the prompt.
use sechat_client.Base.{
  ◌≤◌, ◌≡◌, refl, ◌⊎◌, true, Option, none, some, List, [], ◌∷◌, ◌++◌, arith, length,
}
use sechat_client.Base.Assoc.{lookup}
use sechat_client.Base.Bytes.{Bytes, text, bytes_eq}
use sechat_client.Base.Int.{pos}
use sechat_client.Base.Strings.{split_once, starts_with, trim, is_empty, splitn}
use sechat_client.Cli.{Cli, println, command}
use sechat_client.Cli.Actions.{no_such_peer, with_peer}
use sechat_client.Cli.Lines.{is_word, two_arguments, run_words, run_line, run_lines}
use sechat_client.Cli.Lines.Queue.{run_line-queue}
use sechat_client.Cli.Lines.Sending.{run_line-msg}
use sechat_client.Client.Aliases.{load_aliases}
use sechat_client.Client.Facade.{start_handle, contacts, resolve_peer}
use sechat_client.Client.Local.{
  find_contact, alias_is, alias_starts, fingerprint_starts, resolve_query,
}
use sechat_client.Client.Types.{Command, send, shutdown}
use sechat_client.Crypto.Peers.{peer_file, load_entry, load_peers}
use sechat_client.Server.Generators.{generate_peer_hash}
use sechat_client.Tests.Toy.{fit, toy, Tree}
use sechat_client.Tests.World.{toy_services, bob_secret, bob_signing, keys_of, alice_id, bob_world}

abbrev bob_cli : Cli Tree
bob_cli = record {
  handle = start_handle toy_services (keys_of bob_secret bob_signing);
  front = record { world = bob_world; commands = [] };
  printed = [];
}

abbrev said : Cli Tree
said =
    run_lines toy_services (pos 600) none
      (text "hello" ∷ text " msg zz hi" ∷ text "quit" ∷ text "peers" ∷ []) bob_cli

said_lines : said.printed ≡ text "unknown command: hello (try `help`)" ∷ text "no such peer" ∷ []
unfolding run_lines run_line splitn split_once trim text run_words bytes_eq two_arguments with_peer
    resolve_peer resolve_query is_empty find_contact contacts load_peers load_entry toy_services
    println command is_word peer_file fit toy load_aliases alias_is alias_starts fingerprint_starts
    lookup starts_with generate_peer_hash
said_lines = refl

abbrev found_peer : Option Bytes
found_peer = (resolve_peer toy_services (pos 600) (text "567") bob_cli.front.world).0

found_alice : found_peer ≡ some alice_id
unfolding resolve_peer resolve_query is_empty trim text find_contact contacts load_peers load_entry
    peer_file toy fit toy_services alias_is lookup load_aliases alias_starts fingerprint_starts
    starts_with generate_peer_hash
found_alice = refl

run_line-msg_example :
    let (more, c') =
      run_line toy_services (pos 600) none (text " msg 567 how are  you? ") bob_cli in
    (more ≡ true)
    × (c'.front.commands
        ≡ [] ++ elim found_peer [ some id ↦ send id (text "how are  you?") ∷ [] | none ↦ [] ])
    × (c'.printed ≡ [] ++ elim found_peer [ some id ↦ [] | none ↦ no_such_peer ∷ [] ])
unfolding text trim
run_line-msg_example =
    run_line-msg toy_services (pos 600) none (text " msg 567 how are  you? ") (text "567")
      (text "how are  you?") bob_cli (omega arith, (omega arith, (omega arith, tt))) refl

run_line-queue_example :
    let (more, c') = run_line toy_services (pos 600) none (text "quit") bob_cli in
    (fresh : List Command) × (c'.front.commands ≡ [] ++ fresh)
    × (length fresh ≤ 1)
    × ((more ≡ true) ⊎ (c'.front.commands ≡ shutdown ∷ []))
run_line-queue_example = run_line-queue toy_services (pos 600) none (text "quit") bob_cli
