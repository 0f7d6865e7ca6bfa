-- ===== src/Tests/FileRuns.antt =====
-- Runs of the client's own files: the aliases, and the copy of a text that is sent.
use mathlib.Core.Option
use sechat_client.Base.{
  ◌≡◌, refl, true, none, some, [], ◌∷◌, ◌++◌, arith, if◌then◌else◌, replicate, ok, unwrap_or,
}
use sechat_client.Base.Assoc.{lookup}
use sechat_client.Base.Bytes.{Bytes, text, bytes_eq}
use sechat_client.Base.Int.{pos}
use sechat_client.Base.Strings.{is_whitespace, trim_start, trim_end, trim, strip_return}
use sechat_client.Client.Aliases.{print_aliases, set_alias, alias_of}
use sechat_client.Client.Aliases.Setting.{alias_of-set_alias}
use sechat_client.Client.Commands.{Randomness, deliver, handle_send}
use sechat_client.Client.Commands.Copy.{handle_send-Log}
use sechat_client.Client.State.{ClientState}
use sechat_client.Client.Types.{message_arrived}
use sechat_client.Crypto.Derive.{identity_hash, load_storage_key}
use sechat_client.Crypto.Disk.{Disk, chat_of}
use sechat_client.Crypto.Peers.{peer_file, load_peer_data}
use sechat_client.Crypto.Primitives.{last_entry}
use sechat_client.Crypto.Stored.{counter_after, find_counter, insert_message_stored}
use sechat_client.Crypto.Stored.Log.{Log}
use sechat_client.Crypto.Types.{Author, Keys, from_parts}
use sechat_client.Server.Services.{World}
use sechat_client.Tests.Toy.{fit, toy, toy_laws, Tree, toy_sled}
use sechat_client.Tests.Wire.{packed, message_fields, message_of}
use sechat_client.Tests.World.{
  toy_services, toy_services_laws, bob_secret, bob_signing, twelve, keys_of, alice_id, alice,
  bob_disk, bob_world, bob_state,
}

abbrev other_id : Bytes
other_id = replicate 32 7

-- Files with one alias.
abbrev named_disk : Disk Tree
named_disk = record bob_disk { aliases = some (print_aliases toy ((other_id, text "al") ∷ [])) }

alias_of-set_alias_example :
    ((set_alias toy alice_id (text " ann ") named_disk).0 ≡ ok tt)
    × (alias_of toy other_id (set_alias toy alice_id (text " ann ") named_disk).1 ≡ (
        if bytes_eq alice_id other_id
        then some (trim (text " ann "))
        else Option.map strip_return (alias_of toy other_id named_disk)))
unfolding trim text identity_hash toy fit trim_start trim_end is_whitespace
alias_of-set_alias_example =
    alias_of-set_alias toy toy_laws alice_id other_id (text " ann ") named_disk refl refl refl
      (omega arith) (omega arith) (omega arith, (omega arith, (omega arith, tt)))

abbrev pub bob_keys : Keys
bob_keys = keys_of bob_secret bob_signing

abbrev dice : Randomness
dice = record { stored_nonce = twelve; row_nonce = twelve; eph_secret = 1 ∷ []; eph_nonce = twelve }

-- Bob with an empty conversation with Alice, and a session.
abbrev talk_disk : Disk Tree
talk_disk = record bob_disk {
  peers =
      (
        alice_id,
        record { peer_pub = some (peer_file alice.public alice.verifying); chat = some [] },
      )
      ∷ [];
}

abbrev talk_world : World Tree
talk_world = record bob_world { disk = talk_disk }

abbrev pub talking : ClientState Tree
talking = record bob_state {
  world = talk_world;
  sessions = (alice_id, record { serial = 0; accepts = true; outbound = []; relay_in = none }) ∷ [];
}

abbrev pub row_key : Bytes
row_key = unwrap_or (load_storage_key toy alice.public bob_secret) []

abbrev one_row : Tree
one_row =
    unwrap_or
      (insert_message_stored toy (packed message_fields message_of) toy_sled twelve
        (from_parts (text "hi") Author.you (pos 700)) row_key [])
      []

abbrev said : ClientState Tree
said = handle_send toy_services dice (pos 700) bob_keys alice_id (text "hi") talking

pub alice_known : load_peer_data toy talk_disk alice_id ≡ ok alice
unfolding load_peer_data lookup bytes_eq identity_hash toy fit peer_file
alice_known = refl

handle_send-Log_example :
    (chat_of said.world.disk alice_id ≡ some one_row)
    × Log toy
        (packed message_fields message_of)
        row_key
        0
        1
        one_row
        ([] ++ from_parts (text "hi") Author.you (pos 700) ∷ [])
    × (said.app ≡ [] ++ message_arrived alice_id true ∷ [])
unfolding toy_services deliver lookup bytes_eq identity_hash toy fit load_storage_key chat_of
    toy_sled insert_message_stored packed find_counter counter_after last_entry
handle_send-Log_example =
    handle_send-Log toy_services toy_services_laws dice (pos 700) bob_keys alice_id (text "hi")
      talking alice row_key [] one_row 0 [] alice_known refl refl refl refl refl (omega arith)
      (omega arith) refl
