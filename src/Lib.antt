-- ===== src/Lib.antt =====
-- A model of sechat-client, an end-to-end encrypted peer-to-peer chat client in Rust, and proofs
-- about it. The program has five crates: crypto (keys, files at rest, encryption), serverclient
-- (the connection to the relay server), p2p (hole punching and direct or relayed sessions), client
-- (the event loop that joins them, and the command line client) and gui (the graphical client).
--
-- Base holds what the components share: lists, results, byte strings and byte orders, association
-- lists for hash maps, text, and i64 with its wrap-around.
--
-- Crypto models crates/crypto/src/lib.rs. Primitives names the cryptographic crates, the
-- MessagePack codec and sled as parameters, each with a record of the laws that it documents.
-- Types, Derive, Chat, Blob and Keyfile follow the functions of the same names. Disk is the
-- directory ~/.sechat as a value, in which any place may have a fault; Peers and Stored are the
-- peer store and the conversation at rest over it. Every function that draws random bytes takes
-- them as arguments.
--
-- Server models crates/serverclient/src: Structs is structs.rs, Generators is generators.rs,
-- Presence and World in Services are the two statics of lib.rs, Blobs and Handlers are handle_blob,
-- process_blob and handle_message of handlers.rs, Connect is receive_message and
-- server_initial_handshake, on a list of frames that arrive and a number of sends that succeed, and
-- Loops is the tasks that run_client spawns: a turn is one step of one task, and a list of turns is
-- a schedule. A handler returns its result, the new state and the events that it sent.
--
-- P2p models crates/p2p/src/lib.rs: Message (PeerMessage), Fresh (frame_is_fresh), Punch
-- (punch_hole, stun_discover), Handshake (both handshakes) and Session (start_session). What a
-- `select!` yields is a list of inputs, on which each loop is a recursion; so each loop ends, and
-- no fuel is used.
--
-- Client models crates/client/src/lib.rs: Retry (the connect retries, with instants in
-- milliseconds), Aliases (the file of aliases), Commands (handle_command), Events
-- (handle_server_event), Connect (connect_session and the task that receives a session's events),
-- Sessions (the tasks of connect_session beside each other, under a schedule), EventLoop
-- (orchestrate, on a list of what happens; EventLoop/Connecting has the attempt to reach the relay,
-- over a network that says what answers at an address), History (Client::history), Local (queries
-- and addresses), Config (the server's address), Identity (the key file's use), Facade (the handle
-- Client of a user interface) and Relay (the outgoing channel of a session over the relay, and its
-- handshake, which nothing can reach). The client's state is the record ClientState: the files, the
-- statics, the queue to the server, the events for the user interface, the intents and the
-- sessions.
--
-- Cli models crates/client/src/bin/sechat-cli.rs: what a line of input and an event do and print.
-- Gui models crates/gui/src/main.rs: the state of the window and its update on every message; what
-- the toolkit is asked to do is a value.
--
-- Values of i64 are integers with the wrap-around of a release build. Clock readings are arguments;
-- a function that reads the clock more than once may take one argument for several readings that no
-- test compares.
--
-- Not modelled: the sockets, TLS and WebSocket plumbing, the terminal, and the views and styles of
-- the graphical client, which build widgets from the state.
--
-- Tests holds runs on concrete inputs, with simple functions in place of the libraries that obey
-- the same laws.
pub mod Base
pub mod Crypto
pub mod Server
pub mod P2p
pub mod Client
pub mod Cli
pub mod Gui
pub mod Tests
