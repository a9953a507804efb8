-- ===== src/Lib.antt =====
-- A model of backuwup: a server that matches clients who exchange storage, and clients that pack
-- their files into encrypted packfiles and send these to each other.
--
-- The parts, and how they interact:
-- * Shared (shared/src): messages, identifiers, constants.
-- * Server (server/src): a request to an endpoint (Handlers, handlers/*.rs and the routes of main.rs)
--   authenticates with a session of the authentication manager (Auth, client_auth_manager.rs), reads
--   and writes the tables (Database, db.rs and schema.sql), and tells other clients over their
--   WebSocket (Connections, ws.rs). `make_backup_request` hands a storage request to the queue
--   (Matching, backup_request.rs), whose `fulfill` matches it with the requests that wait. Ledger
--   sums the table of negotiated storage up.
-- * Client (client/src): the packfile handler (Packfile/Pack, pack.rs; Packfile/Unpack, unpack.rs)
--   queues, compresses and encrypts blobs, writes them to packfiles and reads them back; the index
--   (Packfile/Index, blob_index.rs) knows the packfile of each blob, by a binary search
--   (Packfile/Search). A directory tree becomes one blob or a chain of them (Trees: dir_packer.rs,
--   dir_unpacker.rs). Defaults holds constants (defaults.rs, packfile/mod.rs). Files are exchanged
--   with other clients over numbered and signed messages (Net/Transport, Net/Stream: transport.rs,
--   receive.rs and handle_connections.rs of net_p2p) after a request that was made before
--   (Net/Requests, p2p_connection_manager.rs) and a connection (Net/Connections,
--   handle_connections.rs), and a peer's files are stored obfuscated
--   (Net/Obfuscation, net_p2p/mod.rs) and within its quota (Net/Received, received_files_writer.rs;
--   Peers, config/peers.rs). The tables of a client are one state with its transactions (Config; Peers,
--   Tables/Listing: config/peers.rs; Tables/Settings: config/identity.rs, config/backup.rs; Tables/Log:
--   config/log.rs).
-- * A backup (client/src/backup): its shared state (Backup/Orchestrator, backup_orchestrator.rs), the
--   packing tasks that pause for the sending one (Backup/Pausing, block_if_paused of backup/mod.rs),
--   and of send.rs the files that are sent (Backup/Sending), the connections and the storage requests
--   (Backup/Connecting) and a round of the loop (Backup/Loop). A restore: its state and the starts of
--   both (Restore/Orchestrator, Restore/Starts: restore_orchestrator.rs, backup/mod.rs), what a peer
--   sends back (Restore/Send, restore_send.rs), and the client that takes it (Restore/Receiving,
--   net_p2p/restore_files_writer.rs).
-- * A client's requests to the server (Api, net_server/requests.rs and the login of identity.rs), its
--   WebSocket (Api/Socket, net_server/mod.rs), and setting its secret up (Identity, identity.rs).
-- * DelayMap is the interface of the crate delay_map, Prelude the notation and the lemmas that all use.
--
-- State is passed explicitly: a method is a function from its arguments and the state to its result
-- and the state after it, and an error keeps what was written before it. A database statement, a file
-- operation and a random number can each fail: the state holds what the coming ones do. A handler
-- runs with no other handler between its steps.
--
-- Code of other crates is a parameter with its documented behaviour as laws: the queue with
-- expiration (SumQueue), HashMapDelay (DelayMap), Ed25519 (Crypto), the sockets and JSON (Wire),
-- AES-GCM, key derivation, zstd and bincode (Suite), for messages bincode and Ed25519 (Codec), for
-- trees bincode and BLAKE3 (TreeCodec). Byte arrays of a fixed size are the numbers that their bytes
-- spell.
--
-- Loops: `fulfill_loop` runs on one more turn than the queue has entries, `write_loop` on one more
-- than there are queued blobs, `search_between` on one more than there are entries; `none` is no
-- result within that many turns. `fetch_full_tree` takes its rounds as an argument: the stored chain
-- is as long as the packer made it. `websocket_connect` takes the number of its rounds likewise.
--
-- A step of the packing tasks is one access to the shared state. `send_turn` is one round of the
-- endless loop of `send`.
--
-- Not modelled: the web interface and the command line, which are input and output; start-up, opening
-- sockets, and the loop that hands on the messages of the server (net_server/mod.rs); deriving keys
-- and mnemonics, which only calls other crates; the walk through the file system, with the chunking
-- of large files; the task that dispatches acknowledgements (net_p2p/transport.rs).
pub mod Prelude
pub mod Shared
pub mod DelayMap
pub mod Server
pub mod Client
