-- ===== src/Lib.antt =====
-- rdrive: an object storage server and its client, which exchange files over an encrypted channel.
--
-- The parts, and the files that model them. Paths of the program are from the repository's root.
-- - Crypto (src/crypto.rs): encryption of byte strings and into buffers, and signature checks. The ciphers,
--   hashes and signatures are third-party crates: the fields of Crypto.Interface.Primitives, whose
--   documented behaviour is IsLawful. Crypto.Toy has stand-ins that meet it, for the tests.
-- - Wire (src/protocol_v1.rs, the functions on frames): one TCP connection with its input, what a read meets
--   at the end of it, its output, the fate of each write, and the connection's scratch buffer. Wire.Frames has
--   read_frame_length, read_encrypt_data_into, write_encrypt_frame_into and the raw ones.
-- - Header (src/header.rs): the messages and their validation. Their encoding by postcard is a Codec, a
--   parameter.
-- - RateLimit (src/ratelimit.rs): token buckets. Tokens are whole billionths and times whole nanoseconds, where
--   the source computes in f64.
-- - Transfer (src/protocol_v1.rs, the loops of handle_upload, handle_download, upload_client and
--   download_client): send_chunks and receive_chunks. The receiver runs on fuel; fuel of the announced size is
--   enough, since a round that succeeds takes at least one byte.
-- - Locks (src/lib.rs, hold_file_lock and release_file_lock): the map of lock objects and the guards, and the
--   steps of concurrent tasks on them.
-- - Disk: the file system as the program uses it, a table of directories and files with operations that can
--   fail.
-- - Server (src/protocol_v1.rs, the server's handlers; Tracker and MetadataFile of src/lib.rs): one module per
--   handler, over a state of wire, disk, locks, counters and limiter. Server.Handshake has server_handshake,
--   Server.Echo handle_echo_perf, Server.Auth handle_auth_keys, Server.Files handle_upload and
--   handle_download, Server.Connection handle_connection, Server.Reply send_success, send_warn, send_failed
--   and send_status. The settings are a record, Site.
-- - Client (src/protocol_v1.rs, the client's functions; AuthServerMap of src/lib.rs): client_handshake_helper,
--   auth_client, upload_client, download_client and get_server_status.
--   Client.Commands.Journey follows a file from one client's disk over the server to another's, and
--   Client.Commands.Success has what an upload and a download need to succeed.
--   Client.Perf: the loops and reports of client_echo_perf, the first over the list of how its handshakes
--   end, the second over the list of how its round trips end. Client.Perf.Exchange has the messages of the
--   second; the lengths that are drawn for its payloads are a list there, which ends when the time is up, and
--   Client.Perf.Session runs it against handle_echo_perf. Client.Perf.Dialing has the first with the connections
--   that it tries, and both phases.
-- - Server.Accept (src/protocol_v1.rs, start_tcp_server): the counter of connections, over the steps of tasks
--   that come, end and crash.
-- - Server.Files.Slots: the specification of the storage, a place for each file of each client, and what of it a
--   disk holds. Server.Files.Refinement and Server.Files.Rejected relate the handlers to it, Server.Files.Plain has where they lie on the disk, and
--   Server.Connection.History follows one place through the commands of many connections.
-- - Client.Cli (src/bin/client.rs): the client's commands behind the parser of their arguments. What the user
--   types, new ids and the time of day are arguments.
-- - Settings (src/bin/server.rs): update_env and atomic_write. Settings.Environment has the statics of
--   src/lib.rs that read the environment's variables, and the levels of src/log.rs; Settings.Log has log.
-- - Home and FileHash (src/lib.rs): the directories below the home directory, and file_hasher.
-- - Dummy (src/bin/dummy.rs): the generator of test files, its threads in the order in which they run.
-- - Server.Startup (src/bin/server.rs, src/service.rs): the server's key files and its start.
-- - Catalog (src/lib.rs, Catalog): the client's list of its files. Its JSON text is a Codec.
-- - Layer (src/layer.rs): cutting files into layers, joining and comparing them. Its loops run on fuel; the
--   length of the file is enough, since each layer takes at least one byte.
-- Base has the names that all share, Fault the errors, Run the steps on a state that may fail.
--
-- A step ends in a value, in an error, in a panic, or not at all; a timer turns the last into an error. A
-- handler runs from start to end over its own connection; only Locks and Server.Accept interleave tasks. The
-- echo loop runs on fuel; fuel beyond the bytes that the client sends is enough.
--
-- Not modelled: the limiter's two rates (src/lib.rs), which are floats; the parser of the arguments
-- (src/args.rs); signals (src/service.rs) and progress bars, which are input and output only;
-- src/protocol_v2.rs, which is commented out. What a file holds after an upload broke off is not modelled.
-- Text is trimmed of the white space of ASCII only. Disks have no symbolic links and paths are those of Unix.
pub mod Base
pub mod Fault
pub mod Run
pub mod Crypto
pub mod Wire
pub mod RateLimit
pub mod Header
pub mod Transfer
pub mod Locks
pub mod Disk
pub mod Layer
pub mod Catalog
pub mod Settings
pub mod Server
pub mod Client
pub mod Dummy
pub mod FileHash
pub mod Home
