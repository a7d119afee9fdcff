-- ===== src/Lib.antt =====
-- A model of focl, a BGP speaker with an archive of what it sees, and theorems about it.
--
-- The program. `focld` loads a configuration (src/config/mod.rs), starts one task for each peer
-- (src/bgp/mod.rs) and an archive (src/archive). A peer's task connects, exchanges OPEN and
-- KEEPALIVE, announces the configured prefixes and then keeps the session up; it reports its state
-- to a table of peers that the control calls read. The archive writes records into a segment at a
-- temporary path, moves a complete segment to its final path, writes a manifest beside it and
-- queues copies for other destinations in an SQLite table. `focld` answers requests, a line each, on
-- a Unix socket (src/bin/focld.rs, src/control/mod.rs) from the archive and the table of peers;
-- `focl` (src/bin/focl.rs) sends one of them for each of its commands.
--
-- The files.
--   Config            src/config/mod.rs: types, defaults, accessors; Config/Validate: the `validate`
--                     methods and `load`; Config/Valid: what `validate` accepts, as a predicate;
--                     Config/Defaults: the values of the keys that a file leaves out; Config/Bare: files
--                     that say no more than they must.
--   Types             src/types.rs: peer states and events.
--   Net               addresses, with their parsers and printers as the interface NetText.
--   Bgp               src/bgp/mod.rs: messages and the table's data.
--   Bgp/Framing       `write_bgp_message` and `read_bgp_message`; Framing/Frames: their theorems.
--   Bgp/Announce      `build_announce_update`.
--   Bgp/Peers         `BgpService` and the calls on its table; Peers/Laws: what they do to each key;
--                     Peers/Invariant: the table's invariant; Peers/Owned: the tasks.
--   Bgp/Session       `run_session`, the loop of `send_prefix_announcements`, `peer_loop`;
--                     Session/States: the states of a peer as a step relation; Session/Greeting: when
--                     a session is established; Session/Timers: keepalives and the hold timer.
--   Bgp/Auth          src/bgp/auth.rs: the option with the MD5 key, and the calls on sockets.
--   Bgp/Connect       how a session gets its stream; Connect/Signed: when it is signed;
--                     Connect/Turns: the turns of `peer_loop` on such sessions.
--   Archive/Types     src/archive/types.rs.
--   Archive/FilePath  the parts of `std::path` that the layout uses.
--   Archive/Layout    src/archive/layout.rs; Layout/Buckets: what `aligned_epoch` promises;
--                     Layout/Shared: the timestamps that share their paths.
--   Archive/World     files, and calls of the system that may fail; Archive/Triple: rules for what an
--                     action leaves of the files, for every way that calls fail.
--   Archive/Manifest  src/archive/manifest.rs.
--   Archive/Writer    src/archive/writer.rs; Writer/Opened: what `new` gives; Writer/Atomic and
--                     Writer/Complete: what `finalize` leaves, with faults and without.
--   Archive/Queue     src/archive/queue.rs: the SQL statements as functions on the table; Queue/Rows:
--                     the invariant of the table; Queue/Claims: `claim_ready`; Queue/Held: a job in
--                     progress; Queue/Retries: failures and counts.
--   Archive/Replicator src/archive/replicator.rs; Replicator/Settled: what `run_once` leaves of its jobs;
--                     Replicator/Keys: the destinations by key and `enqueue_segment`;
--                     Replicator/Tries and Replicator/Claimed: the tries that are left to the
--                     rows of a queue; Replicator/Rounds: what a round leaves of them;
--                     Replicator/Ends: the loop of `spawn`; Replicator/Copies
--                     and Replicator/Delivered: what a local copy leaves;
--                     Replicator/Replicated: a segment from the queue to its replica;
--                     Replicator/Sound: what every call keeps.
--   Archive/Snapshot  src/archive/snapshot.rs: MRT records; Snapshot/Records: their
--                     data; Snapshot/Dump: what a table dump takes.
--   Archive/Service   src/archive/mod.rs: the fields of the service and the writer of updates;
--                     Service/Rounds: snapshots, `rollover` and `tick`; Service/Reports: `status` and
--                     the other calls that report; Service/Start: `ArchiveService::new`;
--                     Service/Bucket: the bucket that the writer is open at; Service/Steps: rules for
--                     what an action leaves of the fields; Service/Kept: the fields that an action
--                     leaves alone; Service/Ticks: one tick after another; Service/Recorded: the
--                     updates of a bucket; Service/Rotated, Service/Groups and
--                     Service/Archived: those of several; Service/Overtaken: an update
--                     among other calls;
--                     Service/Calm and Service/Stored: what a snapshot leaves on
--                     the files; Service/Disabled: the calls on an archive that is disabled;
--                     Service/Background: the two tasks; Service/Always: rules for what every
--                     call keeps; Service/Invariant, Service/Calls and Service/Started: the
--                     service's invariant, its calls and its start.
--   Control           src/control/mod.rs and the messages of src/types.rs; Control/Rendered:
--                     the JSON values of the responses; Control/Daemon: the
--                     answer of src/bin/focld.rs to each command; Control/Connection: its
--                     `handle_client`; Control/Boot: its `main` up to the
--                     accept loop; Control/Serving: that loop and the end of `main`;
--                     Control/Client: src/bin/focl.rs;
--                     Control/Queries: the commands that report; Control/Answers and
--                     Control/Ordered: which response belongs to which line; Control/Complete: the
--                     connections that are served to their end; Control/Told,
--                     Control/Executed and Control/Served: the command line against the daemon; Control/Steps and Control/Reached: the
--                     steps of a daemon, and what holds after any number of them.
--   Base              Booleans, lists, texts, integers, results and association lists.
--   Tests             runs on concrete data.
--
-- How it is modelled. A struct is a record, an enum a data type, a `Result` of anyhow its value or its
-- message. A number is a natural number or an integer; where the code wraps or saturates, so does the
-- model (`wrap_i64`, `next_attempt`, the count of `write_record`). A `HashMap` is an association
-- list, a connection the bytes still to come. A session runs against a script: the results of its
-- reads and writes and the readings of the clocks, a turn of the loop at a time, so every theorem on
-- it holds for every behaviour of the peer, the network and the clock. The archive acts on a world of
-- files in which the n-th call of the system fails or not by an arbitrary schedule, so a theorem on
-- it holds for a failure at every point; a call that fails changes nothing, and a rename is one
-- step. A copy is written byte by byte, so a failure may leave any part of it. What a compressor has written to the temporary file before `finish` is left out: that file is
-- empty until then. The loops run by recursion on the list that they go through; only the hash loop
-- (`feed`) has fuel, the length of the file and one, of which it uses at most one for each byte and
-- one for the end.
--
-- The tasks that turn for ever, `spawn`, `spawn_background_tasks` and the daemon itself, run for any
-- finite number of turns, in any order, each with its own clock and failures; a turn, and the answer
-- to a line, runs to its end before the next one starts (but see Service/Overtaken).
--
-- A connection of the control socket runs against the lines that it reads and the writes that fail;
-- what other connections and tasks do to the daemon between two lines is an arbitrary function. Once
-- `main` was told to stop, the connection may be dropped as it waits for a line or in the middle of a
-- response. How a
-- peer is connected to is the list of the calls on sockets that are made.
--
-- Arguments, since they are library code: bgpkit-parser's encoders and parsers (Codec, Mrt), the
-- address parsers (NetText), chrono's calendar, the compressor, SHA-256 and the JSON printer
-- (Archive.Manifest.Library), the TOML parser and the file reader of `load`, what the replicator
-- uses (Archive.Replicator.Outside): the manifest's parser, the upload to a bucket, the clock, and
-- which call of the database fails; the readers and writers that serde derives for the control
-- messages (Control.Daemon.Desk, Control.Client.Link), with the socket and the process of `focl`;
-- and the system's sockets (Bgp.Auth.Os).
--
-- Not modelled: the waits between the turns of `Replicator::spawn` and `spawn_background_tasks`, the
-- logging and the arrival of signals in src/bin/focld.rs, the parsing of arguments and the printing
-- of src/bin/focl.rs, the getters of the event channel, and the stub of src/bgp/auth.rs for other
-- systems than Linux.
pub mod Base
pub mod Net
pub mod Types
pub mod Config
pub mod Archive
pub mod Bgp
pub mod Control
pub mod Tests
