-- ===== src/Lib.antt =====
-- LCAP, the Lustre changelogs aggregator and publisher, as functions, with the theorems that make it
-- correct.
--
-- lcapd runs one changelog reader for each MDT. A reader takes records from Lustre into an ordered
-- list of buckets, hands whole buckets to clients that ask with DEQUEUE, and acknowledges a bucket
-- to Lustre when it was cleared. Clients and readers talk through a broker, over ZeroMQ sockets. The
-- client library hides this behind the calls of liblustreapi.
--
-- What models what:
--   Wire      src/include/lcap_idl.h: opcodes, packed messages and their bytes
--   Net       src/lcapnet/lcap_net.c: frames put together into requests, and the receive loop. The
--             proofs are in Assembly, Messages (a series of messages) and Rounds (the fuel).
--   Rpc       src/lcapd/rpc_utils.c: peer_rpc_send and ack_retcode
--   Config    src/lcapd/config.c and struct lcap_cfg: Text the words of a line, Lines the handlers of
--             the directives, File the switches, the file and the whole load. Statements says what a
--             file means without the parser, and the proofs are in Roundtrip, Bounds and Faults.
--   Log       src/common/lcap_log.c and src/include/lcap_log.h: the loggers and the level, with the
--             proof in Filter
--   Reader    src/lcapd/reader.c. State has the structs, Buckets and Clients the operations on the
--             two lists, Handlers one function for each request handler with the dispatch of
--             changelog_reader_rpc_hdl, Ingest changelog_reader_enqueue, and Main the start, the
--             SIGNAL and the main loop. The proofs are in Invariant (what holds between two calls),
--             Safety (no fault), Intake (no record lost), Answers (one message for each request),
--             Registry (START and FINI), Delivery (DEQUEUE), Clear (CLEAR), Main/Start and
--             Main/Rounds.
--   Queue     src/include/queue.h: the linked list in memory. Edits and Insert have the proof of each
--             operation, Scripts of any sequence of them, and Walk of list_foreach_entry and of
--             what the reader's model takes a list for.
--   Broker    src/lcapd/broker.c: the table of readers and the routing, the proofs in Routing,
--             Table and Joining
--   Client    src/client/px_client.c: the cache of records and each call, the proofs in Batch, Taking,
--             Receive, Cache and Calls
--   Daemon    src/lcapd/lcapd.c: the start, with the proof in Start; Main has the loop of the broker,
--             the end of the readers and main, with the proof in Life, and Signals the thread of
--             the signals
--   Facade    src/client/client.c, src/include/lcap_client.h and src/client/lu_client.c: the calls of a
--             program and the two backends
--   Tool      src/tools/lcap.c: main. Proxy is its backend on lcapd, and the proofs are in Cached
--             (one batch), Batches (the loop) and Main, and in Direct for liblustreapi.
--   Modules   src/lcapd/modules.c: loading and unloading a module, with the proof in Life
--   EndToEnd  a program, the broker and a reader together, with the sockets between them;
--             the proof is in Batch
--   Sys       what none of these files implements: a World answers the calls of the C library, of
--             ZeroMQ and of liblustreapi by the number of the call, and Io records what was done.
--             Sys/Run has commands on a state: a fault is undefined behaviour or a failed assertion.
--   Base      lists, integers and tests that the others share
--   Tests     concrete runs, and the theorems at concrete inputs
--
-- A function keeps the name of the C function; the parts of one C function that are functions of
-- their own here stand beside it. A pointer to a bucket is the bucket's number, which is never used
-- twice, and to follow one whose bucket is not in the list is a fault. Messages are lists of bytes,
-- identities are lists of bytes, errno values are the numbers of Linux. lrb_rec_count and lr_body_len
-- are the lengths of the lists that they count. Sizes and counters are unbounded, but for re_srec,
-- which wraps at 64 bits, and for the fields of messages.
--
-- The rounds of a reader's main loop are a list, with what comes in in each. Other loops take
-- fuel. lcap_rpc_recv gets one round more than there are frames to read, and each round reads one.
-- What comes in ends where no more is given: a receive of a reader then fails with EAGAIN, and one of
-- the broker, whose flags lack ZMQ_DONTWAIT, waits, so that a result there is of a call under way. The
-- loop of CLEAR gets a round for each bucket of the list: each round but the last frees one, so that
-- with none left any pointer it can follow dangles.
--
-- A configuration is the text of a file; what getopt, strdup and errno give comes in from outside, and
-- a number that is no int is a fault, as is the use of bytes that nothing has written. The reader and
-- the broker read the configuration in a form of its own, where the counts are natural numbers.
--
-- The loop of the tool takes fuel, one round for each record and one for the end of the stream. A
-- call of liblustreapi or of a backend is a field of a record that the caller is given.
--
-- Not modelled: what runs at the same time (threads share no state here but the messages), the
-- texts of log messages and of what the tool prints, and changelog_reader_release with its statistics.
-- The arguments of log messages are left out too, such as the opcode that both dispatchers read for
-- lcap_debug also from a body that is too short to have one; but for the identity that
-- changelog_reader_init prints where it cannot be set, which is a fault.
pub mod Base
pub mod Queue
pub mod Sys
pub mod Log
pub mod Wire
pub mod Net
pub mod Rpc
pub mod Config
pub mod Reader
pub mod Broker
pub mod Client
pub mod Daemon
pub mod Tool
pub mod EndToEnd
pub mod Facade
pub mod Modules
pub mod Tests
