-- ===== src/Lib.antt =====
-- Twill DB: an embedded SQL engine over replaceable durable storage.
--
-- A storage backend (crates/storage) keeps a write-ahead log, page versions, a writer fence and
-- branches. The engine (crates/engine) keeps row versions in memory, logs the row operations of a
-- transaction through the backend, publishes them at the LSN of the commit marker, and replays
-- them when it opens. The lifecycle controller (crates/controller) opens and stops engines.
--
-- Files:
--   Base and below      tests, lists, bytes and association lists that the other files share, and
--                       Base/Selects, which elements of a list are those with a property.
--   Types               crates/storage/src/types.rs: pages, log entries, tokens, errors.
--   Crc                 crc32_table, crc32 and crc32_pair of crates/storage/src/local.rs, which
--                       crates/storage/src/object/codec.rs repeats.
--   Codec and below     crates/storage/src/object/codec.rs: Codec/Framing has finish and the
--                       Reader, Codec the segments and layers, Codec/RoundTrip and Codec/Inverse
--                       the proofs.
--   Local and below     crates/storage/src/local.rs: Local/Format has the frames and read_log,
--                       Local/State the struct Inner and recover, Local/Ops one function for each
--                       operation of the Storage trait with its file calls. The proofs are in
--                       Reading, Payload, Journal, Durable and Recovery, the results in Crash,
--                       Pages, WalScan and Fence.
--   Object and below    crates/storage/src/object/mod.rs, store.rs and mem.rs: Object/Client has the
--                       interface of the object client and the in-memory one, Object/State the
--                       state behind the lock, Object/Layers the page store, Object/Log the commit
--                       log, Object/Lease the writer's lease, Object/Branches the branch pointers,
--                       Object/Recover the opening of a bucket. The proofs are in Keys, MemLaws,
--                       Synced, Replaying, Reads and Spans, the results in Append, Flush, FlushReads and
--                       Fencing.
--   Mvcc and below      crates/engine/src/store.rs and the write primitives of
--                       crates/engine/src/exec.rs: visibility, conflict check, append, supersede,
--                       commit, rollback, savepoints and the replay of row operations.
--   Group and below     crates/engine/src/group_commit.rs over a storage given by its interface and
--                       the tables of Mvcc: Group has what a thread does under the lock of the
--                       coordinator and the flush of a batch, Group/Interleave the steps of all
--                       threads. The results are in Group/Batch, Group/Stamp, Group/Lead and
--                       Group/Quiet.
--   Wal and below       crates/engine/src/wal.rs with the types that it carries of
--                       crates/engine/src/catalog.rs, value.rs and vector.rs: Wal has the types,
--                       Wal/Encode, Wal/Cursor and Wal/Decode the codec, Wal/Utf8 what makes bytes a
--                       string.
--                       The proofs are in Wal/Parts and Wal/Schemas; Wal/Replay has the grouping of
--                       the log in crates/engine/src/db.rs. The results are in Wal/RoundTrip,
--                       Wal/Older and Wal/Replay.
--   Txn and below       crates/engine/src/conn.rs with the write lane of crates/engine/src/db.rs, over
--                       the rows of Mvcc: Txn has the calls of a connection, Txn/Names the search
--                       for a savepoint, Txn/Statements exec_dml and the steps of many connections.
--                       Txn/Handoff has the proofs about the lane, and Pending, Undone, Sets,
--                       Fitting, Saved, History and Trace those about the rows and the log. The
--                       results are in Txn/Lane, Txn/Recovered and Txn/Return.
--   Lex and below       crates/engine/src/lex.rs: Lex/Bytes has the classes and runs of bytes, Lex the
--                       token functions and the loop, Lex/Spelling the grammar of spellings with
--                       classes of bytes of its own, which Lex/Classes compares with the code's. The
--                       results are in Lex/Spelled and Lex/Total.
--   Like and below      like_match and like_go of crates/engine/src/exec.rs: Like/Meaning says what a
--                       pattern means, Like/Matching has the proofs and the result.
--   Truth and below     the truth and comparison of values in crates/engine/src/value.rs, and NOT, IN,
--                       BETWEEN and the truth tables of crates/engine/src/exec.rs; the result is in
--                       Truth/Listed.
--   Branch and below    crates/storage/src/branch.rs over the trait of crates/storage/src/lib.rs as
--                       an interface: Branch has the operations, Branch/FileStore the file backend
--                       as an instance, Branch/Splice and Branch/Overlay the proofs.
--   Controller and below  crates/controller/src/lib.rs: the phases of an instance as a step
--                       relation on what each thread does under the lock; the proofs are in
--                       Controller/Phases and Controller/Herd.
--
-- Correspondence. A byte is a natural number below 256, a file is its list of bytes, a Reader is
-- what is left of its buffer. Fixed-width integers are naturals; where the code truncates
-- (`as u32` in a length, a CRC) the model truncates, and where a value must fit its field a
-- theorem says so. Counters such as LSNs and epochs are not wrapped at 2^64. A HashMap is an
-- association list, a Result is `Result` with the error's kind and without its text, and a lease's
-- clock is left out. Every operation of the local backend takes the answer of the operating system
-- as an `Io`: done, a failed seek, a write that fails after some bytes, or a failed sync.
--
-- A method of the object-storage backend is an action on its state, the cache of layers and the
-- client, in a monad that stops at the first error. The key of an object is data in place of the
-- text that the key helpers print and parse, the memtable and the merged pages are lists of records
-- in the order of their keys, and the expiry stamp of a lease is an argument. The retries of a
-- conditional write are structural recursion on what is left of `cas_max_retries`.
--
-- Fuel. `scan` reads at most as many frames as the file has bytes; a frame has nine bytes at least,
-- and the proofs show that any fuel that covers the bytes gives the same result.
--
-- The loop of the leader runs over a list of turns, each with the commits that enqueue in it, and a
-- theorem gives how many turns are enough: the members in the queue and the commits that enqueue. A thread that waits in `commit` is one whose step has not come yet.
--
-- A connection works on a database of one table. With several tables the code's savepoints mix the
-- vids of all of them, and what is said of ROLLBACK TO and of a transaction with savepoints is for one
-- table. Its statements are given by the changes that they
-- make of the rows that they find, or by the changes that they have made before they fail. The
-- answer of the group commit comes with each commit, and what Group has as several turns of threads
-- is one step here. A thread that waits for the lane is a session whose step has no effect.
--
-- The loop of the lexer runs on fuel, one for each byte, and a theorem says that it is enough. The
-- matcher of LIKE has as much fuel as the pattern has tokens, with which its theorem is proved.
--
-- Not modelled: DDL and queries of a connection, the file, binding and fault-injecting object
-- clients, the text of object keys and URLs, SQL parsing and evaluation but for the parts above,
-- what a replayed operation does to the catalog, the vector index, the server, the command line,
-- the benchmarks, the clocks and the admission semaphore of the
-- controller, and the file calls of opening that fail.
pub mod Base
pub mod Types
pub mod Crc
pub mod Codec
pub mod Local
pub mod Object
pub mod Mvcc
pub mod Group
pub mod Wal
pub mod Txn
pub mod Lex
pub mod Like
pub mod Truth
pub mod Branch
pub mod Controller
