-- ===== src/Object.antt =====
-- crates/storage/src/object: the backend over an object store. Object/Client has the interface of
-- the object client and the in-memory one; Object/State the state of the backend and the calls it
-- makes; Object/Layers the page store; Object/Log the commit log; Object/Lease the writer's lease;
-- Object/Branches the branch pointers; Object/Recover the opening of a bucket. Object/Keys,
-- Object/MemLaws, Object/Synced, Object/Replaying, Object/Reads and Object/Spans have the lemmas, Object/Append,
-- Object/Flush, Object/FlushReads and Object/Fencing the results, Object/Runs the tests.
pub mod Client
pub mod State
pub mod Keys
pub mod Layers
pub mod Log
pub mod Lease
pub mod Branches
pub mod Recover
pub mod MemLaws
pub mod Synced
pub mod Replaying
pub mod Append
pub mod Flush
pub mod Reads
pub mod Spans
pub mod FlushReads
pub mod Fencing
mod Runs
