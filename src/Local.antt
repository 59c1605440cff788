-- ===== src/Local.antt =====
-- crates/storage/src/local.rs: the single-file backend. `Format` is the file and its frames,
-- `State` the fields of `Inner` and recovery, `Ops` the methods of the backend.
pub mod Format
pub mod State
pub mod Ops
pub mod Reading
pub mod Payload
pub mod Journal
pub mod Durable
pub mod Recovery
pub mod Crash
pub mod Pages
pub mod WalScan
pub mod Fence
mod Runs
