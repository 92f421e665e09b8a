-- ===== src/Snapshot.antt =====
-- The snapshots of native/src/ar_rdb.c: the file as bytes, what SAVE writes and what the load at the
-- start reads. The host is little-endian, as `wr_f64` takes it to be.
pub mod Format
pub mod Write
pub mod Read
pub mod Save
pub mod Paths
pub mod Numbers
pub mod Replay
pub mod Elements
pub mod Reads
pub mod RoundTrip
pub mod Restarts
pub mod Puts
pub mod Deadlines
pub mod Commands
pub mod Restores
pub mod Kept
pub mod Restarted
pub mod OneList
pub mod Examples
