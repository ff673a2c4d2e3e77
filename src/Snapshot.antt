-- ===== src/Snapshot.antt =====
-- Tools/ggrep/src/snapshot: what a snapshot is, what a query sees of it, and how snapshots are
-- merged and thrown away.
pub mod Manifest
pub mod View
pub mod Compaction
pub mod Gc
pub mod Pins
pub mod Manager
pub mod SegmentIndex
