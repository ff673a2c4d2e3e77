-- ===== src/Sync.antt =====
-- Tools/ggrep/src/sync.rs: bringing the index up to date with the files.
pub mod Publish
pub mod Files
