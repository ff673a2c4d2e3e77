-- ===== src/Search/Profile.antt =====
-- Tools/ggrep/src/search/profile.rs: how many results of each kind a mode wants, and which results
-- it takes.
pub mod Bucket
pub mod Quotas
pub mod Select
pub mod Examples
