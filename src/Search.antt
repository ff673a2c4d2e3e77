-- ===== src/Search.antt =====
-- Tools/ggrep/src/search: what a query does with the rows that the store returns.
pub mod Profile
pub mod Snippets
