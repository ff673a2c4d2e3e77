-- ===== src/Lib.antt =====
-- A verification library for ggrep, the semantic code search of this repository (Tools/ggrep). ggrep
-- chunks and embeds the files of a repository, keeps the rows in LanceDB tables, and answers queries
-- from snapshots: a sync stages the rows of changed files in a new segment table, writes tombstones for
-- changed and deleted files, and publishes a manifest over the segments and tombstones of its parent; a
-- query opens a manifest as a view, which hides tombstoned paths unless the segment index names the
-- table of the row; compaction merges the segments of a manifest into one; garbage collection deletes
-- what no retained manifest names; a lease file lets one writer change a store.
--
-- Prelude and its children: numbers, Boolean tests, equality as an instance, lists, maps, results, signed
--   numbers.
-- FilePath: names and extensions of paths, prefixes and suffixes of texts.
-- Types: Tools/ggrep/src/types.rs, the data of results; a score is a parameter.
-- Search/Profile: Tools/ggrep/src/search/profile.rs. Bucket is bucket_for_path, Quotas is
--   quotas_for_mode and allocate, Select is select_for_mode with the loops that it runs; the sets
--   and counts that the loops share are passed on as a Picked.
-- Search/Snippets: apply_snippet_caps and truncate_str_bytes of Tools/ggrep/src/search/mod.rs.
-- Snapshot/Manifest and Snapshot/View: Tools/ggrep/src/snapshot/manifest.rs and view.rs. A store
--   is a function from table names to rows; View.live is what a query may return, by the filter of
--   search_with_mode.
-- Snapshot/Manager: Tools/ggrep/src/snapshot/manager.rs; publishing may stop after any of its two writes.
-- Snapshot/Compaction: Tools/ggrep/src/snapshot/compaction.rs; Attempts is the loop of compact_store.
-- Snapshot/Gc: Tools/ggrep/src/snapshot/gc.rs over a store of directories and tables.
-- Snapshot/SegmentIndex: Tools/ggrep/src/snapshot/segment_index.rs.
-- Snapshot/Pins: Tools/ggrep/src/snapshot/pins.rs.
-- Sync/Publish: the part of initial_sync_with_options in Tools/ggrep/src/sync.rs that makes the next
--   manifest and segment index from what the loop over the files staged.
-- Sync/Files: the loop over the files in initial_sync_with_options, with process_embed_batch and the
--   operations of meta.rs that it calls. The variables of the loop are a SyncState; sync_file is a
--   round, and what the disk gives for a file is part of the file. Tombstones, Absorbed, Retries,
--   Batches, Rounds, Queued, Visited and Staged carry an invariant of one path through it; Tally,
--   Counted and Reported are about its counts.
-- Lease: Tools/ggrep/src/lease.rs. Each operation gives the lease file that it leaves; run is a
--   sequence of operations of any writers. A release has the file that it read and the one it finds.
-- Text: Rust's str as a list of scalar values; Cuts, Counts, Trims, LineText, Feeds, Nested and
--   FirstLine are
--   lemmas on positions, lines and blanks; Decimal is numbers in decimal.
-- Chunker: Tools/ggrep/src/chunker/mod.rs. Chunker has line ranges, splitting by bytes and by
--   windows of lines; Markdown is chunk_markdown; Entry is chunk, with what tree-sitter found as a
--   parameter. A panic is none, and so is a loop that is out of fuel.
-- Embed/Limiter: Tools/ggrep/src/embed/limiter.rs over lock files, in rounds of sweeps. Other
--   processes act before each step of a sweep; Permits and Held say of which slot they must keep what.
--
-- Most loops are structural recursion, on a list or on the number of attempts or rounds that are left.
-- The loops of the chunker have fuel: the length of the text for split_by_chars_impl, of which each
-- round takes a character, and the number of lines for the windows; the theorems give a result, so it
-- is enough. Counts of type u64 and usize are natural numbers; where the source saturates, so does the
-- model, and other sums are taken not to overflow. A u64 that the source casts to i64 is read as a signed
-- number (Prelude/Int), negative from 2^63 on. The JSON of a tombstone line, the blank test of a
-- line and the reading of a file are parameters. The match of the heading
-- expression, what tree-sitter returns, the clock and the live processes are parameters as well.
-- Outside of the model are the walk over syntax trees, change detection, the embedder, LanceDB, the
-- daemon and the command line.
-- The modules named Examples hold tests and instances of the theorems at concrete inputs.
pub mod Prelude
pub mod Types
pub mod FilePath
pub mod Text
pub mod Chunker
pub mod Embed
pub mod Search
pub mod Snapshot
pub mod Sync
pub mod Lease
