-- ===== src/Snapshot/Compaction.antt =====
-- Tools/ggrep/src/snapshot/compaction.rs: the rows of a snapshot's segments merged into one segment.
-- `scan` gives a table as its record batches; `kept` and `rows_after` are `usize` and `u64`.
pub mod Build
pub mod Keeps
pub mod Attempts
pub mod Verifies
pub mod Examples
use goodgrep.Prelude.{
  ℕ, zero, suc, ◌+◌, ◌<◌, min, String, Bool, true, false, not, ◌&&◌, ◌||◌, List, [], ◌∷◌, ◌++◌, map,
  Option, none, some,
}
use goodgrep.Prelude.Tests.{Key, ltb, leb, ◌==◌, nat_key, string_key, if◌then◌else◌}
use goodgrep.Prelude.Lists.{length, contains}
use goodgrep.Prelude.Maps.{add, insert_all}
use goodgrep.Prelude.Results.{Result, ok, err, ◌>>=◌}
use goodgrep.Snapshot.Manifest.{
  SnapshotGitInfo, SnapshotSegmentRef, SnapshotTombstoneRef, SnapshotError, SnapshotManifest,
  segment_rows, tombstone_count,
}
use goodgrep.Snapshot.View.{Row, ViewError, load_tombstones}

pub record CompactionConfig : Type 0 where
  pub compaction_overdue_segments : ℕ
  pub compaction_overdue_tombstones : ℕ

pub compaction_overdue : CompactionConfig → SnapshotManifest → Bool
compaction_overdue cfg manifest =
    (ltb 0 cfg.compaction_overdue_segments
      && leb cfg.compaction_overdue_segments (length manifest.segments))
    || (ltb 0 cfg.compaction_overdue_tombstones
        && leb cfg.compaction_overdue_tombstones (tombstone_count manifest.tombstones))

abbrev pub u64_max : ℕ
u64_max = 18446744073709551615

abbrev pub saturating_add : ℕ → ℕ → ℕ
saturating_add a b = min (a + b) u64_max

-- The batch that was kept, its length, and the set of path keys so far.
pub record Filtered (A : Type 0) : Type 0 where
  pub batch : List (Row A)
  pub kept : ℕ
  pub path_keys : List String

-- `CompactionBuild`, with the rows appended to its table.
pub record CompactionBuild (A : Type 0) : Type 0 where
  pub rows : List (Row A)
  pub rows_after : ℕ
  pub path_keys : List String

module _ {A : Type 0} where
  pub filter_batch : List String → List (Row A) → List String → Filtered A
  filter_batch tombstones [] path_keys = record { batch = []; kept = 0; path_keys = path_keys }
  filter_batch tombstones (row ∷ batch) path_keys = elim (contains tombstones row.path_key) [
    | true ↦ filter_batch tombstones batch path_keys
    | false ↦
        let rest = filter_batch tombstones batch (add row.path_key path_keys) in
        record { batch = row ∷ rest.batch; kept = suc rest.kept; path_keys = rest.path_keys }
  ]

  pub append_batch : List String → List (Row A) → CompactionBuild A → CompactionBuild A
  append_batch tombstones batch build =
      let f = filter_batch tombstones batch build.path_keys in
      if f.kept == 0
      then record { rows = build.rows; rows_after = build.rows_after; path_keys = f.path_keys }
      else record {
        rows = build.rows ++ f.batch;
        rows_after = saturating_add build.rows_after f.kept;
        path_keys = f.path_keys;
      }

  pub append_batches : List String → List (List (Row A)) → CompactionBuild A → CompactionBuild A
  append_batches tombstones [] build = build
  append_batches tombstones (batch ∷ batches) build =
      append_batches tombstones batches (append_batch tombstones batch build)

  pub append_segments :
      (String → List (List (Row A)))
      → List String
      → List SnapshotSegmentRef
      → CompactionBuild A
      → CompactionBuild A
  append_segments scan tombstones [] build = build
  append_segments scan tombstones (segment ∷ segments) build =
      append_segments scan tombstones segments
        (append_batches tombstones (scan segment.table) build)

  pub build_compaction_segment :
      (String → List (List (Row A))) → SnapshotManifest → List String → CompactionBuild A
  build_compaction_segment scan base_manifest tombstones =
      append_segments scan tombstones base_manifest.segments
        (record { rows = []; rows_after = 0; path_keys = [] })

-- What a compaction takes from outside: its ids, the clock, its lease, and the metadata of its table.
pub record CompactionRun : Type 0 where
  pub snapshot_id : String
  pub table_name : String
  pub created_at : String
  pub lease_epoch : ℕ
  pub rows : ℕ
  pub size_bytes : ℕ
  pub sha256 : String

module _ {A : Type 0} where
  pub compacted_segments : CompactionRun → CompactionBuild A → List SnapshotSegmentRef
  compacted_segments run build =
      if ltb 0 build.rows_after
      then record {
        kind = "compacted";
        ref_type = "lancedb_table";
        table = run.table_name;
        rows = run.rows;
        size_bytes = run.size_bytes;
        sha256 = run.sha256;
      }
        ∷ []
      else []

  -- The segment file index, or none where the file is not written.
  abbrev pub compacted_index : CompactionRun → CompactionBuild A → Option (List (String × String))
  compacted_index run build = elim build.path_keys [
    | [] ↦ none
    | _ ↦
        if ltb 0 build.rows_after then some (insert_all build.path_keys run.table_name []) else none
  ]

  pub compacted_manifest :
      CompactionRun → String → SnapshotManifest → CompactionBuild A → SnapshotManifest
  compacted_manifest run base_snapshot_id base build = record {
    schema_version = base.schema_version;
    chunk_row_schema_version = base.chunk_row_schema_version;
    snapshot_id = run.snapshot_id;
    parent_snapshot_id = some base_snapshot_id;
    created_at = run.created_at;
    canonical_root = base.canonical_root;
    store_id = base.store_id;
    config_fingerprint = base.config_fingerprint;
    ignore_fingerprint = base.ignore_fingerprint;
    lease_epoch = run.lease_epoch;
    git = base.git;
    segments = compacted_segments run build;
    tombstones = [];
    counts = record {
      files_indexed = length build.path_keys;
      chunks_indexed = if ltb 0 build.rows_after then run.rows else build.rows_after;
      tombstones_added = 0;
    };
    degraded = base.degraded;
    errors = base.errors;
  }
