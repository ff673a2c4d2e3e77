-- ===== src/Snapshot/Manifest.antt =====
-- Tools/ggrep/src/snapshot/manifest.rs. Counts are `u64`; their sums are taken not to wrap.
use goodgrep.Prelude.{ℕ, ◌+◌, String, Bool, Option, List, [], ◌∷◌}

pub record SnapshotGitInfo : Type 0 where
  pub head_sha : Option String
  pub dirty : Bool
  pub untracked_included : Bool

pub record SnapshotSegmentRef : Type 0 where
  pub kind : String
  pub ref_type : String
  pub table : String
  pub rows : ℕ
  pub size_bytes : ℕ
  pub sha256 : String

pub record SnapshotTombstoneRef : Type 0 where
  pub ref_type : String
  pub path : String
  pub count : ℕ
  pub size_bytes : ℕ
  pub sha256 : String

pub record SnapshotError : Type 0 where
  pub code : String
  pub message : String
  pub path_key : String

pub record SnapshotCounts : Type 0 where
  pub files_indexed : ℕ
  pub chunks_indexed : ℕ
  pub tombstones_added : ℕ

pub record SnapshotManifest : Type 0 where
  pub schema_version : ℕ
  pub chunk_row_schema_version : ℕ
  pub snapshot_id : String
  pub parent_snapshot_id : Option String
  pub created_at : String
  pub canonical_root : String
  pub store_id : String
  pub config_fingerprint : String
  pub ignore_fingerprint : String
  pub lease_epoch : ℕ
  pub git : SnapshotGitInfo
  pub segments : List SnapshotSegmentRef
  pub tombstones : List SnapshotTombstoneRef
  pub counts : SnapshotCounts
  pub degraded : Bool
  pub errors : List SnapshotError

abbrev pub manifest_schema_version : ℕ
manifest_schema_version = 1

abbrev pub chunk_row_schema_version : ℕ
chunk_row_schema_version = 1

-- `segments.iter().map(|s| s.rows).sum()`
abbrev pub segment_rows : List SnapshotSegmentRef → ℕ
segment_rows [] = 0
segment_rows (s ∷ ss) = s.rows + segment_rows ss

-- `tombstones.iter().map(|t| t.count).sum()`
abbrev pub tombstone_count : List SnapshotTombstoneRef → ℕ
tombstone_count [] = 0
tombstone_count (t ∷ ts) = t.count + tombstone_count ts

-- The tables that a manifest names.
abbrev pub tables : List SnapshotSegmentRef → List String
tables [] = []
tables (s ∷ ss) = s.table ∷ tables ss
