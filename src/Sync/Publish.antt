-- ===== src/Sync/Publish.antt =====
-- The end of `initial_sync_with_options`: from what the file loop staged, and from the parent
-- snapshot, to the manifest and the segment file index of the next snapshot.
pub mod Index
pub mod Refines
pub mod Visible
pub mod Within
pub mod Verifies
pub mod Examples
use goodgrep.Prelude.{
  ℕ, ◌+◌, ◌<◌, String, Bool, true, false, not, ◌&&◌, List, [], ◌∷◌, ◌++◌, map, Option, none, some,
}
use goodgrep.Prelude.Tests.{ltb, ◌==◌, nat_key, string_key, if◌then◌else◌}
use goodgrep.Prelude.Lists.{length, is_empty}
use goodgrep.Prelude.Maps.{insert_all, remove_all}
use goodgrep.Prelude.Results.{Result, ok, err, ◌>>=◌, ◌>>◌, fail_if}
use goodgrep.Snapshot.Manager.{SegmentMetadata, TombstoneArtifact}
use goodgrep.Snapshot.Manifest.{
  SnapshotGitInfo, SnapshotSegmentRef, SnapshotTombstoneRef, SnapshotError, SnapshotManifest,
  manifest_schema_version, chunk_row_schema_version, segment_rows, tombstone_count,
}

pub record TombstoneEntry : Type 0 where
  pub path_key : String
  pub reason : String

-- The parent snapshot, loaded and verified. `index` is its `segment_file_index.jsonl`, if that file is there.
pub record Parent : Type 0 where
  pub manifest : SnapshotManifest
  pub index : Option (List (String × String))

-- What the loop over the files left behind. `meta_paths` is `meta_store.all_paths()`.
pub record Staged : Type 0 where
  pub snapshot_id : String
  pub segment_table : String
  pub tombstones : List TombstoneEntry
  pub indexed : ℕ
  pub indexed_paths : List String
  pub meta_paths : List String
  pub degraded_errors : List SnapshotError

pub record Caps : Type 0 where
  pub max_segments_per_snapshot : ℕ
  pub max_total_segments_referenced : ℕ
  pub max_tombstones_per_snapshot : ℕ

pub data PublishError : Type 0 where
  segment_cap_exceeded total_segment_cap_exceeded tombstone_cap_exceeded : PublishError

abbrev pub tombstone_keys : List TombstoneEntry → List String
tombstone_keys [] = []
tombstone_keys (t ∷ ts) = t.path_key ∷ tombstone_keys ts

abbrev pub parent_segments : Option Parent → List SnapshotSegmentRef
parent_segments none = []
parent_segments (some p) = p.manifest.segments

abbrev pub parent_tombstones : Option Parent → List SnapshotTombstoneRef
parent_tombstones none = []
parent_tombstones (some p) = p.manifest.tombstones

abbrev pub or_empty : Option (List (String × String)) → List (String × String)
or_empty none = []
or_empty (some m) = m

abbrev pub parent_index : Option Parent → List (String × String)
parent_index none = []
parent_index (some p) = or_empty p.index

abbrev is_none : Option Parent → Bool
is_none none = true
is_none (some p) = false

pub next_segments : Option Parent → Staged → SegmentMetadata → List SnapshotSegmentRef
next_segments parent s metadata =
    if ltb 0 s.indexed
    then parent_segments parent
      ++ record {
        kind = "delta";
        ref_type = "lancedb_table";
        table = s.segment_table;
        rows = metadata.rows;
        size_bytes = metadata.size_bytes;
        sha256 = metadata.sha256;
      }
        ∷ []
    else parent_segments parent

-- `path` is `snapshots/{snapshot_id}/tombstones.jsonl`.
pub next_tombstones :
    Option Parent → Staged → String → TombstoneArtifact → List SnapshotTombstoneRef
next_tombstones parent s path artifact =
    if is_empty s.tombstones
    then parent_tombstones parent
    else parent_tombstones parent
      ++ record {
        ref_type = "jsonl";
        path = path;
        count = artifact.count;
        size_bytes = artifact.size_bytes;
        sha256 = artifact.sha256;
      }
        ∷ []

pub next_index : Option Parent → Staged → List (String × String)
next_index parent s =
    let kept = remove_all (tombstone_keys s.tombstones) (parent_index parent) in
    if is_empty (parent_index parent) && is_none parent && ltb 0 s.indexed
    then insert_all s.meta_paths s.segment_table []
    else if ltb 0 s.indexed
    then insert_all s.indexed_paths s.segment_table kept
    else kept

-- `cap > 0 && n > cap`
over : ℕ → ℕ → Bool
over cap n = ltb 0 cap && ltb cap n

-- What the manifest takes over from the run: the clock, the repository, the fingerprints, the lease.
pub record RunInfo : Type 0 where
  pub created_at : String
  pub canonical_root : String
  pub store_id : String
  pub config_fingerprint : String
  pub ignore_fingerprint : String
  pub lease_epoch : ℕ
  pub git : SnapshotGitInfo

parent_id : Option Parent → Option String
parent_id none = none
parent_id (some p) = some p.manifest.snapshot_id

pub next_manifest :
    Caps
    → RunInfo
    → Bool
    → Option Parent
    → Staged
    → SegmentMetadata
    → String
    → TombstoneArtifact
    → Result PublishError SnapshotManifest
next_manifest caps run allow_degraded parent s metadata path artifact = do
  let segments = next_segments parent s metadata
  let tombstones = next_tombstones parent s path artifact
  let degraded = allow_degraded && not (is_empty s.degraded_errors)
  fail_if (over caps.max_segments_per_snapshot (length segments)) segment_cap_exceeded
  fail_if (over caps.max_total_segments_referenced (length segments)) total_segment_cap_exceeded
  fail_if (over caps.max_tombstones_per_snapshot (tombstone_count tombstones))
      tombstone_cap_exceeded
  ok (record {
    schema_version = manifest_schema_version;
    chunk_row_schema_version = chunk_row_schema_version;
    snapshot_id = s.snapshot_id;
    parent_snapshot_id = parent_id parent;
    created_at = run.created_at;
    canonical_root = run.canonical_root;
    store_id = run.store_id;
    config_fingerprint = run.config_fingerprint;
    ignore_fingerprint = run.ignore_fingerprint;
    lease_epoch = run.lease_epoch;
    git = run.git;
    segments = segments;
    tombstones = tombstones;
    counts = record {
      files_indexed = length s.meta_paths;
      chunks_indexed = segment_rows segments;
      tombstones_added = tombstone_count tombstones;
    };
    degraded = degraded;
    errors = if degraded then s.degraded_errors else [];
  })
