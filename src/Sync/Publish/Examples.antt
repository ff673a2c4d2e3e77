-- ===== src/Sync/Publish/Examples.antt =====
-- A sync that replaces one of two files: `a` moves to a new segment, `b` stays in the parent's.
use goodgrep.Prelude.{
  ℕ, ◌⊎◌, ◌≤◌, ◌≡◌, refl, String, Bool, true, false, List, [], ◌∷◌, Option, some, none, inl,
}
use goodgrep.Prelude.Tests.{◌==◌, string_key, if◌then◌else◌}
use goodgrep.Prelude.Lists.{contains, length}
use goodgrep.Prelude.Maps.{lookup}
use goodgrep.Prelude.Results.{ok, unwrap_or}
use goodgrep.Snapshot.Manifest.{SnapshotManifest, segment_rows, tombstone_count}
use goodgrep.Snapshot.View.{
  SnapshotView, from_manifest, load_tombstones, load_lines, Store, live, of_path,
}
use goodgrep.Sync.Publish.{
  Parent, Staged, TombstoneEntry, Caps, RunInfo, tombstone_keys, or_empty, next_index,
  next_segments, next_tombstones, next_manifest, over, parent_id,
}
use goodgrep.Snapshot.Manager.{SegmentMetadata, TombstoneArtifact}
use goodgrep.Sync.Publish.Index.{next_index-lookup}
use goodgrep.Sync.Publish.Visible.{next_manifest-live}
use goodgrep.Snapshot.Manager.{
  SnapshotManager, Artifacts, verify_manifest, verify_segments, verify_tombstones,
}
use goodgrep.Sync.Publish.Verifies.{next_manifest-verified}
use goodgrep.Sync.Publish.Within.{next_manifest-caps}

abbrev parent : Parent
parent = record {
  manifest = record {
    schema_version = 1;
    chunk_row_schema_version = 1;
    snapshot_id = "s0";
    parent_snapshot_id = none;
    created_at = "2026-01-01T00:00:00Z";
    canonical_root = "/repo";
    store_id = "store";
    config_fingerprint = "c";
    ignore_fingerprint = "i";
    lease_epoch = 1;
    git = record { head_sha = none; dirty = false; untracked_included = true };
    segments =
        record {
          kind = "delta";
          ref_type = "lancedb_table";
          table = "seg_s0";
          rows = 2;
          size_bytes = 20;
          sha256 = "x";
        }
        ∷ [];
    tombstones = [];
    counts = record { files_indexed = 2; chunks_indexed = 2; tombstones_added = 0 };
    degraded = false;
    errors = [];
  };
  index = some (("a", "seg_s0") ∷ ("b", "seg_s0") ∷ []);
}

abbrev staged : Staged
staged = record {
  snapshot_id = "s1";
  segment_table = "seg_s1";
  tombstones = record { path_key = "a"; reason = "replace" } ∷ [];
  indexed = 1;
  indexed_paths = "a" ∷ [];
  meta_paths = "a" ∷ "b" ∷ [];
  degraded_errors = [];
}

abbrev to_line : TombstoneEntry → String
to_line t = t.path_key

abbrev read : String → Option (List String)
read path = if path == "snapshots/s1/tombstones.jsonl" then some ("a" ∷ []) else none

abbrev is_blank : String → Bool
is_blank line = false

abbrev caps : Caps
caps = record {
  max_segments_per_snapshot = 64;
  max_total_segments_referenced = 0;
  max_tombstones_per_snapshot = 100;
}

abbrev run : RunInfo
run = record {
  created_at = "2026-01-02T00:00:00Z";
  canonical_root = "/repo";
  store_id = "store";
  config_fingerprint = "c";
  ignore_fingerprint = "i";
  lease_epoch = 2;
  git = record { head_sha = none; dirty = false; untracked_included = true };
}

abbrev metadata : SegmentMetadata
metadata = record { rows = 1; size_bytes = 10; sha256 = "y" }

abbrev artifact : TombstoneArtifact
artifact = record { size_bytes = 5; sha256 = "z"; count = 1 }

abbrev path : String
path = "snapshots/s1/tombstones.jsonl"

abbrev next : SnapshotManifest
next =
    unwrap_or (next_manifest caps run false (some parent) staged metadata path artifact)
      parent.manifest

abbrev empty_view : SnapshotView
empty_view = record {
  snapshot_id = "";
  manifest = parent.manifest;
  tombstones = [];
  segment_tables = [];
  segment_index = [];
}

abbrev before : SnapshotView
before =
    unwrap_or (from_manifest read is_blank some parent.manifest (or_empty parent.index)) empty_view

abbrev after : SnapshotView
after =
    unwrap_or (from_manifest read is_blank some next (next_index (some parent) staged)) empty_view

abbrev store : Store ℕ
store t =
    if t == "seg_s0"
    then record { path_key = "a"; chunk = 1 } ∷ record { path_key = "b"; chunk = 2 } ∷ []
    else record { path_key = "a"; chunk = 3 } ∷ []

next_manifest-live_example : of_path "a" (live after store) ≡ (
    if contains staged.indexed_paths "a"
    then of_path "a" (store staged.segment_table)
    else if contains (tombstone_keys staged.tombstones) "a"
    then []
    else of_path "a" (live before store))
unfolding next_manifest next_segments next_tombstones next_index over from_manifest load_tombstones
    load_lines parent_id
next_manifest-live_example =
    next_manifest-live read is_blank some to_line (λ t. (refl, refl)) caps run false parent staged
      metadata path artifact next before after refl refl refl refl store "a" refl refl (inl refl)
      (inl refl)

next_index-lookup_example : lookup "b" (next_index (some parent) staged) ≡ (
    if contains staged.indexed_paths "b"
    then some staged.segment_table
    else if contains (tombstone_keys staged.tombstones) "b"
    then none
    else lookup "b" (or_empty parent.index))
next_index-lookup_example = next_index-lookup parent staged "b" refl

next_manifest-caps_example :
    ((caps.max_segments_per_snapshot ≡ 0) ⊎ (length next.segments ≤ caps.max_segments_per_snapshot))
    × ((caps.max_total_segments_referenced ≡ 0)
        ⊎ (length next.segments ≤ caps.max_total_segments_referenced))
    × ((caps.max_tombstones_per_snapshot ≡ 0)
        ⊎ (tombstone_count next.tombstones ≤ caps.max_tombstones_per_snapshot))
    × (next.counts.chunks_indexed ≡ segment_rows next.segments)
    × (next.counts.tombstones_added ≡ tombstone_count next.tombstones)
    × ((next.errors ≡ []) ⊎ ((next.degraded ≡ true) × (false ≡ true)))
unfolding next_manifest next_segments next_tombstones over parent_id
next_manifest-caps_example =
    next_manifest-caps caps run false (some parent) staged metadata path artifact next refl

abbrev manager : SnapshotManager
manager = record { store_id = "store"; config_fingerprint = "c"; ignore_fingerprint = "i" }

abbrev artifacts : Artifacts
artifacts = record {
  segment_metadata = λ table.
      if table == "seg_s1"
      then some metadata
      else some (record { rows = 2; size_bytes = 20; sha256 = "x" });
  tombstone_artifact = λ file. some artifact;
}

next_manifest-verified_example : verify_manifest manager artifacts next ≡ ok tt
unfolding verify_manifest verify_segments verify_tombstones next_manifest next_segments
    next_tombstones over parent_id
next_manifest-verified_example =
    next_manifest-verified manager artifacts caps run false parent staged metadata path artifact
      next refl refl refl refl refl refl refl
