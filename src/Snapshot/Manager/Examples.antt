-- ===== src/Snapshot/Manager/Examples.antt =====
-- A store with one snapshot, and the publication of a second one.
use goodgrep.Prelude.{
  ℕ, ◌≡◌, ◌≢◌, ◌↔◌, refl, String, true, false, List, [], ◌∷◌, Option, none, some,
}
use goodgrep.Prelude.Tests.{leb, ◌==◌, string_key, if◌then◌else◌}
use goodgrep.Prelude.Lists.{length, All}
use goodgrep.Prelude.Maps.{lookup}
use goodgrep.Prelude.Results.{ok, unwrap_or}
use goodgrep.FilePath.Lines.{write_lines}
use goodgrep.Snapshot.Manifest.{SnapshotManifest, segment_rows, tombstone_count}
use goodgrep.Snapshot.Manager.{
  SnapshotManager, Artifacts, Disk, compute_tombstone_artifact, verify_manifest, verify_segments,
  verify_tombstones, open_manifest, publish_manifest, first_valid, candidates, insert_candidate,
}
use goodgrep.Snapshot.Manager.Verified.{
  SegmentIntact, TombstonesIntact, verify_manifest_iff, open_manifest-verified,
}
use goodgrep.Snapshot.Manager.Crash.{publish_manifest-open}
use goodgrep.Snapshot.Manager.Pointer.{
  active_file, read_active_snapshot_id, read_active_snapshot_id-active_file,
}
use goodgrep.Text.{is_whitespace}
use goodgrep.Snapshot.Manager.Lines.{count-compute_tombstone_artifact}

abbrev manager : SnapshotManager
manager = record { store_id = "store"; config_fingerprint = "c"; ignore_fingerprint = "i" }

abbrev artifacts : Artifacts
artifacts = record {
  segment_metadata = λ table. some (record { rows = 2; size_bytes = 20; sha256 = "x" });
  tombstone_artifact = λ path. none;
}

abbrev manifest : String → String → SnapshotManifest
manifest id store_id = record {
  schema_version = 1;
  chunk_row_schema_version = 1;
  snapshot_id = id;
  parent_snapshot_id = none;
  created_at = id;
  canonical_root = "/repo";
  store_id = store_id;
  config_fingerprint = "c";
  ignore_fingerprint = "i";
  lease_epoch = 1;
  git = record { head_sha = none; dirty = false; untracked_included = true };
  segments =
      record {
        kind = "delta";
        ref_type = "lancedb_table";
        table = "seg_s0";
        rows = 2;
        size_bytes = 20;
        sha256 = "x";
      }
      ∷ [];
  tombstones = [];
  counts = record { files_indexed = 1; chunks_indexed = 2; tombstones_added = 0 };
  degraded = false;
  errors = [];
}

abbrev old : SnapshotManifest
old = manifest "s0" "store"

abbrev new : SnapshotManifest
new = manifest "s1" "store"

abbrev disk : Disk
disk = record { active = some "s0"; manifests = ("s0", old) ∷ [] }

abbrev parse : String → Option ℕ
parse created_at = if created_at == "s0" then some 1 else none

false-neq-true : false ≢ true
false-neq-true e = cc e

-- After the manifest is written and before the pointer is swapped.
abbrev stopped : Disk
stopped = unwrap_or (publish_manifest manager artifacts true 1 new disk) disk

other_id : ◌≢◌ {A = String} "s0" "s1"
other_id e = false-neq-true ((string_key.same_iff "s0" "s1").1 e)

publish_manifest-open_example :
    open_manifest parse manager artifacts stopped ≡ ok (if leb 2 1 then new else old)
unfolding verify_manifest verify_segments verify_tombstones lookup publish_manifest
publish_manifest-open_example =
    publish_manifest-open parse manager artifacts true 1 new old "s0" disk stopped refl refl refl
      other_id refl

verify_manifest_iff_example : (verify_manifest manager artifacts old ≡ ok tt) ↔ (
    (old.schema_version ≡ 1)
    × (old.chunk_row_schema_version ≡ 1)
    × (old.store_id ≡ manager.store_id)
    × (old.config_fingerprint ≡ manager.config_fingerprint)
    × (old.ignore_fingerprint ≡ manager.ignore_fingerprint)
    × (old.counts.chunks_indexed ≡ segment_rows old.segments)
    × (old.counts.tombstones_added ≡ tombstone_count old.tombstones)
    × All (SegmentIntact artifacts) old.segments
    × All (TombstonesIntact artifacts) old.tombstones)
verify_manifest_iff_example = verify_manifest_iff manager artifacts old

-- The active manifest is of another store, so an older one is opened.
abbrev foreign : Disk
foreign = record {
  active = some "s1";
  manifests = ("s1", manifest "s1" "elsewhere") ∷ ("s0", old) ∷ [];
}

open_manifest-verified_example : verify_manifest manager artifacts old ≡ ok tt
unfolding verify_manifest verify_segments verify_tombstones lookup open_manifest first_valid
    candidates insert_candidate
open_manifest-verified_example = open_manifest-verified parse manager artifacts foreign old refl

abbrev lines : List (List ℕ)
lines = (97 ∷ []) ∷ (98 ∷ 99 ∷ []) ∷ []

count-compute_tombstone_artifact_example :
    (compute_tombstone_artifact (λ bytes. "x") (write_lines lines)).count ≡ length lines
count-compute_tombstone_artifact_example =
    count-compute_tombstone_artifact (λ bytes. "x") lines ((refl, refl), ((refl, refl), tt))

abbrev id_bytes : List ℕ
id_bytes = 115 ∷ 49 ∷ []

read_active_snapshot_id-active_file_example :
    read_active_snapshot_id {E = String} (ok (active_file id_bytes)) ≡ ok (some id_bytes)
unfolding is_whitespace
read_active_snapshot_id-active_file_example = read_active_snapshot_id-active_file id_bytes refl refl
