-- ===== src/Snapshot/Compaction/Examples.antt =====
-- A snapshot of two files, one of them tombstoned, is compacted.
use goodgrep.Prelude.{
  ℕ, zero, suc, ◌≤◌, ◌≡◌, ◌≢◌, refl, String, Bool, true, false, List, [], ◌∷◌, Option, none, some,
}
use goodgrep.Prelude.Tests.{◌==◌, string_key, if◌then◌else◌}
use goodgrep.Prelude.Lists.{contains}
use goodgrep.Prelude.Results.{ok, err, unwrap_or}
use goodgrep.Snapshot.Manifest.{SnapshotManifest, tables}
use goodgrep.Snapshot.View.{
  SnapshotView, from_manifest, load_tombstones, load_lines, Row, Store, live, of_path,
}
use goodgrep.Snapshot.Compaction.{
  CompactionConfig, CompactionRun, compaction_overdue, build_compaction_segment, compacted_manifest,
}
use goodgrep.Snapshot.Compaction.Build.{
  concat, kept_rows, rows_of, Holds, build_compaction_segment-Holds,
}
use goodgrep.Snapshot.Manager.{
  SnapshotManager, Artifacts, verify_manifest, verify_segments, verify_tombstones,
}
use goodgrep.Snapshot.Compaction.Verifies.{compacted_manifest-verified}
use goodgrep.Snapshot.Compaction.Keeps.{compacted_manifest-live}
use goodgrep.Snapshot.Compaction.Attempts.{
  CompactionOptions, Disk, Published, Performed, publish, compact_manifest, compact_from,
  compact_store, compact_store-Performed, compact_store-not_exhausted, retries_exhausted,
}

abbrev base : SnapshotManifest
base = record {
  schema_version = 1;
  chunk_row_schema_version = 1;
  snapshot_id = "s1";
  parent_snapshot_id = some "s0";
  created_at = "2026-01-02T00:00:00Z";
  canonical_root = "/repo";
  store_id = "store";
  config_fingerprint = "c";
  ignore_fingerprint = "i";
  lease_epoch = 1;
  git = record { head_sha = none; dirty = false; untracked_included = true };
  segments =
      record {
        kind = "delta";
        ref_type = "lancedb_table";
        table = "seg_s0";
        rows = 2;
        size_bytes = 20;
        sha256 = "x";
      }
      ∷ [];
  tombstones =
      record { ref_type = "jsonl"; path = "t"; count = 1; size_bytes = 5; sha256 = "z" } ∷ [];
  counts = record { files_indexed = 1; chunks_indexed = 2; tombstones_added = 1 };
  degraded = false;
  errors = [];
}

abbrev read : String → Option (List String)
read path = if path == "t" then some ("a" ∷ []) else none

abbrev is_blank : String → Bool
is_blank line = false

abbrev scan : String → List (List (Row ℕ))
scan t = (record { path_key = "a"; chunk = 1 } ∷ record { path_key = "b"; chunk = 2 } ∷ []) ∷ []

abbrev run : CompactionRun
run = record {
  snapshot_id = "s2";
  table_name = "seg_s2";
  created_at = "2026-01-03T00:00:00Z";
  lease_epoch = 2;
  rows = 1;
  size_bytes = 10;
  sha256 = "y";
}

abbrev nothing_seen : SnapshotView
nothing_seen = record {
  snapshot_id = "";
  manifest = base;
  tombstones = [];
  segment_tables = [];
  segment_index = [];
}

abbrev before : SnapshotView
before = unwrap_or (from_manifest read is_blank some base []) nothing_seen

abbrev compacted : SnapshotManifest
compacted =
    compacted_manifest run base.snapshot_id base
      (build_compaction_segment scan base before.tombstones)

abbrev after : SnapshotView
after = unwrap_or (from_manifest read is_blank some compacted []) nothing_seen

abbrev store : Store ℕ
store t = (build_compaction_segment scan base before.tombstones).rows

compacted_manifest-live_example : of_path "b" (live after store) ≡ (
    if contains before.tombstones "b" then [] else of_path "b" (live before (λ t. concat (scan t))))
unfolding from_manifest load_tombstones load_lines compacted_manifest
compacted_manifest-live_example =
    compacted_manifest-live read is_blank some run base [] [] before after scan store "b" refl refl
      refl

build_compaction_segment-Holds_example :
    Holds
      (kept_rows ("a" ∷ []) (rows_of scan (tables base.segments)))
      (build_compaction_segment scan base ("a" ∷ []))
build_compaction_segment-Holds_example = build_compaction_segment-Holds scan base ("a" ∷ [])

abbrev config : CompactionConfig
config = record { compaction_overdue_segments = 0; compaction_overdue_tombstones = 1 }

-- Another writer publishes during the first attempt.
abbrev disk : Disk ℕ
disk = record {
  active_before = λ attempt. some "s1";
  active_after = λ attempt. elim attempt [ zero ↦ some "s9" | suc n ↦ some "s1" ];
  load = λ id. some base;
  scan = scan;
  run = λ attempt. run;
}

abbrev options : CompactionOptions
options = record { force = false; max_retries = 1 }

abbrev published : Published
published = publish read is_blank some config disk options 1 "s1" base ("a" ∷ [])

compact_store-Performed_example :
    (i : ℕ) × (i ≤ 1) × Performed read is_blank some config disk options i published
unfolding compact_store compact_from compact_manifest compaction_overdue load_tombstones load_lines
compact_store-Performed_example =
    compact_store-Performed read is_blank some config disk options published refl

compact_store-not_exhausted_example :
    compact_store read is_blank some config disk options ≢ err retries_exhausted
compact_store-not_exhausted_example =
    compact_store-not_exhausted read is_blank some config disk options

abbrev manager : SnapshotManager
manager = record { store_id = "store"; config_fingerprint = "c"; ignore_fingerprint = "i" }

abbrev artifacts : Artifacts
artifacts = record {
  segment_metadata = λ table.
      if table == "seg_s2"
      then some (record { rows = 1; size_bytes = 10; sha256 = "y" })
      else some (record { rows = 2; size_bytes = 20; sha256 = "x" });
  tombstone_artifact = λ file. some (record { size_bytes = 5; sha256 = "z"; count = 1 });
}

compacted_manifest-verified_example :
    verify_manifest manager artifacts
      (compacted_manifest run "s1" base (build_compaction_segment scan base ("a" ∷ [])))
    ≡ ok tt
unfolding verify_manifest verify_segments verify_tombstones
compacted_manifest-verified_example =
    compacted_manifest-verified manager artifacts run "s1" base
      (build_compaction_segment scan base ("a" ∷ [])) refl refl
