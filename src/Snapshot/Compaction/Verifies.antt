-- ===== src/Snapshot/Compaction/Verifies.antt =====
-- What a compaction publishes is what the snapshot manager accepts.
use goodgrep.Prelude.{◌≡◌, refl, String, some, arith, inl, inr}
use goodgrep.Prelude.Tests.{ltb, if◌then◌else◌, Bool-cases}
use goodgrep.Prelude.Lists.{All}
use goodgrep.Prelude.Results.{ok}
use goodgrep.Snapshot.Manifest.{SnapshotManifest, segment_rows}
use goodgrep.Snapshot.Manager.{SnapshotManager, Artifacts, verify_manifest}
use goodgrep.Snapshot.Manager.Verified.{SegmentIntact, verify_manifest_iff}
use goodgrep.Snapshot.Compaction.{
  CompactionRun, CompactionBuild, compacted_segments, compacted_manifest,
}

module _ {A : Type 0} where
  compacted_segments-Intact :
      (arts : Artifacts) (run : CompactionRun) (build : CompactionBuild A)
      → arts.segment_metadata run.table_name
        ≡ some (record { rows = run.rows; size_bytes = run.size_bytes; sha256 = run.sha256 })
      → (All (SegmentIntact arts) (compacted_segments run build))
        × ((if ltb 0 build.rows_after then run.rows else build.rows_after)
            ≡ segment_rows (compacted_segments run build))
  unfolding compacted_segments
  compacted_segments-Intact arts run build found = elim (Bool-cases (ltb 0 build.rows_after)) [
    | inl filled ↦ (rw filled (found, tt), ground (arith, filled))
    | inr empty ↦ (rw empty tt, ground (arith, empty))
  ]

  -- If the base manifest verifies and the new table is as it was measured, then the compacted manifest
  -- verifies, so publishing does not reject it.
  pub compacted_manifest-verified :
      (mgr : SnapshotManager) (arts : Artifacts) (run : CompactionRun) (base_snapshot_id : String)
      (base : SnapshotManifest) (build : CompactionBuild A)
      → verify_manifest mgr arts base ≡ ok tt
      → arts.segment_metadata run.table_name
        ≡ some (record { rows = run.rows; size_bytes = run.size_bytes; sha256 = run.sha256 })
      → verify_manifest mgr arts (compacted_manifest run base_snapshot_id base build) ≡ ok tt
  unfolding compacted_manifest
  compacted_manifest-verified mgr arts run id base build valid found =
      let (v, r, st, c, i, rows, count, segs, tombs) =
        (verify_manifest_iff mgr arts base).0 valid in
      let (intact, counted) = compacted_segments-Intact arts run build found in
      (verify_manifest_iff mgr arts (compacted_manifest run id base build)).1
        (v, r, st, c, i, counted, refl, intact, tt)
