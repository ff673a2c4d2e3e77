-- ===== src/Sync/Publish/Verifies.antt =====
-- What a sync publishes is what the snapshot manager accepts.
use mathlib.Core.Path.{subst}
use goodgrep.Prelude.{◌≡◌, sym, ◌∙◌, String, Bool, Option, some, arith, inl, inr}
use goodgrep.Prelude.Tests.{ltb, Bool-cases}
use goodgrep.Prelude.Lists.{All, All-append, List-cases}
use goodgrep.Prelude.Results.{ok}
use goodgrep.Snapshot.Manifest.{SnapshotManifest, segment_rows, tombstone_count}
use goodgrep.Snapshot.Manager.{
  SnapshotManager, Artifacts, SegmentMetadata, TombstoneArtifact, verify_manifest,
}
use goodgrep.Snapshot.Manager.Verified.{SegmentIntact, TombstonesIntact, verify_manifest_iff}
use goodgrep.Sync.Publish.{
  Parent, Staged, Caps, RunInfo, next_segments, next_tombstones, next_manifest,
}

-- The fields of the next manifest that are verified.
next_manifest_fields :
    (caps : Caps) (run : RunInfo) (allow_degraded : Bool) (parent : Option Parent) (s : Staged)
    (metadata : SegmentMetadata) (path : String) (artifact : TombstoneArtifact)
    (m : SnapshotManifest)
    → next_manifest caps run allow_degraded parent s metadata path artifact ≡ ok m
    → (m.schema_version ≡ 1)
      × (m.chunk_row_schema_version ≡ 1)
      × (m.store_id ≡ run.store_id)
      × (m.config_fingerprint ≡ run.config_fingerprint)
      × (m.ignore_fingerprint ≡ run.ignore_fingerprint)
      × (m.counts.chunks_indexed ≡ segment_rows m.segments)
      × (m.counts.tombstones_added ≡ tombstone_count m.tombstones)
      × (m.segments ≡ next_segments parent s metadata)
      × (m.tombstones ≡ next_tombstones parent s path artifact)
unfolding next_manifest
next_manifest_fields caps run allow parent s metadata path artifact m h = ground arith

next_segments-Intact :
    (arts : Artifacts) (p : Parent) (s : Staged) (metadata : SegmentMetadata)
    → arts.segment_metadata s.segment_table ≡ some metadata
    → All (SegmentIntact arts) p.manifest.segments
    → All (SegmentIntact arts) (next_segments (some p) s metadata)
unfolding next_segments
next_segments-Intact arts p s metadata found old = elim (Bool-cases (ltb 0 s.indexed)) [
  | inl staged ↦ rw staged (All-append (SegmentIntact arts) p.manifest.segments _ old (found, tt))
  | inr empty ↦ rw empty old
]

next_tombstones-Intact :
    (arts : Artifacts) (p : Parent) (s : Staged) (path : String) (artifact : TombstoneArtifact)
    → arts.tombstone_artifact path ≡ some artifact
    → All (TombstonesIntact arts) p.manifest.tombstones
    → All (TombstonesIntact arts) (next_tombstones (some p) s path artifact)
unfolding next_tombstones
next_tombstones-Intact arts p s path artifact found old = elim (List-cases s.tombstones) [
  | inl nothing ↦ rw nothing old
  | inr (t, rest, e) ↦
      rw e (All-append (TombstonesIntact arts) p.manifest.tombstones _ old (found, tt))
]

-- If the parent's manifest verifies, the run has the store and the fingerprints of the manager, and the
-- new segment table and tombstone file are as they were measured, then the next manifest verifies, so
-- publishing does not reject it.
pub next_manifest-verified :
    (mgr : SnapshotManager) (arts : Artifacts) (caps : Caps) (run : RunInfo) (allow_degraded : Bool)
    (p : Parent) (s : Staged) (metadata : SegmentMetadata) (path : String)
    (artifact : TombstoneArtifact) (m : SnapshotManifest)
    → verify_manifest mgr arts p.manifest ≡ ok tt
    → run.store_id ≡ mgr.store_id
    → run.config_fingerprint ≡ mgr.config_fingerprint
    → run.ignore_fingerprint ≡ mgr.ignore_fingerprint
    → arts.segment_metadata s.segment_table ≡ some metadata
    → arts.tombstone_artifact path ≡ some artifact
    → next_manifest caps run allow_degraded (some p) s metadata path artifact ≡ ok m
    → verify_manifest mgr arts m ≡ ok tt
next_manifest-verified mgr arts caps run allow p s metadata path artifact m valid id config ignores
      segment tombstones next =
    let (v, r, st, c, i, rows, count, segs, tombs) =
      next_manifest_fields caps run allow (some p) s metadata path artifact m next in
    let (v₀, r₀, st₀, c₀, i₀, rows₀, count₀, segs₀, tombs₀) =
      (verify_manifest_iff mgr arts p.manifest).0 valid in
    (verify_manifest_iff mgr arts m).1 (
      v,
      r,
      st ∙ id,
      c ∙ config,
      i ∙ ignores,
      rows,
      count,
      subst (All (SegmentIntact arts)) (sym segs)
          (next_segments-Intact arts p s metadata segment segs₀),
      subst (All (TombstonesIntact arts)) (sym tombs)
          (next_tombstones-Intact arts p s path artifact tombstones tombs₀),
    )
