-- ===== src/Sync/Publish/Within.antt =====
-- The caps on what a snapshot refers to.
use goodgrep.Prelude.{◌≤◌, ◌≡◌, String, Bool, true, Option, arith, ◌⊎◌, []}
use goodgrep.Prelude.Lists.{length}
use goodgrep.Prelude.Results.{ok}
use goodgrep.Snapshot.Manifest.{SnapshotManifest, segment_rows, tombstone_count}
use goodgrep.Sync.Publish.{Caps, RunInfo, Parent, Staged, next_manifest, over}
use goodgrep.Snapshot.Manager.{SegmentMetadata, TombstoneArtifact}

-- A manifest that is made is within every cap that is not 0, its counts are those of what it refers to,
-- and it records errors only if it is degraded, which the run must allow.
pub next_manifest-caps :
    (caps : Caps) (run : RunInfo) (allow_degraded : Bool) (parent : Option Parent) (s : Staged)
    (metadata : SegmentMetadata) (path : String) (artifact : TombstoneArtifact)
    (m : SnapshotManifest)
    → next_manifest caps run allow_degraded parent s metadata path artifact ≡ ok m
    → ((caps.max_segments_per_snapshot ≡ 0) ⊎ (length m.segments ≤ caps.max_segments_per_snapshot))
      × ((caps.max_total_segments_referenced ≡ 0)
          ⊎ (length m.segments ≤ caps.max_total_segments_referenced))
      × ((caps.max_tombstones_per_snapshot ≡ 0)
          ⊎ (tombstone_count m.tombstones ≤ caps.max_tombstones_per_snapshot))
      × (m.counts.chunks_indexed ≡ segment_rows m.segments)
      × (m.counts.tombstones_added ≡ tombstone_count m.tombstones)
      × ((m.errors ≡ []) ⊎ ((m.degraded ≡ true) × (allow_degraded ≡ true)))
unfolding next_manifest over
next_manifest-caps caps run allow parent s metadata path artifact m h = ground arith
