-- ===== src/Snapshot/Manager.antt =====
-- Tools/ggrep/src/snapshot/manager.rs: which manifest is opened, and how the next one is published. The
-- tables of the store and the checksums of the files are parameters.
pub mod Verified
pub mod Crash
pub mod Lines
pub mod Pointer
pub mod Examples
use goodgrep.Prelude.{
  ℕ, zero, suc, String, Bool, true, false, not, ◌&&◌, ◌||◌, List, [], ◌∷◌, Option, none, some,
}
use goodgrep.Prelude.Tests.{leb, ◌==◌, nat_key, string_key, if◌then◌else◌}
use goodgrep.Prelude.Lists.{length, filter, take, is_empty}
use goodgrep.FilePath.{split}
use goodgrep.Prelude.Maps.{lookup, insert}
use goodgrep.Prelude.Results.{Result, ok, err, ◌>>=◌, ◌>>◌, fail_if, map_err}
use goodgrep.Snapshot.Manifest.{
  SnapshotManifest, SnapshotSegmentRef, SnapshotTombstoneRef, segment_rows, tombstone_count,
  manifest_schema_version, chunk_row_schema_version,
}
use goodgrep.Snapshot.View.{SnapshotView, ViewError, from_manifest}

-- `SegmentMetadata` of the store, and what `compute_tombstone_artifact` returns.
pub record SegmentMetadata : Type 0 where
  pub rows : ℕ
  pub size_bytes : ℕ
  pub sha256 : String

pub record TombstoneArtifact : Type 0 where
  pub size_bytes : ℕ
  pub sha256 : String
  pub count : ℕ

-- `sha256` is the digest in hexadecimal; `bytes` is what the file holds.
pub compute_tombstone_artifact : (List ℕ → String) → List ℕ → TombstoneArtifact
compute_tombstone_artifact sha256 bytes = record {
  size_bytes = length bytes;
  sha256 = sha256 bytes;
  count = length (filter (λ line. not (is_empty line)) (split b'\n' bytes));
}

pub record SnapshotManager : Type 0 where
  pub store_id : String
  pub config_fingerprint : String
  pub ignore_fingerprint : String

-- The tables and the tombstone files, `none` where one cannot be read.
pub record Artifacts : Type 0 where
  pub segment_metadata : String → Option SegmentMetadata
  pub tombstone_artifact : String → Option TombstoneArtifact

-- The pointer to the active snapshot, and the manifests that load, by the directory that they are in.
pub record Disk : Type 0 where
  pub active : Option String
  pub manifests : List (String × SnapshotManifest)

pub data ManagerError : Type 0 where
  unsupported_schema unsupported_row_schema store_mismatch config_mismatch ignore_mismatch :
      ManagerError
  chunk_counts_mismatch tombstone_counts_mismatch manifest_unreadable : ManagerError
  segment_unreadable segment_rows_mismatch segment_checksum_mismatch : String → ManagerError
  tombstones_unreadable tombstone_checksum_mismatch : String → ManagerError
  lease_lost no_valid_snapshot : ManagerError
  view_failed : ViewError → ManagerError

unfoldable pub verify_segments :
    Artifacts → List SnapshotSegmentRef → Result ManagerError (Unit {0})
verify_segments arts [] = ok tt
verify_segments arts (s ∷ ss) = elim (arts.segment_metadata s.table) [
  | none ↦ err (segment_unreadable s.table)
  | some metadata ↦
      fail_if (not (metadata.rows == s.rows)) (segment_rows_mismatch s.table)
      >> fail_if (not (metadata.size_bytes == s.size_bytes) || not (metadata.sha256 == s.sha256))
          (segment_checksum_mismatch s.table)
      >> verify_segments arts ss
]

unfoldable pub verify_tombstones :
    Artifacts → List SnapshotTombstoneRef → Result ManagerError (Unit {0})
verify_tombstones arts [] = ok tt
verify_tombstones arts (t ∷ ts) = elim (arts.tombstone_artifact t.path) [
  | none ↦ err (tombstones_unreadable t.path)
  | some artifact ↦
      fail_if
        (not (artifact.size_bytes == t.size_bytes)
          || not (artifact.sha256 == t.sha256)
          || not (artifact.count == t.count))
        (tombstone_checksum_mismatch t.path)
      >> verify_tombstones arts ts
]

unfoldable pub verify_manifest :
    SnapshotManager → Artifacts → SnapshotManifest → Result ManagerError (Unit {0})
verify_manifest mgr arts m = do
  fail_if (not (m.schema_version == manifest_schema_version)) unsupported_schema
  fail_if (not (m.chunk_row_schema_version == chunk_row_schema_version)) unsupported_row_schema
  fail_if (not (m.store_id == mgr.store_id)) store_mismatch
  fail_if (not (m.config_fingerprint == mgr.config_fingerprint)) config_mismatch
  fail_if (not (m.ignore_fingerprint == mgr.ignore_fingerprint)) ignore_mismatch
  fail_if (not (m.counts.chunks_indexed == segment_rows m.segments)) chunk_counts_mismatch
  fail_if (not (m.counts.tombstones_added == tombstone_count m.tombstones))
      tombstone_counts_mismatch
  verify_segments arts m.segments
  verify_tombstones arts m.tombstones

abbrev pub is_ok : Result ManagerError (Unit {0}) → Bool
is_ok (ok u) = true
is_ok (err e) = false

-- `candidates.sort_by(|a, b| b.0.cmp(&a.0))`, a stable sort of the manifests whose time parses.
pub insert_candidate :
    ℕ → SnapshotManifest → List (ℕ × SnapshotManifest) → List (ℕ × SnapshotManifest)
insert_candidate t m [] = (t, m) ∷ []
insert_candidate t m ((u, n) ∷ rest) =
    if leb u t then (t, m) ∷ (u, n) ∷ rest else (u, n) ∷ insert_candidate t m rest

pub candidates :
    (String → Option ℕ) → List (String × SnapshotManifest) → List (ℕ × SnapshotManifest)
candidates parse [] = []
candidates parse ((dir, m) ∷ rest) = elim (parse m.created_at) [
  | none ↦ candidates parse rest
  | some t ↦ insert_candidate t m (candidates parse rest)
]

pub first_valid :
    SnapshotManager → Artifacts → List (ℕ × SnapshotManifest) → Result ManagerError SnapshotManifest
first_valid mgr arts [] = err no_valid_snapshot
first_valid mgr arts ((t, m) ∷ rest) =
    if is_ok (verify_manifest mgr arts m) then ok m else first_valid mgr arts rest

-- The manifest that `open_snapshot_view` opens.
pub open_manifest :
    (String → Option ℕ) → SnapshotManager → Artifacts → Disk → Result ManagerError SnapshotManifest
open_manifest parse mgr arts disk =
    let fallback = first_valid mgr arts (candidates parse disk.manifests) in
    elim disk.active [
      | none ↦ fallback
      | some id ↦ elim (lookup id disk.manifests) [
        | none ↦ err manifest_unreadable
        | some m ↦ if is_ok (verify_manifest mgr arts m) then ok m else fallback
      ]
    ]

-- `index` gives the segment file index of a snapshot.
abbrev pub open_snapshot_view :
    (String → Option (List String))
    → (String → Bool)
    → (String → Option String)
    → (String → List (String × String))
    → (String → Option ℕ)
    → SnapshotManager
    → Artifacts
    → Disk
    → Result ManagerError SnapshotView
open_snapshot_view read is_blank from_str index parse mgr arts disk =
    open_manifest parse mgr arts disk >>= λ m.
    map_err view_failed (from_manifest read is_blank from_str m (index m.snapshot_id))

-- The writes of `publish_manifest`, in their order; each of them is atomic.
pub write_manifest : SnapshotManifest → Disk → Disk
write_manifest m disk = record {
  active = disk.active;
  manifests = insert m.snapshot_id m disk.manifests;
}

pub write_active_snapshot : String → Disk → Disk
write_active_snapshot id disk = record { active = some id; manifests = disk.manifests }

abbrev pub writes : SnapshotManifest → List (Disk → Disk)
writes m = write_manifest m ∷ write_active_snapshot m.snapshot_id ∷ []

abbrev pub apply : List (Disk → Disk) → Disk → Disk
apply [] disk = disk
apply (w ∷ ws) disk = apply ws (w disk)

-- `publish_manifest` that stops after some of its writes; `owned` is the check of the lease.
pub publish_manifest :
    SnapshotManager → Artifacts → Bool → ℕ → SnapshotManifest → Disk → Result ManagerError Disk
publish_manifest mgr arts owned done m disk = do
  fail_if (not owned) lease_lost
  verify_manifest mgr arts m
  ok (apply (take done (writes m)) disk)
