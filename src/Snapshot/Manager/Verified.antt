-- ===== src/Snapshot/Manager/Verified.antt =====
-- What a manifest that verifies refers to, and that only such manifests are opened.
use goodgrep.Prelude.{
  ℕ, ◌≡◌, ◌↔◌, refl, ap, sym, ◌∙◌, String, List, [], ◌∷◌, Option, some, arith, inl, inr,
}
use goodgrep.Prelude.Tests.{nat_key, string_key, if◌then◌else◌, Option-cases}
use goodgrep.Prelude.Lists.{All}
use goodgrep.Prelude.Maps.{lookup}
use goodgrep.Prelude.Results.{ok, Result-cases}
use goodgrep.Snapshot.Manifest.{
  SnapshotManifest, SnapshotSegmentRef, SnapshotTombstoneRef, segment_rows, tombstone_count,
}
use goodgrep.Snapshot.Manager.{
  SnapshotManager, Artifacts, Disk, verify_segments, verify_tombstones, verify_manifest, is_ok,
  first_valid, candidates, open_manifest,
}

-- A table that can be read and is as the reference says.
abbrev pub SegmentIntact : Artifacts → SnapshotSegmentRef → Type 0
SegmentIntact arts s =
    arts.segment_metadata s.table
    ≡ some (record { rows = s.rows; size_bytes = s.size_bytes; sha256 = s.sha256 })

abbrev pub TombstonesIntact : Artifacts → SnapshotTombstoneRef → Type 0
TombstonesIntact arts t =
    arts.tombstone_artifact t.path
    ≡ some (record { size_bytes = t.size_bytes; sha256 = t.sha256; count = t.count })

verify_segments-All :
    (arts : Artifacts) (ss : List SnapshotSegmentRef)
    → (verify_segments arts ss ≡ ok tt) ↔ All (SegmentIntact arts) ss
unfolding verify_segments
verify_segments-All arts [] = (λ h. tt, λ a. refl)
verify_segments-All arts (s ∷ ss) = elim (Option-cases (arts.segment_metadata s.table)) [
  | inl missing ↦ ground (arith, missing)
  | inr (d, found) ↦ ground (
    arith,
    found,
    verify_segments-All arts ss,
    nat_key.same_iff d.rows s.rows,
    nat_key.same_iff d.size_bytes s.size_bytes,
    string_key.same_iff d.sha256 s.sha256,
  )
]

verify_tombstones-All :
    (arts : Artifacts) (ts : List SnapshotTombstoneRef)
    → (verify_tombstones arts ts ≡ ok tt) ↔ All (TombstonesIntact arts) ts
unfolding verify_tombstones
verify_tombstones-All arts [] = (λ h. tt, λ a. refl)
verify_tombstones-All arts (t ∷ ts) = elim (Option-cases (arts.tombstone_artifact t.path)) [
  | inl missing ↦ ground (arith, missing)
  | inr (d, found) ↦ ground (
    arith,
    found,
    verify_tombstones-All arts ts,
    nat_key.same_iff d.size_bytes t.size_bytes,
    string_key.same_iff d.sha256 t.sha256,
    nat_key.same_iff d.count t.count,
  )
]

-- A manifest verifies exactly if it has the schema versions, the store and the fingerprints of the
-- manager, its counts are the sums over its references, and every table and tombstone file that it names
-- can be read and has the rows, size and checksum that it records.
pub verify_manifest_iff :
    (mgr : SnapshotManager) (arts : Artifacts) (m : SnapshotManifest)
    → (verify_manifest mgr arts m ≡ ok tt) ↔ (
        (m.schema_version ≡ 1)
        × (m.chunk_row_schema_version ≡ 1)
        × (m.store_id ≡ mgr.store_id)
        × (m.config_fingerprint ≡ mgr.config_fingerprint)
        × (m.ignore_fingerprint ≡ mgr.ignore_fingerprint)
        × (m.counts.chunks_indexed ≡ segment_rows m.segments)
        × (m.counts.tombstones_added ≡ tombstone_count m.tombstones)
        × All (SegmentIntact arts) m.segments
        × All (TombstonesIntact arts) m.tombstones)
unfolding verify_manifest
verify_manifest_iff mgr arts m = ground (
  arith,
  verify_segments-All arts m.segments,
  verify_tombstones-All arts m.tombstones,
  Result-cases (verify_segments arts m.segments),
  string_key.same_iff m.store_id mgr.store_id,
  string_key.same_iff m.config_fingerprint mgr.config_fingerprint,
  string_key.same_iff m.ignore_fingerprint mgr.ignore_fingerprint,
)

first_valid-verified :
    (mgr : SnapshotManager) (arts : Artifacts) (cs : List (ℕ × SnapshotManifest))
    {m : SnapshotManifest}
    → first_valid mgr arts cs ≡ ok m
    → verify_manifest mgr arts m ≡ ok tt
unfolding first_valid
first_valid-verified mgr arts [] h = cc
first_valid-verified mgr arts ((t, n) ∷ rest) {m} h =
    elim (Result-cases (verify_manifest mgr arts n)) [
      | inl (u, valid) ↦
          let same : n ≡ m = ground (arith, valid) in
          ap (verify_manifest mgr arts) (sym same) ∙ valid
      | inr (e, failed) ↦ first_valid-verified mgr arts rest (ground (arith, failed))
    ]

-- A manifest that is opened, as the active one or as a fallback, verifies.
pub open_manifest-verified :
    (parse : String → Option ℕ) (mgr : SnapshotManager) (arts : Artifacts) (disk : Disk)
    (m : SnapshotManifest)
    → open_manifest parse mgr arts disk ≡ ok m
    → verify_manifest mgr arts m ≡ ok tt
unfolding open_manifest
open_manifest-verified parse mgr arts disk m h = elim (Option-cases disk.active) [
  | inl free ↦ fallback (ground (arith, free))
  | inr (id, a) ↦ elim (Option-cases (lookup id disk.manifests)) [
    | inl missing ↦ absurd (ground (arith, a, missing))
    | inr (n, found) ↦ chosen n (ground (arith, a, found))
  ]
]
  where
    fallback :
        first_valid mgr arts (candidates parse disk.manifests) ≡ ok m
        → verify_manifest mgr arts m ≡ ok tt
    fallback = first_valid-verified mgr arts (candidates parse disk.manifests)

    chosen :
        (n : SnapshotManifest)
        → (if is_ok (verify_manifest mgr arts n)
            then ok n
            else first_valid mgr arts (candidates parse disk.manifests))
          ≡ ok m
        → verify_manifest mgr arts m ≡ ok tt
    chosen n e = elim (Result-cases (verify_manifest mgr arts n)) [
      | inl (u, ok_n) ↦
          let same : n ≡ m = ground (arith, ok_n) in ap (verify_manifest mgr arts) (sym same) ∙ ok_n
      | inr (x, failed) ↦ fallback (ground (arith, failed))
    ]
