-- ===== src/Snapshot/Manager/Crash.antt =====
-- A publication that stops between its writes.
use goodgrep.Prelude.{ℕ, zero, suc, ◌≡◌, ◌≢◌, refl, ap, ◌∙◌, String, Bool, Option, some, arith}
use goodgrep.Prelude.Tests.{leb, string_key, if◌then◌else◌}
use goodgrep.Prelude.Lists.{take, take_all}
use goodgrep.Prelude.Maps.{lookup, lookup-insert}
use goodgrep.Prelude.Results.{ok, Result-cases}
use goodgrep.Snapshot.Manifest.{SnapshotManifest}
use goodgrep.Snapshot.Manager.{
  SnapshotManager, Artifacts, Disk, verify_manifest, open_manifest, write_manifest,
  write_active_snapshot, writes, apply, publish_manifest,
}

open_active :
    (parse : String → Option ℕ) (mgr : SnapshotManager) (arts : Artifacts) (disk : Disk)
    (id : String) (m : SnapshotManifest)
    → disk.active ≡ some id
    → lookup id disk.manifests ≡ some m
    → verify_manifest mgr arts m ≡ ok tt
    → open_manifest parse mgr arts disk ≡ ok m
unfolding open_manifest
open_active parse mgr arts disk id m active found valid = ground (arith, active, found, valid)

publish_manifest-ok :
    (mgr : SnapshotManager) (arts : Artifacts) (owned : Bool) (done : ℕ) (m : SnapshotManifest)
    (before after : Disk)
    → publish_manifest mgr arts owned done m before ≡ ok after
    → (after ≡ apply (take done (writes m)) before) × (verify_manifest mgr arts m ≡ ok tt)
unfolding publish_manifest
publish_manifest-ok mgr arts owned done m before after h =
    ground (arith, Result-cases (verify_manifest mgr arts m))

module _ (parse : String → Option ℕ) (mgr : SnapshotManager) (arts : Artifacts)
    (m old : SnapshotManifest) (id : String) (before : Disk) (active : before.active ≡ some id)
    (found : lookup id before.manifests ≡ some old) (valid : verify_manifest mgr arts old ≡ ok tt)
    (valid_next : verify_manifest mgr arts m ≡ ok tt) (other : id ≢ m.snapshot_id) where
  open-written : open_manifest parse mgr arts (write_manifest m before) ≡ ok old
  unfolding write_manifest
  open-written =
      open_active parse mgr arts (write_manifest m before) id old active
        (ground (
          arith,
          lookup-insert m.snapshot_id id m before.manifests,
          string_key.same_iff m.snapshot_id id,
        ))
        valid

  open-swapped :
      open_manifest parse mgr arts (write_active_snapshot m.snapshot_id (write_manifest m before))
      ≡ ok m
  unfolding write_manifest write_active_snapshot
  open-swapped =
      open_active parse mgr arts (write_active_snapshot m.snapshot_id (write_manifest m before))
        m.snapshot_id m refl
        (ground (
          arith,
          lookup-insert m.snapshot_id m.snapshot_id m before.manifests,
          string_key.same_iff m.snapshot_id m.snapshot_id,
        ))
        valid_next

  open-done :
      (done : ℕ)
      → open_manifest parse mgr arts (apply (take done (writes m)) before)
        ≡ ok (if leb 2 done then m else old)
  open-done zero = open_active parse mgr arts before id old active found valid
  open-done (suc zero) = open-written
  open-done (suc (suc k)) =
      ap (λ ws. open_manifest parse mgr arts (apply ws before))
        (take_all (suc (suc k)) (writes m) (omega arith))
      ∙ open-swapped
      ∙ ground arith

-- A publication is atomic: if the manifest of the active snapshot verifies and the new snapshot has
-- another id, then a store whose publication stops after some of its writes opens the old manifest, or
-- the new one if both writes were done.
pub publish_manifest-open :
    (parse : String → Option ℕ) (mgr : SnapshotManager) (arts : Artifacts) (owned : Bool) (done : ℕ)
    (m old : SnapshotManifest) (id : String) (before after : Disk)
    → before.active ≡ some id
    → lookup id before.manifests ≡ some old
    → verify_manifest mgr arts old ≡ ok tt
    → id ≢ m.snapshot_id
    → publish_manifest mgr arts owned done m before ≡ ok after
    → open_manifest parse mgr arts after ≡ ok (if leb 2 done then m else old)
publish_manifest-open parse mgr arts owned done m old id before after active found valid other h =
    let (written, valid_next) = publish_manifest-ok mgr arts owned done m before after h in
    ap (open_manifest parse mgr arts) written
    ∙ open-done parse mgr arts m old id before active found valid valid_next other done
