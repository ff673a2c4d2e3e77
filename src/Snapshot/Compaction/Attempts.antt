-- ===== src/Snapshot/Compaction/Attempts.antt =====
-- `compact_store`: a compaction is built without the lease and published only if the active snapshot is
-- still the one that it was built from. `Disk` is what the attempts find: the active snapshot as it is
-- read before the build and under the lease, the manifests (a manifest that does not load or verify is
-- `none`), the tables, and the ids and the clock of each attempt.
-- Errors of the tables, of the files that are written and of the lease are not modelled; what is
-- published is handed to `publish_manifest`.
use mathlib.Core.Path.{subst}
use goodgrep.Prelude.{
  ℕ, zero, suc, ◌+◌, ◌≤◌, ◌<◌, ◌≡◌, ◌≢◌, refl, sym, String, Bool, true, false, not, ◌&&◌, List, [],
  Option, none, some, arith, inl, inr, ◌⊎◌,
}
use goodgrep.Prelude.Tests.{ltb, ◌==◌, string_key, if◌then◌else◌, Bool-cases, Option-cases}
use goodgrep.Prelude.Lists.{length}
use goodgrep.Prelude.Results.{Result, ok, err, Result-cases}
use goodgrep.Snapshot.Manifest.{SnapshotManifest, segment_rows, tombstone_count}
use goodgrep.Snapshot.View.{Row, ViewError, load_tombstones}
use goodgrep.Snapshot.Compaction.{
  CompactionConfig, CompactionRun, compaction_overdue, build_compaction_segment, compacted_manifest,
  compacted_index, compacted_segments,
}

pub record CompactionOptions : Type 0 where
  pub force : Bool
  pub max_retries : ℕ

pub record Disk (A : Type 0) : Type 0 where
  pub active_before : ℕ → Option String
  pub active_after : ℕ → Option String
  pub load : String → Option SnapshotManifest
  pub scan : String → List (List (Row A))
  pub run : ℕ → CompactionRun

pub data CompactionError : Type 0 where
  manifest_invalid active_snapshot_changed retries_exhausted : CompactionError
  tombstones_invalid : ViewError → CompactionError

-- `CompactionResult` without its duration. A compaction that was performed has what it published.
pub record Published : Type 0 where
  pub base_snapshot_id : String
  pub manifest : SnapshotManifest
  pub segment_index : Option (List (String × String))
  pub segments_before : ℕ
  pub segments_after : ℕ
  pub tombstones_before : ℕ
  pub rows_before : ℕ

pub data CompactionResult : Type 0 where
  no_active_snapshot : CompactionResult
  not_required : String → CompactionResult
  performed : Published → CompactionResult

-- `active_after.as_deref() == Some(&base_snapshot_id)`
abbrev pub still_active : Option String → String → Bool
still_active none base = false
still_active (some active) base = active == base

module _ (read : String → Option (List String)) (is_blank : String → Bool)
    (from_str : String → Option String) (cfg : CompactionConfig) {A : Type 0} (disk : Disk A)
    (options : CompactionOptions) where
  pub publish : ℕ → String → SnapshotManifest → List String → Published
  publish attempt base m tombstones =
      let build = build_compaction_segment disk.scan m tombstones in
      record {
        base_snapshot_id = base;
        manifest = compacted_manifest (disk.run attempt) base m build;
        segment_index = compacted_index (disk.run attempt) build;
        segments_before = length m.segments;
        segments_after = length (compacted_segments (disk.run attempt) build);
        tombstones_before = tombstone_count m.tombstones;
        rows_before = segment_rows m.segments;
      }

  -- One attempt, from its manifest on; `left` attempts remain and `retry` is what they give.
  unfoldable pub compact_manifest :
      ℕ
      → ℕ
      → String
      → SnapshotManifest
      → Result CompactionError CompactionResult
      → Result CompactionError CompactionResult
  compact_manifest left attempt base m retry =
      if not options.force && not (compaction_overdue cfg m)
      then ok (not_required base)
      else elim (load_tombstones read is_blank from_str m.tombstones []) [
        | err e ↦ err (tombstones_invalid e)
        | ok ts ↦
            if still_active (disk.active_after attempt) base
            then ok (performed (publish attempt base m ts))
            else if ltb 0 left
            then retry
            else err active_snapshot_changed
      ]

  -- The attempts that are left, and the number of this one.
  unfoldable pub compact_from : ℕ → ℕ → Result CompactionError CompactionResult
  compact_from zero attempt = err retries_exhausted
  compact_from (suc left) attempt =
      let retry = compact_from left (suc attempt) in
      elim (disk.active_before attempt) [
        | none ↦ ok no_active_snapshot
        | some base ↦ elim (disk.load base) [
          | none ↦ err manifest_invalid
          | some m ↦ compact_manifest left attempt base m retry
        ]
      ]

  unfoldable pub compact_store : Result CompactionError CompactionResult
  compact_store = compact_from (suc options.max_retries) 0

  -- The snapshot that was active before the build is active under the lease, its manifest is the one
  -- that was compacted, and a compaction was asked for or overdue.
  pub record Performed (attempt : ℕ) (p : Published) : Type 0 where
    pub before : disk.active_before attempt ≡ some p.base_snapshot_id
    pub under_lease : disk.active_after attempt ≡ some p.base_snapshot_id
    pub m : SnapshotManifest
    pub loaded : disk.load p.base_snapshot_id ≡ some m
    pub ts : List String
    pub tombstones : load_tombstones read is_blank from_str m.tombstones [] ≡ ok ts
    pub published : p ≡ publish attempt p.base_snapshot_id m ts
    pub wanted : (options.force ≡ true) ⊎ (compaction_overdue cfg m ≡ true)

  still_active-eq : (o : Option String) (base : String) → still_active o base ≡ true → o ≡ some base
  still_active-eq none base h = cc
  still_active-eq (some a) base h = ground (arith, string_key.same_iff a base)

  publish-Performed :
      (attempt : ℕ) (base : String) (m : SnapshotManifest) (ts : List String)
      → disk.active_before attempt ≡ some base
      → disk.active_after attempt ≡ some base
      → disk.load base ≡ some m
      → load_tombstones read is_blank from_str m.tombstones [] ≡ ok ts
      → (options.force ≡ true) ⊎ (compaction_overdue cfg m ≡ true)
      → Performed attempt (publish attempt base m ts)
  unfolding publish
  publish-Performed attempt base m ts before under loaded keys wanted = record {
    before = before;
    under_lease = under;
    m = m;
    loaded = loaded;
    ts = ts;
    tombstones = keys;
    published = refl;
    wanted = wanted;
  }

  -- An attempt that performs a compaction does it itself or is the one after it.
  compact_manifest-Performed :
      (left attempt : ℕ) (base : String) (m : SnapshotManifest) (p : Published)
      (retry : Result CompactionError CompactionResult)
      → disk.active_before attempt ≡ some base
      → disk.load base ≡ some m
      → compact_manifest left attempt base m retry ≡ ok (performed p)
      → (Performed attempt p) ⊎ (retry ≡ ok (performed p))
  unfolding compact_manifest
  compact_manifest-Performed left attempt base m p retry before loaded h =
      elim (Result-cases (load_tombstones read is_blank from_str m.tombstones [])) [
        | inr (e, failed) ↦ absurd (ground arith)
        | inl (ts, keys) ↦ elim (Bool-cases (still_active (disk.active_after attempt) base)) [
          | inr changed ↦ inr (ground arith)
          | inl same ↦ inl (here ts keys (still_active-eq _ base same) (ground arith))
        ]
      ]
    where
      here :
          (ts : List String)
          → load_tombstones read is_blank from_str m.tombstones [] ≡ ok ts
          → disk.active_after attempt ≡ some base
          → (p ≡ publish attempt base m ts)
            × ((options.force ≡ true) ⊎ (compaction_overdue cfg m ≡ true))
          → Performed attempt p
      here ts keys under (same, wanted) =
          subst (Performed attempt) (sym same)
            (publish-Performed attempt base m ts before under loaded keys wanted)

  compact_from-Performed :
      (left attempt : ℕ) (p : Published)
      → compact_from left attempt ≡ ok (performed p)
      → (i : ℕ) × (attempt ≤ i) × (i < attempt + left) × Performed i p
  unfolding compact_from
  compact_from-Performed zero attempt p h = cc
  compact_from-Performed (suc left) attempt p h = elim (Option-cases (disk.active_before attempt)) [
    | inl missing ↦ absurd (ground arith)
    | inr (base, before) ↦ elim (Option-cases (disk.load base)) [
      | inl broken ↦ absurd (ground arith)
      | inr (m, loaded) ↦
          elim (compact_manifest-Performed left attempt base m p (compact_from left (suc attempt))
            before loaded (ground arith)) [
              | inl now ↦ (attempt, omega arith, omega arith, now)
              | inr later ↦
                  let (i, low, high, done) = compact_from-Performed left (suc attempt) p later in
                  (i, omega arith, omega arith, done)
            ]
    ]
  ]

  -- A compaction that is performed is one of the `max_retries + 1` attempts; its base is the active
  -- snapshot both before the build and under the lease, it was forced or overdue, and what it publishes
  -- is the compaction of that base.
  pub compact_store-Performed :
      (p : Published)
      → compact_store ≡ ok (performed p)
      → (i : ℕ) × (i ≤ options.max_retries) × Performed i p
  unfolding compact_store
  compact_store-Performed p h =
      let (i, low, high, done) = compact_from-Performed (suc options.max_retries) 0 p h in
      (i, omega arith, done)

  compact_manifest-exhausted :
      (left attempt : ℕ) (base : String) (m : SnapshotManifest)
      (retry : Result CompactionError CompactionResult)
      → compact_manifest left attempt base m retry ≡ err retries_exhausted
      → (0 < left) × (retry ≡ err retries_exhausted)
  unfolding compact_manifest
  compact_manifest-exhausted left attempt base m retry h =
      ground (arith, Result-cases (load_tombstones read is_blank from_str m.tombstones []))

  compact_from-not_exhausted :
      (left attempt : ℕ) → 0 < left → compact_from left attempt ≢ err retries_exhausted
  unfolding compact_from
  compact_from-not_exhausted zero attempt some_left h = omega arith
  compact_from-not_exhausted (suc left) attempt some_left h =
      elim (Option-cases (disk.active_before attempt)) [
        | inl missing ↦ ground arith
        | inr (base, before) ↦ elim (Option-cases (disk.load base)) [
          | inl broken ↦ ground arith
          | inr (m, loaded) ↦
              let (more, e) =
                compact_manifest-exhausted left attempt base m (compact_from left (suc attempt))
                  (ground arith) in
              compact_from-not_exhausted left (suc attempt) more e
        ]
      ]

  -- The loop never runs out: the last attempt decides, so the error behind the loop is not returned.
  pub compact_store-not_exhausted : compact_store ≢ err retries_exhausted
  unfolding compact_store
  compact_store-not_exhausted = compact_from-not_exhausted (suc options.max_retries) 0 (omega arith)
