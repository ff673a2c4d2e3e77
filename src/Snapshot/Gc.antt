-- ===== src/Snapshot/Gc.antt =====
-- Tools/ggrep/src/snapshot/gc.rs: which snapshots are kept, and what is deleted of the others. Times are
-- in milliseconds, ages are signed, and limits are read as signed numbers. Removing a file or a directory is taken to succeed; dropping a table may fail.
pub mod Sorted
pub mod Retained
pub mod Files
pub mod Kept
pub mod Examples
use goodgrep.Prelude.{
  ℕ, zero, suc, ◌-◌, ◌/◌, ◌≤◌, max, String, Bool, true, false, not, ◌&&◌, ◌||◌, List, [], ◌∷◌, ◌++◌,
  Option, none, some,
}
use goodgrep.Prelude.Tests.{leb, ◌==◌, string_key, if◌then◌else◌}
use goodgrep.Prelude.Int.{ℤ, sub_ℕ, quot_ℕ, leb_ℤ, as_i64}
use goodgrep.Prelude.Lists.{contains, take, filter}
use goodgrep.Prelude.Maps.{add_all, lookup, insert, remove}
use goodgrep.FilePath.{starts_with, ends_with}
use goodgrep.Snapshot.Manifest.{SnapshotManifest, SnapshotTombstoneRef, tables}

pub record SnapshotEntry : Type 0 where
  pub snapshot_id : String
  pub created_at : ℕ
  pub manifest : SnapshotManifest

-- An entry of the directory of snapshots: its manifest if it loads, and the time that this names if it
-- parses.
pub record DirEntry : Type 0 where
  pub is_dir : Bool
  pub manifest : Option SnapshotManifest
  pub created_at : Option ℕ

pub record GcOptions : Type 0 where
  pub dry_run : Bool
  pub pinned : List String
  pub min_keep : ℕ
  pub min_age_secs : ℕ
  pub safety_window_ms : ℕ

pub loaded_entry : DirEntry → Option SnapshotEntry
loaded_entry d = if not d.is_dir then none else elim d.manifest [
  | none ↦ none
  | some m ↦ elim d.created_at [
    | none ↦ none
    | some t ↦ some (record { snapshot_id = m.snapshot_id; created_at = t; manifest = m })
  ]
]

pub load_entries : List DirEntry → List SnapshotEntry
load_entries [] = []
load_entries (d ∷ ds) = elim (loaded_entry d) [
  | none ↦ load_entries ds
  | some e ↦ e ∷ load_entries ds
]

-- `sort_by(|a, b| b.created_at.cmp(&a.created_at))`, a stable sort.
pub insert_newest : SnapshotEntry → List SnapshotEntry → List SnapshotEntry
insert_newest e [] = e ∷ []
insert_newest e (f ∷ fs) =
    if leb f.created_at e.created_at then e ∷ f ∷ fs else f ∷ insert_newest e fs

pub sort_newest : List SnapshotEntry → List SnapshotEntry
sort_newest [] = []
sort_newest (e ∷ es) = insert_newest e (sort_newest es)

-- `age.num_seconds()`
abbrev pub age_secs : ℕ → SnapshotEntry → ℤ
age_secs now e = quot_ℕ (sub_ℕ now e.created_at) 1000

pub is_young : GcOptions → ℕ → SnapshotEntry → Bool
is_young o now e =
    leb_ℤ (age_secs now e) (as_i64 o.min_age_secs)
    || leb_ℤ (age_secs now e) (as_i64 (o.safety_window_ms / 1000))

abbrev pub retain_active : Option String → List String
retain_active none = []
retain_active (some active) = active ∷ []

abbrev pub entry_ids : List SnapshotEntry → List String
entry_ids [] = []
entry_ids (e ∷ es) = e.snapshot_id ∷ entry_ids es

-- `snapshots` are sorted, the newest first.
pub retained : GcOptions → ℕ → Option String → List SnapshotEntry → List String
retained o now active snapshots = add_all (entry_ids (take (max o.min_keep 1) snapshots)) (
    add_all (entry_ids (filter (is_young o now) snapshots))
      (add_all o.pinned (retain_active active)))

abbrev pub retained_entries : List String → List SnapshotEntry → List SnapshotEntry
retained_entries retain = filter (λ e. contains retain e.snapshot_id)

abbrev pub deleted_snapshots : List String → List SnapshotEntry → List String
deleted_snapshots retain es = entry_ids (filter (λ e. not (contains retain e.snapshot_id)) es)

-- The tombstone files that a manifest names.
abbrev pub tombstone_paths : List SnapshotTombstoneRef → List String
tombstone_paths [] = []
tombstone_paths (t ∷ ts) = t.path ∷ tombstone_paths ts

pub keep_segments : List SnapshotEntry → List String → List String
keep_segments [] keep = keep
keep_segments (e ∷ es) keep = keep_segments es (add_all (tables e.manifest.segments) keep)

pub keep_tombstones : List SnapshotEntry → List String → List String
keep_tombstones [] keep = keep
keep_tombstones (e ∷ es) keep =
    keep_tombstones es (add_all (tombstone_paths e.manifest.tombstones) keep)

-- What is in a snapshot's directory: paths from the root of the store.
pub record FileEntry : Type 0 where
  pub path : String
  pub is_dir : Bool

pub record GcStore : Type 0 where
  pub dirs : List (String × List FileEntry)
  pub tables : List String

pub record Deleted : Type 0 where
  pub dirs : List (String × List FileEntry)
  pub tombstones : List String

abbrev pub paths_of : List FileEntry → List String
paths_of [] = []
paths_of (f ∷ fs) = f.path ∷ paths_of fs

abbrev pub is_tombstones : String → Bool
is_tombstones path = ends_with "tombstones.jsonl" path

-- A directory is removed when nothing is left in it.
abbrev pub set_dir :
    String → List FileEntry → List (String × List FileEntry) → List (String × List FileEntry)
set_dir id [] dirs = remove id dirs
set_dir id (f ∷ fs) dirs = insert id (f ∷ fs) dirs

pub delete_snapshot_dir : List String → String → List FileEntry → Deleted → Deleted
delete_snapshot_dir keep id files acc =
    let left = filter (λ f. contains keep f.path) files in
    record {
      dirs = set_dir id left acc.dirs;
      tombstones =
          acc.tombstones
          ++ paths_of (
              filter (λ f. not (contains keep f.path) && not f.is_dir && is_tombstones f.path)
                files);
    }

pub delete_snapshots : List String → List String → Deleted → Deleted
delete_snapshots keep [] acc = acc
delete_snapshots keep (id ∷ ids) acc = elim (lookup id acc.dirs) [
  | none ↦ delete_snapshots keep ids acc
  | some files ↦ delete_snapshots keep ids (delete_snapshot_dir keep id files acc)
]

-- What a dry run reports as deleted.
abbrev pub dry_tombstones : List String → List String → List (String × List FileEntry) → List String
dry_tombstones keep [] dirs = []
dry_tombstones keep (id ∷ ids) dirs = elim (lookup id dirs) [
  | none ↦ dry_tombstones keep ids dirs
  | some files ↦
      paths_of (filter (λ f. not (contains keep f.path) && is_tombstones f.path) files)
      ++ dry_tombstones keep ids dirs
]

abbrev pub is_dropped : (String → Bool) → List String → String → Bool
is_dropped drops keep table = starts_with "seg_" table && not (contains keep table) && drops table

-- `GcReport`, its lists unsorted, with the store that the run leaves.
pub record GcReport : Type 0 where
  pub retained_snapshots : List String
  pub deleted_snapshots : List String
  pub deleted_segments : List String
  pub deleted_tombstones : List String
  pub store : GcStore

-- A dry run reports and changes nothing.
pub gc_dry : List String → List SnapshotEntry → GcStore → GcReport
gc_dry retain snapshots store =
    let keep = keep_tombstones (retained_entries retain snapshots) [] in
    record {
      retained_snapshots = retain;
      deleted_snapshots = deleted_snapshots retain snapshots;
      deleted_segments = [];
      deleted_tombstones = dry_tombstones keep (deleted_snapshots retain snapshots) store.dirs;
      store = store;
    }

-- `drops` tells whether `drop_table` succeeds on a table.
pub gc_delete : (String → Bool) → List String → List SnapshotEntry → GcStore → GcReport
gc_delete drops retain snapshots store =
    let keep = keep_segments (retained_entries retain snapshots) [] in
    let deleted =
      delete_snapshots (keep_tombstones (retained_entries retain snapshots) [])
        (deleted_snapshots retain snapshots) (record { dirs = store.dirs; tombstones = [] }) in
    record {
      retained_snapshots = retain;
      deleted_snapshots = deleted_snapshots retain snapshots;
      deleted_segments = filter (is_dropped drops keep) store.tables;
      deleted_tombstones = deleted.tombstones;
      store = record {
        dirs = deleted.dirs;
        tables = filter (λ t. not (is_dropped drops keep t)) store.tables;
      };
    }

pub gc_snapshots :
    (String → Bool) → GcOptions → ℕ → Option String → List DirEntry → GcStore → GcReport
gc_snapshots drops o now active entries store =
    let snapshots = sort_newest (load_entries entries) in
    let retain = retained o now active snapshots in
    if o.dry_run then gc_dry retain snapshots store else gc_delete drops retain snapshots store
