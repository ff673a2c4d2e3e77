-- ===== src/Snapshot/Gc/Files.antt =====
-- The files that are left in the directories of the snapshots.
use goodgrep.Prelude.{
  ◌≡◌, refl, ap, ◌∙◌, String, Bool, true, false, List, [], ◌∷◌, none, some, arith, inl, inr,
}
use goodgrep.Prelude.Tests.{◌==◌, string_key, if◌then◌else◌, Option-cases}
use goodgrep.Prelude.Lists.{contains, filter}
use goodgrep.Prelude.Maps.{lookup, lookup-insert, lookup-remove}
use goodgrep.Snapshot.Gc.{
  FileEntry, Deleted, paths_of, set_dir, delete_snapshot_dir, delete_snapshots,
}

-- Whether a directory has a file.
pub has_file : List (String × List FileEntry) → String → String → Bool
has_file dirs id path = elim (lookup id dirs) [
  | none ↦ false
  | some files ↦ contains (paths_of files) path
]

contains-paths_of :
    (keep : List String) (files : List FileEntry) (path : String)
    → contains keep path ≡ true
    → contains (paths_of (filter (λ f. contains keep f.path) files)) path
      ≡ contains (paths_of files) path
contains-paths_of keep [] path h = refl
contains-paths_of keep (f ∷ fs) path h =
    ground (arith, contains-paths_of keep fs path h, string_key.same_iff f.path path)

lookup-set_dir :
    (id j : String) (files : List FileEntry) (dirs : List (String × List FileEntry))
    → (id == j) ≡ false
    → lookup j (set_dir id files dirs) ≡ lookup j dirs
lookup-set_dir id j [] dirs h = ground (arith, lookup-remove id j dirs)
lookup-set_dir id j (f ∷ fs) dirs h = ground (arith, lookup-insert id j (f ∷ fs) dirs)

has_file-set_dir :
    (id j path : String) (files : List FileEntry) (dirs : List (String × List FileEntry))
    → has_file (set_dir id files dirs) j path
      ≡ (if id == j then contains (paths_of files) path else has_file dirs j path)
unfolding has_file
has_file-set_dir id j path [] dirs = ground (arith, lookup-remove id j dirs)
has_file-set_dir id j path (f ∷ fs) dirs = ground (arith, lookup-insert id j (f ∷ fs) dirs)

has_file-found :
    (dirs : List (String × List FileEntry)) (id j path : String) (files : List FileEntry)
    → lookup id dirs ≡ some files
    → (id == j) ≡ true
    → has_file dirs j path ≡ contains (paths_of files) path
unfolding has_file
has_file-found dirs id j path files found same =
    ground
      (arith, string_key.same_iff id j, ap (λ k. lookup k dirs) ((string_key.same_iff id j).0 same))

has_file-delete_snapshot_dir :
    (keep : List String) (id : String) (files : List FileEntry) (acc : Deleted) (j path : String)
    → lookup id acc.dirs ≡ some files
    → contains keep path ≡ true
    → has_file (delete_snapshot_dir keep id files acc).dirs j path ≡ has_file acc.dirs j path
unfolding delete_snapshot_dir
has_file-delete_snapshot_dir keep id files acc j path found h = ground (
  arith,
  has_file-set_dir id j path (filter (λ f. contains keep f.path) files) acc.dirs,
  contains-paths_of keep files path h,
  has_file-found acc.dirs id j path files found,
)

pub has_file-delete_snapshots :
    (keep ids : List String) (acc : Deleted) (j path : String)
    → contains keep path ≡ true
    → has_file (delete_snapshots keep ids acc).dirs j path ≡ has_file acc.dirs j path
unfolding delete_snapshots
has_file-delete_snapshots keep [] acc j path h = refl
has_file-delete_snapshots keep (id ∷ ids) acc j path h = elim (Option-cases (lookup id acc.dirs)) [
  | inl missing ↦ rw (missing, delete_snapshots) (has_file-delete_snapshots keep ids acc j path h)
  | inr (files, found) ↦
      rw (found, delete_snapshots)
        (has_file-delete_snapshots keep ids (delete_snapshot_dir keep id files acc) j path h
          ∙ has_file-delete_snapshot_dir keep id files acc j path found h)
]

lookup-delete_snapshot_dir :
    (keep : List String) (id : String) (files : List FileEntry) (acc : Deleted) (j : String)
    → (id == j) ≡ false
    → lookup j (delete_snapshot_dir keep id files acc).dirs ≡ lookup j acc.dirs
unfolding delete_snapshot_dir
lookup-delete_snapshot_dir keep id files acc j h =
    lookup-set_dir id j (filter (λ f. contains keep f.path) files) acc.dirs h

pub lookup-delete_snapshots :
    (keep ids : List String) (acc : Deleted) (j : String)
    → contains ids j ≡ false
    → lookup j (delete_snapshots keep ids acc).dirs ≡ lookup j acc.dirs
unfolding delete_snapshots
lookup-delete_snapshots keep [] acc j h = refl
lookup-delete_snapshots keep (id ∷ ids) acc j h = elim (Option-cases (lookup id acc.dirs)) [
  | inl missing ↦
      rw (missing, delete_snapshots) (lookup-delete_snapshots keep ids acc j (ground arith))
  | inr (files, found) ↦
      rw (found, delete_snapshots)
        (lookup-delete_snapshots keep ids (delete_snapshot_dir keep id files acc) j (ground arith)
          ∙ lookup-delete_snapshot_dir keep id files acc j (ground arith))
]
