-- ===== src/Snapshot/View.antt =====
-- Tools/ggrep/src/snapshot/view.rs: a snapshot as a query sees it, and the rows that it shows. A
-- table of the store is the list of its rows; the schema declares `path_key` non-null.
pub mod Live
pub mod Load
use goodgrep.Prelude.{
  ℕ, String, Bool, true, false, not, ◌||◌, List, [], ◌∷◌, ◌++◌, map, Option, none, some,
}
use goodgrep.Prelude.Tests.{◌==◌, string_key, if◌then◌else◌}
use goodgrep.Prelude.Lists.{filter, contains}
use goodgrep.Prelude.Maps.{lookup, add}
use goodgrep.Prelude.Results.{Result, ok, err, ◌>>=◌}
use goodgrep.Snapshot.Manifest.{SnapshotManifest, SnapshotTombstoneRef, tables}

pub record SnapshotView : Type 0 where
  pub snapshot_id : String
  pub manifest : SnapshotManifest
  pub tombstones : List String
  pub segment_tables : List String
  pub segment_index : List (String × String)

abbrev pub is_tombstoned : SnapshotView → String → Bool
is_tombstoned v path_key = contains v.tombstones path_key

unfoldable pub is_visible : SnapshotView → String → Option String → Bool
is_visible v path_key segment_table =
    if not (contains v.tombstones path_key) then true else elim (lookup path_key v.segment_index) [
      | none ↦ false
      | some current ↦ elim segment_table [ none ↦ false | some table ↦ table == current ]
    ]

pub data ViewError : Type 0 where
  failed_to_read invalid_tombstone_line : String → ViewError

-- Reading the artifacts: `read` gives the lines of a file, `is_blank` is `line.trim().is_empty()`,
-- and `from_str` decodes a line to its path key, or refuses it.
module _ (read : String → Option (List String)) (is_blank : String → Bool)
    (from_str : String → Option String) where
  unfoldable pub load_lines : String → List String → List String → Result ViewError (List String)
  load_lines path [] tombstones = ok tombstones
  load_lines path (line ∷ lines) tombstones = elim (is_blank line) [
    | true ↦ load_lines path lines tombstones
    | false ↦ elim (from_str line) [
      | none ↦ err (invalid_tombstone_line path)
      | some path_key ↦ load_lines path lines (add path_key tombstones)
    ]
  ]

  unfoldable pub load_tombstones :
      List SnapshotTombstoneRef → List String → Result ViewError (List String)
  unfolding load_lines
  load_tombstones [] tombstones = ok tombstones
  load_tombstones (t ∷ ts) tombstones = elim (read t.path) [
    | none ↦ err (failed_to_read t.path)
    | some lines ↦ load_lines t.path lines tombstones >>= load_tombstones ts
  ]

  -- `segment_index` is the file `segment_file_index.jsonl` as `read_segment_file_index` reads it, or
  -- the empty map where there is no such file.
  unfoldable pub from_manifest :
      SnapshotManifest → List (String × String) → Result ViewError SnapshotView
  from_manifest manifest segment_index = do
    tombstones ← load_tombstones manifest.tombstones []
    ok (record {
      snapshot_id = manifest.snapshot_id;
      manifest = manifest;
      tombstones = tombstones;
      segment_tables = tables manifest.segments;
      segment_index = segment_index;
    })

-- A row of a segment table; `A` is all but its path.
pub record Row (A : Type 0) : Type 0 where
  pub path_key : String
  pub chunk : A

abbrev pub Store : Type 0 → Type 0
Store A = String → List (Row A)

module _ {A : Type 0} where
  -- The rows that a query may return: those of the snapshot's tables that pass the `retain` of
  -- `search_with_mode`, which asks `is_visible` of a row's path and of the table it came from.
  pub live_in : SnapshotView → Store A → List String → List (Row A)
  live_in v store [] = []
  live_in v store (t ∷ ts) =
      filter (λ r. is_visible v r.path_key (some t)) (store t) ++ live_in v store ts

  pub live : SnapshotView → Store A → List (Row A)
  unfolding live_in
  live v store = live_in v store v.segment_tables

  abbrev pub of_path : String → List (Row A) → List (Row A)
  of_path path = filter (λ r. r.path_key == path)
