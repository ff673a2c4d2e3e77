-- ===== src/Snapshot/Gc/Examples.antt =====
-- An old snapshot and the active one, which names a tombstone file in the old one's directory.
use mathlib.Core.List.{mem-cons_self, mem-cons_of_mem}
use goodgrep.Prelude.{
  ℕ, ◌-◌, ◌/◌, ◌≤◌, ◌<◌, max, ◌≡◌, ◌≢◌, refl, arith, String, Bool, true, false, not, ◌&&◌, ◌||◌,
  List, [], ◌∷◌, Option, none, some,
}
use goodgrep.Prelude.Tests.{leb, string_key}
use goodgrep.Prelude.Lists.{contains, length, filter, any}
use goodgrep.FilePath.{starts_with}
use goodgrep.Snapshot.Manifest.{SnapshotManifest, tables}
use goodgrep.Snapshot.Gc.{
  SnapshotEntry, DirEntry, GcOptions, GcStore, load_entries, loaded_entry, sort_newest,
  insert_newest, is_young, retained, retained_entries, gc_snapshots, gc_delete,
}
use goodgrep.Snapshot.Gc.Retained.{retained_sound}
use goodgrep.Snapshot.Gc.Kept.{Keeps, gc_snapshots-Keeps, gc_snapshots-tables}

abbrev manifest : String → String → SnapshotManifest
manifest id table = record {
  schema_version = 1;
  chunk_row_schema_version = 1;
  snapshot_id = id;
  parent_snapshot_id = none;
  created_at = "";
  canonical_root = "/repo";
  store_id = "store";
  config_fingerprint = "c";
  ignore_fingerprint = "i";
  lease_epoch = 1;
  git = record { head_sha = none; dirty = false; untracked_included = true };
  segments =
      record {
        kind = "delta";
        ref_type = "lancedb_table";
        table = table;
        rows = 2;
        size_bytes = 20;
        sha256 = "x";
      }
      ∷ [];
  tombstones =
      record {
        ref_type = "jsonl";
        path = "snapshots/s0/tombstones.jsonl";
        count = 1;
        size_bytes = 5;
        sha256 = "z";
      }
      ∷ [];
  counts = record { files_indexed = 1; chunks_indexed = 2; tombstones_added = 1 };
  degraded = false;
  errors = [];
}

abbrev entry : String → String → ℕ → SnapshotEntry
entry id table created_at = record {
  snapshot_id = id;
  created_at = created_at;
  manifest = manifest id table;
}

abbrev dir : String → String → ℕ → DirEntry
dir id table created_at = record {
  is_dir = true;
  manifest = some (manifest id table);
  created_at = some created_at;
}

abbrev dirs : List DirEntry
dirs = dir "s0" "seg_s0" 0 ∷ dir "s1" "seg_s1" 10000000 ∷ []

abbrev entries : List SnapshotEntry
entries = entry "s0" "seg_s0" 0 ∷ entry "s1" "seg_s1" 10000000 ∷ []

abbrev options : GcOptions
options = record {
  dry_run = false;
  pinned = [];
  min_keep = 1;
  min_age_secs = 1000;
  safety_window_ms = 60000;
}

abbrev store : GcStore
store = record {
  dirs = ("s0", record { path = "snapshots/s0/tombstones.jsonl"; is_dir = false } ∷ []) ∷ [];
  tables = "seg_s0" ∷ "seg_s1" ∷ "other" ∷ [];
}

abbrev active : Option String
active = some "s1"

abbrev drops : String → Bool
drops table = true

gc_snapshots-Keeps_example :
    Keeps
      (entry "s1" "seg_s1" 10000000)
      store
      (gc_snapshots drops options 20000000 active dirs store).store
unfolding load_entries loaded_entry gc_snapshots gc_delete retained sort_newest insert_newest
    is_young
gc_snapshots-Keeps_example =
    gc_snapshots-Keeps drops options 20000000 active dirs store (entry "s1" "seg_s1" 10000000)
      (mem-cons_of_mem _ mem-cons_self) refl

gc_snapshots-tables_example :
    contains (gc_snapshots drops options 20000000 active dirs store).store.tables "seg_s0" ≡ (
      contains store.tables "seg_s0"
      && (options.dry_run
          || not (starts_with "seg_" "seg_s0")
          || not (drops "seg_s0")
          || any
              (λ e. contains (tables e.manifest.segments) "seg_s0")
              (retained_entries
                (gc_snapshots drops options 20000000 active dirs store).retained_snapshots
                (sort_newest (load_entries dirs)))))
gc_snapshots-tables_example = gc_snapshots-tables drops options 20000000 active dirs store "seg_s0"

retained_sound_example :
    (active ≢ some "s0")
    × (contains options.pinned "s0" ≡ false)
    × (options.min_age_secs < (20000000 - 0) / 1000)
    × (options.safety_window_ms / 1000 < (20000000 - 0) / 1000)
    × (max options.min_keep 1
        ≤ length (
            filter
              (λ f.
                leb 0 f.created_at
                && contains (retained options 20000000 active (sort_newest entries)) f.snapshot_id)
              entries))
unfolding retained sort_newest insert_newest is_young
retained_sound_example =
    retained_sound options 20000000 active entries (entry "s0" "seg_s0" 0) (omega arith)
      (omega arith) mem-cons_self refl
