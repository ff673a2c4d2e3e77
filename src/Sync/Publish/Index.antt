-- ===== src/Sync/Publish/Index.antt =====
-- The segment file index of the next snapshot, key by key.
use goodgrep.Prelude.{◌≡◌, String, List, none, some, arith, [], ◌∷◌, refl}
use goodgrep.Prelude.Tests.{string_key, if◌then◌else◌}
use goodgrep.Prelude.Lists.{contains, length}
use goodgrep.Prelude.Maps.{lookup, remove_all, lookup-insert_all, lookup-remove_all}
use goodgrep.Sync.Publish.{Parent, Staged, tombstone_keys, or_empty, next_index}

contains-empty : (xs : List String) (a : String) → 0 ≡ length xs → contains xs a ≡ contains [] a
contains-empty [] a h = refl
contains-empty (x ∷ xs) a h = absurd (omega arith)

-- If `indexed` counts the indexed files, then a file that was indexed is found in the new table; one
-- that was tombstoned and not indexed is in no table; any other is where the parent has it.
pub next_index-lookup :
    (p : Parent) (s : Staged) (path : String)
    → s.indexed ≡ length s.indexed_paths
    → lookup path (next_index (some p) s) ≡ (
        if contains s.indexed_paths path
        then some s.segment_table
        else if contains (tombstone_keys s.tombstones) path
        then none
        else lookup path (or_empty p.index))
unfolding next_index
next_index-lookup p s path h = ground (
  arith,
  contains-empty s.indexed_paths path,
  lookup-insert_all s.indexed_paths s.segment_table
      (remove_all (tombstone_keys s.tombstones) (or_empty p.index)) path,
  lookup-remove_all (tombstone_keys s.tombstones) (or_empty p.index) path,
)
