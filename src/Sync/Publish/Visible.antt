-- ===== src/Sync/Publish/Visible.antt =====
-- What a query sees of a file before and after a sync.
use mathlib.Core.List.{append-nil}
use goodgrep.Prelude.{
  ◌≡◌, sym, ap, ◌∙◌, String, Bool, true, false, ◌||◌, List, [], ◌∷◌, ◌++◌, map, Option, some, arith,
  ◌⊎◌, inl, inr,
}
use goodgrep.Prelude.Tests.{ltb, ◌==◌, string_key, if◌then◌else◌, Bool-cases}
use goodgrep.Prelude.Lists.{contains, length}
use goodgrep.Prelude.Results.{ok}
use goodgrep.Snapshot.Manifest.{SnapshotManifest}
use goodgrep.Snapshot.View.{SnapshotView, is_visible, from_manifest, Store, live, of_path}
use goodgrep.Snapshot.View.Live.{
  path_live, of_path-live, path_live-append, path_live-congr, path_live_hidden, path_live_one,
  path_live_none,
}
use goodgrep.Sync.Publish.{
  Parent, Staged, TombstoneEntry, Caps, RunInfo, tombstone_keys, or_empty, next_index,
  next_manifest,
}
use goodgrep.Snapshot.Manager.{SegmentMetadata, TombstoneArtifact}
use goodgrep.Sync.Publish.Index.{next_index-lookup}
use goodgrep.Sync.Publish.Refines.{Next, from_manifest-Next}

-- Which tables show a file, after the sync.
is_visible-Next :
    (p : Parent) (s : Staged) (v w : SnapshotView)
    → Next p s v w
    → s.indexed ≡ length s.indexed_paths
    → (path t : String)
    → is_visible w path (some t) ≡ (
        if contains s.indexed_paths path
        then if contains (tombstone_keys s.tombstones) path || contains v.tombstones path
          then s.segment_table == t
          else true
        else if contains (tombstone_keys s.tombstones) path
        then false
        else is_visible v path (some t))
unfolding is_visible
is_visible-Next p s v w n count path t =
    rw (n.tombstones path, n.index, n.index_before, next_index-lookup p s path count)
      (ground (arith, string_key.same_iff t s.segment_table, string_key.same_iff s.segment_table t))

is_visible_free :
    (v : SnapshotView) (path : String) (table : Option String)
    → contains v.tombstones path ≡ false
    → is_visible v path table ≡ true
unfolding is_visible
is_visible_free v path table h = rw h

contains-length : (xs : List String) (a : String) → contains xs a ≡ true → ltb 0 (length xs) ≡ true
contains-length [] a h = cc
contains-length (x ∷ xs) a h = ground arith

module _ {A : Type 0} where
  -- The rows of a path in the next snapshot: those of the parent's tables, then the new table's.
  path_live-Next :
      (p : Parent) (s : Staged) (v w : SnapshotView) (store : Store A) (path : String)
      → Next p s v w
      → of_path path (live w store)
        ≡ path_live w store path v.segment_tables
          ++ (if ltb 0 s.indexed then path_live w store path (s.segment_table ∷ []) else [])
  path_live-Next p s v w store path n =
      of_path-live w store path ∙ split (Bool-cases (ltb 0 s.indexed))
    where
      split :
          (ltb 0 s.indexed ≡ true) ⊎ (ltb 0 s.indexed ≡ false)
          → path_live w store path w.segment_tables
            ≡ path_live w store path v.segment_tables
              ++ (if ltb 0 s.indexed then path_live w store path (s.segment_table ∷ []) else [])
      split (inl staged) =
          ap (path_live w store path) n.segment_tables
          ∙ rw staged (path_live-append w store path v.segment_tables (s.segment_table ∷ []))
      split (inr empty) =
          ap (path_live w store path) n.segment_tables
          ∙ rw empty (sym (append-nil (path_live w store path v.segment_tables)))

  indexed_live :
      (p : Parent) (s : Staged) (v w : SnapshotView) (store : Store A) (path : String)
      → Next p s v w
      → s.indexed ≡ length s.indexed_paths
      → contains v.segment_tables s.segment_table ≡ false
      → contains s.indexed_paths path ≡ true
      → ((contains (tombstone_keys s.tombstones) path || contains v.tombstones path) ≡ true)
        ⊎ (of_path path (live v store) ≡ [])
      → of_path path (live w store) ≡ of_path path (store s.segment_table)
  indexed_live p s v w store path n count fresh here replaced =
      path_live-Next p s v w store path n
      ∙ rw (
        count,
        contains-length s.indexed_paths path here,
        old,
        path_live_one w store path s.segment_table new_visible,
      )
    where
      new_visible : is_visible w path (some s.segment_table) ≡ true
      new_visible = ground (
        arith,
        is_visible-Next p s v w n count path s.segment_table,
        string_key.same_iff s.segment_table s.segment_table,
      )

      old : path_live w store path v.segment_tables ≡ []
      old =
          elim (Bool-cases
            (contains (tombstone_keys s.tombstones) path || contains v.tombstones path)) [
              | inl tombstoned ↦ path_live_hidden w store path v.segment_tables (λ t h. ground (
                arith,
                is_visible-Next p s v w n count path t,
                string_key.same_iff s.segment_table t,
              ))
              | inr free ↦ ground (
                arith,
                path_live-congr w v store path v.segment_tables (λ t h. ground (
                  arith,
                  is_visible-Next p s v w n count path t,
                  is_visible_free v path (some t),
                )),
                of_path-live v store path,
              )
            ]

  untouched_live :
      (p : Parent) (s : Staged) (v w : SnapshotView) (store : Store A) (path : String)
      → Next p s v w
      → s.indexed ≡ length s.indexed_paths
      → contains s.indexed_paths path ≡ false
      → of_path path (store s.segment_table) ≡ []
      → of_path path (live w store)
        ≡ (if contains (tombstone_keys s.tombstones) path then [] else of_path path (live v store))
  untouched_live p s v w store path n count absent no_rows =
      path_live-Next p s v w store path n
      ∙ split (Bool-cases (contains (tombstone_keys s.tombstones) path))
    where
      shown :
          (t : String)
          → is_visible w path (some t) ≡ (
              if contains (tombstone_keys s.tombstones) path
              then false
              else is_visible v path (some t))
      shown t = ground (arith, is_visible-Next p s v w n count path t)

      split :
          (contains (tombstone_keys s.tombstones) path ≡ true)
            ⊎ (contains (tombstone_keys s.tombstones) path ≡ false)
          → (path_live w store path v.segment_tables
              ++ (if ltb 0 s.indexed then path_live w store path (s.segment_table ∷ []) else []))
            ≡ (if contains (tombstone_keys s.tombstones) path
                then []
                else of_path path (live v store))
      split (inl deleted) = ground (
        arith,
        path_live_none w store path s.segment_table no_rows,
        path_live_hidden w store path v.segment_tables (λ t h. ground (arith, shown t)),
      )
      split (inr kept) = ground (
        arith,
        path_live_none w store path s.segment_table no_rows,
        path_live-congr w v store path v.segment_tables (λ t h. ground (arith, shown t)),
        of_path-live v store path,
        append-nil (path_live v store path v.segment_tables),
      )

  -- A sync shows the newly indexed rows of every file that it indexed, no rows of a file that it only
  -- tombstoned, and the parent's rows of every other file; for a view `w` of the next snapshot over a
  -- view `v` of its parent, whose artifacts read back what was written, where `indexed` counts the
  -- indexed paths, the new table's name is fresh and holds rows of indexed paths only, and every
  -- indexed path that had live rows is tombstoned, now or in the parent.
  pub next_manifest-live :
      (read : String → Option (List String)) (is_blank : String → Bool)
      (from_str : String → Option String) (to_line : TombstoneEntry → String)
      → ((t : TombstoneEntry)
          → (is_blank (to_line t) ≡ false) × (from_str (to_line t) ≡ some t.path_key))
      → (caps : Caps) (run : RunInfo) (allow_degraded : Bool) (p : Parent) (s : Staged)
        (metadata : SegmentMetadata) (path : String) (artifact : TombstoneArtifact)
        (m : SnapshotManifest) (v w : SnapshotView)
      → from_manifest read is_blank from_str p.manifest (or_empty p.index) ≡ ok v
      → next_manifest caps run allow_degraded (some p) s metadata path artifact ≡ ok m
      → read path ≡ some (map to_line s.tombstones)
      → from_manifest read is_blank from_str m (next_index (some p) s) ≡ ok w
      → (store : Store A) (path_key : String) → s.indexed ≡ length s.indexed_paths
      → contains v.segment_tables s.segment_table ≡ false
      → ((contains s.indexed_paths path_key ≡ true)
          ⊎ (of_path path_key (store s.segment_table) ≡ []))
      → ((contains (tombstone_keys s.tombstones) path_key || contains v.tombstones path_key) ≡ true)
        ⊎ (of_path path_key (live v store) ≡ [])
        ⊎ (contains s.indexed_paths path_key ≡ false)
      → of_path path_key (live w store) ≡ (
          if contains s.indexed_paths path_key
          then of_path path_key (store s.segment_table)
          else if contains (tombstone_keys s.tombstones) path_key
          then []
          else of_path path_key (live v store))
  next_manifest-live read is_blank from_str to_line laws caps run allow p s metadata path artifact m
        v w before next written after store path_key count fresh own replaced =
      split (Bool-cases (contains s.indexed_paths path_key))
    where
      n : Next p s v w
      n =
          from_manifest-Next read is_blank from_str to_line laws caps run allow p s metadata path
            artifact m v w before next written after

      split :
          (contains s.indexed_paths path_key ≡ true) ⊎ (contains s.indexed_paths path_key ≡ false)
          → of_path path_key (live w store) ≡ (
              if contains s.indexed_paths path_key
              then of_path path_key (store s.segment_table)
              else if contains (tombstone_keys s.tombstones) path_key
              then []
              else of_path path_key (live v store))
      split (inl here) =
          rw here
            (indexed_live p s v w store path_key n count fresh here (ground (arith, replaced)))
      split (inr absent) =
          rw absent (untouched_live p s v w store path_key n count absent (ground (arith, own)))
