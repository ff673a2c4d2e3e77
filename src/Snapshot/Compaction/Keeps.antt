-- ===== src/Snapshot/Compaction/Keeps.antt =====
-- What a query sees before and after a compaction.
use mathlib.Core.List.{append-nil}
use goodgrep.Prelude.{
  ◌≡◌, sym, ap, ◌∙◌, String, Bool, true, false, List, [], ◌∷◌, ◌++◌, Option, arith, inl, inr, ◌⊎◌,
}
use goodgrep.Prelude.Tests.{ltb, string_key, if◌then◌else◌, Bool-cases}
use goodgrep.Prelude.Lists.{contains, filter-append}
use goodgrep.Prelude.Results.{ok}
use goodgrep.Snapshot.Manifest.{SnapshotManifest, tables}
use goodgrep.Snapshot.View.{SnapshotView, from_manifest, Row, Store, live, of_path}
use goodgrep.Snapshot.View.Load.{from_manifest-ok, load_tombstones-nil}
use goodgrep.Snapshot.View.Live.{path_live, of_path-live, path_live_all, path_live-nil}
use goodgrep.Snapshot.Compaction.{
  CompactionRun, CompactionBuild, build_compaction_segment, compacted_manifest, compacted_segments,
}
use goodgrep.Snapshot.Compaction.Build.{
  concat, empty_of_length, kept_rows, rows_of, Holds, build_compaction_segment-Holds,
}

module _ {A : Type 0} where
  of_path-kept_rows :
      (ts : List String) (path : String) (rows : List (Row A))
      → of_path path (kept_rows ts rows) ≡ (if contains ts path then [] else of_path path rows)
  of_path-kept_rows ts path [] = ground arith
  of_path-kept_rows ts path (r ∷ rows) =
      ground (arith, of_path-kept_rows ts path rows, string_key.same_iff r.path_key path)

  -- Without a tombstone, all rows of a path are live.
  path_live-rows_of :
      (v : SnapshotView) (scan : String → List (List (Row A))) (path : String)
      → contains v.tombstones path ≡ false
      → (us : List String)
      → path_live v (λ t. concat (scan t)) path us ≡ of_path path (rows_of scan us)
  path_live-rows_of v scan path free [] = path_live-nil v _ path
  path_live-rows_of v scan path free (u ∷ us) =
      path_live_all v _ path u us free
      ∙ ap (◌++◌ (of_path path (concat (scan u)))) (path_live-rows_of v scan path free us)
      ∙ sym (filter-append _ (concat (scan u)) (rows_of scan us))

  tables-compacted_segments :
      (run : CompactionRun) (b : CompactionBuild A)
      → tables (compacted_segments run b) ≡ (if ltb 0 b.rows_after then run.table_name ∷ [] else [])
  unfolding compacted_segments
  tables-compacted_segments run b = ground arith

  segment_live :
      (run : CompactionRun) (b : CompactionBuild A) (w : SnapshotView) (store : Store A)
      (path : String) {held : List (Row A)}
      → Holds held b
      → w.segment_tables ≡ tables (compacted_segments run b)
      → contains w.tombstones path ≡ false
      → store run.table_name ≡ b.rows
      → of_path path (live w store) ≡ of_path path held
  segment_live run b w store path {held} h named free written =
      of_path-live w store path
      ∙ ap (path_live w store path) (named ∙ tables-compacted_segments run b)
      ∙ split (Bool-cases (ltb 0 b.rows_after))
    where
      split :
          (ltb 0 b.rows_after ≡ true) ⊎ (ltb 0 b.rows_after ≡ false)
          → path_live w store path (if ltb 0 b.rows_after then run.table_name ∷ [] else [])
            ≡ of_path path held
      split (inl some_rows) = rw (
        some_rows,
        path_live_all w store path run.table_name [] free,
        path_live-nil w store path,
        append-nil (of_path path (store run.table_name)),
        written,
        h.rows,
      )
      split (inr no_rows) =
          rw (
            no_rows,
            path_live-nil w store path,
            empty_of_length held (ground (arith, h.rows_after)),
          )

  compacted_view :
      (read : String → Option (List String)) (is_blank : String → Bool)
      (from_str : String → Option String) (run : CompactionRun) (id : String)
      (base : SnapshotManifest) (b : CompactionBuild A) (index : List (String × String))
      (w : SnapshotView)
      → from_manifest read is_blank from_str (compacted_manifest run id base b) index ≡ ok w
      → (w.tombstones ≡ []) × (w.segment_tables ≡ tables (compacted_segments run b))
  unfolding compacted_manifest
  compacted_view read is_blank from_str run id base b index w after = ground (
    arith,
    from_manifest-ok read is_blank from_str (compacted_manifest run id base b) index w after,
    load_tombstones-nil read is_blank from_str [],
  )

  -- A compaction keeps the live rows of every file without a tombstone, and no row of a file that has
  -- one; for views `v` of the base snapshot and `w` of the compacted one, over tables that hold the
  -- scanned rows before, and the built segment after.
  pub compacted_manifest-live :
      (read : String → Option (List String)) (is_blank : String → Bool)
      (from_str : String → Option String) (run : CompactionRun) (base : SnapshotManifest)
      (index index_after : List (String × String)) (v w : SnapshotView)
      (scan : String → List (List (Row A))) (store : Store A) (path : String)
      → from_manifest read is_blank from_str base index ≡ ok v
      → from_manifest read is_blank from_str
          (compacted_manifest run base.snapshot_id base
            (build_compaction_segment scan base v.tombstones))
          index_after
        ≡ ok w
      → store run.table_name ≡ (build_compaction_segment scan base v.tombstones).rows
      → of_path path (live w store)
        ≡ (if contains v.tombstones path then [] else of_path path (live v (λ t. concat (scan t))))
  compacted_manifest-live read is_blank from_str run base index index_after v w scan store path
        before after written =
      segment_live run _ w store path (build_compaction_segment-Holds scan base v.tombstones)
        opened.1 (ap (λ ts. contains ts path) opened.0) written
      ∙ of_path-kept_rows v.tombstones path (rows_of scan (tables base.segments))
      ∙ split (Bool-cases (contains v.tombstones path))
    where
      opened :
          (w.tombstones ≡ [])
          × (w.segment_tables
              ≡ tables (compacted_segments run (build_compaction_segment scan base v.tombstones)))
      opened = compacted_view read is_blank from_str run base.snapshot_id base _ index_after w after

      tables_v : v.segment_tables ≡ tables base.segments
      tables_v = (from_manifest-ok read is_blank from_str base index v before).1

      split :
          (contains v.tombstones path ≡ true) ⊎ (contains v.tombstones path ≡ false)
          → (if contains v.tombstones path
              then []
              else of_path path (rows_of scan (tables base.segments)))
            ≡ (if contains v.tombstones path
                then []
                else of_path path (live v (λ t. concat (scan t))))
      split (inl dead) = rw dead
      split (inr free) =
          rw (free, sym tables_v)
            (sym (of_path-live v _ path ∙ path_live-rows_of v scan path free v.segment_tables))
