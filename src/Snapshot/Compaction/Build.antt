-- ===== src/Snapshot/Compaction/Build.antt =====
-- What a compaction's segment holds.
use mathlib.Core.List.{append-nil, append_assoc}
use goodgrep.Prelude.{
  ◌+◌, min, ◌≡◌, refl, sym, ap, ◌∙◌, String, not, ◌||◌, List, [], ◌∷◌, ◌++◌, arith, ◌≤◌,
}
use goodgrep.Prelude.Tests.{nat_key, string_key}
use goodgrep.Prelude.Lists.{length, length-append, contains, contains-append, filter, filter-append}
use goodgrep.Prelude.Maps.{add, contains-add}
use goodgrep.Snapshot.Manifest.{SnapshotManifest, SnapshotSegmentRef, tables}
use goodgrep.Snapshot.View.{Row}
use goodgrep.Snapshot.Compaction.{
  CompactionBuild, filter_batch, append_batch, append_batches, append_segments,
  build_compaction_segment, u64_max,
}

module _ {A : Type 0} where
  -- The batches of a table, as its rows.
  abbrev pub concat : List (List (Row A)) → List (Row A)
  concat [] = []
  concat (b ∷ bs) = b ++ concat bs

  abbrev pub kept_rows : List String → List (Row A) → List (Row A)
  kept_rows tombstones = filter (λ r. not (contains tombstones r.path_key))

  abbrev pub paths : List (Row A) → List String
  paths [] = []
  paths (r ∷ rs) = r.path_key ∷ paths rs

  abbrev pub rows_of : (String → List (List (Row A))) → List String → List (Row A)
  rows_of scan [] = []
  rows_of scan (t ∷ ts) = concat (scan t) ++ rows_of scan ts

  paths-append : (rs qs : List (Row A)) → paths (rs ++ qs) ≡ paths rs ++ paths qs
  paths-append [] qs = refl
  paths-append (r ∷ rs) qs = ap (◌∷◌ r.path_key) (paths-append rs qs)

  batch-filter_batch :
      (ts : List String) (rows : List (Row A)) (keys : List String)
      → (filter_batch ts rows keys).batch ≡ kept_rows ts rows
  unfolding filter_batch
  batch-filter_batch ts [] keys = refl
  batch-filter_batch ts (r ∷ rows) keys =
      ground
        (arith, batch-filter_batch ts rows keys, batch-filter_batch ts rows (add r.path_key keys))

  kept-filter_batch :
      (ts : List String) (rows : List (Row A)) (keys : List String)
      → (filter_batch ts rows keys).kept ≡ length (kept_rows ts rows)
  unfolding filter_batch
  kept-filter_batch ts [] keys = refl
  kept-filter_batch ts (r ∷ rows) keys =
      ground
        (arith, kept-filter_batch ts rows keys, kept-filter_batch ts rows (add r.path_key keys))

  path_keys-filter_batch :
      (ts : List String) (rows : List (Row A)) (keys : List String) (k : String)
      → contains (filter_batch ts rows keys).path_keys k
        ≡ (contains keys k || contains (paths (kept_rows ts rows)) k)
  unfolding filter_batch
  path_keys-filter_batch ts [] keys k = ground arith
  path_keys-filter_batch ts (r ∷ rows) keys k = ground (
    arith,
    path_keys-filter_batch ts rows keys k,
    path_keys-filter_batch ts rows (add r.path_key keys) k,
    contains-add r.path_key k keys,
  )

  pub empty_of_length : (rs : List (Row A)) → length rs ≡ 0 → rs ≡ []
  empty_of_length [] h = refl
  empty_of_length (r ∷ rs) h = absurd (omega arith)

  rows-append_batch :
      (ts : List String) (batch : List (Row A)) (b : CompactionBuild A)
      → (append_batch ts batch b).rows ≡ b.rows ++ kept_rows ts batch
  unfolding append_batch
  rows-append_batch ts batch b = ground (
    arith,
    kept-filter_batch ts batch b.path_keys,
    batch-filter_batch ts batch b.path_keys,
    empty_of_length (kept_rows ts batch),
    append-nil b.rows,
  )

  rows_after-append_batch :
      (ts : List String) (batch : List (Row A)) (b : CompactionBuild A)
      → b.rows_after ≤ u64_max
      → (append_batch ts batch b).rows_after
        ≡ min (b.rows_after + length (kept_rows ts batch)) u64_max
  unfolding append_batch
  rows_after-append_batch ts batch b small = ground (arith, kept-filter_batch ts batch b.path_keys)

  path_keys-append_batch :
      (ts : List String) (batch : List (Row A)) (b : CompactionBuild A) (k : String)
      → contains (append_batch ts batch b).path_keys k
        ≡ (contains b.path_keys k || contains (paths (kept_rows ts batch)) k)
  unfolding append_batch
  path_keys-append_batch ts batch b k =
      ground (arith, path_keys-filter_batch ts batch b.path_keys k)

  -- What a build holds: some rows, their number up to saturation, and the set of their paths.
  pub record Holds (held : List (Row A)) (b : CompactionBuild A) : Type 0 where
    pub rows : b.rows ≡ held
    pub rows_after : b.rows_after ≡ min (length held) u64_max
    pub path_keys : (k : String) → contains b.path_keys k ≡ contains (paths held) k

  append_batch-Holds :
      (ts : List String) (batch : List (Row A)) (b : CompactionBuild A) {held : List (Row A)}
      → Holds held b
      → Holds (held ++ kept_rows ts batch) (append_batch ts batch b)
  append_batch-Holds ts batch b {held} h = record {
    rows = rows-append_batch ts batch b ∙ ap (λ rs. rs ++ kept_rows ts batch) h.rows;
    rows_after = omega (
      arith,
      h.rows_after,
      rows_after-append_batch ts batch b (omega (arith, h.rows_after)),
      length-append held (kept_rows ts batch),
    );
    path_keys = λ k. ground (
      arith,
      h.path_keys k,
      path_keys-append_batch ts batch b k,
      paths-append held (kept_rows ts batch),
      contains-append (paths held) (paths (kept_rows ts batch)) k,
    );
  }

  append_batches-Holds :
      (ts : List String) (batches : List (List (Row A))) (b : CompactionBuild A)
      (held : List (Row A))
      → Holds held b
      → Holds (held ++ kept_rows ts (concat batches)) (append_batches ts batches b)
  unfolding append_batches
  append_batches-Holds ts [] b held h = rw (append-nil held) h
  append_batches-Holds ts (batch ∷ batches) b held h =
      rw
        (
          filter-append (λ (r : Row A). not (contains ts r.path_key)) batch (concat batches),
          sym (append_assoc held (kept_rows ts batch) (kept_rows ts (concat batches))),
        )
        (append_batches-Holds ts batches _ _ (append_batch-Holds ts batch b h))

  append_segments-Holds :
      (scan : String → List (List (Row A))) (ts : List String) (segments : List SnapshotSegmentRef)
      (b : CompactionBuild A) (held : List (Row A))
      → Holds held b
      → Holds
          (held ++ kept_rows ts (rows_of scan (tables segments)))
          (append_segments scan ts segments b)
  unfolding append_segments
  append_segments-Holds scan ts [] b held h = rw (append-nil held) h
  append_segments-Holds scan ts (g ∷ gs) b held h =
      rw
        (
          filter-append (λ (r : Row A). not (contains ts r.path_key)) (concat (scan g.table))
              (rows_of scan (tables gs)),
          sym (
              append_assoc held (kept_rows ts (concat (scan g.table)))
                (kept_rows ts (rows_of scan (tables gs)))),
        )
        (append_segments-Holds scan ts gs _ _ (append_batches-Holds ts (scan g.table) b held h))

  -- The segment that a compaction builds holds, in order, the rows of the manifest's tables whose path
  -- is in no tombstone; `rows_after` is their number, or the greatest `u64` if that is smaller; and
  -- `path_keys` are the paths of those rows.
  pub build_compaction_segment-Holds :
      (scan : String → List (List (Row A))) (m : SnapshotManifest) (ts : List String)
      → Holds (kept_rows ts (rows_of scan (tables m.segments))) (build_compaction_segment scan m ts)
  unfolding build_compaction_segment
  build_compaction_segment-Holds scan m ts =
      append_segments-Holds scan ts m.segments _ []
        (record { rows = refl; rows_after = omega arith; path_keys = λ k. refl })
