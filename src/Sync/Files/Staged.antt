-- ===== src/Sync/Files/Staged.antt =====
-- What a sync has staged after the loop over the files.
use goodgrep.Prelude.{
  ℕ, ◌+◌, String, Bool, true, false, not, ◌&&◌, ◌≡◌, refl, subst, List, [], ◌∷◌, arith, inl, inr,
}
use goodgrep.Prelude.Tests.{Key, ltb, nat_key, string_key, if◌then◌else◌, Bool-cases}
use goodgrep.Prelude.Lists.{contains, is_empty, length}
use goodgrep.Prelude.Results.{ok, err, Result-cases}
use goodgrep.Prelude.Maps.{lookup, remove}
use goodgrep.Search.Snippets.{saturating_add}
use goodgrep.Sync.Publish.{tombstone_keys as keys_of}
use goodgrep.Sync.Files.{
  FileMeta, File, SyncState, SyncError, RunOptions, Parts, push_tombstone, discard, is_known,
  flush_queue, readable, unreadable, sync_file, sync_files, delete_paths, initial_state, stage,
  byte_cap_exceeded, files_failed, check_degraded, is_unchanged,
}
use goodgrep.Sync.Files.Absorbed.{row_paths}
use goodgrep.Sync.Files.Batches.{OnOk, bind-OnOk}
use goodgrep.Sync.Files.Rounds.{
  Staging, counts-Pending, push-Staging, drop-Staging, discard-Staging,
}
use goodgrep.Sync.Files.Queued.{KeptBy, flush_queue-Staging}
use goodgrep.Sync.Files.Visited.{branch-Staging, readable-Staging, unreadable-Staging}

module _ {H P V : Type 0} ⦃same : Key H⦄ (parts : Parts H P V) (o : RunOptions)
    (first : List (String × FileMeta H)) (p : String) where
  sync_file-Staging :
      (f : File H) (given : SyncState H P V)
      → Staging first p given
      → KeptBy parts o first p (sync_file parts o f given)
  unfolding sync_file unreadable readable
  sync_file-Staging f given i =
      let s : SyncState H P V = record given { processed = given.processed + 1 } in
      let skipped : SyncState H P V = record s { skipped = s.skipped + 1 } in
      let bytes : ℕ = saturating_add s.bytes_processed f.current_size in
      let read : SyncState H P V = record s { bytes_processed = bytes } in
      let j : Staging first p skipped = counts-Pending first p _ _ _ _ _ _ _ _ _ given i in
      let k : Staging first p read = counts-Pending first p _ _ _ _ _ _ _ _ _ given i in
      elim (Bool-cases (ltb o.max_file_size f.current_size)) [
        | inl large ↦ rw large (elim (Bool-cases o.dry_run) [
          | inl dry ↦ rw dry j
          | inr real ↦ rw real (
              counts-Pending first p _ _ _ _ _ _ _ _ _ (discard f.path_key skipped)
                (discard-Staging first p f.path_key skipped j))
        ])
        | inr fits ↦ rw fits (
            branch-Staging parts o first p (is_unchanged parts o f (lookup f.path_key s.meta))
              (ok skipped) _ j
              (branch-Staging parts o first p (ltb o.max_bytes_per_sync bytes)
                (err byte_cap_exceeded) _ tt
                (elim (Result-cases f.content) [
                  | inl (content, good) ↦
                      rw good (readable-Staging parts o first p f content read k)
                  | inr (e, bad) ↦ rw bad (unreadable-Staging parts o first p f e read k)
                ])))
      ]

  sync_files-Staging :
      (files : List (File H)) (s : SyncState H P V)
      → Staging first p s
      → KeptBy parts o first p (sync_files parts o files s)
  unfolding sync_files
  sync_files-Staging [] s i =
      branch-Staging parts o first p (not o.dry_run && not (is_empty s.embed_queue))
        (flush_queue parts.embed parts.insert_error s) (ok s)
        (flush_queue-Staging parts o first p s i) i
  sync_files-Staging (f ∷ files) s i =
      bind-OnOk {E = SyncError} {A = SyncState H P V} {B = SyncState H P V} (Staging first p)
        (Staging first p) (sync_file parts o f s) (sync_files parts o files)
        (sync_file-Staging f s i) (λ t j. sync_files-Staging files t j)

  forgotten-Staging :
      (dry_run : Bool) (key reason : String) (s : SyncState H P V)
      → Staging first p s
      → let t = push_tombstone key reason s in
        Staging first p (if dry_run then t else record t { meta = remove key t.meta })
  forgotten-Staging true key reason s i = push-Staging first p key reason s i
  forgotten-Staging false key reason s i = drop-Staging first p key reason s i

  delete_paths-Staging :
      (rename_from paths : List String) (s : SyncState H P V)
      → Staging first p s
      → Staging first p (delete_paths parts o rename_from paths s)
  unfolding delete_paths
  delete_paths-Staging rename_from [] s i = i
  delete_paths-Staging rename_from (path ∷ paths) s i =
      let reason : String = if contains rename_from path then "rename_from" else "delete" in
      let t : SyncState H P V = push_tombstone path reason s in
      delete_paths-Staging rename_from paths
        (if o.dry_run then t else record t { meta = remove path t.meta })
        (forgotten-Staging o.dry_run path reason s i)

  initial-Staging : Staging first p (initial_state parts o first)
  initial-Staging = record {
    kept = record { recorded = refl; known = ground arith; replaced = ground arith };
    waiting = ground arith;
    still = refl;
    queued = refl;
    own_rows = refl;
  }

  check_degraded-Staging :
      (s : SyncState H P V) → Staging first p s → KeptBy parts o first p (check_degraded parts o s)
  unfolding check_degraded
  check_degraded-Staging s i =
      branch-Staging parts o first p (not (is_empty s.degraded_errors) && not o.allow_degraded)
        (err files_failed) (ok s) tt i

  pub stage-Staging :
      (rename_from deleted_paths : List String) (files : List (File H))
      → KeptBy parts o first p (stage parts o first rename_from deleted_paths files)
  unfolding stage
  stage-Staging rename_from deleted_paths files =
      let s : SyncState H P V =
        delete_paths parts o rename_from deleted_paths (initial_state parts o first) in
      bind-OnOk {E = SyncError} {A = SyncState H P V} {B = SyncState H P V} (Staging first p)
        (Staging first p)
        (sync_files parts o files (record s { deleted_count = length deleted_paths }))
        (check_degraded parts o)
        (sync_files-Staging files (record s { deleted_count = length deleted_paths })
          (counts-Pending first p _ _ _ _ _ _ _ _ _ s (
            delete_paths-Staging rename_from deleted_paths (initial_state parts o first)
              initial-Staging)))
        check_degraded-Staging

-- A sync that stages without an error has, for every path:
-- a tombstone in the artifact exactly if the path is in the set of tombstoned paths; a tombstone if the
-- path was indexed and was known to the metadata before the sync; a tombstone or metadata, if it
-- was known before the sync; and rows in the new table only if the path was indexed. This holds
-- for every content of the files, chunker, embedder and option, degraded runs included.
pub stage-Staged :
    {H P V : Type 0} ⦃same : Key H⦄ (parts : Parts H P V) (o : RunOptions)
    (meta : List (String × FileMeta H)) (rename_from deleted_paths : List String)
    (files : List (File H)) (s : SyncState H P V)
    → stage parts o meta rename_from deleted_paths files ≡ ok s
    → (p : String)
    → (contains (keys_of s.tombstones) p ≡ contains s.tombstone_keys p)
      × ((is_known (lookup p meta)
            && contains s.indexed_paths p
            && not (contains (keys_of s.tombstones) p))
          ≡ false)
      × ((is_known (lookup p meta)
            && not (is_known (lookup p s.meta))
            && not (contains (keys_of s.tombstones) p))
          ≡ false)
      × ((contains (row_paths s.rows) p && not (contains s.indexed_paths p)) ≡ false)
stage-Staged parts o meta rename_from deleted_paths files s done p =
    let i : Staging meta p s =
      subst (OnOk (Staging meta p)) done
        (stage-Staging parts o meta p rename_from deleted_paths files) in
    (
      i.kept.recorded,
      ground (arith, i.kept.recorded, i.kept.replaced),
      ground (arith, i.kept.recorded, i.kept.known),
      ground (arith, i.own_rows),
    )
