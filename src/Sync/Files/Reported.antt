-- ===== src/Sync/Files/Reported.antt =====
-- Every file of a sync is in its counts.
use goodgrep.Prelude.{
  ℕ, suc, ◌+◌, ◌≤◌, String, true, false, not, ◌&&◌, ◌≡◌, refl, ap, subst, ◌∙◌, List, [], ◌∷◌, arith,
  inl, inr,
}
use goodgrep.Prelude.Tests.{Key, ltb, nat_key, string_key, if◌then◌else◌, Bool-cases}
use goodgrep.Prelude.Lists.{contains, is_empty, length}
use goodgrep.Prelude.Results.{Result, ok, err, Result-cases}
use goodgrep.Prelude.Maps.{lookup, remove}
use goodgrep.Search.Snippets.{saturating_add}
use goodgrep.Sync.Files.{
  FileMeta, File, PendingEmbed, SyncState, SyncError, RunOptions, Parts, byte_cap_exceeded,
  files_failed, push_tombstone, flush_queue, readable, unreadable, is_unchanged, sync_file,
  sync_files, delete_paths, initial_state, check_degraded, stage,
}
use goodgrep.Sync.Files.Batches.{OnOk, bind-OnOk}
use goodgrep.Sync.Files.Tally.{tally, all_full, push_tombstone-tally, discard-tally}
use goodgrep.Sync.Files.Counted.{
  Counted, branch, readable-Counted, unreadable-Counted, flush_queue-drained, CountedBy,
}

is_empty-length : {A : Type 0} (xs : List A) → is_empty xs ≡ true → length xs ≡ 0
is_empty-length [] h = refl
is_empty-length (x ∷ xs) h = cc

OnOk-later {κ μ} :
    {E A : Type 0} (Q : A → Type κ) (R : A → Type μ) (m : Result E A)
    → ((a : A) → Q a → R a)
    → OnOk Q m
    → OnOk R m
OnOk-later Q R (ok a) later h = later a h
OnOk-later Q R (err e) later h = tt

module _ {H P V : Type 0} ⦃same : Key H⦄ (parts : Parts H P V) (o : RunOptions) where
  sync_file-Counted :
      (n : ℕ) (f : File H) (given : SyncState H P V)
      → Counted n given
      → CountedBy parts o (suc n) (sync_file parts o f given)
  unfolding sync_file unreadable readable
  sync_file-Counted n f given i =
      let s : SyncState H P V = record given { processed = given.processed + 1 } in
      let skipped : SyncState H P V = record s { skipped = s.skipped + 1 } in
      let bytes : ℕ = saturating_add s.bytes_processed f.current_size in
      let read : SyncState H P V = record s { bytes_processed = bytes } in
      let j : Counted (suc n) skipped = record { full = i.full; sum = ground (arith, i.sum) } in
      let k : Counted n read = record { full = i.full; sum = i.sum } in
      let gone = discard-tally f.path_key skipped in
      elim (Bool-cases (ltb o.max_file_size f.current_size)) [
        | inl large ↦ rw large (elim (Bool-cases o.dry_run) [
          | inl dry ↦ rw dry j
          | inr real ↦ rw real (record {
            full = ap (λ c. all_full c.4) gone ∙ i.full;
            sum =
                ground
                  (arith, i.sum, ap (λ c. c.1) gone, ap (λ c. c.2) gone, ap (λ c. length c.4) gone);
          })
        ])
        | inr fits ↦ rw fits (
            branch (CountedBy parts o (suc n)) (is_unchanged parts o f (lookup f.path_key s.meta))
              (ok skipped) _ j
              (branch (CountedBy parts o (suc n)) (ltb o.max_bytes_per_sync bytes)
                (err byte_cap_exceeded) _ tt
                (elim (Result-cases f.content) [
                  | inl (content, good) ↦ rw good (readable-Counted parts o n f content read k)
                  | inr (e, bad) ↦ rw bad (unreadable-Counted parts o n f e read k)
                ])))
      ]

  -- All files are in the counts once the queue is empty.
  abbrev AllCounted : ℕ → SyncState H P V → Type 0
  AllCounted n s = n ≤ s.indexed + s.skipped + s.deleted_count

  sync_files-Counted :
      (n : ℕ) (files : List (File H)) (s : SyncState H P V)
      → o.dry_run ≡ false
      → Counted n s
      → OnOk (AllCounted (n + length files)) (sync_files parts o files s)
  unfolding sync_files
  sync_files-Counted n [] s real i = elim (Bool-cases (is_empty s.embed_queue)) [
    | inl drained ↦
        rw (real, drained) (ground (arith, i.sum, is_empty-length s.embed_queue drained))
    | inr waiting ↦
        rw (real, waiting)
          (OnOk-later (λ t. Counted n t × t.embed_queue ≡ []) (AllCounted (n + 0))
            (flush_queue parts.embed parts.insert_error s)
            (λ t j. ground (arith, j.0.sum, ap (length {A = PendingEmbed H P}) j.1))
            (flush_queue-drained parts o n s i))
  ]
  sync_files-Counted n (f ∷ files) s real i =
      bind-OnOk {E = SyncError} {A = SyncState H P V} {B = SyncState H P V} (Counted (suc n))
        (AllCounted (n + length (f ∷ files))) (sync_file parts o f s) (sync_files parts o files)
        (sync_file-Counted n f s i)
        (λ t j.
          OnOk-later (AllCounted (suc n + length files)) (AllCounted (n + length (f ∷ files)))
            (sync_files parts o files t) (λ u enough. ground (arith, enough))
            (sync_files-Counted (suc n) files t real j))

  delete_paths-tally :
      (rename_from paths : List String) (s : SyncState H P V)
      → tally (delete_paths parts o rename_from paths s) ≡ tally s
  unfolding delete_paths
  delete_paths-tally rename_from [] s = refl
  delete_paths-tally rename_from (path ∷ paths) s =
      let reason : String = if contains rename_from path then "rename_from" else "delete" in
      let t : SyncState H P V = push_tombstone path reason s in
      delete_paths-tally rename_from paths
        (if o.dry_run then t else record t { meta = remove path t.meta })
      ∙ branch (λ u. tally u ≡ tally s) o.dry_run t (record t { meta = remove path t.meta })
          (push_tombstone-tally path reason s) (push_tombstone-tally path reason s)

  stage-AllCounted :
      (meta : List (String × FileMeta H)) (rename_from deleted_paths : List String)
      (files : List (File H))
      → o.dry_run ≡ false
      → OnOk
          (AllCounted (length deleted_paths + length files))
          (stage parts o meta rename_from deleted_paths files)
  unfolding stage check_degraded
  stage-AllCounted meta rename_from deleted_paths files real =
      let n : ℕ = length deleted_paths in
      let s : SyncState H P V =
        delete_paths parts o rename_from deleted_paths (initial_state parts o meta) in
      let kept = delete_paths-tally rename_from deleted_paths (initial_state parts o meta) in
      bind-OnOk {E = SyncError} {A = SyncState H P V} {B = SyncState H P V}
        (AllCounted (n + length files)) (AllCounted (n + length files))
        (sync_files parts o files (record s { deleted_count = n })) (check_degraded parts o)
        (sync_files-Counted n files (record s { deleted_count = n }) real
          (record {
            full = ap (λ c. all_full c.4) kept;
            sum = ground (arith, ap (λ c. length c.4) kept);
          }))
        (λ t enough.
          branch (OnOk (AllCounted (n + length files)))
            (not (is_empty t.degraded_errors) && not o.allow_degraded) (err files_failed) (ok t) tt
            enough)

-- A sync that is no dry run and that stages without an error loses no file: the deleted paths and
-- the files are together at most the indexed, skipped and deleted files that it reports. This holds
-- for every content of the files, chunker, embedder and option, degraded runs included.
pub stage-counts :
    {H P V : Type 0} ⦃same : Key H⦄ (parts : Parts H P V) (o : RunOptions)
    (meta : List (String × FileMeta H)) (rename_from deleted_paths : List String)
    (files : List (File H)) (s : SyncState H P V)
    → o.dry_run ≡ false
    → stage parts o meta rename_from deleted_paths files ≡ ok s
    → length deleted_paths + length files ≤ s.indexed + s.skipped + s.deleted_count
stage-counts parts o meta rename_from deleted_paths files s real done =
    subst (OnOk (AllCounted parts o (length deleted_paths + length files))) done
      (stage-AllCounted parts o meta rename_from deleted_paths files real)
