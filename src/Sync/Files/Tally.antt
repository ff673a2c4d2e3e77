-- ===== src/Sync/Files/Tally.antt =====
-- The counts of the loop over the files: what its steps do to them.
use goodgrep.Prelude.{
  ℕ, ◌+◌, ◌≤◌, String, Bool, true, false, not, ◌&&◌, ◌≡◌, refl, ap, sym, subst, ◌∙◌, List, [], ◌∷◌,
  ◌++◌, arith, inl, inr,
}
use goodgrep.Prelude.Tests.{◌==◌, nat_key, string_key, Bool-cases}
use goodgrep.Prelude.Lists.{contains, is_empty, length, length-append}
use goodgrep.Prelude.Results.{Result, ok, Result-cases}
use goodgrep.Snapshot.Manifest.{SnapshotError}
use goodgrep.Sync.Files.{
  PendingEmbed, SyncState, SyncError, EmbedBatchOutcome, push_tombstone, discard, set_meta,
  record_degraded, absorb_path, absorb_paths, absorb_errors, process_embed_batch, mark_indexed,
  retry_files, insert_segment_batch, entry_chunks, all_chunks, texts_of, records, no_outcome,
}
use goodgrep.Sync.Files.Retries.{retry_one, retry_failed}
use goodgrep.Sync.Files.Batches.{OnOk, bind-OnOk}

is_empty-append : {A : Type 0} (xs ys : List A) → is_empty (xs ++ ys) ≡ (is_empty xs && is_empty ys)
is_empty-append [] ys = refl
is_empty-append (x ∷ xs) ys = refl

module _ {P : Type 0} where
  entry_chunks-full :
      (path : String) (chunks : List P) → is_empty (entry_chunks path chunks) ≡ is_empty chunks
  unfolding entry_chunks
  entry_chunks-full path [] = refl
  entry_chunks-full path (c ∷ cs) = refl

module _ {H P : Type 0} where
  -- Every entry of the queue has a chunk.
  abbrev pub all_full : List (PendingEmbed H P) → Bool
  all_full [] = true
  all_full (entry ∷ queue) = not (is_empty entry.chunks) && all_full queue

  pub all_full-append :
      (xs ys : List (PendingEmbed H P)) → all_full (xs ++ ys) ≡ (all_full xs && all_full ys)
  all_full-append [] ys = refl
  all_full-append (x ∷ xs) ys = ground (arith, all_full-append xs ys)

module _ {H P : Type 0} where
  -- A batch without chunks is empty.
  all_chunks-full :
      (batch : List (PendingEmbed H P))
      → all_full batch ≡ true
      → is_empty (all_chunks batch) ≡ true
      → length batch ≡ 0
  unfolding all_chunks
  all_chunks-full [] full nothing = refl
  all_chunks-full (entry ∷ batch) full nothing = absurd (
      ground (
        arith,
        full,
        nothing,
        entry_chunks-full entry.path_key entry.chunks,
        is_empty-append (entry_chunks entry.path_key entry.chunks) (all_chunks batch),
      ))

module _ {H P V : Type 0} where
  abbrev pub tally : SyncState H P V → ℕ × ℕ × ℕ × ℕ × List (PendingEmbed H P)
  tally s = (s.processed, s.indexed, s.skipped, s.deleted_count, s.embed_queue)

  pub push_tombstone-tally :
      (key reason : String) (s : SyncState H P V) → tally (push_tombstone key reason s) ≡ tally s
  unfolding push_tombstone
  push_tombstone-tally key reason s = elim (Bool-cases (contains s.tombstone_keys key)) [
    | inl old ↦ rw old refl
    | inr new ↦ rw new refl
  ]

  pub discard-tally : (key : String) (s : SyncState H P V) → tally (discard key s) ≡ tally s
  unfolding discard
  discard-tally key s = push_tombstone-tally key "delete" s

  pub record_degraded-tally :
      (e : SnapshotError) (s : SyncState H P V) → tally (record_degraded e s) ≡ tally s
  unfolding record_degraded
  record_degraded-tally e s = elim (Bool-cases (contains s.degraded_paths e.path_key)) [
    | inl old ↦ rw old refl
    | inr new ↦ rw new refl
  ]

  absorb_path-tally : (path : String) (s : SyncState H P V) → tally (absorb_path path s) ≡ tally s
  unfolding absorb_path
  absorb_path-tally path s = elim (Bool-cases (contains s.replace_candidates path)) [
    | inl waits ↦ rw waits (push_tombstone-tally path "replace" _)
    | inr fresh ↦ rw fresh refl
  ]

  pub absorb_paths-tally :
      (paths : List String) (s : SyncState H P V) → tally (absorb_paths paths s) ≡ tally s
  unfolding absorb_paths
  absorb_paths-tally [] s = refl
  absorb_paths-tally (path ∷ paths) s =
      absorb_paths-tally paths (absorb_path path s) ∙ absorb_path-tally path s

  pub absorb_errors-tally :
      (es : List SnapshotError) (s : SyncState H P V) → tally (absorb_errors es s) ≡ tally s
  unfolding absorb_errors
  absorb_errors-tally [] s = refl
  absorb_errors-tally (e ∷ es) s =
      absorb_errors-tally es (record_degraded e s) ∙ record_degraded-tally e s

  mark_indexed-tally :
      (batch : List (PendingEmbed H P)) (s : SyncState H P V) (o : EmbedBatchOutcome)
      → (tally (mark_indexed batch s o).0 ≡ tally s)
        × ((mark_indexed batch s o).1.indexed ≡ o.indexed + length batch)
        × ((mark_indexed batch s o).1.errors ≡ o.errors)
  unfolding mark_indexed set_meta
  mark_indexed-tally [] s o = (refl, ground arith, refl)
  mark_indexed-tally (entry ∷ batch) s o =
      let i = mark_indexed-tally batch _ _ in (i.0, ground (arith, i.1), i.2)

  module _ (embed : Bool → List P → Result String (List V))
      (insert_error : List (String × P × V) → Bool) where
    insert_segment_batch-tally :
        (chunks : List (String × P)) (embeddings : List V) (s : SyncState H P V)
        → OnOk
            (λ t. tally t ≡ tally s)
            (insert_segment_batch embed insert_error chunks embeddings s)
    unfolding insert_segment_batch
    insert_segment_batch-tally chunks embeddings s =
        elim (Bool-cases (length embeddings == length chunks)) [
          | inr other ↦ rw other tt
          | inl same ↦ elim (Bool-cases (insert_error (records chunks embeddings))) [
            | inl bad ↦ rw (same, bad) tt
            | inr good ↦ rw (same, good) refl
          ]
        ]

    -- The entries of a batch are indexed or have an error.
    abbrev pub Accounts : SyncState H P V → ℕ → SyncState H P V × EmbedBatchOutcome → Type 0
    Accounts s n r = (tally r.0 ≡ tally s) × (n ≤ r.1.indexed + length r.1.errors)

    retry_files-tally :
        (base : SyncState H P V) (n : ℕ) (batch : List (PendingEmbed H P)) (s : SyncState H P V)
        (o : EmbedBatchOutcome)
        → all_full batch ≡ true
        → tally s ≡ tally base
        → n ≤ length batch + o.indexed + length o.errors
        → OnOk (Accounts base n) (retry_files embed insert_error batch s o)
    retry_files-tally base n [] s o full same enough =
        unfold retry_files in (same, ground (arith, enough))
    retry_files-tally base n (entry ∷ batch) s o full same enough =
        let some_chunks : is_empty (entry_chunks entry.path_key entry.chunks) ≡ false =
          ground (arith, full, entry_chunks-full entry.path_key entry.chunks) in
        elim (Result-cases (embed false entry.chunks)) [
          | inr (message, bad) ↦
              subst (OnOk (Accounts base n))
                (sym (retry_failed embed insert_error entry batch s o message some_chunks bad))
                (retry_files-tally base n batch s _ (ground (arith, full)) same (
                  ground (
                    arith,
                    enough,
                    length-append o.errors (
                        record {
                          code = "embed_failed";
                          message = message;
                          path_key = entry.path_key;
                        }
                        ∷ []),
                  )))
          | inl (embeddings, good) ↦
              subst (OnOk (Accounts base n))
                (sym (retry_one embed insert_error entry batch s o embeddings some_chunks good))
                (bind-OnOk {E = SyncError} {A = SyncState H P V}
                  {B = SyncState H P V × EmbedBatchOutcome} (λ t. tally t ≡ tally s)
                  (Accounts base n)
                  (insert_segment_batch embed insert_error
                    (entry_chunks entry.path_key entry.chunks) embeddings s)
                  (λ t.
                    (let (u, q) = mark_indexed (entry ∷ []) t o in
                      retry_files embed insert_error batch u q))
                  (insert_segment_batch-tally (entry_chunks entry.path_key entry.chunks) embeddings
                    s)
                  (λ t kept.
                    (let i = mark_indexed-tally (entry ∷ []) t o in
                      retry_files-tally base n batch (mark_indexed (entry ∷ []) t o).0
                        (mark_indexed (entry ∷ []) t o).1 (ground (arith, full)) (i.0 ∙ kept ∙ same)
                        (ground (arith, enough, i.1, ap (length {A = SnapshotError}) i.2)))))
        ]

    pub process_embed_batch-tally :
        (batch : List (PendingEmbed H P)) (s : SyncState H P V)
        → all_full batch ≡ true
        → OnOk (Accounts s (length batch)) (process_embed_batch embed insert_error batch s)
    unfolding process_embed_batch
    process_embed_batch-tally batch s full = elim (Bool-cases (is_empty (all_chunks batch))) [
      | inl nothing ↦ rw nothing (refl, ground (arith, all_chunks-full batch full nothing))
      | inr some_chunks ↦ elim (Result-cases (embed true (texts_of (all_chunks batch)))) [
        | inr (message, bad) ↦
            rw (some_chunks, bad)
              (retry_files-tally s (length batch) batch s no_outcome full refl (ground arith))
        | inl (embeddings, good) ↦
            rw (some_chunks, good)
              (bind-OnOk {E = SyncError} {A = SyncState H P V}
                {B = SyncState H P V × EmbedBatchOutcome} (λ t. tally t ≡ tally s)
                (Accounts s (length batch))
                (insert_segment_batch embed insert_error (all_chunks batch) embeddings s)
                (λ t. ok (mark_indexed batch t no_outcome))
                (insert_segment_batch-tally (all_chunks batch) embeddings s)
                (λ t kept.
                  (let i = mark_indexed-tally batch t no_outcome in
                    (i.0 ∙ kept, ground (arith, i.1)))))
      ]
    ]
