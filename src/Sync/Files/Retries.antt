-- ===== src/Sync/Files/Retries.antt =====
-- The retries of a batch, file by file: the step for an entry.
use goodgrep.Prelude.{String, Bool, true, false, ◌≡◌, List, [], ◌∷◌, ◌++◌, arith}
use goodgrep.Prelude.Tests.{nat_key, string_key}
use goodgrep.Prelude.Lists.{is_empty}
use goodgrep.Prelude.Results.{Result, ok, err, ◌>>=◌}
use goodgrep.Sync.Files.{
  PendingEmbed, SyncState, EmbedBatchOutcome, entry_chunks, mark_indexed, insert_segment_batch,
  retry_files,
}

module _ {H P V : Type 0} (embed : Bool → List P → Result String (List V))
    (insert_error : List (String × P × V) → Bool) where
  pub retry_one :
      (entry : PendingEmbed H P) (batch : List (PendingEmbed H P)) (s : SyncState H P V)
      (o : EmbedBatchOutcome) (embeddings : List V)
      → is_empty (entry_chunks entry.path_key entry.chunks) ≡ false
      → embed false entry.chunks ≡ ok embeddings
      → retry_files embed insert_error (entry ∷ batch) s o ≡ (
          insert_segment_batch embed insert_error
            (entry_chunks entry.path_key entry.chunks)
            embeddings
            s
          >>= λ t.
              (let (u, q) = mark_indexed (entry ∷ []) t o in
                retry_files embed insert_error batch u q))
  unfolding retry_files
  retry_one entry batch s o embeddings some_chunks embedded = ground (arith, some_chunks, embedded)

  pub retry_nothing :
      (entry : PendingEmbed H P) (batch : List (PendingEmbed H P)) (s : SyncState H P V)
      (o : EmbedBatchOutcome)
      → is_empty (entry_chunks entry.path_key entry.chunks) ≡ true
      → retry_files embed insert_error (entry ∷ batch) s o
        ≡ retry_files embed insert_error batch s o
  unfolding retry_files
  retry_nothing entry batch s o nothing = ground (arith, nothing)

  pub retry_failed :
      (entry : PendingEmbed H P) (batch : List (PendingEmbed H P)) (s : SyncState H P V)
      (o : EmbedBatchOutcome) (message : String)
      → is_empty (entry_chunks entry.path_key entry.chunks) ≡ false
      → embed false entry.chunks ≡ err message
      → retry_files embed insert_error (entry ∷ batch) s o
        ≡ retry_files embed insert_error batch s (record o {
          errors =
              o.errors
              ++ record { code = "embed_failed"; message = message; path_key = entry.path_key }
                ∷ [];
        })
  unfolding retry_files
  retry_failed entry batch s o message some_chunks bad = ground (arith, some_chunks, bad)
