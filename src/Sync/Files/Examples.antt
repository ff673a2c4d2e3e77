-- ===== src/Sync/Files/Examples.antt =====
-- A sync of two known files of which one has new content, and of a file that is gone.
use goodgrep.Prelude.{ℕ, ◌+◌, ◌≤◌, String, false, not, ◌&&◌, ◌≡◌, refl, List, [], ◌∷◌, some}
use goodgrep.Prelude.Tests.{nat_key, string_key}
use goodgrep.Prelude.Lists.{contains, length}
use goodgrep.Prelude.Maps.{lookup, insert, remove}
use goodgrep.Prelude.Results.{Result, ok, err}
use goodgrep.Types.{new_chunk, other}
use goodgrep.Sync.Publish.{tombstone_keys as keys_of}
use goodgrep.Sync.Files.{
  FileMeta, File, RunOptions, SyncError, SyncState, Parts, is_known, stage, not_found,
  push_tombstone, discard, set_meta, absorb_path, absorb_paths, absorb_errors, remove_key,
  entry_chunks, all_chunks, records, mark_indexed, absorb_outcome, insert_segment_batch,
  process_embed_batch, flush_queue, text_chunks, is_unchanged, is_gone, unreadable, enqueue,
  index_file, readable, sync_file, sync_files, delete_paths, check_degraded,
}
use goodgrep.Sync.Files.Absorbed.{row_paths}
use goodgrep.Sync.Files.Staged.{stage-Staged}
use goodgrep.Sync.Files.Reported.{stage-counts}

abbrev zeros : List ℕ → List ℕ
zeros [] = []
zeros (c ∷ cs) = 0 ∷ zeros cs

-- A hash is the length, a row its ordinal, and an embedding a zero.
abbrev parts : Parts ℕ ℕ ℕ
parts = record {
  sum = length;
  head_hash_from_bytes = length;
  create_anchor_chunk = λ path content. new_chunk content 0 1 other [];
  chunk = λ path content. ok (new_chunk content 0 1 other [] ∷ []);
  prepare_chunk = λ path hash ordinal kind c before behind. ordinal;
  embed = λ whole chunks. ok (zeros chunks);
  insert_error = λ rows. false;
  save_error = false;
}

abbrev options : RunOptions
options = record {
  dry_run = false;
  allow_degraded = false;
  fast_mode = false;
  max_file_size = 100;
  max_bytes_per_sync = 1000;
  max_chunks_per_file = 10;
  file_batch_size = 2;
}

abbrev old_meta : ℕ → FileMeta ℕ
old_meta n = record { hash = n; mtime = 1; size = n; head_hash = some n }

abbrev meta : List (String × FileMeta ℕ)
meta = ("a", old_meta 3) ∷ ("b", old_meta 2) ∷ ("c", old_meta 1) ∷ ("e", old_meta 5) ∷ []

abbrev file : String → ℕ → List ℕ → File ℕ
file path mtime content = record {
  path_key = path;
  current_mtime = mtime;
  current_size = length content;
  head = ok (length content);
  content = ok content;
}

abbrev files : List (File ℕ)
files =
    file "a" 2 (1 ∷ 2 ∷ 3 ∷ 4 ∷ [])
    ∷ file "b" 1 (1 ∷ 2 ∷ [])
    ∷ file "d" 2 (7 ∷ [])
    ∷ record (file "c" 2 []) { content = err not_found }
    ∷ file "e" 2 []
    ∷ []

abbrev staged : Result SyncError (SyncState ℕ ℕ ℕ)
staged = stage parts options meta [] [] files

abbrev final : SyncState ℕ ℕ ℕ
final = record {
  processed = 5;
  indexed = 2;
  skipped = 2;
  deleted_count = 1;
  bytes_processed = 5;
  since_save = 2;
  tombstones =
      record { path_key = "a"; reason = "replace" }
      ∷ record { path_key = "c"; reason = "delete" }
      ∷ [];
  tombstone_keys = "c" ∷ "a" ∷ [];
  indexed_paths = "d" ∷ "a" ∷ [];
  replace_candidates = [];
  degraded_paths = [];
  degraded_errors = [];
  meta =
      ("e", record { hash = 0; mtime = 2; size = 0; head_hash = some 0 })
      ∷ ("d", record { hash = 1; mtime = 2; size = 1; head_hash = some 1 })
      ∷ ("a", record { hash = 4; mtime = 2; size = 4; head_hash = some 4 })
      ∷ ("b", old_meta 2)
      ∷ [];
  saved = meta;
  embed_queue = [];
  rows = ("a", 0, 0) ∷ ("a", 1, 0) ∷ ("d", 0, 0) ∷ ("d", 1, 0) ∷ [];
}

-- The file `e` is now empty: it has new metadata, and no tombstone.
staged-final : staged ≡ ok final
unfolding stage delete_paths sync_files sync_file is_unchanged readable unreadable is_gone
    index_file text_chunks enqueue flush_queue process_embed_batch all_chunks entry_chunks
    insert_segment_batch records mark_indexed absorb_outcome absorb_paths absorb_path absorb_errors
    push_tombstone discard set_meta remove_key check_degraded lookup insert remove
staged-final = refl

stage-Staged_example :
    (contains (keys_of final.tombstones) "a" ≡ contains final.tombstone_keys "a")
    × ((is_known (lookup "a" meta)
          && contains final.indexed_paths "a"
          && not (contains (keys_of final.tombstones) "a"))
        ≡ false)
    × ((is_known (lookup "a" meta)
          && not (is_known (lookup "a" final.meta))
          && not (contains (keys_of final.tombstones) "a"))
        ≡ false)
    × ((contains (row_paths final.rows) "a" && not (contains final.indexed_paths "a")) ≡ false)
stage-Staged_example = stage-Staged parts options meta [] [] files final staged-final "a"

stage-counts_example : 0 + length files ≤ final.indexed + final.skipped + final.deleted_count
stage-counts_example = stage-counts parts options meta [] [] files final refl staged-final
