-- ===== src/Sync/Files.antt =====
-- Tools/ggrep/src/sync.rs, the loop over the files in `initial_sync_with_options`, with
-- `process_embed_batch`: what a sync stages before it publishes. What the file system gives for a file
-- is part of the file; hashes, the anchor, the chunker, the embedder and the store's insertion are
-- parameters. Left out are progress reports and the texts of the errors.
pub mod Tombstones
pub mod Absorbed
pub mod Retries
pub mod Batches
pub mod Rounds
pub mod Tally
pub mod Counted
pub mod Reported
pub mod Queued
pub mod Visited
pub mod Staged
pub mod Examples
use goodgrep.Prelude.{
  ℕ, zero, suc, ◌+◌, ◌-◌, String, Bool, true, false, not, ◌&&◌, List, [], ◌∷◌, ◌++◌, Option, none,
  some,
}
use goodgrep.Prelude.Tests.{Key, ltb, leb, ◌==◌, nat_key, string_key, if◌then◌else◌}
use goodgrep.Prelude.Lists.{length, is_empty, contains}
use goodgrep.Prelude.Maps.{add, lookup, insert, remove}
use goodgrep.Prelude.Results.{Result, ok, err, ◌>>=◌}
use goodgrep.Types.{Chunk}
use goodgrep.Search.Snippets.{saturating_add}
use goodgrep.Snapshot.Manifest.{SnapshotError}
use goodgrep.Sync.Publish.{TombstoneEntry}

-- Why a file could not be read.
pub data ReadError : Type 0 where
  not_found open_failed stable_read other_error : ReadError

pub record FileMeta (H : Type 0) : Type 0 where
  pub hash : H
  pub mtime : ℕ
  pub size : ℕ
  pub head_hash : Option H

-- A file, with its state on disk: `head` is what `read_head_hash` gives, `content` what
-- `read_file_verified` gives.
pub record File (H : Type 0) : Type 0 where
  pub path_key : String
  pub current_mtime : ℕ
  pub current_size : ℕ
  pub head : Result ReadError H
  pub content : Result ReadError (List ℕ)

-- The arguments and options of the sync, with the limits of the configuration.
pub record RunOptions : Type 0 where
  pub dry_run : Bool
  pub allow_degraded : Bool
  pub fast_mode : Bool
  pub max_file_size : ℕ
  pub max_bytes_per_sync : ℕ
  pub max_chunks_per_file : ℕ
  pub file_batch_size : ℕ

pub data SyncError : Type 0 where
  byte_cap_exceeded read_failed stable_read_failed chunk_failed chunk_cap_exceeded : SyncError
  embedding_count_mismatch insert_failed save_failed files_failed : SyncError

pub record PendingEmbed (H P : Type 0) : Type 0 where
  pub path_key : String
  pub hash : H
  pub mtime : ℕ
  pub size : ℕ
  pub head_hash : H
  pub chunks : List P

-- The variables of the loop. `saved` is the meta store on disk; `rows` are those of the new table.
pub record SyncState (H P V : Type 0) : Type 0 where
  pub processed : ℕ
  pub indexed : ℕ
  pub skipped : ℕ
  pub deleted_count : ℕ
  pub bytes_processed : ℕ
  pub since_save : ℕ
  pub tombstones : List TombstoneEntry
  pub tombstone_keys : List String
  pub indexed_paths : List String
  pub replace_candidates : List String
  pub degraded_paths : List String
  pub degraded_errors : List SnapshotError
  pub meta : List (String × FileMeta H)
  pub saved : List (String × FileMeta H)
  pub embed_queue : List (PendingEmbed H P)
  pub rows : List (String × P × V)

abbrev save_interval : ℕ
save_interval = 25

unfoldable pub remove_key : String → List String → List String
remove_key k [] = []
remove_key k (j ∷ js) = if j == k then remove_key k js else j ∷ remove_key k js

abbrev pub is_known : {H : Type 0} → Option (FileMeta H) → Bool
is_known none = false
is_known (some m) = true

module _ {H P V : Type 0} where
  unfoldable pub push_tombstone : String → String → SyncState H P V → SyncState H P V
  push_tombstone key reason s = if contains s.tombstone_keys key then s else record s {
    tombstone_keys = key ∷ s.tombstone_keys;
    tombstones = s.tombstones ++ record { path_key = key; reason = reason } ∷ [];
  }

  unfoldable pub record_degraded : SnapshotError → SyncState H P V → SyncState H P V
  record_degraded e s = if contains s.degraded_paths e.path_key then s else record s {
    degraded_paths = e.path_key ∷ s.degraded_paths;
    degraded_errors = s.degraded_errors ++ e ∷ [];
  }

  -- A file that is gone: its tombstone, and its metadata.
  unfoldable pub discard : String → SyncState H P V → SyncState H P V
  unfolding push_tombstone
  discard key s = let t = push_tombstone key "delete" s in record t { meta = remove key t.meta }

  unfoldable pub set_meta : String → FileMeta H → SyncState H P V → SyncState H P V
  set_meta key m s = record s { meta = insert key m s.meta }

  -- A path of a batch that was indexed.
  unfoldable pub absorb_path : String → SyncState H P V → SyncState H P V
  absorb_path path s =
      let t =
        if contains s.replace_candidates path
        then push_tombstone path "replace"
            (record s { replace_candidates = remove_key path s.replace_candidates })
        else s in
      record t { indexed_paths = add path t.indexed_paths }

  unfoldable pub absorb_paths : List String → SyncState H P V → SyncState H P V
  absorb_paths [] s = s
  absorb_paths (path ∷ paths) s = absorb_paths paths (absorb_path path s)

  unfoldable pub absorb_errors : List SnapshotError → SyncState H P V → SyncState H P V
  absorb_errors [] s = s
  absorb_errors (e ∷ es) s = absorb_errors es (record_degraded e s)

-- What a batch left: the paths that were indexed and the errors.
pub record EmbedBatchOutcome : Type 0 where
  pub indexed : ℕ
  pub indexed_paths : List String
  pub errors : List SnapshotError

module _ {P : Type 0} where
  unfoldable pub entry_chunks : String → List P → List (String × P)
  entry_chunks path [] = []
  entry_chunks path (c ∷ cs) = (path, c) ∷ entry_chunks path cs

  abbrev pub texts_of : List (String × P) → List P
  texts_of [] = []
  texts_of (c ∷ cs) = c.1 ∷ texts_of cs

module _ {H P : Type 0} where
  abbrev pub meta_of : PendingEmbed H P → FileMeta H
  meta_of entry = record {
    hash = entry.hash;
    mtime = entry.mtime;
    size = entry.size;
    head_hash = some entry.head_hash;
  }

  unfoldable pub all_chunks : List (PendingEmbed H P) → List (String × P)
  all_chunks [] = []
  all_chunks (entry ∷ batch) = entry_chunks entry.path_key entry.chunks ++ all_chunks batch

module _ {P V : Type 0} where
  -- A record for each chunk and embedding.
  unfoldable pub records : List (String × P) → List V → List (String × P × V)
  records [] vs = []
  records (c ∷ cs) [] = []
  records (c ∷ cs) (v ∷ vs) = (c.0, c.1, v) ∷ records cs vs

abbrev pub no_outcome : EmbedBatchOutcome
no_outcome = record { indexed = 0; indexed_paths = []; errors = [] }

module _ {H P V : Type 0} where
  -- The entries of a batch are recorded as indexed.
  unfoldable pub mark_indexed :
      List (PendingEmbed H P)
      → SyncState H P V
      → EmbedBatchOutcome
      → SyncState H P V × EmbedBatchOutcome
  mark_indexed [] s o = (s, o)
  mark_indexed (entry ∷ batch) s o =
      mark_indexed batch (set_meta entry.path_key (meta_of entry) s) (record o {
        indexed_paths = o.indexed_paths ++ entry.path_key ∷ [];
        indexed = o.indexed + 1;
      })

  unfoldable pub absorb_outcome : SyncState H P V → EmbedBatchOutcome → SyncState H P V
  absorb_outcome t o =
      let u = absorb_paths o.indexed_paths (record t { indexed = t.indexed + o.indexed }) in
      let v = absorb_errors o.errors u in record v { skipped = v.skipped + length o.errors }

  -- `embed` is given which try it is: the batch, or a file by itself.
  module _ (embed : Bool → List P → Result String (List V))
      (insert_error : List (String × P × V) → Bool) where
    unfoldable pub insert_segment_batch :
        List (String × P) → List V → SyncState H P V → Result SyncError (SyncState H P V)
    insert_segment_batch chunks embeddings s =
        if not (length embeddings == length chunks)
        then err embedding_count_mismatch
        else if insert_error (records chunks embeddings)
        then err insert_failed
        else ok (record s { rows = s.rows ++ records chunks embeddings })

    -- The retries file by file.
    unfoldable pub retry_files :
        List (PendingEmbed H P)
        → SyncState H P V
        → EmbedBatchOutcome
        → Result SyncError (SyncState H P V × EmbedBatchOutcome)
    retry_files [] s o = ok (s, o)
    retry_files (entry ∷ batch) s o =
        let chunks = entry_chunks entry.path_key entry.chunks in
        elim (is_empty chunks) [
          | true ↦ retry_files batch s o
          | false ↦ elim (embed false entry.chunks) [
            | ok embeddings ↦ insert_segment_batch chunks embeddings s >>= λ t.
                (let (u, p) = mark_indexed (entry ∷ []) t o in retry_files batch u p)
            | err message ↦ retry_files batch s (record o {
              errors =
                  o.errors
                  ++ record { code = "embed_failed"; message = message; path_key = entry.path_key }
                    ∷ [];
            })
          ]
        ]

    unfoldable pub process_embed_batch :
        List (PendingEmbed H P)
        → SyncState H P V
        → Result SyncError (SyncState H P V × EmbedBatchOutcome)
    process_embed_batch batch s =
        let chunks = all_chunks batch in
        if is_empty chunks then ok (s, no_outcome) else elim (embed true (texts_of chunks)) [
          | ok embeddings ↦
              insert_segment_batch chunks embeddings s >>= λ t. ok (mark_indexed batch t no_outcome)
          | err message ↦ retry_files batch s no_outcome
        ]

    -- The queue is embedded, and its outcome is taken over.
    unfoldable pub flush_queue : SyncState H P V → Result SyncError (SyncState H P V)
    flush_queue s = process_embed_batch s.embed_queue (record s { embed_queue = [] }) >>= λ r.
        ok (absorb_outcome r.0 r.1)

-- What the loop uses of other parts: hashes, the anchor of a file, the chunker and the rows of chunks,
-- the embedder, and the errors of the store and of the file of the meta store.
pub record Parts (H P V : Type 0) : Type 0 where
  pub sum : List ℕ → H
  pub head_hash_from_bytes : List ℕ → H
  pub create_anchor_chunk : String → List ℕ → Chunk
  pub chunk : String → List ℕ → Result String (List Chunk)
  pub prepare_chunk : String → H → ℕ → String → Chunk → Option (List ℕ) → Option (List ℕ) → P
  pub embed : Bool → List P → Result String (List V)
  pub insert_error : List (String × P × V) → Bool
  pub save_error : Bool

module _ {H P V : Type 0} ⦃same : Key H⦄ (parts : Parts H P V) (o : RunOptions) where
  -- `meta_store.save()`
  unfoldable pub save : SyncState H P V → Result SyncError (SyncState H P V)
  save s =
      if parts.save_error then err save_failed else ok (record s { saved = s.meta; since_save = 0 })

  abbrev save_if_due : SyncState H P V → Result SyncError (SyncState H P V)
  save_if_due s = if leb save_interval s.since_save then save s else ok s

  abbrev head_content : List Chunk → Option (List ℕ)
  head_content [] = none
  head_content (c ∷ cs) = some c.content

  -- The rows of the chunks, each with the chunks before and behind it.
  unfoldable pub text_chunks : String → H → ℕ → Option (List ℕ) → List Chunk → List P
  text_chunks path hash idx before [] = []
  text_chunks path hash idx before (c ∷ cs) =
      parts.prepare_chunk path hash (idx + 1) "text" c before (head_content cs)
      ∷ text_chunks path hash (idx + 1) (some c.content) cs

  -- Whether size, time and the hash of the head are those of the last sync.
  unfoldable pub is_unchanged : File H → Option (FileMeta H) → Bool
  is_unchanged f none = false
  is_unchanged f (some m) =
      m.mtime == f.current_mtime && m.size == f.current_size && elim m.head_hash [
        | none ↦ false
        | some stored ↦ elim f.head [ ok current ↦ current == stored | err e ↦ false ]
      ]

  -- An error of one file: recorded if the sync may be degraded, else the sync fails.
  unfoldable pub degrade :
      String → String → String → SyncError → SyncState H P V → Result SyncError (SyncState H P V)
  degrade path code message e s =
      if o.allow_degraded
      then (let t =
            record_degraded (record { code = code; message = message; path_key = path }) s in
          ok (record t { skipped = t.skipped + 1 }))
      else err e

  unfoldable pub is_gone : ReadError → Bool
  is_gone not_found = true
  is_gone open_failed = true
  is_gone stable_read = false
  is_gone other_error = false

  -- The file could not be read.
  unfoldable pub unreadable :
      File H → ReadError → SyncState H P V → Result SyncError (SyncState H P V)
  unreadable f e s =
      if is_gone e
      then (let t = if o.dry_run then s else discard f.path_key s in
          ok (record t { deleted_count = t.deleted_count + 1 }))
      else elim e [
        | stable_read ↦
            degrade f.path_key "stable_read_failed" "failed to read" stable_read_failed s
        | _ ↦ degrade f.path_key "read_failed" "failed to read" read_failed s
      ]

  abbrev new_entry : File H → List ℕ → List P → PendingEmbed H P
  new_entry f content chunks = record {
    path_key = f.path_key;
    hash = parts.sum content;
    mtime = f.current_mtime;
    size = length content;
    head_hash = parts.head_hash_from_bytes content;
    chunks = chunks;
  }

  -- The file goes to the queue, and a full queue is embedded.
  unfoldable pub enqueue :
      File H → List ℕ → List P → SyncState H P V → Result SyncError (SyncState H P V)
  enqueue f content chunks s =
      let queued = record s { embed_queue = s.embed_queue ++ new_entry f content chunks ∷ [] } in
      if leb o.file_batch_size (length queued.embed_queue)
      then (do
        t ← flush_queue parts.embed parts.insert_error queued
        save_if_due (record t { since_save = t.since_save + t.indexed - queued.indexed }))
      else ok queued

  -- The file has new content.
  unfoldable pub index_file : File H → List ℕ → SyncState H P V → Result SyncError (SyncState H P V)
  index_file f content s =
      let hash = parts.sum content in
      let anchor =
        parts.prepare_chunk f.path_key hash 0 "anchor"
          (parts.create_anchor_chunk f.path_key content) none none in
      if o.fast_mode
      then enqueue f content (anchor ∷ []) s
      else elim (parts.chunk f.path_key content) [
        | err message ↦ degrade f.path_key "chunk_failed" message chunk_failed s
        | ok chunks ↦
            if ltb o.max_chunks_per_file (length chunks + 1)
            then degrade f.path_key "chunk_cap_exceeded" "chunk cap exceeded" chunk_cap_exceeded s
            else enqueue f content (anchor ∷ text_chunks f.path_key hash 0 none chunks) s
      ]

  abbrev has_hash : H → Option (FileMeta H) → Bool
  has_hash hash none = false
  has_hash hash (some m) = m.hash == hash

  abbrev new_meta : File H → List ℕ → ℕ → FileMeta H
  new_meta f content size = record {
    hash = parts.sum content;
    mtime = f.current_mtime;
    size = size;
    head_hash = some (parts.head_hash_from_bytes content);
  }

  -- The file was read.
  unfoldable pub readable : File H → List ℕ → SyncState H P V → Result SyncError (SyncState H P V)
  readable f content s =
      let existing = lookup f.path_key s.meta in
      let skipped = record s { skipped = s.skipped + 1 } in
      if is_empty content
      then ok (
          if o.dry_run
          then skipped
          else set_meta f.path_key (new_meta f content f.current_size) skipped)
      else if has_hash (parts.sum content) existing
      then (if o.dry_run
          then ok skipped
          else (let t = set_meta f.path_key (new_meta f content (length content)) skipped in
              save_if_due (record t { since_save = t.since_save + 1 })))
      else if o.dry_run
      then ok (record s { indexed = s.indexed + 1 })
      else index_file f content (
          if is_known existing
          then record s { replace_candidates = add f.path_key s.replace_candidates }
          else s)

  -- One round of the loop.
  unfoldable pub sync_file : File H → SyncState H P V → Result SyncError (SyncState H P V)
  sync_file f given =
      let s = record given { processed = given.processed + 1 } in
      let skipped = record s { skipped = s.skipped + 1 } in
      let read = record s { bytes_processed = saturating_add s.bytes_processed f.current_size } in
      if ltb o.max_file_size f.current_size
      then ok (
          if o.dry_run
          then skipped
          else record (discard f.path_key skipped) { deleted_count = skipped.deleted_count + 1 })
      else if is_unchanged f (lookup f.path_key s.meta)
      then ok skipped
      else if ltb o.max_bytes_per_sync (saturating_add s.bytes_processed f.current_size)
      then err byte_cap_exceeded
      else elim f.content [ err e ↦ unreadable f e read | ok content ↦ readable f content read ]

  unfoldable pub sync_files : List (File H) → SyncState H P V → Result SyncError (SyncState H P V)
  sync_files [] s =
      if not o.dry_run && not (is_empty s.embed_queue)
      then flush_queue parts.embed parts.insert_error s
      else ok s
  sync_files (f ∷ files) s = sync_file f s >>= λ t. sync_files files t

  -- The paths that are gone, before the loop: they get their tombstones.
  unfoldable pub delete_paths : List String → List String → SyncState H P V → SyncState H P V
  delete_paths rename_from [] s = s
  delete_paths rename_from (path ∷ paths) s =
      let t =
        push_tombstone path (if contains rename_from path then "rename_from" else "delete") s in
      delete_paths rename_from paths
        (if o.dry_run then t else record t { meta = remove path t.meta })

  abbrev pub initial_state : List (String × FileMeta H) → SyncState H P V
  initial_state meta = record {
    processed = 0;
    indexed = 0;
    skipped = 0;
    deleted_count = 0;
    bytes_processed = 0;
    since_save = 0;
    tombstones = [];
    tombstone_keys = [];
    indexed_paths = [];
    replace_candidates = [];
    degraded_paths = [];
    degraded_errors = [];
    meta = meta;
    saved = meta;
    embed_queue = [];
    rows = [];
  }

  -- Errors of single files fail a sync that may not be degraded.
  unfoldable pub check_degraded : SyncState H P V → Result SyncError (SyncState H P V)
  check_degraded s =
      if not (is_empty s.degraded_errors) && not o.allow_degraded then err files_failed else ok s

  -- From the metadata, the deleted paths and the files to what is staged.
  unfoldable pub stage :
      List (String × FileMeta H)
      → List String
      → List String
      → List (File H)
      → Result SyncError (SyncState H P V)
  stage meta rename_from deleted_paths files =
      let s = delete_paths rename_from deleted_paths (initial_state meta) in
      sync_files files (record s { deleted_count = length deleted_paths }) >>= check_degraded
