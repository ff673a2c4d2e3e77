-- ===== src/Sync/Files/Queued.antt =====
-- What the queue of the loop over the files keeps.
use goodgrep.Prelude.{
  ℕ, ◌+◌, ◌-◌, String, false, not, ◌&&◌, ◌≡◌, refl, ap, List, [], ◌∷◌, ◌++◌, arith, inl, inr,
}
use goodgrep.Prelude.Tests.{Key, ltb, leb, ◌==◌, nat_key, string_key, Bool-cases}
use goodgrep.Prelude.Lists.{contains, contains-append, length}
use goodgrep.Prelude.Results.{Result, ok, Result-cases}
use goodgrep.Prelude.Maps.{lookup}
use goodgrep.Sync.Files.{
  FileMeta, File, PendingEmbed, SyncState, SyncError, RunOptions, Parts, EmbedBatchOutcome,
  is_known, absorb_paths, absorb_errors, absorb_outcome, flush_queue, process_embed_batch, save,
  degrade, enqueue, index_file, save_if_due, save_interval, new_entry,
}
use goodgrep.Sync.Files.Absorbed.{
  queue_paths, Pending, absorb_paths-Pending, absorb_errors-Pending, record_degraded-Pending,
}
use goodgrep.Sync.Files.Batches.{Batch, OnOk, bind-OnOk, process_embed_batch-Batch}
use goodgrep.Sync.Files.Rounds.{Staging, counts-Pending, settled, queue_paths-append}

module _ {H P V : Type 0} ⦃same : Key H⦄ (parts : Parts H P V) (o : RunOptions)
    (first : List (String × FileMeta H)) (p : String) where
  -- What is returned keeps the invariant.
  abbrev pub KeptBy : Result SyncError (SyncState H P V) → Type 0
  KeptBy m = OnOk (Staging first p) m

  absorb_outcome-Staging :
      (queue : List String) (t : SyncState H P V) (b : EmbedBatchOutcome)
      → Pending first p queue b.indexed_paths t
      → Staging first p (absorb_outcome t b)
  unfolding absorb_outcome
  absorb_outcome-Staging queue t b i =
      let u = absorb_paths b.indexed_paths (record t { indexed = t.indexed + b.indexed }) in
      settled first p queue _ (
        counts-Pending first p _ _ _ _ _ _ _ queue [] (absorb_errors b.errors u) (
          absorb_errors-Pending first p queue b.errors [] u (
            absorb_paths-Pending first p queue b.indexed_paths
              (record t { indexed = t.indexed + b.indexed })
              (counts-Pending first p _ _ _ _ _ _ _ queue b.indexed_paths t i))))

  pub flush_queue-Staging :
      (s : SyncState H P V)
      → Staging first p s
      → KeptBy (flush_queue parts.embed parts.insert_error s)
  unfolding flush_queue
  flush_queue-Staging s i =
      bind-OnOk {E = SyncError} {A = SyncState H P V × EmbedBatchOutcome} {B = SyncState H P V}
        (Batch first p (queue_paths s.embed_queue)) (Staging first p)
        (process_embed_batch parts.embed parts.insert_error s.embed_queue
          (record s { embed_queue = [] }))
        (λ r. ok (absorb_outcome r.0 r.1))
        (process_embed_batch-Batch first p (queue_paths s.embed_queue) parts.embed
          parts.insert_error s.embed_queue (record s { embed_queue = [] }) (ground arith)
          (record {
            kept = record {
              recorded = i.kept.recorded;
              known = i.kept.known;
              replaced = i.kept.replaced;
            };
            waiting = i.waiting;
            still = refl;
            queued = refl;
            own_rows = i.own_rows;
          }))
        (λ r j. absorb_outcome-Staging (queue_paths s.embed_queue) r.0 r.1 j)

  save-Staging : (s : SyncState H P V) → Staging first p s → KeptBy (save parts o s)
  unfolding save
  save-Staging s i = elim (Bool-cases parts.save_error) [
    | inl bad ↦ rw bad tt
    | inr good ↦ rw good (counts-Pending first p _ _ _ _ _ _ _ _ _ s i)
  ]

  pub degrade-Staging :
      (path code message : String) (e : SyncError) (s : SyncState H P V)
      → Staging first p s
      → KeptBy (degrade parts o path code message e s)
  unfolding degrade
  degrade-Staging path code message e s i = elim (Bool-cases o.allow_degraded) [
    | inr strict ↦ rw strict tt
    | inl allowed ↦ rw allowed (
        counts-Pending first p _ _ _ _ _ _ _ _ _ _ (
          settled first p (queue_paths s.embed_queue) _
            (record_degraded-Pending first p (queue_paths s.embed_queue) _ [] s i)))
  ]

  pub save_if_due-Staging :
      (s : SyncState H P V) → Staging first p s → KeptBy (save_if_due parts o s)
  save_if_due-Staging s i = elim (Bool-cases (leb save_interval s.since_save)) [
    | inl due ↦ rw due (save-Staging s i)
    | inr early ↦ rw early i
  ]

  queued-Staging :
      (entry : PendingEmbed H P) (s : SyncState H P V)
      → (is_known (lookup p first)
          && entry.path_key == p
          && not (contains s.tombstone_keys p)
          && not (contains s.replace_candidates p))
        ≡ false
      → Staging first p s
      → Staging first p (record s { embed_queue = s.embed_queue ++ entry ∷ [] })
  queued-Staging entry s may i = record {
    kept = record { recorded = i.kept.recorded; known = i.kept.known; replaced = i.kept.replaced };
    waiting = ground (
      arith,
      ap (λ ps. contains ps p) (queue_paths-append s.embed_queue (entry ∷ [])),
      contains-append (queue_paths s.embed_queue) (entry.path_key ∷ []) p,
      may,
      i.waiting,
    );
    still = ground arith;
    queued = refl;
    own_rows = i.own_rows;
  }

  -- A file that has new content may go to the queue.
  abbrev pub MayQueue : String → SyncState H P V → Type 0
  MayQueue path s =
      (is_known (lookup p first)
        && path == p
        && not (contains s.tombstone_keys p)
        && not (contains s.replace_candidates p))
      ≡ false

  enqueue-Staging :
      (f : File H) (content : List ℕ) (chunks : List P) (s : SyncState H P V)
      → MayQueue f.path_key s
      → Staging first p s
      → KeptBy (enqueue parts o f content chunks s)
  unfolding enqueue
  enqueue-Staging f content chunks s may i =
      let entry : PendingEmbed H P = new_entry parts o f content chunks in
      let queued : SyncState H P V = record s { embed_queue = s.embed_queue ++ entry ∷ [] } in
      elim (Bool-cases (leb o.file_batch_size (length (s.embed_queue ++ entry ∷ [])))) [
        | inr room ↦ rw room (queued-Staging entry s may i)
        | inl full ↦ rw full (
            bind-OnOk {E = SyncError} {A = SyncState H P V} {B = SyncState H P V} (Staging first p)
              (Staging first p) (flush_queue parts.embed parts.insert_error queued)
              (λ t.
                save_if_due parts o
                  (record t { since_save = t.since_save + t.indexed - queued.indexed }))
              (flush_queue-Staging queued (queued-Staging entry s may i))
              (λ t j.
                save_if_due-Staging
                  (record t { since_save = t.since_save + t.indexed - queued.indexed })
                  (counts-Pending first p _ _ _ _ _ _ _ _ _ t j)))
      ]

  pub index_file-Staging :
      (f : File H) (content : List ℕ) (s : SyncState H P V)
      → MayQueue f.path_key s
      → Staging first p s
      → KeptBy (index_file parts o f content s)
  unfolding index_file enqueue save
  index_file-Staging f content s may i = elim (Bool-cases o.fast_mode) [
    | inl fast ↦ rw fast (enqueue-Staging f content _ s may i)
    | inr full ↦ rw full (elim (Result-cases (parts.chunk f.path_key content)) [
      | inr (message, bad) ↦ rw bad (degrade-Staging _ _ _ _ s i)
      | inl (chunks, good) ↦
          rw good (elim (Bool-cases (ltb o.max_chunks_per_file (length chunks + 1))) [
            | inl over ↦ rw over (degrade-Staging _ _ _ _ s i)
            | inr fits ↦ rw fits (enqueue-Staging f content _ s may i)
          ])
    ])
  ]
