-- ===== src/Sync/Files/Counted.antt =====
-- Every file of the loop goes to the queue or into a count.
use goodgrep.Prelude.{
  ℕ, suc, ◌+◌, ◌-◌, ◌≤◌, String, Bool, true, false, ◌≡◌, refl, ap, ◌∙◌, List, [], ◌∷◌, ◌++◌, Option,
  arith, inl, inr,
}
use goodgrep.Prelude.Tests.{Key, ltb, leb, nat_key, string_key, if◌then◌else◌, Bool-cases}
use goodgrep.Prelude.Lists.{is_empty, length, length-append}
use goodgrep.Prelude.Results.{Result, ok, Result-cases}
use goodgrep.Prelude.Maps.{lookup, add}
use goodgrep.Sync.Files.{
  FileMeta, File, PendingEmbed, SyncState, SyncError, RunOptions, Parts, EmbedBatchOutcome,
  ReadError, not_found, open_failed, stable_read, other_error, discard, set_meta, record_degraded,
  absorb_paths, is_known, save_interval, absorb_outcome, flush_queue, process_embed_batch, save,
  save_if_due, degrade, new_entry, enqueue, index_file, has_hash, readable, unreadable, is_gone,
}
use goodgrep.Sync.Files.Batches.{OnOk, bind-OnOk}
use goodgrep.Sync.Files.Tally.{
  tally, all_full, all_full-append, discard-tally, record_degraded-tally, absorb_paths-tally,
  absorb_errors-tally, Accounts, process_embed_batch-tally,
}

-- At least `n` files are in the counts or in the queue, whose entries have chunks.
pub record Counted {H P V : Type 0} (n : ℕ) (s : SyncState H P V) : Type 0 where
  pub full : all_full s.embed_queue ≡ true
  pub sum : n ≤ s.indexed + s.skipped + s.deleted_count + length s.embed_queue

pub branch {κ} :
    {A : Type 0} (Q : A → Type κ) (b : Bool) (x y : A) → Q x → Q y → Q (if b then x else y)
branch Q true x y hx hy = hx
branch Q false x y hx hy = hy

module _ {H P V : Type 0} where
  -- A file is skipped, or counted as deleted.
  skip_one :
      (n : ℕ) (s t : SyncState H P V)
      → Counted n s
      → tally t ≡ tally s
      → Counted (suc n) (record t { skipped = t.skipped + 1 })
  skip_one n s t i same = record {
    full = ap (λ c. all_full c.4) same ∙ i.full;
    sum = ground (
      arith,
      i.sum,
      ap (λ c. c.1) same,
      ap (λ c. c.2) same,
      ap (λ c. c.3) same,
      ap (λ c. length c.4) same,
    );
  }

  delete_one :
      (n : ℕ) (s t : SyncState H P V)
      → Counted n s
      → tally t ≡ tally s
      → Counted (suc n) (record t { deleted_count = t.deleted_count + 1 })
  delete_one n s t i same = record {
    full = ap (λ c. all_full c.4) same ∙ i.full;
    sum = ground (
      arith,
      i.sum,
      ap (λ c. c.1) same,
      ap (λ c. c.2) same,
      ap (λ c. c.3) same,
      ap (λ c. length c.4) same,
    );
  }

  absorb_outcome-Counted :
      (n : ℕ) (t : SyncState H P V) (b : EmbedBatchOutcome)
      → t.embed_queue ≡ []
      → n ≤ t.indexed + b.indexed + t.skipped + length b.errors + t.deleted_count
      → Counted n (absorb_outcome t b) × (absorb_outcome t b).embed_queue ≡ []
  unfolding absorb_outcome
  absorb_outcome-Counted n t b drained enough =
      let before : SyncState H P V = record t { indexed = t.indexed + b.indexed } in
      let u = absorb_paths b.indexed_paths before in
      let same = absorb_errors-tally b.errors u ∙ absorb_paths-tally b.indexed_paths before in
      (
        record {
          full = ap (λ c. all_full c.4) same ∙ ap (all_full {H = H} {P = P}) drained;
          sum = ground (arith, enough, ap (λ c. c.1) same, ap (λ c. c.2) same, ap (λ c. c.3) same);
        },
        ap (λ c. c.4) same ∙ drained,
      )

module _ {H P V : Type 0} ⦃same : Key H⦄ (parts : Parts H P V) (o : RunOptions) where
  abbrev pub CountedBy : ℕ → Result SyncError (SyncState H P V) → Type 0
  CountedBy n m = OnOk (Counted n) m

  pub flush_queue-drained :
      (n : ℕ) (s : SyncState H P V)
      → Counted n s
      → OnOk (λ t. Counted n t × t.embed_queue ≡ []) (flush_queue parts.embed parts.insert_error s)
  unfolding flush_queue
  flush_queue-drained n s i =
      bind-OnOk {E = SyncError} {A = SyncState H P V × EmbedBatchOutcome} {B = SyncState H P V}
        (Accounts parts.embed parts.insert_error (record s { embed_queue = [] })
          (length s.embed_queue))
        (λ t. Counted n t × t.embed_queue ≡ [])
        (process_embed_batch parts.embed parts.insert_error s.embed_queue
          (record s { embed_queue = [] }))
        (λ r. ok (absorb_outcome r.0 r.1))
        (process_embed_batch-tally parts.embed parts.insert_error s.embed_queue
          (record s { embed_queue = [] }) i.full)
        (λ r j.
          absorb_outcome-Counted n r.0 r.1 (ap (λ c. c.4) j.0)
            (ground (arith, i.sum, j.1, ap (λ c. c.1) j.0, ap (λ c. c.2) j.0, ap (λ c. c.3) j.0)))

  save_if_due-Counted :
      (n : ℕ) (s : SyncState H P V) → Counted n s → CountedBy n (save_if_due parts o s)
  unfolding save
  save_if_due-Counted n s i = elim (Bool-cases (leb save_interval s.since_save)) [
    | inr early ↦ rw early i
    | inl due ↦
        rw due
          (branch (CountedBy n) parts.save_error _ _ tt (record { full = i.full; sum = i.sum }))
  ]

  degrade-Counted :
      (n : ℕ) (path code message : String) (e : SyncError) (s : SyncState H P V)
      → Counted n s
      → CountedBy (suc n) (degrade parts o path code message e s)
  unfolding degrade
  degrade-Counted n path code message e s i = elim (Bool-cases o.allow_degraded) [
    | inr strict ↦ rw strict tt
    | inl allowed ↦ rw allowed (skip_one n s (record_degraded _ s) i (record_degraded-tally _ s))
  ]

  queued-Counted :
      (n : ℕ) (entry : PendingEmbed H P) (s : SyncState H P V)
      → is_empty entry.chunks ≡ false
      → Counted n s
      → Counted (suc n) (record s { embed_queue = s.embed_queue ++ entry ∷ [] })
  queued-Counted n entry s some_chunks i = record {
    full = ground (arith, all_full-append s.embed_queue (entry ∷ []), some_chunks, i.full);
    sum = ground (arith, length-append s.embed_queue (entry ∷ []), i.sum);
  }

  enqueue-Counted :
      (n : ℕ) (f : File H) (content : List ℕ) (chunks : List P) (s : SyncState H P V)
      → is_empty chunks ≡ false
      → Counted n s
      → CountedBy (suc n) (enqueue parts o f content chunks s)
  unfolding enqueue
  enqueue-Counted n f content chunks s some_chunks i =
      let entry : PendingEmbed H P = new_entry parts o f content chunks in
      let queued : SyncState H P V = record s { embed_queue = s.embed_queue ++ entry ∷ [] } in
      elim (Bool-cases (leb o.file_batch_size (length (s.embed_queue ++ entry ∷ [])))) [
        | inr room ↦ rw room (queued-Counted n entry s some_chunks i)
        | inl full ↦ rw full (
            bind-OnOk {E = SyncError} {A = SyncState H P V} {B = SyncState H P V}
              (λ t. Counted (suc n) t × t.embed_queue ≡ []) (Counted (suc n))
              (flush_queue parts.embed parts.insert_error queued)
              (λ t.
                save_if_due parts o
                  (record t { since_save = t.since_save + t.indexed - queued.indexed }))
              (flush_queue-drained (suc n) queued (queued-Counted n entry s some_chunks i))
              (λ t j.
                save_if_due-Counted (suc n)
                  (record t { since_save = t.since_save + t.indexed - queued.indexed })
                  (record { full = j.0.full; sum = j.0.sum })))
      ]

  index_file-Counted :
      (n : ℕ) (f : File H) (content : List ℕ) (s : SyncState H P V)
      → Counted n s
      → CountedBy (suc n) (index_file parts o f content s)
  unfolding index_file enqueue save
  index_file-Counted n f content s i = elim (Bool-cases o.fast_mode) [
    | inl fast ↦ rw fast (enqueue-Counted n f content _ s refl i)
    | inr full ↦ rw full (elim (Result-cases (parts.chunk f.path_key content)) [
      | inr (message, bad) ↦ rw bad (degrade-Counted n _ _ _ _ s i)
      | inl (chunks, good) ↦
          rw good (elim (Bool-cases (ltb o.max_chunks_per_file (length chunks + 1))) [
            | inl over ↦ rw over (degrade-Counted n _ _ _ _ s i)
            | inr fits ↦ rw fits (enqueue-Counted n f content _ s refl i)
          ])
    ])
  ]

  pub readable-Counted :
      (n : ℕ) (f : File H) (content : List ℕ) (s : SyncState H P V)
      → Counted n s
      → CountedBy (suc n) (readable parts o f content s)
  unfolding readable set_meta save
  readable-Counted n f content s i =
      let skipped : SyncState H P V = record s { skipped = s.skipped + 1 } in
      let j : Counted (suc n) skipped = skip_one n s s i refl in
      let existing : Option (FileMeta H) = lookup f.path_key s.meta in
      elim (Bool-cases (is_empty content)) [
        | inl nothing ↦ rw nothing (elim (Bool-cases o.dry_run) [
          | inl dry ↦ rw dry j
          | inr real ↦ rw real (record { full = j.full; sum = j.sum })
        ])
        | inr something ↦
            rw something (elim (Bool-cases (has_hash parts o (parts.sum content) existing)) [
              | inl old ↦ rw old (elim (Bool-cases o.dry_run) [
                | inl dry ↦ rw dry j
                | inr real ↦
                    rw real (save_if_due-Counted (suc n) _ (record { full = j.full; sum = j.sum }))
              ])
              | inr new ↦ rw new (
                  branch (CountedBy (suc n)) o.dry_run (ok (record s { indexed = s.indexed + 1 }))
                    (index_file parts o f content (
                      if is_known existing
                      then record s { replace_candidates = add f.path_key s.replace_candidates }
                      else s))
                    (record { full = i.full; sum = ground (arith, i.sum) })
                    (index_file-Counted n f content _ (
                      branch (Counted n) (is_known existing)
                        (record s { replace_candidates = add f.path_key s.replace_candidates }) s
                        (record { full = i.full; sum = i.sum }) i)))
            ])
      ]

  pub unreadable-Counted :
      (n : ℕ) (f : File H) (e : ReadError) (s : SyncState H P V)
      → Counted n s
      → CountedBy (suc n) (unreadable parts o f e s)
  unfolding unreadable is_gone
  unreadable-Counted n f e s i =
      let gone : CountedBy (suc n) (unreadable parts o f not_found s) =
        elim (Bool-cases o.dry_run) [
          | inl dry ↦ rw dry (delete_one n s s i refl)
          | inr real ↦
              rw real (delete_one n s (discard f.path_key s) i (discard-tally f.path_key s))
        ] in
      elim e as (λ x. CountedBy (suc n) (unreadable parts o f x s)) [
        | not_found ↦ gone
        | open_failed ↦ gone
        | stable_read ↦ degrade-Counted n _ _ _ _ s i
        | other_error ↦ degrade-Counted n _ _ _ _ s i
      ]
