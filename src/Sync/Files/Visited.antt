-- ===== src/Sync/Files/Visited.antt =====
-- What a file that was read, or could not be read, does to the invariant.
use goodgrep.Prelude.{ℕ, ◌+◌, String, Bool, true, false, ◌≡◌, ap, List, [], Option, arith, inl, inr}
use goodgrep.Prelude.Tests.{Key, nat_key, string_key, if◌then◌else◌, Bool-cases}
use goodgrep.Prelude.Lists.{is_empty, length}
use goodgrep.Prelude.Results.{Result, ok}
use goodgrep.Prelude.Maps.{lookup, add, contains-add}
use goodgrep.Sync.Files.{
  FileMeta, File, SyncState, SyncError, RunOptions, Parts, ReadError, discard, set_meta, is_known,
  save, index_file, readable, unreadable, is_gone, not_found, open_failed, stable_read, other_error,
  new_meta, has_hash,
}
use goodgrep.Sync.Files.Absorbed.{queue_paths}
use goodgrep.Sync.Files.Batches.{set_meta-Pending}
use goodgrep.Sync.Files.Rounds.{Staging, counts-Pending, settled, discard-Staging}
use goodgrep.Sync.Files.Queued.{
  KeptBy, MayQueue, degrade-Staging, save_if_due-Staging, index_file-Staging,
}

module _ {H P V : Type 0} ⦃same : Key H⦄ (parts : Parts H P V) (o : RunOptions)
    (first : List (String × FileMeta H)) (p : String) where
  set_meta-Staging :
      (key : String) (m : FileMeta H) (s : SyncState H P V)
      → Staging first p s
      → Staging first p (set_meta key m s)
  unfolding set_meta
  set_meta-Staging key m s i =
      settled first p (queue_paths s.embed_queue) _
        (set_meta-Pending first p (queue_paths s.embed_queue) [] key m s i)

  -- A known path waits to be replaced; a path that is not known now has its tombstone.
  candidate-Staging :
      (path : String) (s : SyncState H P V)
      → Staging first p s
      → Staging first p (record s { replace_candidates = add path s.replace_candidates })
  candidate-Staging path s i = record {
    kept = record { recorded = i.kept.recorded; known = i.kept.known; replaced = i.kept.replaced };
    waiting = ground (arith, contains-add path p s.replace_candidates, i.waiting);
    still = i.still;
    queued = i.queued;
    own_rows = i.own_rows;
  }

  known-MayQueue :
      (path : String) (s : SyncState H P V)
      → MayQueue parts o first p path
          (record s { replace_candidates = add path s.replace_candidates })
  known-MayQueue path s =
      ground (arith, contains-add path p s.replace_candidates, string_key.same_iff path p)

  new-MayQueue :
      (path : String) (s : SyncState H P V)
      → is_known (lookup path s.meta) ≡ false
      → Staging first p s
      → MayQueue parts o first p path s
  new-MayQueue path s fresh i =
      ground (
        arith,
        fresh,
        string_key.same_iff path p,
        ap (λ q. is_known (lookup q s.meta)),
        i.kept.known,
      )

  replace_file-Staging :
      (f : File H) (content : List ℕ) (s : SyncState H P V)
      → Staging first p s
      → KeptBy parts o first p (
          index_file parts o f content (
            if is_known (lookup f.path_key s.meta)
            then record s { replace_candidates = add f.path_key s.replace_candidates }
            else s))
  replace_file-Staging f content s i = elim (Bool-cases (is_known (lookup f.path_key s.meta))) [
    | inl old ↦ rw old (
        index_file-Staging parts o first p f content _ (known-MayQueue f.path_key s)
          (candidate-Staging f.path_key s i))
    | inr fresh ↦
        rw fresh
          (index_file-Staging parts o first p f content s (new-MayQueue f.path_key s fresh i) i)
  ]

  pub branch-Staging :
      (b : Bool) (x y : Result SyncError (SyncState H P V))
      → KeptBy parts o first p x
      → KeptBy parts o first p y
      → KeptBy parts o first p (if b then x else y)
  branch-Staging true x y hx hy = hx
  branch-Staging false x y hx hy = hy

  pub readable-Staging :
      (f : File H) (content : List ℕ) (s : SyncState H P V)
      → Staging first p s
      → KeptBy parts o first p (readable parts o f content s)
  unfolding readable save
  readable-Staging f content s i =
      let skipped : SyncState H P V = record s { skipped = s.skipped + 1 } in
      let j : Staging first p skipped = counts-Pending first p _ _ _ _ _ _ _ _ _ s i in
      let existing : Option (FileMeta H) = lookup f.path_key s.meta in
      elim (Bool-cases (is_empty content)) [
        | inl nothing ↦ rw nothing (elim (Bool-cases o.dry_run) [
          | inl dry ↦ rw dry j
          | inr real ↦ rw real (set_meta-Staging _ _ skipped j)
        ])
        | inr something ↦
            rw something (elim (Bool-cases (has_hash parts o (parts.sum content) existing)) [
              | inl old ↦ rw old (elim (Bool-cases o.dry_run) [
                | inl dry ↦ rw dry j
                | inr real ↦ rw real (
                    let t : SyncState H P V =
                      set_meta f.path_key (new_meta parts o f content (length content)) skipped in
                    save_if_due-Staging parts o first p (record t { since_save = t.since_save + 1 })
                      (counts-Pending first p _ _ _ _ _ _ _ _ _ t (set_meta-Staging _ _ skipped j)))
              ])
              | inr new ↦ rw new (
                  branch-Staging o.dry_run (ok (record s { indexed = s.indexed + 1 }))
                    (index_file parts o f content (
                      if is_known existing
                      then record s { replace_candidates = add f.path_key s.replace_candidates }
                      else s))
                    (counts-Pending first p _ _ _ _ _ _ _ _ _ s i)
                    (replace_file-Staging f content s i))
            ])
      ]

  pub unreadable-Staging :
      (f : File H) (e : ReadError) (s : SyncState H P V)
      → Staging first p s
      → KeptBy parts o first p (unreadable parts o f e s)
  unfolding unreadable is_gone
  unreadable-Staging f e s i =
      let gone : KeptBy parts o first p (unreadable parts o f not_found s) =
        elim (Bool-cases o.dry_run) [
          | inl dry ↦ rw dry (counts-Pending first p _ _ _ _ _ _ _ _ _ s i)
          | inr real ↦ rw real (
              counts-Pending first p _ _ _ _ _ _ _ _ _ (discard f.path_key s)
                (discard-Staging first p f.path_key s i))
        ] in
      elim e as (λ x. KeptBy parts o first p (unreadable parts o f x s)) [
        | not_found ↦ gone
        | open_failed ↦ gone
        | stable_read ↦ degrade-Staging parts o first p _ _ _ _ s i
        | other_error ↦ degrade-Staging parts o first p _ _ _ _ s i
      ]
