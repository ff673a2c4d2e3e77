-- ===== src/Sync/Files/Rounds.antt =====
-- What the rounds of the loop over the files keep.
use goodgrep.Prelude.{ℕ, String, false, not, ◌&&◌, ◌≡◌, refl, ap, List, [], ◌∷◌, ◌++◌, arith}
use goodgrep.Prelude.Tests.{◌==◌, nat_key, string_key}
use goodgrep.Prelude.Lists.{contains}
use goodgrep.Prelude.Maps.{lookup, lookup-remove, remove}
use goodgrep.Sync.Files.{FileMeta, PendingEmbed, SyncState, push_tombstone, discard, is_known}
use goodgrep.Sync.Files.Tombstones.{
  push_tombstone-keys, push_tombstone-tombstones, push_tombstone-rest,
}
use goodgrep.Sync.Files.Absorbed.{queue_paths, row_paths, Pending}

pub queue_paths-append :
    {H P : Type 0} (xs ys : List (PendingEmbed H P))
    → queue_paths (xs ++ ys) ≡ queue_paths xs ++ queue_paths ys
queue_paths-append [] ys = refl
queue_paths-append (x ∷ xs) ys = ap (λ ps. x.path_key ∷ ps) (queue_paths-append xs ys)

module _ {H P V : Type 0} (first : List (String × FileMeta H)) (p : String) where
  -- The invariant between two rounds.
  abbrev pub Staging : SyncState H P V → Type 0
  Staging s = Pending first p (queue_paths s.embed_queue) [] s

  -- Counts and the saved metadata do not matter.
  pub counts-Pending :
      (processed indexed skipped deleted_count bytes_processed since_save : ℕ)
      (saved : List (String × FileMeta H)) (queue left : List String) (s : SyncState H P V)
      → Pending first p queue left s
      → Pending first p queue left (record s {
        processed = processed;
        indexed = indexed;
        skipped = skipped;
        deleted_count = deleted_count;
        bytes_processed = bytes_processed;
        since_save = since_save;
        saved = saved;
      })
  counts-Pending processed indexed skipped deleted_count bytes_processed since_save saved queue left
        s i =
      record {
        kept = record {
          recorded = i.kept.recorded;
          known = i.kept.known;
          replaced = i.kept.replaced;
        };
        waiting = i.waiting;
        still = i.still;
        queued = i.queued;
        own_rows = i.own_rows;
      }

  pub settled : (queue : List String) (s : SyncState H P V) → Pending first p queue [] s → Staging s
  settled queue s i = record {
    kept = i.kept;
    waiting = ground (arith, i.waiting, i.still);
    still = ground arith;
    queued = refl;
    own_rows = i.own_rows;
  }

  pub push-Staging :
      (key reason : String) (s : SyncState H P V)
      → Staging s
      → Staging (push_tombstone key reason s)
  push-Staging key reason s i =
      let keys = push_tombstone-keys key p reason s in
      let same = push_tombstone-rest key p reason s in
      settled (queue_paths s.embed_queue) (push_tombstone key reason s) (record {
        kept = record {
          recorded = push_tombstone-tombstones key p reason s i.kept.recorded;
          known = ground (arith, keys, ap (λ m. is_known (lookup p m)) same.0, i.kept.known);
          replaced = ground (arith, keys, ap (λ ps. contains ps p) same.3, i.kept.replaced);
        };
        waiting = ground (arith, keys, ap (λ ps. contains ps p) same.4, i.waiting);
        still = ground (arith, ap (λ q. contains (queue_paths q) p) same.2, i.still);
        queued = refl;
        own_rows = ground (
          arith,
          ap (λ ps. contains ps p) same.3,
          ap (λ rs. contains (row_paths rs) p) same.1,
          i.own_rows,
        );
      })

  -- The metadata of a path with a tombstone is removed.
  pub forget-Staging :
      (key : String) (s : SyncState H P V)
      → (key == p && not (contains s.tombstone_keys p)) ≡ false
      → Staging s
      → Staging (record s { meta = remove key s.meta })
  forget-Staging key s gone i = record {
    kept = record {
      recorded = i.kept.recorded;
      known = ground (arith, lookup-remove key p s.meta, gone, i.kept.known);
      replaced = i.kept.replaced;
    };
    waiting = i.waiting;
    still = i.still;
    queued = i.queued;
    own_rows = i.own_rows;
  }

  -- A path with a tombstone is pushed, and its metadata is removed.
  pub drop-Staging :
      (key reason : String) (s : SyncState H P V)
      → Staging s
      → let t = push_tombstone key reason s in Staging (record t { meta = remove key t.meta })
  drop-Staging key reason s i =
      forget-Staging key (push_tombstone key reason s)
        (ground (arith, push_tombstone-keys key p reason s)) (push-Staging key reason s i)

  pub discard-Staging : (key : String) (s : SyncState H P V) → Staging s → Staging (discard key s)
  unfolding discard
  discard-Staging key s i = drop-Staging key "delete" s i
