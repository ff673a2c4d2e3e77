-- ===== src/Sync/Files/Absorbed.antt =====
-- The invariant of the loop, for one path, and the outcome of a batch.
use goodgrep.Prelude.{
  String, true, false, not, ◌&&◌, ◌≡◌, refl, ap, sym, subst, List, [], ◌∷◌, arith, inl, inr,
}
use goodgrep.Prelude.Tests.{string_key, Bool-cases}
use goodgrep.Prelude.Lists.{contains}
use goodgrep.Prelude.Maps.{add, contains-add, lookup}
use goodgrep.Snapshot.Manifest.{SnapshotError}
use goodgrep.Sync.Publish.{tombstone_keys as keys_of}
use goodgrep.Sync.Files.{
  FileMeta, PendingEmbed, SyncState, push_tombstone, remove_key, absorb_path, absorb_paths,
  absorb_errors, is_known, record_degraded,
}
use goodgrep.Sync.Files.Tombstones.{
  contains-remove_key, push_tombstone-keys, push_tombstone-tombstones, push_tombstone-rest,
}

abbrev pub queue_paths : {H P : Type 0} → List (PendingEmbed H P) → List String
queue_paths [] = []
queue_paths (entry ∷ queue) = entry.path_key ∷ queue_paths queue

abbrev pub row_paths : {P V : Type 0} → List (String × P × V) → List String
row_paths [] = []
row_paths (r ∷ rows) = r.0 ∷ row_paths rows

-- For the path `p`: the tombstones are those of the set; a path of the metadata `first` is known or has
-- a tombstone; and it has one if it was indexed.
pub record Kept {H P V : Type 0} (first : List (String × FileMeta H)) (p : String)
    (s : SyncState H P V) : Type 0 where
  pub recorded : contains (keys_of s.tombstones) p ≡ contains s.tombstone_keys p
  pub known :
      (is_known (lookup p first)
        && not (is_known (lookup p s.meta))
        && not (contains s.tombstone_keys p))
      ≡ false
  pub replaced :
      (is_known (lookup p first) && contains s.indexed_paths p && not (contains s.tombstone_keys p))
      ≡ false

-- The same while the paths `left` are taken over from a batch of the paths `queue`: a path of the batch
-- has a tombstone or is to be replaced, and rows are of indexed paths.
pub record Pending {H P V : Type 0} (first : List (String × FileMeta H)) (p : String)
    (queue left : List String) (s : SyncState H P V) : Type 0 where
  pub kept : Kept first p s
  pub waiting :
      (is_known (lookup p first)
        && contains queue p
        && not (contains s.tombstone_keys p)
        && not (contains s.replace_candidates p))
      ≡ false
  pub still : (contains (queue_paths s.embed_queue) p && not (contains queue p)) ≡ false
  pub queued : (contains left p && not (contains queue p)) ≡ false
  pub own_rows :
      (contains (row_paths s.rows) p && not (contains s.indexed_paths p) && not (contains left p))
      ≡ false

module _ {H P V : Type 0} (path : String) (s : SyncState H P V) where
  -- A path that waits to be replaced gets its tombstone.
  abbrev replaced_state : SyncState H P V
  replaced_state =
      push_tombstone path "replace"
        (record s { replace_candidates = remove_key path s.replace_candidates })

  absorb_path_waiting :
      contains s.replace_candidates path ≡ true
      → absorb_path path s
        ≡ record replaced_state { indexed_paths = add path replaced_state.indexed_paths }
  unfolding absorb_path
  absorb_path_waiting waits = rw waits refl

  absorb_path_new :
      contains s.replace_candidates path ≡ false
      → absorb_path path s ≡ record s { indexed_paths = add path s.indexed_paths }
  unfolding absorb_path
  absorb_path_new fresh = rw fresh refl

module _ {H P V : Type 0} (first : List (String × FileMeta H)) (p : String)
    (queue : List String) where
  absorb_path-Pending :
      (path : String) (left : List String) (s : SyncState H P V)
      → Pending first p queue (path ∷ left) s
      → Pending first p queue left (absorb_path path s)
  absorb_path-Pending path left s i = elim (Bool-cases (contains s.replace_candidates path)) [
    | inl waits ↦
        let before : SyncState H P V = record s {
          replace_candidates = remove_key path s.replace_candidates;
        } in
        let keys = push_tombstone-keys path p "replace" before in
        let same = push_tombstone-rest path p "replace" before in
        let added = contains-add path p s.indexed_paths in
        let removed = contains-remove_key path p s.replace_candidates in
        let here = string_key.same_iff path p in
        subst (Pending first p queue left) (sym (absorb_path_waiting path s waits)) (record {
          kept = record {
            recorded = push_tombstone-tombstones path p "replace" before i.kept.recorded;
            known = ground (arith, keys, ap (λ m. is_known (lookup p m)) same.0, i.kept.known);
            replaced =
                ground
                  (arith, keys, ap (λ ps. contains (add path ps) p) same.3, added, i.kept.replaced);
          };
          waiting = ground (arith, keys, ap (λ ps. contains ps p) same.4, removed, i.waiting);
          still = ground (arith, ap (λ q. contains (queue_paths q) p) same.2, i.still);
          queued = ground (arith, i.queued);
          own_rows = ground (
            arith,
            ap (λ ps. contains (add path ps) p) same.3,
            added,
            ap (λ rs. contains (row_paths rs) p) same.1,
            i.own_rows,
          );
        })
    | inr fresh ↦
        let added = contains-add path p s.indexed_paths in
        let here = string_key.same_iff path p in
        subst (Pending first p queue left) (sym (absorb_path_new path s fresh)) (record {
          kept = record {
            recorded = i.kept.recorded;
            known = i.kept.known;
            replaced = ground (
              arith,
              added,
              ap (contains s.replace_candidates),
              here,
              i.kept.replaced,
              i.waiting,
              i.queued,
            );
          };
          waiting = i.waiting;
          still = i.still;
          queued = ground (arith, i.queued);
          own_rows = ground (arith, added, i.own_rows);
        })
  ]

  pub absorb_paths-Pending :
      (left : List String) (s : SyncState H P V)
      → Pending first p queue left s
      → Pending first p queue [] (absorb_paths left s)
  unfolding absorb_paths
  absorb_paths-Pending [] s i = i
  absorb_paths-Pending (path ∷ left) s i =
      absorb_paths-Pending left (absorb_path path s) (absorb_path-Pending path left s i)

  pub record_degraded-Pending :
      (e : SnapshotError) (left : List String) (s : SyncState H P V)
      → Pending first p queue left s
      → Pending first p queue left (record_degraded e s)
  unfolding record_degraded
  record_degraded-Pending e left s i = elim (Bool-cases (contains s.degraded_paths e.path_key)) [
    | inl old ↦ rw old i
    | inr new ↦ rw new (record {
      kept = record {
        recorded = i.kept.recorded;
        known = i.kept.known;
        replaced = i.kept.replaced;
      };
      waiting = i.waiting;
      still = i.still;
      queued = i.queued;
      own_rows = i.own_rows;
    })
  ]

  pub absorb_errors-Pending :
      (es : List SnapshotError) (left : List String) (s : SyncState H P V)
      → Pending first p queue left s
      → Pending first p queue left (absorb_errors es s)
  unfolding absorb_errors
  absorb_errors-Pending [] left s i = i
  absorb_errors-Pending (e ∷ es) left s i =
      absorb_errors-Pending es left (record_degraded e s) (record_degraded-Pending e left s i)
