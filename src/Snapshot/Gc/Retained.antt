-- ===== src/Snapshot/Gc/Retained.antt =====
-- Which snapshots are retained.
use mathlib.Core.List.{Mem, mem-cons, not-mem-nil}
use mathlib.Core.Logic.Or
use Prim.Native.Nat.{◌^◌}
use goodgrep.Prelude.{
  ℕ, ◌≤◌, ◌<◌, ◌-◌, ◌/◌, ◌≢◌, max, ◌≡◌, ap, String, Bool, true, false, ◌&&◌, ◌||◌, List, [], ◌∷◌,
  Option, some, arith,
}
use goodgrep.Prelude.Tests.{leb, string_key}
use goodgrep.Prelude.Lists.{length, contains, take, filter, All}
use goodgrep.Prelude.Maps.{add_all, contains-add_all}
use goodgrep.Snapshot.Gc.{
  SnapshotEntry, GcOptions, sort_newest, retained, entry_ids, is_young, retain_active,
}
use goodgrep.Snapshot.Gc.Sorted.{
  mem-sort_newest, length-filter-sort_newest, sort_newest-Sorted, newer-take,
}

contains-retained :
    (active : Option String) (o : GcOptions) (now : ℕ) (xs : List SnapshotEntry) (k : String)
    → contains (retained o now active xs) k ≡ (
        contains (entry_ids (take (max o.min_keep 1) xs)) k
        || contains (entry_ids (filter (is_young o now) xs)) k
        || contains o.pinned k
        || contains (retain_active active) k)
unfolding retained
contains-retained active o now xs k = ground (
  arith,
  contains-add_all (entry_ids (take (max o.min_keep 1) xs))
      (add_all (entry_ids (filter (is_young o now) xs)) (add_all o.pinned (retain_active active)))
      k,
  contains-add_all (entry_ids (filter (is_young o now) xs))
      (add_all o.pinned (retain_active active)) k,
  contains-add_all o.pinned (retain_active active) k,
)

All-entry_ids :
    (keep : List String) (es : List SnapshotEntry)
    → ((k : String) → contains (entry_ids es) k ≡ true → contains keep k ≡ true)
    → All (λ f. contains keep f.snapshot_id ≡ true) es
All-entry_ids keep [] h = tt
All-entry_ids keep (e ∷ es) h = (
  h e.snapshot_id (ground (arith, string_key.same_iff e.snapshot_id e.snapshot_id)),
  All-entry_ids keep es (λ k later. h k (ground arith)),
)

contains-entry_ids :
    (e : SnapshotEntry) (p : SnapshotEntry → Bool) (es : List SnapshotEntry)
    → Mem e es
    → p e ≡ true
    → contains (entry_ids (filter p es)) e.snapshot_id ≡ true
contains-entry_ids e p [] m h = absurd (not-mem-nil m)
contains-entry_ids e p (x ∷ xs) m h =
    Or.elim (hlevel) (mem-cons.0 m)
      (λ same. ground (
        arith,
        ap p same,
        ap (λ y. y.snapshot_id) same,
        string_key.same_iff x.snapshot_id e.snapshot_id,
      ))
      (λ later. ground (arith, contains-entry_ids e p xs later h))

-- If the least age is below 2^63 seconds and the safety window below 2^64 milliseconds, a snapshot that
-- is not retained is not the active one, not pinned, older in whole seconds than either limit, and
-- at least `max min_keep 1` retained snapshots are as new as it is.
pub retained_sound :
    (o : GcOptions) (now : ℕ) (active : Option String) (es : List SnapshotEntry) (e : SnapshotEntry)
    → o.min_age_secs < 2 ^ 63
    → o.safety_window_ms < 2 ^ 64
    → Mem e es
    → contains (retained o now active (sort_newest es)) e.snapshot_id ≡ false
    → (active ≢ some e.snapshot_id)
      × (contains o.pinned e.snapshot_id ≡ false)
      × (o.min_age_secs < (now - e.created_at) / 1000)
      × (o.safety_window_ms / 1000 < (now - e.created_at) / 1000)
      × (max o.min_keep 1
          ≤ length (
              filter
                (λ f.
                  leb e.created_at f.created_at
                  && contains (retained o now active (sort_newest es)) f.snapshot_id)
                es))
unfolding is_young
retained_sound o now active es e years ages m gone = (
  ground (arith, reasons e.snapshot_id, string_key.same_iff e.snapshot_id e.snapshot_id),
  ground (arith, reasons e.snapshot_id),
  ground (arith, reasons e.snapshot_id, young),
  ground (arith, reasons e.snapshot_id, young),
  ground (
    arith,
    length-filter-sort_newest (λ f. leb e.created_at f.created_at && contains keep f.snapshot_id)
        es,
    newer-take (max o.min_keep 1) keep e (sort_newest es) (sort_newest-Sorted es)
        (mem-sort_newest e es m) gone (All-entry_ids keep _ (λ k first. ground (arith, reasons k))),
  ),
)
  where
    keep : List String
    keep = retained o now active (sort_newest es)

    reasons :
        (k : String)
        → contains keep k ≡ (
            contains (entry_ids (take (max o.min_keep 1) (sort_newest es))) k
            || contains (entry_ids (filter (is_young o now) (sort_newest es))) k
            || contains o.pinned k
            || contains (retain_active active) k)
    reasons k = contains-retained active o now (sort_newest es) k

    young :
        is_young o now e ≡ true
        → contains (entry_ids (filter (is_young o now) (sort_newest es))) e.snapshot_id ≡ true
    young = contains-entry_ids e (is_young o now) (sort_newest es) (mem-sort_newest e es m)
