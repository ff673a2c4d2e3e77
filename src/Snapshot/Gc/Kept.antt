-- ===== src/Snapshot/Gc/Kept.antt =====
-- What is left of the store of a snapshot that is retained.
use mathlib.Core.List.{Mem, mem-cons, not-mem-nil}
use mathlib.Core.Logic.Or
use goodgrep.Prelude.{
  ℕ, ◌≡◌, refl, sym, ap, ◌∙◌, String, Bool, true, false, not, ◌&&◌, ◌||◌, List, [], ◌∷◌, Option,
  arith,
}
use goodgrep.Prelude.Tests.{string_key, if◌then◌else◌}
use goodgrep.Prelude.Lists.{contains, contains-filter, filter, any}
use goodgrep.Prelude.Maps.{add_all, contains-add_all, lookup}
use goodgrep.FilePath.{starts_with}
use goodgrep.Snapshot.Manifest.{tables}
use goodgrep.Snapshot.Gc.{
  SnapshotEntry, DirEntry, GcOptions, GcStore, load_entries, sort_newest, retained,
  retained_entries, deleted_snapshots, keep_segments, keep_tombstones, tombstone_paths, is_dropped,
  gc_dry, gc_delete, gc_snapshots,
}
use goodgrep.Snapshot.Gc.Sorted.{mem-sort_newest}
use goodgrep.Snapshot.Gc.Files.{has_file, has_file-delete_snapshots, lookup-delete_snapshots}

contains-keep_segments :
    (es : List SnapshotEntry) (keep : List String) (t : String)
    → contains (keep_segments es keep) t
      ≡ (any (λ e. contains (tables e.manifest.segments) t) es || contains keep t)
unfolding keep_segments
contains-keep_segments [] keep t = refl
contains-keep_segments (e ∷ es) keep t = ground (
  arith,
  contains-keep_segments es (add_all (tables e.manifest.segments) keep) t,
  contains-add_all (tables e.manifest.segments) keep t,
)

contains-keep_tombstones :
    (es : List SnapshotEntry) (keep : List String) (p : String)
    → contains (keep_tombstones es keep) p
      ≡ (any (λ e. contains (tombstone_paths e.manifest.tombstones) p) es || contains keep p)
unfolding keep_tombstones
contains-keep_tombstones [] keep p = refl
contains-keep_tombstones (e ∷ es) keep p = ground (
  arith,
  contains-keep_tombstones es (add_all (tombstone_paths e.manifest.tombstones) keep) p,
  contains-add_all (tombstone_paths e.manifest.tombstones) keep p,
)

any-filter :
    (p q : SnapshotEntry → Bool) (e : SnapshotEntry) (es : List SnapshotEntry)
    → Mem e es
    → q e ≡ true
    → p e ≡ true
    → any p (filter q es) ≡ true
any-filter p q e [] m hq hp = absurd (not-mem-nil m)
any-filter p q e (x ∷ xs) m hq hp =
    Or.elim (hlevel) (mem-cons.0 m) (λ same. ground (arith, ap p same, ap q same))
      (λ later. ground (arith, any-filter p q e xs later hq hp))

contains-deleted_snapshots :
    (retain : List String) (es : List SnapshotEntry) (k : String)
    → contains retain k ≡ true
    → contains (deleted_snapshots retain es) k ≡ false
contains-deleted_snapshots retain [] k h = refl
contains-deleted_snapshots retain (e ∷ es) k h =
    ground (arith, contains-deleted_snapshots retain es k h, string_key.same_iff e.snapshot_id k)

-- What is kept of one snapshot between two stores.
pub record Keeps (e : SnapshotEntry) (before after : GcStore) : Type 0 where
  pub dir : lookup e.snapshot_id after.dirs ≡ lookup e.snapshot_id before.dirs
  pub segments :
      (t : String)
      → (contains (tables e.manifest.segments) t && contains before.tables t)
        ≡ (contains (tables e.manifest.segments) t && contains after.tables t)
  pub tombstones :
      (path id : String)
      → (contains (tombstone_paths e.manifest.tombstones) path && has_file before.dirs id path)
        ≡ (contains (tombstone_paths e.manifest.tombstones) path && has_file after.dirs id path)

gc_delete-Keeps :
    (drops : String → Bool) (retain : List String) (es : List SnapshotEntry) (store : GcStore)
    (e : SnapshotEntry)
    → Mem e es
    → contains retain e.snapshot_id ≡ true
    → Keeps e store (gc_delete drops retain es store).store
unfolding gc_delete
gc_delete-Keeps drops retain es store e m kept = record {
  dir =
      lookup-delete_snapshots _ (deleted_snapshots retain es) _ e.snapshot_id
        (contains-deleted_snapshots retain es e.snapshot_id kept);
  segments = λ t. ground (
    arith,
    any-filter (λ f. contains (tables f.manifest.segments) t) (λ f. contains retain f.snapshot_id) e
        es m kept,
    contains-keep_segments (retained_entries retain es) [] t,
    contains-filter (λ u. not (is_dropped drops (keep_segments (retained_entries retain es) []) u))
        store.tables t,
  );
  tombstones = λ path id. ground (
    arith,
    any-filter (λ f. contains (tombstone_paths f.manifest.tombstones) path)
        (λ f. contains retain f.snapshot_id) e es m kept,
    contains-keep_tombstones (retained_entries retain es) [] path,
    has_file-delete_snapshots (keep_tombstones (retained_entries retain es) [])
        (deleted_snapshots retain es) (record { dirs = store.dirs; tombstones = [] }) id path,
  );
}

gc_dry-Keeps :
    (retain : List String) (es : List SnapshotEntry) (store : GcStore) (e : SnapshotEntry)
    → Keeps e store (gc_dry retain es store).store
unfolding gc_dry
gc_dry-Keeps retain es store e = record {
  dir = refl;
  segments = λ t. refl;
  tombstones = λ path id. refl;
}

retained_either :
    (b : Bool) (drops : String → Bool) (retain : List String) (es : List SnapshotEntry)
    (store : GcStore)
    → (if b then gc_dry retain es store else gc_delete drops retain es store).retained_snapshots
      ≡ retain
unfolding gc_dry gc_delete
retained_either true drops retain es store = refl
retained_either false drops retain es store = refl

either-Keeps :
    (b : Bool) (drops : String → Bool) (retain : List String) (es : List SnapshotEntry)
    (store : GcStore) (e : SnapshotEntry)
    → Mem e es
    → contains retain e.snapshot_id ≡ true
    → Keeps e store (if b then gc_dry retain es store else gc_delete drops retain es store).store
either-Keeps true drops retain es store e m kept = gc_dry-Keeps retain es store e
either-Keeps false drops retain es store e m kept = gc_delete-Keeps drops retain es store e m kept

tables_either :
    (b : Bool) (drops : String → Bool) (retain : List String) (es : List SnapshotEntry)
    (store : GcStore) (t : String)
    → contains
        (if b then gc_dry retain es store else gc_delete drops retain es store).store.tables
        t
      ≡ (contains store.tables t
          && (b
              || not (starts_with "seg_" t)
              || not (drops t)
              || any (λ e. contains (tables e.manifest.segments) t) (retained_entries retain es)))
unfolding gc_dry gc_delete
tables_either true drops retain es store t = ground arith
tables_either false drops retain es store t = ground (
  arith,
  contains-keep_segments (retained_entries retain es) [] t,
  contains-filter (λ u. not (is_dropped drops (keep_segments (retained_entries retain es) []) u))
      store.tables t,
)

-- A garbage collection keeps, of every snapshot whose manifest loads with a time that parses and whose
-- id is reported as retained: its directory as it was, every segment table that its manifest names and
-- the store has, and every tombstone file that its manifest names, in whichever snapshot's directory it
-- is.
pub gc_snapshots-Keeps :
    (drops : String → Bool) (o : GcOptions) (now : ℕ) (active : Option String)
    (entries : List DirEntry) (store : GcStore) (e : SnapshotEntry)
    → Mem e (load_entries entries)
    → contains (gc_snapshots drops o now active entries store).retained_snapshots e.snapshot_id
      ≡ true
    → Keeps e store (gc_snapshots drops o now active entries store).store
unfolding gc_snapshots
gc_snapshots-Keeps drops o now active entries store e m kept =
    either-Keeps o.dry_run drops _ _ store e (mem-sort_newest e (load_entries entries) m)
      (ap (λ r. contains r e.snapshot_id) (sym (retained_either o.dry_run drops _ _ store)) ∙ kept)

-- A dry run removes no table; a real run removes, of the tables whose name starts with `seg_`, those that
-- no retained snapshot names, where dropping them succeeds, and no other table.
pub gc_snapshots-tables :
    (drops : String → Bool) (o : GcOptions) (now : ℕ) (active : Option String)
    (entries : List DirEntry) (store : GcStore) (t : String)
    → contains (gc_snapshots drops o now active entries store).store.tables t ≡ (
        contains store.tables t
        && (o.dry_run
            || not (starts_with "seg_" t)
            || not (drops t)
            || any
                (λ e. contains (tables e.manifest.segments) t)
                (retained_entries
                  (gc_snapshots drops o now active entries store).retained_snapshots
                  (sort_newest (load_entries entries)))))
unfolding gc_snapshots
gc_snapshots-tables drops o now active entries store t =
    tables_either o.dry_run drops (retained o now active (sort_newest (load_entries entries))) _
      store t
    ∙ ap
        (λ r.
          contains store.tables t
          && (o.dry_run
              || not (starts_with "seg_" t)
              || not (drops t)
              || any (λ e. contains (tables e.manifest.segments) t)
                  (retained_entries r (sort_newest (load_entries entries)))))
        (sym (retained_either o.dry_run drops _ _ store))
