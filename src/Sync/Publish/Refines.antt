-- ===== src/Sync/Publish/Refines.antt =====
-- What the next snapshot shows, file by file.
use goodgrep.Prelude.{
  ◌≡◌, refl, sym, ap, ◌∙◌, String, Bool, false, ◌||◌, List, [], ◌∷◌, ◌++◌, map, Option, some, arith,
  inl, inr,
}
use goodgrep.Prelude.Tests.{ltb, string_key, if◌then◌else◌, Bool-cases}
use goodgrep.Prelude.Lists.{contains, List-cases}
use goodgrep.Prelude.Maps.{add_all, contains-add_all}
use goodgrep.Prelude.Results.{ok}
use goodgrep.Snapshot.Manifest.{SnapshotManifest, SnapshotSegmentRef, tables}
use goodgrep.Snapshot.View.{SnapshotView, load_tombstones, from_manifest}
use goodgrep.Snapshot.View.Load.{load_tombstones-append, load_tombstones_one, from_manifest-ok}
use goodgrep.Sync.Publish.{
  Parent, Staged, TombstoneEntry, Caps, RunInfo, tombstone_keys, or_empty, next_index,
  next_segments, next_tombstones, next_manifest,
}
use goodgrep.Snapshot.Manager.{SegmentMetadata, TombstoneArtifact}

next_manifest_parts :
    (caps : Caps) (run : RunInfo) (allow_degraded : Bool) (parent : Option Parent) (s : Staged)
    (metadata : SegmentMetadata) (path : String) (artifact : TombstoneArtifact)
    {m : SnapshotManifest}
    → next_manifest caps run allow_degraded parent s metadata path artifact ≡ ok m
    → (m.segments ≡ next_segments parent s metadata)
      × (m.tombstones ≡ next_tombstones parent s path artifact)
unfolding next_manifest
next_manifest_parts caps run allow parent s metadata path artifact h = ground arith

tables-append : (xs ys : List SnapshotSegmentRef) → tables (xs ++ ys) ≡ tables xs ++ tables ys
tables-append [] ys = refl
tables-append (x ∷ xs) ys = ap (◌∷◌ x.table) (tables-append xs ys)

tables-next_segments :
    (p : Parent) (s : Staged) (metadata : SegmentMetadata)
    → tables (next_segments (some p) s metadata) ≡ (
        if ltb 0 s.indexed
        then tables p.manifest.segments ++ s.segment_table ∷ []
        else tables p.manifest.segments)
unfolding next_segments
tables-next_segments p s metadata = elim (Bool-cases (ltb 0 s.indexed)) [
  | inl staged ↦ rw staged (tables-append p.manifest.segments _)
  | inr none_indexed ↦ rw none_indexed
]

map-path_key :
    (ts : List TombstoneEntry) → map (λ (t : TombstoneEntry). t.path_key) ts ≡ tombstone_keys ts
map-path_key [] = refl
map-path_key (t ∷ ts) = ap (◌∷◌ t.path_key) (map-path_key ts)

-- The snapshot after `v`: what the sync adds to a view.
pub record Next (p : Parent) (s : Staged) (v w : SnapshotView) : Type 0 where
  pub tombstones :
      (k : String)
      → contains w.tombstones k
        ≡ (contains (tombstone_keys s.tombstones) k || contains v.tombstones k)
  pub index : w.segment_index ≡ next_index (some p) s
  pub index_before : v.segment_index ≡ or_empty p.index
  pub segment_tables :
      w.segment_tables
      ≡ (if ltb 0 s.indexed then v.segment_tables ++ s.segment_table ∷ [] else v.segment_tables)

module _ (read : String → Option (List String)) (is_blank : String → Bool)
    (from_str : String → Option String) (to_line : TombstoneEntry → String)
    (laws : (t : TombstoneEntry)
      → (is_blank (to_line t) ≡ false) × (from_str (to_line t) ≡ some t.path_key)) where
  load_next :
      (p : Parent) (s : Staged) (path : String) (artifact : TombstoneArtifact) (ts : List String)
      → load_tombstones read is_blank from_str p.manifest.tombstones [] ≡ ok ts
      → read path ≡ some (map to_line s.tombstones)
      → load_tombstones read is_blank from_str (next_tombstones (some p) s path artifact) []
        ≡ ok (add_all (tombstone_keys s.tombstones) ts)
  unfolding next_tombstones
  load_next p s path artifact ts before written = elim (List-cases s.tombstones) [
    | inl nothing ↦ rw nothing before
    | inr (t, rest, e) ↦
        rw (e, load_tombstones-append read is_blank from_str p.manifest.tombstones _ [], before)
          (load_one (t ∷ rest) (written ∙ ap (λ es. some (map to_line es)) e))
  ]
    where
      load_one :
          (es : List TombstoneEntry)
          → read path ≡ some (map to_line es)
          → load_tombstones read is_blank from_str
              (record {
                ref_type = "jsonl";
                path = path;
                count = artifact.count;
                size_bytes = artifact.size_bytes;
                sha256 = artifact.sha256;
              }
                ∷ [])
              ts
            ≡ ok (add_all (tombstone_keys es) ts)
      load_one es found =
          load_tombstones_one read is_blank from_str to_line (λ t. t.path_key) laws _ es ts found
          ∙ ap (λ ks. ok (add_all ks ts)) (map-path_key es)

  pub from_manifest-Next :
      (caps : Caps) (run : RunInfo) (allow_degraded : Bool) (p : Parent) (s : Staged)
      (metadata : SegmentMetadata) (path : String) (artifact : TombstoneArtifact)
      (m : SnapshotManifest) (v w : SnapshotView)
      → from_manifest read is_blank from_str p.manifest (or_empty p.index) ≡ ok v
      → next_manifest caps run allow_degraded (some p) s metadata path artifact ≡ ok m
      → read path ≡ some (map to_line s.tombstones)
      → from_manifest read is_blank from_str m (next_index (some p) s) ≡ ok w
      → Next p s v w
  from_manifest-Next caps run allow p s metadata path artifact m v w before next written after =
      joined (from_manifest-ok read is_blank from_str p.manifest (or_empty p.index) v before)
        (from_manifest-ok read is_blank from_str m (next_index (some p) s) w after)
        (next_manifest_parts caps run allow (some p) s metadata path artifact next)
    where
      joined :
          (load_tombstones read is_blank from_str p.manifest.tombstones [] ≡ ok v.tombstones)
            × (v.segment_tables ≡ tables p.manifest.segments)
            × (v.segment_index ≡ or_empty p.index)
          → (load_tombstones read is_blank from_str m.tombstones [] ≡ ok w.tombstones)
            × (w.segment_tables ≡ tables m.segments)
            × (w.segment_index ≡ next_index (some p) s)
          → (m.segments ≡ next_segments (some p) s metadata)
            × (m.tombstones ≡ next_tombstones (some p) s path artifact)
          → Next p s v w
      joined (loaded, tables_v, index_v) (loaded_w, tables_w, index_w) (segments, refs) = record {
        tombstones = λ k.
            ap (λ ts. contains ts k) keys
            ∙ contains-add_all (tombstone_keys s.tombstones) v.tombstones k;
        index = index_w;
        index_before = index_v;
        segment_tables =
            tables_w
            ∙ ap tables segments
            ∙ tables-next_segments p s metadata
            ∙ ap (λ ts. if ltb 0 s.indexed then ts ++ s.segment_table ∷ [] else ts) (sym tables_v);
      }
        where
          keys : w.tombstones ≡ add_all (tombstone_keys s.tombstones) v.tombstones
          keys =
              grind (arith, loaded_w, refs, load_next p s path artifact v.tombstones loaded written)
