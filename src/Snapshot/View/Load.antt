-- ===== src/Snapshot/View/Load.antt =====
-- What the tombstone files of a manifest hold.
use goodgrep.Prelude.{
  ◌≡◌, refl, String, Bool, false, inl, inr, List, [], ◌∷◌, ◌++◌, map, Option, some, arith,
}
use goodgrep.Prelude.Tests.{string_key, Option-cases}
use goodgrep.Prelude.Maps.{add_all}
use goodgrep.Prelude.Results.{ok, ◌>>=◌, Result-cases}
use goodgrep.Snapshot.Manifest.{SnapshotTombstoneRef}
use goodgrep.Snapshot.Manifest.{SnapshotManifest, tables}
use goodgrep.Snapshot.View.{SnapshotView, from_manifest, load_lines, load_tombstones}

module _ (read : String → Option (List String)) (is_blank : String → Bool)
    (from_str : String → Option String) where
  pub load_tombstones-append :
      (ts us : List SnapshotTombstoneRef) (acc : List String)
      → load_tombstones read is_blank from_str (ts ++ us) acc ≡ (
          load_tombstones read is_blank from_str ts acc
          >>= load_tombstones read is_blank from_str us)
  unfolding load_tombstones
  load_tombstones-append [] us acc = refl
  load_tombstones-append (t ∷ ts) us acc = elim (Option-cases (read t.path)) [
    | inl missing ↦ rw (missing, load_tombstones)
    | inr (lines, found) ↦
        elim (Result-cases (load_lines read is_blank from_str t.path lines acc)) [
          | inl (keys, e) ↦ rw (found, load_tombstones, e) (load_tombstones-append ts us keys)
          | inr (failure, e) ↦ rw (found, load_tombstones, e)
        ]
  ]

  pub load_lines-map :
      {E : Type 0} (to_line key : E → String)
      → ((e : E) → (is_blank (to_line e) ≡ false) × (from_str (to_line e) ≡ some (key e)))
      → (path : String) (es : List E) (acc : List String)
      → load_lines read is_blank from_str path (map to_line es) acc ≡ ok (add_all (map key es) acc)
  unfolding load_lines
  load_lines-map to_line key laws path [] acc = refl
  load_lines-map to_line key laws path (e ∷ es) acc =
      rw ((laws e).0, (laws e).1, load_lines) (load_lines-map to_line key laws path es _)

  -- A manifest that names one file more has the keys of that file too.
  pub load_tombstones_one :
      {E : Type 0} (to_line key : E → String)
      → ((e : E) → (is_blank (to_line e) ≡ false) × (from_str (to_line e) ≡ some (key e)))
      → (t : SnapshotTombstoneRef) (es : List E) (acc : List String)
      → read t.path ≡ some (map to_line es)
      → load_tombstones read is_blank from_str (t ∷ []) acc ≡ ok (add_all (map key es) acc)
  unfolding load_tombstones
  load_tombstones_one to_line key laws t es acc found =
      rw (found, load_tombstones, load_lines-map to_line key laws t.path es acc)

  pub load_tombstones-nil :
      (acc : List String) → load_tombstones read is_blank from_str [] acc ≡ ok acc
  unfolding load_tombstones
  load_tombstones-nil acc = refl

  -- What a view that was opened holds.
  pub from_manifest-ok :
      (m : SnapshotManifest) (index : List (String × String)) (v : SnapshotView)
      → from_manifest read is_blank from_str m index ≡ ok v
      → (load_tombstones read is_blank from_str m.tombstones [] ≡ ok v.tombstones)
        × (v.segment_tables ≡ tables m.segments)
        × (v.segment_index ≡ index)
  unfolding from_manifest
  from_manifest-ok m index v h =
      ground (arith, Result-cases (load_tombstones read is_blank from_str m.tombstones []))
