-- ===== src/Snapshot/View/Live.antt =====
-- The rows of one path in a snapshot, table by table.
use mathlib.Core.List.{append-nil, append_assoc}
use goodgrep.Prelude.{sym, ◌≡◌, refl, String, true, false, List, [], ◌∷◌, ◌++◌, some, arith}
use goodgrep.Prelude.Tests.{string_key, if◌then◌else◌}
use goodgrep.Prelude.Lists.{filter, contains, filter-append}
use goodgrep.Snapshot.View.{SnapshotView, is_visible, Row, Store, live_in, live, of_path}

module _ {A : Type 0} where
  -- One path's rows, by tables that are visible or not.
  pub path_live : SnapshotView → Store A → String → List String → List (Row A)
  path_live v store path [] = []
  path_live v store path (t ∷ ts) =
      (if is_visible v path (some t) then of_path path (store t) else [])
      ++ path_live v store path ts

  of_path-visible :
      (v : SnapshotView) (path t : String) (rows : List (Row A))
      → of_path path (filter (λ r. is_visible v r.path_key (some t)) rows)
        ≡ (if is_visible v path (some t) then of_path path rows else [])
  of_path-visible v path t [] = ground arith
  of_path-visible v path t (r ∷ rows) =
      ground (arith, of_path-visible v path t rows, string_key.same_iff r.path_key path)

  of_path-live_in :
      (v : SnapshotView) (store : Store A) (path : String) (ts : List String)
      → of_path path (live_in v store ts) ≡ path_live v store path ts
  unfolding live_in path_live
  of_path-live_in v store path [] = refl
  of_path-live_in v store path (t ∷ ts) = rw (
    filter-append _ (filter (λ r. is_visible v r.path_key (some t)) (store t)) (live_in v store ts),
    of_path-visible v path t (store t),
    of_path-live_in v store path ts,
  )

  pub of_path-live :
      (v : SnapshotView) (store : Store A) (path : String)
      → of_path path (live v store) ≡ path_live v store path v.segment_tables
  unfolding live
  of_path-live v store path = of_path-live_in v store path v.segment_tables

  pub path_live-append :
      (v : SnapshotView) (store : Store A) (path : String) (ts us : List String)
      → path_live v store path (ts ++ us) ≡ path_live v store path ts ++ path_live v store path us
  unfolding path_live
  path_live-append v store path [] us = refl
  path_live-append v store path (t ∷ ts) us = rw (path_live-append v store path ts us) (
      sym (
        append_assoc (if is_visible v path (some t) then of_path path (store t) else [])
          (path_live v store path ts) (path_live v store path us)))

  -- Two views that agree on a path show the same rows of it.
  pub path_live-congr :
      (v w : SnapshotView) (store : Store A) (path : String) (ts : List String)
      → ((t : String)
          → contains ts t ≡ true
          → is_visible v path (some t) ≡ is_visible w path (some t))
      → path_live v store path ts ≡ path_live w store path ts
  unfolding path_live
  path_live-congr v w store path [] same = refl
  path_live-congr v w store path (t ∷ ts) same = rw (
    same t (ground (arith, string_key.same_iff t t)),
    path_live-congr v w store path ts (λ u h. same u (ground arith)),
  )

  -- A path that is visible in no table shows no rows.
  pub path_live_hidden :
      (v : SnapshotView) (store : Store A) (path : String) (ts : List String)
      → ((t : String) → contains ts t ≡ true → is_visible v path (some t) ≡ false)
      → path_live v store path ts ≡ []
  unfolding path_live
  path_live_hidden v store path [] hidden = refl
  path_live_hidden v store path (t ∷ ts) hidden = rw (
    hidden t (ground (arith, string_key.same_iff t t)),
    path_live_hidden v store path ts (λ u h. hidden u (ground arith)),
  )

  -- A table that is visible for a path shows its rows of that path.
  pub path_live_one :
      (v : SnapshotView) (store : Store A) (path t : String)
      → is_visible v path (some t) ≡ true
      → path_live v store path (t ∷ []) ≡ of_path path (store t)
  unfolding path_live
  path_live_one v store path t h = rw h (append-nil (of_path path (store t)))

  pub path_live_none :
      (v : SnapshotView) (store : Store A) (path t : String)
      → of_path path (store t) ≡ []
      → path_live v store path (t ∷ []) ≡ []
  unfolding path_live
  path_live_none v store path t h = ground (arith, h)

  pub path_live-nil :
      (v : SnapshotView) (store : Store A) (path : String) → path_live v store path [] ≡ []
  unfolding path_live
  path_live-nil v store path = refl

  -- A path without a tombstone shows all its rows.
  pub path_live_all :
      (v : SnapshotView) (store : Store A) (path t : String) (ts : List String)
      → contains v.tombstones path ≡ false
      → path_live v store path (t ∷ ts) ≡ of_path path (store t) ++ path_live v store path ts
  unfolding path_live is_visible
  path_live_all v store path t ts h = rw h
