-- ===== src/Sync/Files/Tombstones.antt =====
-- Tombstones and metadata while files are staged: what a step does to one path.
use goodgrep.Prelude.{String, not, ◌&&◌, ◌||◌, ◌≡◌, refl, ap, List, [], ◌∷◌, ◌++◌, arith, inl, inr}
use goodgrep.Prelude.Tests.{◌==◌, string_key, Bool-cases}
use goodgrep.Prelude.Lists.{contains, contains-append}
use goodgrep.Sync.Publish.{TombstoneEntry}
use goodgrep.Sync.Publish.{tombstone_keys as keys_of}
use goodgrep.Sync.Files.{SyncState, push_tombstone, remove_key}

pub keys_of-append : (ts us : List TombstoneEntry) → keys_of (ts ++ us) ≡ keys_of ts ++ keys_of us
keys_of-append [] us = refl
keys_of-append (t ∷ ts) us = ap (λ ks. t.path_key ∷ ks) (keys_of-append ts us)

pub contains-remove_key :
    (k p : String) (ks : List String)
    → contains (remove_key k ks) p ≡ (contains ks p && not (k == p))
unfolding remove_key
contains-remove_key k p [] = refl
contains-remove_key k p (j ∷ js) = ground (
  arith,
  contains-remove_key k p js,
  string_key.same_iff j k,
  string_key.same_iff j p,
  string_key.same_iff k p,
)

module _ {H P V : Type 0} (key p : String) (reason : String) (s : SyncState H P V) where
  pub push_tombstone-keys :
      contains (push_tombstone key reason s).tombstone_keys p
      ≡ (key == p || contains s.tombstone_keys p)
  unfolding push_tombstone
  push_tombstone-keys = elim (Bool-cases (contains s.tombstone_keys key)) [
    | inl old ↦ ground (arith, old, string_key.same_iff key p, ap (contains s.tombstone_keys))
    | inr new ↦ ground (arith, new)
  ]

  pub push_tombstone-tombstones :
      contains (keys_of s.tombstones) p ≡ contains s.tombstone_keys p
      → contains (keys_of (push_tombstone key reason s).tombstones) p
        ≡ contains (push_tombstone key reason s).tombstone_keys p
  unfolding push_tombstone
  push_tombstone-tombstones same = elim (Bool-cases (contains s.tombstone_keys key)) [
    | inl old ↦ ground (arith, old, same)
    | inr new ↦ ground (
      arith,
      new,
      same,
      keys_of-append s.tombstones (record { path_key = key; reason = reason } ∷ []),
      contains-append (keys_of s.tombstones) (key ∷ []) p,
    )
  ]

  pub push_tombstone-rest :
      let t = push_tombstone key reason s in
      (t.meta ≡ s.meta)
      × (t.rows ≡ s.rows)
      × (t.embed_queue ≡ s.embed_queue)
      × (t.indexed_paths ≡ s.indexed_paths)
      × (t.replace_candidates ≡ s.replace_candidates)
  unfolding push_tombstone
  push_tombstone-rest = elim (Bool-cases (contains s.tombstone_keys key)) [
    | inl old ↦ ground (arith, old)
    | inr new ↦ ground (arith, new)
  ]
