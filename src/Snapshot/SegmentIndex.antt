-- ===== src/Snapshot/SegmentIndex.antt =====
-- Tools/ggrep/src/snapshot/segment_index.rs: the file that says which table holds the rows of a path.
-- `sort` is the sort of the keys, `to_line` and `from_str` are the JSON of an entry, and `is_blank` is
-- `line.trim().is_empty()`.
pub mod Examples
use goodgrep.Prelude.{
  ℕ, suc, ◌≡◌, refl, ap, ◌∙◌, String, Bool, true, false, ◌||◌, List, [], ◌∷◌, Option, none, some,
  arith, inl, inr, ◌⊎◌,
}
use goodgrep.Prelude.Tests.{◌==◌, string_key, if◌then◌else◌, Bool-cases, Option-cases}
use goodgrep.Prelude.Lists.{contains}
use goodgrep.Prelude.Maps.{lookup, insert, keys, lookup-insert, lookup-nil, contains-keys}
use goodgrep.Prelude.Results.{Result, ok, err}

-- The number of the line that does not parse.
pub data SegmentIndexError : Type 0 where
  invalid_entry : ℕ → SegmentIndexError

module _ (is_blank : String → Bool) (from_str : String → Option (String × String)) where
  pub read_from :
      ℕ → List String → List (String × String) → Result SegmentIndexError (List (String × String))
  read_from idx [] map = ok map
  read_from idx (line ∷ lines) map = elim (is_blank line) [
    | true ↦ read_from (suc idx) lines map
    | false ↦ elim (from_str line) [
      | none ↦ err (invalid_entry (suc idx))
      | some entry ↦ read_from (suc idx) lines (insert entry.0 entry.1 map)
    ]
  ]

  pub read_segment_file_index : List String → Result SegmentIndexError (List (String × String))
  read_segment_file_index lines = read_from 0 lines []

module _ (to_line : String × String → String) where
  pub write_keys : List String → List (String × String) → List String
  write_keys [] mapping = []
  write_keys (key ∷ rest) mapping = elim (lookup key mapping) [
    | none ↦ write_keys rest mapping
    | some segment_id ↦ to_line (key, segment_id) ∷ write_keys rest mapping
  ]

  pub write_segment_file_index : (List String → List String) → List (String × String) → List String
  write_segment_file_index sort mapping = write_keys (sort (keys mapping)) mapping

module _ (is_blank : String → Bool) (from_str : String → Option (String × String))
    (to_line : String × String → String)
    (laws : (e : String × String)
      → (is_blank (to_line e) ≡ false) × (from_str (to_line e) ≡ some e)) where
  write_keys-none :
      (key : String) (ks : List String) (mapping : List (String × String))
      → lookup key mapping ≡ none
      → write_keys to_line (key ∷ ks) mapping ≡ write_keys to_line ks mapping
  unfolding write_keys
  write_keys-none key ks mapping missing = ground (arith, missing)

  write_keys-some :
      (key v : String) (ks : List String) (mapping : List (String × String))
      → lookup key mapping ≡ some v
      → write_keys to_line (key ∷ ks) mapping ≡ to_line (key, v) ∷ write_keys to_line ks mapping
  unfolding write_keys
  write_keys-some key v ks mapping held = ground (arith, held)

  read_from-to_line :
      (idx : ℕ) (e : String × String) (lines : List String) (acc : List (String × String))
      → read_from is_blank from_str idx (to_line e ∷ lines) acc
        ≡ read_from is_blank from_str (suc idx) lines (insert e.0 e.1 acc)
  unfolding read_from
  read_from-to_line idx e lines acc = ground (arith, laws e)

  same_lookup :
      (key k : String) (mapping : List (String × String))
      → (key == k) ≡ true
      → lookup key mapping ≡ lookup k mapping
  same_lookup key k mapping same = ap (λ j. lookup j mapping) ((string_key.same_iff key k).0 same)

  read_from-write_keys :
      (idx : ℕ) (ks : List String) (mapping acc : List (String × String))
      → (out : List (String × String)) × (read_from is_blank from_str idx
            (write_keys to_line ks mapping)
            acc
          ≡ ok out)
        × ((k : String)
            → lookup k out ≡ (
                if contains ks k
                then elim (lookup k mapping) [ none ↦ lookup k acc | some v ↦ some v ]
                else lookup k acc))
  unfolding read_from write_keys
  read_from-write_keys idx [] mapping acc = (acc, refl, λ k. refl)
  read_from-write_keys idx (key ∷ ks) mapping acc = elim (Option-cases (lookup key mapping)) [
    | inl missing ↦
        let (out, done, found) = read_from-write_keys idx ks mapping acc in
        (
          out,
          ap (λ lines. read_from is_blank from_str idx lines acc)
                (write_keys-none key ks mapping missing)
              ∙ done,
          λ k. ground (arith, found k, missing, same_lookup key k mapping),
        )
    | inr (v, held) ↦
        let (out, done, found) = read_from-write_keys (suc idx) ks mapping (insert key v acc) in
        (
          out,
          ap (λ lines. read_from is_blank from_str idx lines acc)
                (write_keys-some key v ks mapping held)
              ∙ read_from-to_line idx (key, v) (write_keys to_line ks mapping) acc
              ∙ done,
          λ k. ground (arith, found k, held, same_lookup key k mapping, lookup-insert key k v acc),
        )
  ]

  -- A segment index that is written and read again has the same table for every path: if reading an
  -- entry's line gives the entry, and the sort neither adds nor drops keys.
  pub read_segment_file_index-write_segment_file_index :
      (sort : List String → List String)
      → ((ks : List String) (k : String) → contains (sort ks) k ≡ contains ks k)
      → (mapping : List (String × String))
      → (out : List (String × String)) × (read_segment_file_index is_blank from_str
            (write_segment_file_index to_line sort mapping)
          ≡ ok out)
        × ((k : String) → lookup k out ≡ lookup k mapping)
  unfolding read_segment_file_index write_segment_file_index
  read_segment_file_index-write_segment_file_index sort same_keys mapping =
      let (out, done, found) = read_from-write_keys 0 (sort (keys mapping)) mapping [] in
      (out, done, λ k. each out k (found k) (Option-cases (lookup k mapping)))
    where
      each :
          (out : List (String × String)) (k : String)
          → (lookup k out ≡ (
              if contains (sort (keys mapping)) k
              then elim (lookup k mapping) [ none ↦ lookup k [] | some v ↦ some v ]
              else lookup k []))
          → (lookup k mapping ≡ none) ⊎ ((v : String) × (lookup k mapping ≡ some v))
          → lookup k out ≡ lookup k mapping
      each out k found (inl missing) = ground (arith, found, missing, lookup-nil {V = String} k)
      each out k found (inr (v, held)) =
          ground (arith, found, held, same_keys (keys mapping) k, contains-keys k v mapping held)
