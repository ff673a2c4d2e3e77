-- ===== src/Search/Profile/Select/Chosen.antt =====
-- The buckets of `select_for_mode`: what one quota takes, and the three together.
use mathlib.Core.List.{Nodup, Nodup-nil, map-append, append_assoc, perm_append_comm}
use mathlib.Core.List.Perm
use mathlib.Core.List.{Perm}
use goodgrep.Prelude.{ℕ, ◌+◌, ◌≤◌, inl, inr, String, List, [], ◌++◌, arith}
use goodgrep.Prelude.Tests.{string_key, nat_key, pair_key, Bool-cases, ◌==◌}
use goodgrep.Prelude.Lists.{length, filter, All, All-append, All-filter, length-append}
use goodgrep.Types.{SearchMode, SearchResult}
use goodgrep.Search.Profile.Bucket.{SearchBucket}
use goodgrep.Search.Profile.Quotas.{quotas_for_mode}
use goodgrep.Search.Profile.Quotas.Total.{quotas_for_mode-total}
use goodgrep.Search.Profile.Select.{
  Picked, nothing_picked, key, pick_from_bucket, in_bucket, pick_buckets,
}
use goodgrep.Search.Profile.Select.Grows.{
  keys, Grows, take_allowed-Grows, Grows-All, Grows-length, Grows-Nodup, Grows-perm,
}

module _ {F : Type 0} where
  -- The list so far, and the record of what stands in it.
  pub record Chosen (P : SearchResult F → Type 0) (limit : ℕ) (before : List (String × ℕ))
      (out : List (SearchResult F)) (p : Picked) : Type 0 where
    pub all : All P out
    pub bounded : length out ≤ limit
    pub distinct : Nodup p.selected_keys
    pub tallied : Perm (keys out ++ before) p.selected_keys

  pub Grows-Chosen :
      (P : SearchResult F → Type 0) (limit : ℕ) (before : List (String × ℕ))
      {last : List (SearchResult F)} {end : Picked} {out : List (SearchResult F)} {p : Picked}
      → Grows P limit last end out p
      → Chosen P limit before out p
      → Chosen P limit before last end
  Grows-Chosen P limit before g c = record {
    all = Grows-All P limit g c.all;
    bounded = Grows-length P limit g c.bounded;
    distinct = Grows-Nodup P limit g c.distinct;
    tallied = Grows-perm P limit before g c.tallied;
  }

  pick_from_bucket-Chosen :
      (P : SearchResult F → Type 0) (rs : List (SearchResult F)) (quota per_file_limit : ℕ)
      (p : Picked)
      → All P rs
      → Nodup p.selected_keys
      → let end = pick_from_bucket rs quota per_file_limit p in
        Chosen P quota p.selected_keys end.0 end.1
  unfolding pick_from_bucket
  pick_from_bucket-Chosen P rs quota pf p a d = elim (Bool-cases (quota == 0)) [
    | inl none_wanted ↦ rw none_wanted (empty quota)
    | inr some_wanted ↦ rw some_wanted (
        Grows-Chosen P quota p.selected_keys (take_allowed-Grows P quota pf rs [] p a)
          (empty quota))
  ]
    where
      empty : (quota : ℕ) → Chosen P quota p.selected_keys [] p
      empty quota = record { all = tt; bounded = omega arith; distinct = d; tallied = Perm.refl _ }

  join-Chosen :
      (P : SearchResult F → Type 0) (n m : ℕ) (before : List (String × ℕ))
      (xs ys : List (SearchResult F)) (p q : Picked)
      → Chosen P n before xs p
      → Chosen P m p.selected_keys ys q
      → Chosen P (n + m) before (xs ++ ys) q
  join-Chosen P n m before xs ys p q c d = record {
    all = All-append P xs ys c.all d.all;
    bounded = omega (arith, length-append xs ys, c.bounded, d.bounded);
    distinct = d.distinct;
    tallied = rw (map-append key xs ys) (
        Perm.trans (Perm.append (perm_append_comm (keys xs) (keys ys)) (Perm.refl before)) (
          rw (append_assoc (keys ys) (keys xs) before)
            (Perm.trans (Perm.append (Perm.refl (keys ys)) c.tallied) d.tallied)));
  }

  widen :
      (P : SearchResult F → Type 0) (n m : ℕ) (before : List (String × ℕ))
      (xs : List (SearchResult F)) (p : Picked)
      → n ≤ m
      → Chosen P n before xs p
      → Chosen P m before xs p
  widen P n m before xs p h c = record {
    all = c.all;
    bounded = omega (arith, c.bounded);
    distinct = c.distinct;
    tallied = c.tallied;
  }

  pub pick_buckets-Chosen :
      (P : SearchResult F → Type 0) (rs : List (SearchResult F)) (limit per_file_limit : ℕ)
      (mode : SearchMode)
      → All P rs
      → let end = pick_buckets rs limit per_file_limit mode in Chosen P limit [] end.0 end.1
  unfolding pick_buckets
  pick_buckets-Chosen P rs limit pf mode a =
      let q = quotas_for_mode limit mode in
      let bucket = λ (b : SearchBucket). filter (in_bucket b) rs in
      let kept = λ (b : SearchBucket). All-filter P (in_bucket b) rs a in
      let c₁ =
        pick_from_bucket-Chosen P (bucket SearchBucket.code) q.code pf nothing_picked
          (kept SearchBucket.code) Nodup-nil in
      let p₁ = (pick_from_bucket (bucket SearchBucket.code) q.code pf nothing_picked).1 in
      let c₂ =
        pick_from_bucket-Chosen P (bucket SearchBucket.docs) q.docs pf p₁ (kept SearchBucket.docs)
          c₁.distinct in
      let p₂ = (pick_from_bucket (bucket SearchBucket.docs) q.docs pf p₁).1 in
      let c₃ =
        pick_from_bucket-Chosen P (bucket SearchBucket.graph) q.graph pf p₂
          (kept SearchBucket.graph) c₂.distinct in
      widen P (q.code + (q.docs + q.graph)) limit [] _ _
        (omega (arith, quotas_for_mode-total limit mode))
        (join-Chosen P q.code (q.docs + q.graph) [] _ _ p₁ _ c₁
          (join-Chosen P q.docs q.graph p₁.selected_keys _ _ p₂ _ c₂ c₃))
