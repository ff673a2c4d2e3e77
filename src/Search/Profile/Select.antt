-- ===== src/Search/Profile/Select.antt =====
-- `select_for_mode` and the loops it runs: which results are taken, and in which order. A loop that
-- pushes to `out` takes the list so far and returns it; what it shares with the other loops
-- (`selected_keys`, `per_file_counts`) is a `Picked`.
pub mod Grows
pub mod Chosen
pub mod Fill
pub mod Result
pub mod PerFile
pub mod Examples
use goodgrep.Prelude.{
  ℕ, ◌+◌, String, Bool, true, false, ◌&&◌, List, [], ◌∷◌, ◌++◌, Option, none, some,
}
use goodgrep.Prelude.Tests.{ltb, leb, ◌==◌, nat_key, string_key, pair_key, if◌then◌else◌}
use goodgrep.Prelude.Lists.{length, take, filter, contains}
use goodgrep.Prelude.Maps.{lookup, insert}
use goodgrep.Types.{SearchMode, SearchResult, balanced, discovery, implementation, planning, debug}
use goodgrep.Search.Profile.Bucket.{SearchBucket, bucket_for_path}
use goodgrep.Search.Profile.Quotas.{quotas_for_mode}

pub record Picked : Type 0 where
  pub selected_keys : List (String × ℕ)
  pub per_file_counts : List (String × ℕ)

abbrev pub nothing_picked : Picked
nothing_picked = record { selected_keys = []; per_file_counts = [] }

abbrev pub or_zero : Option ℕ → ℕ
or_zero none = 0
or_zero (some n) = n

abbrev pub unwrap_or_false : Option Bool → Bool
unwrap_or_false none = false
unwrap_or_false (some b) = b

same_bucket : SearchBucket → SearchBucket → Bool
same_bucket SearchBucket.code SearchBucket.code = true
same_bucket SearchBucket.docs SearchBucket.docs = true
same_bucket SearchBucket.graph SearchBucket.graph = true
same_bucket _ _ = false

module _ {F : Type 0} where
  abbrev pub key : SearchResult F → String × ℕ
  key r = (r.path, r.start_line)

  pub can_take : SearchResult F → ℕ → Picked → Bool × Picked
  can_take r per_file_limit p =
      let count = or_zero (lookup r.path p.per_file_counts) in
      let counts =
        if ltb 0 per_file_limit
        then insert r.path (count + 1) p.per_file_counts
        else p.per_file_counts in
      if unwrap_or_false r.is_anchor
      then (false, p)
      else if contains p.selected_keys (key r)
      then (false, p)
      else if ltb 0 per_file_limit && leb per_file_limit count
      then (false, p)
      else (true, record { selected_keys = key r ∷ p.selected_keys; per_file_counts = counts })

  -- The loop of `pick_from_bucket`, and the one that fills the remaining slots: take what
  -- `can_take` allows until `limit` results stand in `out`.
  pub take_allowed :
      ℕ
      → ℕ
      → List (SearchResult F)
      → List (SearchResult F)
      → Picked
      → List (SearchResult F) × Picked
  take_allowed limit per_file_limit [] out p = (out, p)
  take_allowed limit per_file_limit (r ∷ rs) out p =
      let (taken, p') = can_take r per_file_limit p in
      let rest = take_allowed limit per_file_limit rs (if taken then out ++ r ∷ [] else out) p' in
      if leb limit (length out) then (out, p) else rest

  pub pick_from_bucket : List (SearchResult F) → ℕ → ℕ → Picked → List (SearchResult F) × Picked
  pick_from_bucket results quota per_file_limit p =
      if quota == 0 then ([], p) else take_allowed quota per_file_limit results [] p

  -- The final fallback: whatever is not yet included.
  pub take_rest :
      ℕ → List (SearchResult F) → List (SearchResult F) → Picked → List (SearchResult F) × Picked
  take_rest limit [] out p = (out, p)
  take_rest limit (r ∷ rs) out p =
      let seen = contains p.selected_keys (key r) in
      let p' = if seen then p else record p { selected_keys = key r ∷ p.selected_keys } in
      let rest = take_rest limit rs (if seen then out else out ++ r ∷ []) p' in
      if leb limit (length out) then (out, p) else rest

  pub in_bucket : SearchBucket → SearchResult F → Bool
  in_bucket b r = same_bucket b (bucket_for_path r.path)

  -- The three buckets one after the other, each with its quota.
  pub pick_buckets : List (SearchResult F) → ℕ → ℕ → SearchMode → List (SearchResult F) × Picked
  pick_buckets results limit per_file_limit mode =
      let quotas = quotas_for_mode limit mode in
      let (code, p₁) =
        pick_from_bucket (filter (in_bucket SearchBucket.code) results) quotas.code per_file_limit
          nothing_picked in
      let (docs, p₂) =
        pick_from_bucket (filter (in_bucket SearchBucket.docs) results) quotas.docs per_file_limit
          p₁ in
      let (graph, p₃) =
        pick_from_bucket (filter (in_bucket SearchBucket.graph) results) quotas.graph per_file_limit
          p₂ in
      (code ++ (docs ++ graph), p₃)

  -- What follows the buckets.
  pub fill_up :
      List (SearchResult F) → ℕ → ℕ → List (SearchResult F) × Picked → List (SearchResult F)
  fill_up results limit per_file_limit (selected, p) =
      let (filled, p') = take_allowed limit per_file_limit results selected p in
      let (all, p'') = take_rest limit results filled p' in
      if leb limit (length selected)
      then take limit selected
      else take limit (if ltb (length filled) limit then all else filled)

  pub per_file_loop :
      ℕ
      → ℕ
      → List (SearchResult F)
      → List (SearchResult F)
      → List (String × ℕ)
      → List (SearchResult F)
  per_file_loop limit per_file_limit [] out counts = out
  per_file_loop limit per_file_limit (r ∷ rs) out counts =
      let count = or_zero (lookup r.path counts) in
      let full = leb per_file_limit count in
      let rest =
        per_file_loop limit per_file_limit rs (if full then out else out ++ r ∷ [])
          (insert r.path (if full then count else count + 1) counts) in
      if leb limit (length out) then out else rest

  pub apply_per_file_then_truncate : List (SearchResult F) → ℕ → ℕ → List (SearchResult F)
  apply_per_file_then_truncate results limit per_file_limit =
      if per_file_limit == 0
      then take limit results
      else per_file_loop limit per_file_limit results [] []

  pub select_by_quota : List (SearchResult F) → ℕ → ℕ → SearchMode → List (SearchResult F)
  select_by_quota results limit per_file_limit mode =
      fill_up results limit per_file_limit (pick_buckets results limit per_file_limit mode)

  -- The match on the mode.
  by_mode : List (SearchResult F) → ℕ → ℕ → SearchMode → List (SearchResult F)
  by_mode results limit per_file_limit balanced =
      apply_per_file_then_truncate results limit per_file_limit
  by_mode results limit per_file_limit mode = select_by_quota results limit per_file_limit mode

  pub select_for_mode : List (SearchResult F) → ℕ → ℕ → SearchMode → List (SearchResult F)
  unfolding by_mode
  select_for_mode [] limit per_file_limit mode = []
  select_for_mode (r ∷ rs) limit per_file_limit mode =
      if limit == 0 then [] else by_mode (r ∷ rs) limit per_file_limit mode
