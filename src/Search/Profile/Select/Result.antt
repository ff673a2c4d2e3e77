-- ===== src/Search/Profile/Select/Result.antt =====
-- What `select_for_mode` returns, in every mode but the balanced one.
use mathlib.Core.List.{Nodup, Nodup-nil, append-nil}
use mathlib.Core.List.Perm
use mathlib.Core.List.{Perm}
use mathlib.Core.Path.{subst}
use goodgrep.Prelude.{ℕ, ◌≤◌, ◌<◌, ◌≡◌, ◌≢◌, refl, inl, inr, true, List, [], ◌∷◌, arith}
use goodgrep.Prelude.Tests.{string_key, nat_key, pair_key, Bool-cases, ◌==◌}
use goodgrep.Prelude.Lists.{length, contains, All, All-imp, contains_of_mem, mem_of_contains}
use goodgrep.Types.{SearchMode, balanced, SearchResult}
use goodgrep.Search.Profile.Select.{
  Picked, nothing_picked, key, pick_buckets, select_by_quota, by_mode, select_for_mode,
}
use goodgrep.Search.Profile.Select.Grows.{keys}
use goodgrep.Search.Profile.Select.Chosen.{Chosen, pick_buckets-Chosen}
use goodgrep.Search.Profile.Select.Fill.{Covers, Anything, All-true, Filled, fill_up-Filled}

module _ {F : Type 0} where
  select_by_quota-Filled :
      (P : SearchResult F → Type 0) (rs : List (SearchResult F)) (limit per_file_limit : ℕ)
      (mode : SearchMode)
      → All P rs
      → Filled P limit rs (select_by_quota rs limit per_file_limit mode)
  unfolding select_by_quota
  select_by_quota-Filled P rs limit pf mode a =
      fill_up-Filled P rs limit pf (pick_buckets rs limit pf mode).0
        (pick_buckets rs limit pf mode).1 a (pick_buckets-Chosen P rs limit pf mode a)

  by_mode-select_by_quota :
      (rs : List (SearchResult F)) (limit per_file_limit : ℕ) (mode : SearchMode)
      → mode ≢ balanced
      → by_mode rs limit per_file_limit mode ≡ select_by_quota rs limit per_file_limit mode
  unfolding by_mode
  by_mode-select_by_quota rs limit pf balanced h = absurd (h refl)
  by_mode-select_by_quota rs limit pf _ h = refl

  nothing-Filled :
      (P : SearchResult F → Type 0) (limit : ℕ) (rs : List (SearchResult F))
      → (0 < limit → Covers nothing_picked rs)
      → Filled P limit rs []
  nothing-Filled P limit rs covered = record {
    last = nothing_picked;
    chosen = record {
      all = tt;
      bounded = omega arith;
      distinct = Nodup-nil;
      tallied = Perm.refl _;
    };
    complete = covered;
  }

  select_for_mode-Filled :
      (P : SearchResult F → Type 0) (rs : List (SearchResult F)) (limit per_file_limit : ℕ)
      (mode : SearchMode)
      → mode ≢ balanced
      → All P rs
      → Filled P limit rs (select_for_mode rs limit per_file_limit mode)
  unfolding select_for_mode
  select_for_mode-Filled P [] limit pf mode h a = nothing-Filled P limit [] (λ room. tt)
  select_for_mode-Filled P (r ∷ rs) limit pf mode h a = elim (Bool-cases (limit == 0)) [
    | inl zero_limit ↦
        rw zero_limit (nothing-Filled P limit (r ∷ rs) (λ room. absurd (ground arith)))
    | inr some_limit ↦
        rw (some_limit, by_mode-select_by_quota (r ∷ rs) limit pf mode h)
          (select_by_quota-Filled P (r ∷ rs) limit pf mode a)
  ]

  tally :
      (P : SearchResult F → Type 0) (limit : ℕ) (out : List (SearchResult F)) (p : Picked)
      → Chosen P limit [] out p
      → Perm (keys out) p.selected_keys
  tally P limit out p c = subst (λ ks. Perm ks p.selected_keys) (append-nil (keys out)) c.tallied

  -- In every mode but the balanced one, at most `limit` results are selected, no two of them start
  -- at the same line of the same file, and what holds of all given results holds of all selected.
  pub select_for_mode_sound :
      (P : SearchResult F → Type 0) (rs : List (SearchResult F)) (limit per_file_limit : ℕ)
      (mode : SearchMode)
      → mode ≢ balanced
      → All P rs
      → let out = select_for_mode rs limit per_file_limit mode in
        (length out ≤ limit) × Nodup (keys out) × All P out
  select_for_mode_sound P rs limit pf mode h a =
      let f = select_for_mode-Filled P rs limit pf mode h a in
      (
        f.chosen.bounded,
        Perm.nodup (Perm.symm (tally P limit _ f.last f.chosen)) f.chosen.distinct,
        f.chosen.all,
      )

  -- In every mode but the balanced one, if fewer than `limit` results are selected, then every
  -- given result shares its file and start line with a selected one: none is left out.
  pub select_for_mode_complete :
      (rs : List (SearchResult F)) (limit per_file_limit : ℕ) (mode : SearchMode)
      → mode ≢ balanced
      → length (select_for_mode rs limit per_file_limit mode) < limit
      → All (λ r. contains (keys (select_for_mode rs limit per_file_limit mode)) (key r) ≡ true) rs
  select_for_mode_complete rs limit pf mode h room =
      let f = select_for_mode-Filled Anything rs limit pf mode h (All-true rs) in
      let same_keys = Perm.symm (tally Anything limit _ f.last f.chosen) in
      All-imp _ _ rs
        (λ r old.
          contains_of_mem _ (key r) (Perm.subset same_keys (key r) (mem_of_contains _ (key r) old)))
        (f.complete room)
