-- ===== src/Search/Profile/Select/Examples.antt =====
-- A selection from three results: a document with two hits and a source file.
use mathlib.Core.List.{Nodup}
use goodgrep.Prelude.{ℕ, ◌≤◌, ◌<◌, min, ◌≡◌, String, true, List, [], ◌∷◌, none, arith, ◌⊎◌}
use goodgrep.Prelude.Tests.{string_key, nat_key, pair_key}
use goodgrep.Prelude.Lists.{length, contains, All}
use goodgrep.Types.{SearchResult, balanced, planning}
use goodgrep.Search.Profile.Bucket.{bucket_for_path}
use goodgrep.Search.Profile.Quotas.{
  insert_frac, sort_fracs, bump, hand_out, floors, fracs, leftover_to_code, allocate, weights,
  graph_minimum, minimum, correct, quotas_for_mode,
}
use goodgrep.Search.Profile.Select.{
  key, select_for_mode, select_by_quota, by_mode, pick_buckets, pick_from_bucket, take_allowed,
  can_take, take_rest, in_bucket, same_bucket, fill_up,
}
use goodgrep.Search.Profile.Select.Grows.{keys}
use goodgrep.Search.Profile.Select.Result.{select_for_mode_sound, select_for_mode_complete}
use goodgrep.Search.Profile.Select.PerFile.{in_file, select_for_mode_balanced}

abbrev hit : String → ℕ → SearchResult ℕ
hit path start_line = record {
  path = path;
  content = [];
  score = 1;
  secondary_score = none;
  row_id = none;
  segment_table = none;
  start_line = start_line;
  num_lines = 1;
  chunk_type = none;
  is_anchor = none;
}

abbrev hits : List (SearchResult ℕ)
hits = hit "plan.md" 1 ∷ hit "plan.md" 9 ∷ hit "main.rs" 4 ∷ []

select_for_mode_sound_example :
    (length (select_for_mode hits 2 1 planning) ≤ 2)
    × Nodup (keys (select_for_mode hits 2 1 planning))
    × All (λ (r : SearchResult ℕ). 0 < r.start_line) (select_for_mode hits 2 1 planning)
select_for_mode_sound_example =
    select_for_mode_sound (λ r. 0 < r.start_line) hits 2 1 planning (λ e. cc e)
      (omega arith, (omega arith, (omega arith, tt)))

select_for_mode_complete_example :
    All (λ r. contains (keys (select_for_mode hits 5 0 planning)) (key r) ≡ true) hits
unfolding select_for_mode select_by_quota by_mode pick_buckets pick_from_bucket take_allowed
    can_take take_rest in_bucket same_bucket fill_up bucket_for_path insert_frac sort_fracs bump
    hand_out floors fracs leftover_to_code allocate weights graph_minimum minimum correct
    quotas_for_mode
select_for_mode_complete_example =
    select_for_mode_complete hits 5 0 planning (λ e. cc e) (omega arith)

select_for_mode_balanced_example :
    (length (select_for_mode hits 3 1 balanced) ≤ 3)
    × (in_file "plan.md" (select_for_mode hits 3 1 balanced) ≤ 1)
    × ((length (select_for_mode hits 3 1 balanced) ≡ 3)
        ⊎ (in_file "plan.md" (select_for_mode hits 3 1 balanced) ≡ min 1 (in_file "plan.md" hits)))
select_for_mode_balanced_example = select_for_mode_balanced hits 3 1 "plan.md" (omega arith)
