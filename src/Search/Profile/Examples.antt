-- ===== src/Search/Profile/Examples.antt =====
-- The kinds of some paths, and the quotas of an answer of ten results.
use goodgrep.Prelude.{◌≤◌, ◌≡◌, refl}
use goodgrep.Prelude.Tests.{string_key, nat_key, pair_key}
use goodgrep.Types.{planning}
use goodgrep.Search.Profile.Bucket.{SearchBucket, bucket_for_path}
use goodgrep.Search.Profile.Quotas.{Share, total, minimum, weights, quotas_for_mode}
use goodgrep.Search.Profile.Quotas.Total.{quotas_for_mode-total}
use goodgrep.Search.Profile.Quotas.Fair.{share, quotas_for_mode_fair}

-- The kind of a file by its extension.
bucket_of_overview : bucket_for_path "Docs/Plan/Overview.MD" ≡ SearchBucket.docs
unfolding bucket_for_path
bucket_of_overview = refl

bucket_of_flow : bucket_for_path "a.b/flow.mermaid" ≡ SearchBucket.graph
unfolding bucket_for_path
bucket_of_flow = refl

bucket_of_hidden : bucket_for_path "src/.json" ≡ SearchBucket.code
unfolding bucket_for_path
bucket_of_hidden = refl

quotas_for_mode-total_example : total (quotas_for_mode 10 planning) ≡ 10
quotas_for_mode-total_example = quotas_for_mode-total 10 planning

quotas_for_mode_fair_example :
    (5 ≤ share Share.docs (quotas_for_mode 10 planning))
    × (share Share.docs (quotas_for_mode 10 planning) ≤ 6)
unfolding minimum weights
quotas_for_mode_fair_example = quotas_for_mode_fair 10 planning Share.docs
