-- ===== src/Search/Snippets.antt =====
-- Tools/ggrep/src/search/mod.rs, `apply_snippet_caps` and `truncate_str_bytes`: the bytes of the
-- snippets that an answer carries. A text is its UTF-8 bytes; `usize` has 64 bits.
pub mod Truncated
pub mod Capped
pub mod Examples
use goodgrep.Prelude.{
  ℕ, zero, suc, ◌+◌, ◌-◌, ◌<◌, min, String, Bool, true, false, not, ◌&&◌, ◌||◌, List, [], ◌∷◌, ◌++◌,
  Option, none, some,
}
use goodgrep.Prelude.Tests.{ltb, leb, ◌==◌, nat_key, if◌then◌else◌}
use goodgrep.Prelude.Lists.{length, take, is_empty}
use goodgrep.Types.{SearchResult, SearchLimitHit}

abbrev pub usize_max : ℕ
usize_max = 18446744073709551615

abbrev pub saturating_add : ℕ → ℕ → ℕ
saturating_add a b = min (a + b) usize_max

-- `str::is_char_boundary`: the start, the end, or a byte that does not continue a character.
pub is_char_boundary : List ℕ → ℕ → Bool
is_char_boundary s zero = true
is_char_boundary [] (suc n) = false
is_char_boundary (b ∷ []) (suc zero) = true
is_char_boundary (b ∷ c ∷ s) (suc zero) = ltb c 128 || leb 192 c
is_char_boundary (b ∷ s) (suc (suc n)) = is_char_boundary s (suc n)

-- The loop that steps back from `idx` to a boundary.
pub step_back : List ℕ → ℕ → ℕ
step_back s zero = zero
step_back s (suc n) =
    let before = step_back s n in if is_char_boundary s (suc n) then suc n else before

pub truncate_str_bytes : List ℕ → ℕ → List ℕ × Bool
truncate_str_bytes s max_bytes =
    if max_bytes == 0
    then ([], not (is_empty s))
    else if leb (length s) max_bytes
    then (s, false)
    else (take (step_back s (min max_bytes (length s))) s, true)

module _ {F : Type 0} where
  abbrev pub with_content : SearchResult F → List ℕ → SearchResult F
  with_content r content = record r { content = content }

  -- A result under the cap for one result, with the limits that it hits.
  pub cap_result : ℕ → SearchResult F → SearchResult F × List SearchLimitHit
  cap_result max_bytes r =
      let cut = truncate_str_bytes r.content max_bytes in
      if ltb max_bytes (length r.content) && cut.1
      then (
        with_content r cut.0,
        record {
          code = "max_snippet_bytes_per_result";
          limit = max_bytes;
          observed = some (length r.content);
          path_key = some r.path;
        }
            ∷ [],
      )
      else (r, [])

  pub cap_each : ℕ → List (SearchResult F) → List (SearchResult F) × List SearchLimitHit
  cap_each max_bytes [] = ([], [])
  cap_each max_bytes (r ∷ rs) =
      let capped = cap_result max_bytes r in
      let rest = cap_each max_bytes rs in (capped.0 ∷ rest.0, capped.1 ++ rest.1)

  abbrev pub total_bytes : ℕ → List (SearchResult F) → ℕ
  total_bytes total [] = total
  total_bytes total (r ∷ rs) = total_bytes (saturating_add total (length r.content)) rs

  -- The second loop: `remaining` bytes for all results.
  pub cap_total : ℕ → List (SearchResult F) → List (SearchResult F)
  cap_total remaining [] = []
  cap_total remaining (r ∷ rs) =
      let none_left = cap_total 0 rs in
      let fits = cap_total (remaining - length r.content) rs in
      if remaining == 0
      then with_content r [] ∷ none_left
      else if leb (length r.content) remaining
      then r ∷ fits
      else with_content r (truncate_str_bytes r.content remaining).0 ∷ none_left

  pub apply_snippet_caps :
      ℕ
      → ℕ
      → List (SearchResult F)
      → List SearchLimitHit
      → List (SearchResult F) × List SearchLimitHit
  apply_snippet_caps max_total_bytes max_bytes_per_result results limits_hit =
      let capped = cap_each max_bytes_per_result results in
      let total = total_bytes 0 capped.0 in
      if leb total max_total_bytes then (capped.0, limits_hit ++ capped.1) else (
        cap_total max_total_bytes capped.0,
        (limits_hit ++ capped.1)
            ++ record {
              code = "max_total_snippet_bytes";
              limit = max_total_bytes;
              observed = some total;
              path_key = none;
            }
              ∷ [],
      )
