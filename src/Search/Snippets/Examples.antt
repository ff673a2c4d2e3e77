-- ===== src/Search/Snippets/Examples.antt =====
-- Two results of five bytes each under small caps; the second ends in a character of two bytes.
use goodgrep.Prelude.{
  ◌&&◌, ℕ, ◌≤◌, ◌<◌, ◌≡◌, refl, String, true, false, List, [], ◌∷◌, none, arith, ◌⊎◌,
}
use goodgrep.Prelude.Tests.{ltb, leb}
use goodgrep.Prelude.Lists.{length, take}
use goodgrep.Types.{SearchResult}
use goodgrep.Search.Snippets.{is_char_boundary, step_back, truncate_str_bytes, apply_snippet_caps}
use goodgrep.Search.Snippets.Truncated.{truncate_str_bytes_sound}
use goodgrep.Search.Snippets.Capped.{Shortened, sum_bytes, apply_snippet_caps-bounds}

abbrev text : List ℕ
text = 97 ∷ 98 ∷ 99 ∷ 195 ∷ 169 ∷ []

abbrev hit : String → SearchResult ℕ
hit path = record {
  path = path;
  content = text;
  score = 1;
  secondary_score = none;
  row_id = none;
  segment_table = none;
  start_line = 1;
  num_lines = 1;
  chunk_type = none;
  is_anchor = none;
}

-- A cut inside the last character goes back to its start.
truncated_text : truncate_str_bytes text 4 ≡ (97 ∷ 98 ∷ 99 ∷ [], true)
unfolding truncate_str_bytes step_back is_char_boundary
truncated_text = refl

truncate_str_bytes_sound_example :
    ((truncate_str_bytes text 4).1 ≡ ltb 4 (length text))
    × (((length text ≤ 4) × ((truncate_str_bytes text 4).0 ≡ text))
        ⊎ ((n : ℕ) × ((truncate_str_bytes text 4).0 ≡ take n text)
            × (n ≤ 4)
            × (4 < length text)
            × (is_char_boundary text n ≡ true)
            × ((m : ℕ) → (is_char_boundary text m && ltb n m && leb m 4) ≡ false)))
truncate_str_bytes_sound_example = truncate_str_bytes_sound text 4

apply_snippet_caps-bounds_example :
    Shortened 4 (hit "a" ∷ hit "b" ∷ []) (apply_snippet_caps 5 4 (hit "a" ∷ hit "b" ∷ []) []).0
    × (sum_bytes (apply_snippet_caps 5 4 (hit "a" ∷ hit "b" ∷ []) []).0 ≤ 5)
apply_snippet_caps-bounds_example =
    apply_snippet_caps-bounds 5 4 (hit "a" ∷ hit "b" ∷ []) [] (omega arith)
