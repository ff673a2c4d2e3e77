-- ===== src/Chunker/Examples.antt =====
-- A short Markdown file, a long definition, and a text that is cut by bytes.
use goodgrep.Prelude.{ℕ, zero, suc, ◌+◌, ◌≡◌, refl, List, [], ◌∷◌, map, Option, none, some, arith}
use goodgrep.Prelude.Lists.{length, drop, All}
use goodgrep.Prelude.Results.{Result, err}
use goodgrep.FilePath.{codes, is_prefix, extension, split, onto, eq_lower}
use goodgrep.Types.{Chunk, function, block, new_chunk}
use goodgrep.Text.{
  lines, ended, strip_cr, trim_start, trim_end, trim, is_whitespace, slice, split_at, len_utf8,
}
use goodgrep.Text.LineText.{line_total, line_text}
use goodgrep.Prelude.Tests.{if◌then◌else◌}
use goodgrep.Chunker.Windows.{IsBounded}
use goodgrep.Chunker.Markdown.{
  chunk_markdown, find_headings, fence_opened, heading_of, preamble, sections, set_heading,
  heading_context,
}
use goodgrep.Chunker.{
  max_lines, line_range_to_byte_range, slice_lines, scan_lines, split_by_chars_impl,
  split_if_too_big, split_long, window_loop, with_header, extract_header_line, first_text,
  is_markdown,
}
use goodgrep.Chunker.Ranges.{slice_lines-line_text}
use goodgrep.Chunker.Pieces.{Pieces, split_by_chars_impl-Pieces}
use goodgrep.Chunker.Shown.{split_if_too_big-Shows, Shows}
use goodgrep.Chunker.Entry.{chunk, raw_chunks}
use goodgrep.Chunker.Entry.Whole.{Whole, Bounded, chunk-Whole, chunk-Bounded}

-- A heading of the first level.
abbrev captures : List ℕ → Option (List ℕ × List ℕ)
captures line = if is_prefix (codes "# ") line then some (codes "#", drop 2 line) else none

abbrev notes : List ℕ
notes = codes "i\n# A\n```\n# n\n```\nb\n"

-- What tree-sitter gives if it fails.
abbrev failed : Result ℕ (Option (List Chunk))
failed = err 1

abbrev contents : Option (List Chunk) → List (List ℕ)
contents none = []
contents (some cs) = map (λ c. c.content) cs

-- The heading in a fence is none, and each section is a chunk.
notes_chunks :
    contents (chunk captures failed notes (codes "n.md"))
    ≡ codes "i" ∷ codes "# A\n```\n# n\n```\nb" ∷ []
unfolding chunk raw_chunks is_markdown extension eq_lower chunk_markdown find_headings lines split
    onto ended strip_cr fence_opened is_prefix trim_start trim_end trim is_whitespace heading_of
    preamble sections set_heading heading_context slice_lines line_range_to_byte_range scan_lines
    slice split_at split_if_too_big len_utf8
notes_chunks = refl

chunk-Whole_example : Whole notes (chunk captures failed notes (codes "notes.md"))
chunk-Whole_example =
    chunk-Whole captures failed notes (codes "notes.md")
      (unfold is_markdown extension eq_lower split in refl)

chunk-Bounded_example : Bounded (chunk captures failed notes (codes "notes.txt"))
chunk-Bounded_example = chunk-Bounded captures failed notes (codes "notes.txt")

-- A function of many short lines.
abbrev long_lines : ℕ → List ℕ
long_lines zero = []
long_lines (suc n) = b'x' ∷ b'\n' ∷ long_lines n

abbrev long_function : Chunk
long_function = new_chunk (long_lines 141) 0 141 function []

abbrev line_counts : Option (List Chunk) → List ℕ
line_counts none = []
line_counts (some cs) = map (λ c. length (lines c.content)) cs

-- The second part has the header and 75 lines, one more than `max_lines`.
long_function_parts : line_counts (split_if_too_big long_function) ≡ 75 ∷ 76 ∷ 12 ∷ []
unfolding split_if_too_big window_loop split_long lines split onto ended strip_cr slice_lines
    line_range_to_byte_range scan_lines slice split_at with_header extract_header_line first_text
    trim trim_start trim_end is_whitespace len_utf8
long_function_parts = refl

split_if_too_big-Shows_example :
    (out : List Chunk) × (split_if_too_big long_function ≡ some out)
    × All (IsBounded (suc max_lines)) out
    × ((k : ℕ) → Shows long_function.content k out)
split_if_too_big-Shows_example = split_if_too_big-Shows long_function

split_by_chars_impl-Pieces_example :
    Pieces (length (lines notes)) block notes (split_by_chars_impl notes 0 block [])
split_by_chars_impl-Pieces_example = split_by_chars_impl-Pieces notes 0 block []

slice_lines-line_text_example : slice_lines notes 1 (suc (1 + 1)) ≡ some (line_text 1 1 notes)
slice_lines-line_text_example =
    slice_lines-line_text notes 1 1 (unfold line_total split in omega arith)

second_lines : slice_lines notes 1 3 ≡ some (codes "# A\n```")
unfolding slice_lines line_range_to_byte_range slice split_at scan_lines len_utf8
second_lines = refl
