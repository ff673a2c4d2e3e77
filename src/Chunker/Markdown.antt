-- ===== src/Chunker/Markdown.antt =====
-- Tools/ggrep/src/chunker/mod.rs, `chunk_markdown`: a Markdown file is cut at its headings. The
-- match of the regular expression for a heading is a parameter.
pub mod Sections
pub mod Covered
use goodgrep.Prelude.{
  ℕ, zero, suc, ◌+◌, ◌-◌, min, Bool, true, false, not, List, [], ◌∷◌, ◌++◌, Option, none, some,
}
use goodgrep.Prelude.Tests.{ltb, leb, if◌then◌else◌}
use goodgrep.Prelude.Lists.{length, is_empty}
use goodgrep.Prelude.Panics.{◌>>=◌}
use goodgrep.FilePath.{codes, is_prefix}
use goodgrep.Types.{Chunk, new_chunk, block}
use goodgrep.Text.{trim_start, trim_end, trim, lines}
use goodgrep.Chunker.{slice_lines, simple_chunk, file_context}

pub record Heading : Type 0 where
  pub start_line : ℕ
  pub level : ℕ
  pub title : List ℕ

-- A line that opens a fence, with what closes it.
unfoldable pub fence_opened : List ℕ → Option (List ℕ)
fence_opened fence_start =
    if is_prefix (codes "```") fence_start
    then some (codes "```")
    else if is_prefix (codes "~~~") fence_start
    then some (codes "~~~")
    else none

module _ (captures : List ℕ → Option (List ℕ × List ℕ)) where
  -- The groups of the match: the hashes and the title.
  unfoldable pub heading_of : ℕ → List ℕ → List Heading
  heading_of idx trimmed = elim (captures trimmed) [
    | none ↦ []
    | some (hashes, group) ↦
        let title = trim group in
        if is_empty title
        then []
        else record { start_line = idx; level = length hashes; title = title } ∷ []
  ]

  -- The loop over the lines; lines between fences are passed over.
  unfoldable pub find_headings : List (List ℕ) → ℕ → Option (List ℕ) → List Heading
  find_headings [] idx fence_delim = []
  find_headings (line ∷ rest) idx (some delim) =
      let closed = is_prefix delim (trim_start (trim_end line)) in
      find_headings rest (suc idx) (if closed then none else some delim)
  find_headings (line ∷ rest) idx none =
      let trimmed = trim_end line in
      let opened = fence_opened (trim_start trimmed) in
      let later = find_headings rest (suc idx) opened in
      elim opened [ some delim ↦ later | none ↦ heading_of idx trimmed ++ later ]

-- The entry of the level is set, and the deeper ones are cleared.
unfoldable pub set_heading : ℕ → List ℕ → List (Option (List ℕ)) → List (Option (List ℕ))
set_heading level_idx title [] = []
set_heading zero title (entry ∷ deeper) = some title ∷ cleared deeper
  where
    cleared : List (Option (List ℕ)) → List (Option (List ℕ))
    cleared [] = []
    cleared (e ∷ es) = none ∷ cleared es
set_heading (suc n) title (entry ∷ deeper) = entry ∷ set_heading n title deeper

unfoldable pub heading_context : ℕ → List (Option (List ℕ)) → List (List ℕ)
heading_context lvl [] = []
heading_context lvl (none ∷ entries) = heading_context (suc lvl) entries
heading_context lvl (some title ∷ entries) =
    ((codes "Heading" ++ (b'1' + lvl) ∷ codes ": ") ++ title) ∷ heading_context (suc lvl) entries

abbrev next_start : List Heading → ℕ → ℕ
next_start [] total_lines = total_lines
next_start (h ∷ hs) total_lines = h.start_line

-- The loop over the headings.
unfoldable pub sections :
    List ℕ → List ℕ → ℕ → List (Option (List ℕ)) → List Heading → Option (List Chunk)
sections content context total_lines heading_stack [] = some []
sections content context total_lines heading_stack (heading ∷ rest) =
    let stack = set_heading (min (heading.level - 1) 5) heading.title heading_stack in
    let later = sections content context total_lines stack rest in
    let end_line = next_start rest total_lines in
    if leb end_line heading.start_line then later else do
      section ← slice_lines content heading.start_line end_line
      chunks ← later
      some (
          if is_empty (trim section)
          then chunks
          else new_chunk section heading.start_line end_line block
              (context ∷ heading_context 0 stack)
            ∷ chunks)

-- The chunk before the first heading.
unfoldable pub preamble : List ℕ → List ℕ → Heading → Option (List Chunk)
preamble content context first = if not (ltb 0 first.start_line) then some [] else do
  pre ← slice_lines content 0 first.start_line
  some (
      if is_empty (trim pre)
      then []
      else new_chunk pre 0 first.start_line block (context ∷ []) ∷ [])

module _ (captures : List ℕ → Option (List ℕ × List ℕ)) where
  unfoldable pub chunk_markdown : List ℕ → List ℕ → Option (List Chunk)
  chunk_markdown content path = elim (find_headings captures (lines content) 0 none) [
    | [] ↦ simple_chunk content path
    | first ∷ rest ↦ do
      before ← preamble content (file_context path) first
      behind ←
          sections content (file_context path) (length (lines content))
            (none ∷ none ∷ none ∷ none ∷ none ∷ none ∷ []) (first ∷ rest)
      some (before ++ behind)
  ]
