-- ===== src/Chunker/Markdown/Covered.antt =====
-- What `chunk_markdown` returns.
use goodgrep.Prelude.{
  Bool, ℕ, suc, ◌+◌, ◌-◌, ◌≤◌, ◌<◌, ◌∙◌, ◌≡◌, refl, ap, min, subst, true, false, List, [], ◌∷◌,
  ◌++◌, Option, none, some, arith, inl, inr,
}
use goodgrep.Prelude.Tests.{ltb, if◌then◌else◌, Bool-cases}
use goodgrep.Prelude.Lists.{length, is_empty}
use goodgrep.Types.{Chunk, new_chunk, block}
use goodgrep.Text.{lines, trim}
use goodgrep.Text.LineText.{line_text, line_total, length-lines_bound}
use goodgrep.Chunker.{slice_lines, file_context}
use goodgrep.Chunker.Ranges.{slice_lines-line_text}
use goodgrep.Chunker.Markdown.{
  Heading, find_headings, sections, next_start, preamble, set_heading, heading_context,
  chunk_markdown,
}
use goodgrep.Chunker.Markdown.Sections.{
  InOrder, find_headings-InOrder, Found, Found-later, unless_blank, range-Found,
}

if_unless :
    (b : Bool) (c : Chunk) (cs : List Chunk) → (if b then cs else c ∷ cs) ≡ unless_blank b c ++ cs
if_unless true c cs = refl
if_unless false c cs = refl

ends_after :
    (start end_line : ℕ) → start < end_line → end_line ≡ suc (start + (end_line - suc start))
ends_after start end_line h = omega arith

covered_to : (start end_line k : ℕ) → k < end_line → k ≤ start + (end_line - suc start)
covered_to start end_line k h = omega arith

next_start_bounds :
    (from total : ℕ) (hs : List Heading)
    → from < total
    → InOrder (suc from) total hs
    → (from < next_start hs total) × (next_start hs total ≤ total)
next_start_bounds from total [] h o = (h, omega arith)
next_start_bounds from total (x ∷ hs) h o = (omega (arith, o.0), omega (arith, o.1))

module _ (content context : List ℕ) (total : ℕ) (fits : total ≤ line_total content) where
  -- The slice of a section.
  slice_section :
      (start end_line : ℕ)
      → start < end_line
      → end_line ≤ total
      → slice_lines content start end_line ≡ some (line_text start (end_line - suc start) content)
  slice_section start end_line h l =
      ap (slice_lines content start) (ends_after start end_line h)
      ∙ slice_lines-line_text content start (end_line - suc start) (omega arith)

  sections_step :
      (stack later_stack : List (Option (List ℕ))) (h : Heading) (hs : List Heading)
      (section : List ℕ) (rest : List Chunk)
      → later_stack ≡ set_heading (min (h.level - 1) 5) h.title stack
      → h.start_line < next_start hs total
      → slice_lines content h.start_line (next_start hs total) ≡ some section
      → sections content context total later_stack hs ≡ some rest
      → sections content context total stack (h ∷ hs)
        ≡ some (
            unless_blank (is_empty (trim section)) (
              new_chunk section h.start_line
                (next_start hs total)
                block
                (context ∷ heading_context 0 later_stack))
            ++ rest)
  unfolding sections
  sections_step stack later_stack h hs section rest same inside slice later = ground (
    arith,
    same,
    slice,
    later,
    if_unless (is_empty (trim section))
        (new_chunk section h.start_line (next_start hs total) block
          (context ∷ heading_context 0 later_stack))
        rest,
  )

  sections-Found :
      (stack : List (Option (List ℕ))) (hs : List Heading) (from : ℕ)
      → InOrder from total hs
      → (chunks : List Chunk) × (sections content context total stack hs ≡ some chunks)
        × ((k : ℕ) → next_start hs total ≤ k → k < total → Found content k chunks)
  sections-Found stack [] from o = (unfold sections in ([], refl, λ k h l. absurd (omega arith)))
  sections-Found stack (h ∷ hs) from o =
      let later_stack = set_heading (min (h.level - 1) 5) h.title stack in
      let (rest, later, found) = sections-Found later_stack hs (suc h.start_line) o.2 in
      let (behind, within) = next_start_bounds h.start_line total hs o.1 o.2 in
      let end_line = next_start hs total in
      let more = end_line - suc h.start_line in
      let section = line_text h.start_line more content in
      let c =
        new_chunk section h.start_line end_line block (context ∷ heading_context 0 later_stack) in
      (
        unless_blank (is_empty (trim section)) c ++ rest,
        sections_step stack later_stack h hs section rest refl behind
            (slice_section h.start_line end_line behind within) later,
        λ k at to. elim (Bool-cases (ltb k end_line)) [
          | inl here ↦
              range-Found content h.start_line more k c rest at
                (covered_to h.start_line end_line k (ground (arith, here))) refl
          | inr there ↦
              Found-later content k (unless_blank (is_empty (trim section)) c) rest
                (found k (ground (arith, there)) to)
        ],
      )

  preamble-Found :
      (first : Heading) (rest : List Chunk)
      → first.start_line ≤ total
      → (chunks : List Chunk) × (preamble content context first ≡ some chunks)
        × ((k : ℕ) → k < first.start_line → Found content k (chunks ++ rest))
  unfolding preamble
  preamble-Found first rest h = elim (Bool-cases (ltb 0 first.start_line)) [
    | inr top ↦ ([], ground (arith, top), λ k l. absurd (ground (arith, top, l)))
    | inl below ↦
        let more = first.start_line - 1 in
        let pre = line_text 0 more content in
        let c = new_chunk pre 0 first.start_line block (context ∷ []) in
        (
          unless_blank (is_empty (trim pre)) c,
          ground (arith, below, slice_section 0 first.start_line (ground (arith, below)) h),
          λ k l. range-Found content 0 more k c rest (omega arith) (omega arith) refl,
        )
  ]

module _ (captures : List ℕ → Option (List ℕ × List ℕ)) (content path : List ℕ) where
  chunk_markdown_step :
      (first : Heading) (rest : List Heading) (before behind : List Chunk)
      → find_headings captures (lines content) 0 none ≡ first ∷ rest
      → preamble content (file_context path) first ≡ some before
      → sections content
          (file_context path)
          (length (lines content))
          (none ∷ none ∷ none ∷ none ∷ none ∷ none ∷ [])
          (first ∷ rest)
        ≡ some behind
      → chunk_markdown captures content path ≡ some (before ++ behind)
  unfolding chunk_markdown
  chunk_markdown_step first rest before behind found ahead after =
      ground (arith, found, ahead, after)

  -- With a heading, every line that is not blank is in a chunk that is a range of lines.
  pub chunk_markdown-Found :
      (first : Heading) (rest : List Heading)
      → find_headings captures (lines content) 0 none ≡ first ∷ rest
      → (chunks : List Chunk) × (chunk_markdown captures content path ≡ some chunks)
        × ((k : ℕ) → k < length (lines content) → Found content k chunks)
  chunk_markdown-Found first rest found =
      let total = length (lines content) in
      let o =
        subst (InOrder 0 total) found
          (find_headings-InOrder captures (lines content) 0 total none (omega arith)) in
      let (behind, after, covers) =
        sections-Found content (file_context path) total (length-lines_bound content)
          (none ∷ none ∷ none ∷ none ∷ none ∷ none ∷ []) (first ∷ rest) 0 o in
      let (before, ahead, covers_first) =
        preamble-Found content (file_context path) total (length-lines_bound content) first behind
          (omega (arith, o.1)) in
      (
        before ++ behind,
        chunk_markdown_step first rest before behind found ahead after,
        λ k h. elim (Bool-cases (ltb k first.start_line)) [
          | inl top ↦ covers_first k (ground (arith, top))
          | inr below ↦ Found-later content k before behind (covers k (ground (arith, below)) h)
        ],
      )
